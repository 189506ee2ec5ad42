-- ===== src/Database/Sizing.antt =====
-- The guard on the number of connections.
use native.Mathlib.Nat.{div-mul-le_self}
use helloplanbuddy_cmd_plan.Base.{ℕ, ◌*◌, ◌/◌, ◌<◌, ◌≡◌, ◌≢◌, ◌↔◌, arith}
use helloplanbuddy_cmd_plan.Database.Transactions.{fatal, max_allowed, validate_cluster_pool_safety}

-- The guard stops the process exactly when all instances together may open more than four fifths of
-- the server's connections, and the pool size that it then proposes passes the guard.
pub proposed_size_passes :
    (pool_max instances pg_max : ℕ)
    → (validate_cluster_pool_safety pool_max instances pg_max
          ≡ fatal (max_allowed pg_max / instances)
        ↔ 4 * pg_max < 5 * (pool_max * instances))
      × (validate_cluster_pool_safety (max_allowed pg_max / instances) instances pg_max
          ≢ fatal (max_allowed pg_max / instances))
unfolding validate_cluster_pool_safety
proposed_size_passes pool_max instances pg_max =
    let le = div-mul-le_self (max_allowed pg_max) instances in (ground arith, ground (arith, le))
