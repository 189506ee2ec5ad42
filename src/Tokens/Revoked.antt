-- ===== src/Tokens/Revoked.antt =====
-- Revoked tokens over time.
use helloplanbuddy_cmd_plan.Base.{
  ℕ, ◌+◌, ◌*◌, ◌/◌, ◌≤◌, ◌<◌, ◌≡◌, refl, inl, inr, Bool, true, false, ◌&&◌, Option, none, some,
  List, [], ◌∷◌, arith, ◌==◌, if◌then◌else◌, Bool-cases,
}
use helloplanbuddy_cmd_plan.Tokens.Revocation.{
  Mark, Row, Store, Faults, get_mark, any_row, is_after, is_revoked, insert_row, revoke_token,
  revoke_all_user_tokens,
}

-- A later revocation, of one token or of all of a user, with its failures, arguments and time.
pub data Revocation : Type 0 where
  one : Faults → ℕ → ℕ → ℕ → Option ℕ → ℕ → Revocation
  everything : Faults → ℕ → ℕ → ℕ → Option ℕ → ℕ → Revocation

unfoldable pub revoke : Revocation → Store → Store
revoke (one f configured jti user end now) s = revoke_token f configured jti user end now s
revoke (everything f configured marker user end now) s =
    revoke_all_user_tokens f configured marker user end now s

unfoldable pub revoke_each : List Revocation → Store → Store
revoke_each [] s = s
revoke_each (r ∷ rs) s = revoke_each rs (revoke r s)

insert_row_keeps :
    (test : Row → Bool) (r : Row) (t : List Row)
    → any_row test t ≡ true
    → any_row test (insert_row r t) ≡ true
unfolding any_row
insert_row_keeps test r t h = elim (Bool-cases (any_row (λ q. q.jti == r.jti) t)) [
  | inl known ↦ rw known h
  | inr fresh ↦ rw (fresh, h) (ground arith)
]

added_rows :
    (test : Row → Bool) (fails : Bool) (r : Row) (t : List Row)
    → any_row test t ≡ true
    → any_row test (if fails then t else insert_row r t) ≡ true
added_rows test true r t h = h
added_rows test false r t h = insert_row_keeps test r t h

revoke_keeps :
    (test : Row → Bool) (r : Revocation) (s : Store)
    → any_row test s.rows ≡ true
    → any_row test (revoke r s).rows ≡ true
unfolding revoke revoke_token revoke_all_user_tokens
revoke_keeps test (one f configured jti user end now) s h = added_rows test f.row_fails _ s.rows h
revoke_keeps test (everything f configured marker user end now) s h =
    added_rows test f.row_fails _ s.rows h

revoke_each_keeps :
    (test : Row → Bool) (rs : List Revocation) (s : Store)
    → any_row test s.rows ≡ true
    → any_row test (revoke_each rs s).rows ≡ true
unfolding revoke_each
revoke_each_keeps test [] s h = h
revoke_each_keeps test (r ∷ rs) s h =
    revoke_each_keeps test rs (revoke r s) (revoke_keeps test r s h)

token_row :
    (f : Faults) (configured jti user : ℕ) (end : Option ℕ) (now : ℕ) (s : Store)
    → f.row_fails ≡ false
    → any_row (λ r. r.jti == jti) (revoke_token f configured jti user end now s).rows ≡ true
unfolding revoke_token any_row
token_row f configured jti user end now s h = ground arith

row_found :
    (g : Faults) (jti : ℕ) (user iat : Option ℕ) (later : ℕ) (s : Store)
    → any_row (λ r. r.jti == jti) s.rows ≡ true
    → g.row_fails ≡ false
    → is_revoked g (some jti) user iat later s ≡ true
unfolding is_revoked
row_found g jti user iat later s found ok = ground (arith, found)

-- When a token was revoked and its row was written, then, whatever is revoked later and with whatever
-- failures, every check of the token finds it revoked, at any time and for any user and issue time,
-- as long as the query of that check works; Redis may be down throughout.
pub revoked_for_good :
    (f g : Faults) (configured jti user : ℕ) (end : Option ℕ) (now later : ℕ) (owner iat : Option ℕ)
    (rs : List Revocation) (s : Store)
    → f.row_fails ≡ false
    → g.row_fails ≡ false
    → is_revoked g
        (some jti)
        owner
        iat
        later
        (revoke_each rs (revoke_token f configured jti user end now s))
      ≡ true
revoked_for_good f g configured jti user end now later owner iat rs s written read =
    row_found g jti owner iat later (revoke_each rs (revoke_token f configured jti user end now s))
      (revoke_each_keeps (λ r. r.jti == jti) rs (revoke_token f configured jti user end now s)
        (token_row f configured jti user end now s written))
      read

marker_row :
    (f : Faults) (configured marker user : ℕ) (end iat : Option ℕ) (now : ℕ) (s : Store)
    → f.row_fails ≡ false
    → any_row (λ q. q.jti == marker) s.rows ≡ false
    → is_after iat now ≡ true
    → any_row
        (λ r. r.user == user && (r.is_marker && is_after iat r.created_at))
        (revoke_all_user_tokens f configured marker user end now s).rows
      ≡ true
unfolding revoke_all_user_tokens any_row
marker_row f configured marker user end iat now s ok fresh old = rw (ok, fresh, old) (ground arith)

marker_found :
    (g : Faults) (jti user : ℕ) (iat : Option ℕ) (later : ℕ) (s : Store)
    → any_row (λ r. r.user == user && (r.is_marker && is_after iat r.created_at)) s.rows ≡ true
    → g.row_fails ≡ false
    → g.marker_fails ≡ false
    → is_revoked g (some jti) (some user) iat later s ≡ true
unfolding is_revoked
marker_found g jti user iat later s found ok works = ground (arith, found)

-- When all tokens of a user were revoked and the marker's row was written under a fresh id, then,
-- whatever is revoked later, every check of a token of the user that was issued before, or has no
-- issue time, finds it revoked, as long as the queries of that check work.
pub all_tokens_revoked :
    (f g : Faults) (configured marker user jti : ℕ) (end iat : Option ℕ) (now later : ℕ)
    (rs : List Revocation) (s : Store)
    → f.row_fails ≡ false
    → any_row (λ q. q.jti == marker) s.rows ≡ false
    → is_after iat now ≡ true
    → g.row_fails ≡ false
    → g.marker_fails ≡ false
    → is_revoked g
        (some jti)
        (some user)
        iat
        later
        (revoke_each rs (revoke_all_user_tokens f configured marker user end now s))
      ≡ true
all_tokens_revoked f g configured marker user jti end iat now later rs s ok fresh old read works =
    let w = revoke_all_user_tokens f configured marker user end now s in
    marker_found g jti user iat later (revoke_each rs w)
      (revoke_each_keeps (λ r. r.user == user && (r.is_marker && is_after iat r.created_at)) rs w
        (marker_row f configured marker user end iat now s ok fresh old))
      read works

mark_found :
    (g : Faults) (jti user iat now value expires : ℕ) (rest : List Mark) (s : Store)
    → s.redis_ready ≡ true
    → g.revoked_all_fails ≡ false
    → s.revoked_all ≡ record { key = user; value = value; expires = expires } ∷ rest
    → now < expires
    → iat * 1000 ≤ value
    → is_revoked g (some jti) (some user) (some iat) now s ≡ true
unfolding is_revoked get_mark
mark_found g jti user iat now value expires rest s ready works top lt le = rw top (ground arith)

-- A token that is issued after the revocation of all tokens of its user, but in the same second, is
-- taken as revoked too, until the mark in Redis ends.
pub same_second_revoked :
    (f g : Faults) (configured marker user jti issued now later : ℕ) (s : Store)
    → s.redis_ready ≡ true
    → f.revoked_all_fails ≡ false
    → g.revoked_all_fails ≡ false
    → now < issued
    → issued / 1000 ≡ now / 1000
    → later < now + configured * 1000
    → is_revoked g
        (some jti)
        (some user)
        (some (issued / 1000))
        later
        (revoke_all_user_tokens f configured marker user none now s)
      ≡ true
unfolding revoke_all_user_tokens
same_second_revoked f g configured marker user jti issued now later s ready wrote reads after same
      soon =
    mark_found g jti user (issued / 1000) later now (now + configured * 1000) s.revoked_all
      (revoke_all_user_tokens f configured marker user none now s) ready reads
      (rw (ready, wrote) refl) soon (omega (arith, same))
