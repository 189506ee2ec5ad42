-- ===== src/Idempotency/Keys.antt =====
-- idempotency.js: the scoped key of a request, and the tests on the header.
use helloplanbuddy_cmd_plan.Base.{
  ℕ, ◌≡◌, refl, ap, ◌≢◌, Bool, ◌&&◌, ◌||◌, Option, none, some, [], ◌∷◌, ◌++◌, ltb, leb, ◌==◌,
  if◌then◌else◌, length, All,
}
use helloplanbuddy_cmd_plan.Base.Text.{Text}

abbrev pub colon : Text
colon = 58 ∷ []

pub record Request : Type 0 where
  pub user : Option Text
  pub method : Text
  pub path : Text
  pub ip : Text

-- `req.user?.id || 'anon'`
abbrev pub user_id : Request → Text
user_id r = elim r.user [
  | none ↦ 97 ∷ 110 ∷ 111 ∷ 110 ∷ []
  | some [] ↦ 97 ∷ 110 ∷ 111 ∷ 110 ∷ []
  | some (c ∷ s) ↦ c ∷ s
]

abbrev pub join : Text → Text → Text
join s t = s ++ (colon ++ t)

-- `${userId}:${req.method}:${req.path}:${rawKey}`
unfoldable pub scoped_key : Request → Text → Text
scoped_key r raw = join (user_id r) (join r.method (join r.path raw))

-- The white space and line ends that `trim` strips.
abbrev pub is_space : ℕ → Bool
is_space c =
    leb 9 c && leb c 13
    || (c == 32
        || c == 160
        || c == 5760
        || (leb 8192 c && leb c 8202
            || (c == 8232
                || c == 8233
                || (c == 8239 || (c == 8287 || (c == 12288 || c == 65279))))))

unfoldable pub trim_start : Text → Text
trim_start [] = []
trim_start (c ∷ s) = if is_space c then trim_start s else c ∷ s

abbrev pub keep_end : ℕ → Text → Text
keep_end c [] = if is_space c then [] else c ∷ []
keep_end c (d ∷ s) = c ∷ d ∷ s

unfoldable pub trim_end : Text → Text
trim_end [] = []
trim_end (c ∷ s) = keep_end c (trim_end s)

unfoldable pub trim : Text → Text
unfolding trim_start trim_end
trim s = trim_end (trim_start s)

-- What the middleware does with the header `idempotency-key`.
pub data Entry : Type 0 where
  skip : Entry
  refuse : ℕ → Entry
  proceed : Text → Entry

abbrev pub checked : Entry → Option Text → Entry
checked missing none = missing
checked missing (some raw) = elim (trim raw) [
  | [] ↦ missing
  | c ∷ s ↦ if ltb 255 (length raw) then refuse 400 else proceed (c ∷ s)
]

-- `idempotency`: no key passes the request on.
unfoldable pub enter : Option Text → Entry
enter header = checked skip header

-- `idempotencyStrict`: no key is refused.
unfoldable pub enter_strict : Option Text → Entry
enter_strict header = checked (refuse 400) header

abbrev HasNoColon : Text → Type 0
HasNoColon s = All (λ c. c ≢ 58) s

split_unique :
    (u v s t : Text) → HasNoColon u → HasNoColon v → join u s ≡ join v t → (u ≡ v) × (s ≡ t)
split_unique [] [] s t hu hv e = (refl, cc)
split_unique [] (d ∷ v) s t hu hv e = absurd (hv.0 (cc))
split_unique (c ∷ u) [] s t hu hv e = absurd (hu.0 (cc))
split_unique (c ∷ u) (d ∷ v) s t hu hv e =
    let h : c ≡ d = cc in
    let rest : join u s ≡ join v t = cc in
    let (same, tail) = split_unique u v s t hu.1 hv.1 rest in (cc, tail)

-- Two requests of which neither user id nor method holds a colon have the same scoped key only if
-- they are of the same user and method, and their paths joined with their keys agree.
pub scoped_key_separates :
    (r s : Request) (j k : Text)
    → HasNoColon (user_id r)
    → HasNoColon (user_id s)
    → HasNoColon r.method
    → HasNoColon s.method
    → scoped_key r j ≡ scoped_key s k
    → (user_id r ≡ user_id s) × (r.method ≡ s.method) × (join r.path j ≡ join s.path k)
unfolding scoped_key
scoped_key_separates r s j k hr hs mr ms e =
    let (user, rest) = split_unique (user_id r) (user_id s) _ _ hr hs e in
    let (method, tail) = split_unique r.method s.method _ _ mr ms rest in (user, method, tail)

append_join : (p q t : Text) → join (join p q) t ≡ join p (join q t)
append_join [] q t = refl
append_join (c ∷ p) q t = ap (◌∷◌ c) (append_join p q t)

-- Routes are not separated: a request for the path `p:q` with the key `k` has the scoped key of the
-- same user's request for the path `p` with the key `q:k`.
pub scoped_key_collides :
    (r : Request) (p q k : Text)
    → scoped_key (record r { path = join p q }) k ≡ scoped_key (record r { path = p }) (join q k)
unfolding scoped_key
scoped_key_collides r p q k = ap (λ t. join (user_id r) (join r.method t)) (append_join p q k)
