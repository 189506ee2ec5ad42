-- ===== src/Auth/Accounts.antt =====
-- authController.js: the users and `register`. Passwords and addresses are texts of code units, hashes
-- and ids are numbers, and times are in milliseconds. The queries of a handler are taken to work.
use helloplanbuddy_cmd_plan.Base.{
  ℕ, ◌≡◌, ap, inl, inr, Bool, true, false, ◌||◌, Option, none, some, List, [], ◌∷◌, arith, ltb,
  ◌==◌, if◌then◌else◌, Bool-cases, length,
}
use helloplanbuddy_cmd_plan.Base.Text.{Text, text_eq, codes}
use helloplanbuddy_cmd_plan.Idempotency.Keys.{trim}

abbrev pub max_password_len : ℕ
max_password_len = 72

pub data Role : Type 0 where
  user agency admin : Role

pub record User : Type 0 where
  pub id : ℕ
  pub email : Text
  pub name : Text
  pub phone : Option Text
  pub password_hash : ℕ
  pub role : Role
  pub failed_login_attempts : ℕ
  pub locked_until : Option ℕ
  pub is_active : Bool
  pub password_changed_at : Option ℕ

unfoldable pub find_user : (User → Bool) → List User → Option User
find_user test [] = none
find_user test (u ∷ us) = if test u then some u else find_user test us

pub find_user_holds :
    (test : User → Bool) (us : List User) (u : User) → find_user test us ≡ some u → test u ≡ true
unfolding find_user
find_user_holds test [] u h = cc
find_user_holds test (v ∷ us) u h = elim (Bool-cases (test v)) [
  | inl here ↦ ground (arith, here, h)
  | inr there ↦ find_user_holds test us u (ground (arith, there, h))
]

-- `UPDATE users SET … WHERE id = $1`
unfoldable pub update_user : ℕ → (User → User) → List User → List User
update_user id change [] = []
update_user id change (u ∷ us) =
    let rest = update_user id change us in if u.id == id then change u ∷ rest else u ∷ rest

abbrev pub by_email : Text → User → Bool
by_email address u = text_eq u.email address

abbrev pub by_id : ℕ → User → Bool
by_id id u = u.id == id

-- A change that keeps the ids is found again in the row.
pub find_updated :
    (id : ℕ) (change : User → User) (us : List User) (u : User)
    → ((v : User) → (change v).id ≡ v.id)
    → find_user (by_id id) us ≡ some u
    → find_user (by_id id) (update_user id change us) ≡ some (change u)
unfolding find_user update_user
find_updated id change [] u same h = cc
find_updated id change (v ∷ us) u same h = elim (Bool-cases (v.id == id)) [
  | inl here ↦
      let hit : some v ≡ some u = rw here at h in
      let is_u : v ≡ u = cc in
      let there : ((change v).id == id) ≡ true = rw (same v) here in
      rw here (rw there (ap (λ k. some (change k)) is_u))
  | inr away ↦ rw away (rw away (find_updated id change us u same (rw away at h)))
]

-- A field that is missing or empty.
abbrev pub is_missing : Option Text → Bool
is_missing none = true
is_missing (some []) = true
is_missing (some (c ∷ t)) = false

abbrev pub given : Option Text → Text
given none = []
given (some t) = t

-- `phone || null`
abbrev pub non_empty : Option Text → Option Text
non_empty none = none
non_empty (some []) = none
non_empty (some (c ∷ t)) = some (c ∷ t)

-- `allowedRoles.includes(role) ? role : 'user'`, where `role` defaults to 'user'.
abbrev pub safe_role : Option Text → Role
safe_role none = user
safe_role (some t) = if text_eq t (codes "agency") then agency else user

pub record Registration : Type 0 where
  pub email : Option Text
  pub password : Option Text
  pub name : Option Text
  pub phone : Option Text
  pub role : Option Text

pub data Registered : Type 0 where
  bad_request : Registered
  exists_already : Registered
  created : User → Registered

-- `toLowerCase` of the language's library, and the `hash` of bcrypt.
module _ (to_lower_case : Text → Text) (hash : Text → ℕ) where
  abbrev pub new_user : ℕ → Registration → User
  new_user id r = record {
    id = id;
    email = trim (to_lower_case (given r.email));
    name = trim (given r.name);
    phone = non_empty r.phone;
    password_hash = hash (given r.password);
    role = safe_role r.role;
    failed_login_attempts = 0;
    locked_until = none;
    is_active = true;
    password_changed_at = none;
  }

  abbrev pub insert_new : User → Option User → List User → List User × Registered
  insert_new u none us = (u ∷ us, created u)
  insert_new u (some known) us = (us, exists_already)

  -- `register`, up to the tokens of the answer; the id is the database's.
  unfoldable pub register : ℕ → Registration → List User → List User × Registered
  register id r us =
      let u = new_user id r in
      if is_missing r.email || (is_missing r.password || is_missing r.name)
      then (us, bad_request)
      else (if ltb (length (given r.password)) 8 || ltb max_password_len (length (given r.password))
          then (us, bad_request)
          else insert_new u (find_user (by_email u.email) us) us)
