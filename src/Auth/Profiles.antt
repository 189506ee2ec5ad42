-- ===== src/Auth/Profiles.antt =====
-- authController.js: `getCurrentUser`, `updateProfile`, `listSessions` and `revokeSession`. The service
-- that stores the sessions is not in this repository: what it answers is given.
use helloplanbuddy_cmd_plan.Base.{
  ℕ, ◌≡◌, refl, inl, inr, Bool, true, false, ◌&&◌, Option, none, some, List, [], ◌∷◌, map, arith,
  ◌==◌, if◌then◌else◌, Bool-cases,
}
use helloplanbuddy_cmd_plan.Base.Text.{Text}
use helloplanbuddy_cmd_plan.Idempotency.Keys.{trim}
use helloplanbuddy_cmd_plan.Auth.Accounts.{
  Role, User, find_user, find_updated, update_user, by_id, is_missing, given,
}

pub data ProfileAnswer : Type 0 where
  no_fields : ProfileAnswer
  not_found : ProfileAnswer
  -- The row that is returned, if there is one.
  user_data : Option User → ProfileAnswer

abbrev pub found : Option User → ProfileAnswer
found none = not_found
found (some u) = user_data (some u)

-- `getCurrentUser` of the signed-in user.
unfoldable pub get_current_user : ℕ → List User → ProfileAnswer
get_current_user user us = found (find_user (by_id user) us)

abbrev pub set_name : Option Text → User → User
set_name name u = if is_missing name then u else record u { name = trim (given name) }

abbrev pub set_phone : Option Text → User → User
set_phone phone u = if is_missing phone then u else record u { phone = some (trim (given phone)) }

unfoldable pub change_profile : Option Text → Option Text → User → User
change_profile name phone u = set_phone phone (set_name name u)

-- `updateProfile` of the signed-in user: the fields that are given are set, and the row is returned.
unfoldable pub update_profile :
    ℕ → Option Text → Option Text → List User → List User × ProfileAnswer
update_profile user name phone us =
    if is_missing name && is_missing phone
    then (us, no_fields)
    else (let vs = update_user user (change_profile name phone) us in
        (vs, user_data (find_user (by_id user) vs)))

-- What the service answers or throws when it lists or deletes sessions.
pub data Service {ℓ} (A : Type ℓ) : Type ℓ where
  gives : A → Service A
  redis_unavailable : Service A
  failed : Service A

pub data SessionAnswer {ℓ} (A : Type ℓ) : Type ℓ where
  sessions : A → SessionAnswer A
  bad_request : SessionAnswer A
  not_found : SessionAnswer A
  unavailable : SessionAnswer A
  revoked : SessionAnswer A
  passed_on : SessionAnswer A

abbrev pub listed {ℓ} : {A : Type ℓ} → Service A → SessionAnswer A
listed (gives a) = sessions a
listed redis_unavailable = unavailable
listed failed = passed_on

abbrev pub deleted : Service Bool → SessionAnswer Bool
deleted (gives true) = revoked
deleted (gives false) = not_found
deleted redis_unavailable = unavailable
deleted failed = passed_on

module _ {ℓ} {R : Type ℓ} where
  -- `listSessions`; `get_sessions` is what the service knows of a user.
  abbrev pub list_sessions {κ} : {A : Type κ} → (ℕ → R → Service A) → ℕ → R → SessionAnswer A
  list_sessions get_sessions user r = listed (get_sessions user r)

  -- `revokeSession`; `delete_session` is what the service does with a session of a user.
  unfoldable pub revoke_session :
      (ℕ → Text → R → R × Service Bool) → ℕ → Option Text → R → R × SessionAnswer Bool
  revoke_session delete_session user session r =
      if is_missing session
      then (r, bad_request)
      else (let d = delete_session user (given session) r in (d.0, deleted d.1))

-- What signing in depends on.
abbrev pub credentials : User → ℕ × (Text × (ℕ × (Role × Bool)))
credentials u = (u.id, (u.email, (u.password_hash, (u.role, u.is_active))))

update_user_kept {ℓ} :
    {A : Type ℓ} (f : User → A) (id : ℕ) (change : User → User) (us : List User)
    → ((u : User) → f (change u) ≡ f u)
    → map f (update_user id change us) ≡ map f us
unfolding update_user
update_user_kept f id change [] kept = refl
update_user_kept f id change (u ∷ us) kept = elim (Bool-cases (u.id == id)) [
  | inl here ↦ rw (here, kept u, update_user_kept f id change us kept) refl
  | inr away ↦ rw (away, update_user_kept f id change us kept) refl
]

-- Whatever a user sends to change the profile, the ids, addresses, passwords, roles and states of all
-- accounts stay.
profile_credentials :
    (user : ℕ) (name phone : Option Text) (us : List User)
    → map credentials (update_profile user name phone us).0 ≡ map credentials us
unfolding update_profile change_profile
profile_credentials user name phone us = elim (Bool-cases (is_missing name && is_missing phone)) [
  | inl nothing ↦ rw nothing refl
  | inr something ↦
      rw something
        (update_user_kept credentials user (change_profile name phone) us (λ u. ground arith))
]

profile_id : (name phone : Option Text) (u : User) → (change_profile name phone u).id ≡ u.id
unfolding change_profile
profile_id name phone u = ground arith

profile_name :
    (name phone : Option Text) (u : User)
    → is_missing name ≡ false
    → (change_profile name phone u).name ≡ trim (given name)
unfolding change_profile
profile_name name phone u sent = ground arith

-- After a user whose account is known changes the name, the account that is read next is the one before
-- with the fields that were sent, and its name is the one that was sent, trimmed.
name_read_back :
    (user : ℕ) (name phone : Option Text) (us : List User) (u : User)
    → is_missing name ≡ false
    → find_user (by_id user) us ≡ some u
    → (get_current_user user (update_profile user name phone us).0
        ≡ user_data (some (change_profile name phone u)))
      × ((change_profile name phone u).name ≡ trim (given name))
unfolding update_profile get_current_user
name_read_back user name phone us u sent known =
    let row = find_updated user (change_profile name phone) us u (profile_id name phone) known in
    (rw sent (rw row refl), profile_name name phone u sent)
