-- ===== src/Auth/Service.antt =====
-- `AuthService` of services/auth.py. A method takes what its call draws: the instant, the ids and the
-- salt of a new hash.
use multi_agent_ad_optimizer.Prelude.{
  ℕ, ◌*◌, String, Bool, true, false, not, ◌&&◌, ◌||◌, Option, none, some, List, [], ◌∷◌,
  if◌then◌else◌, ◌==◌, string_eq, ◌⊎◌, inl, inr, ◌≡◌, refl, Bool-cases,
}
use multi_agent_ad_optimizer.Prelude.Dict.{Dict, get}
use multi_agent_ad_optimizer.Prelude.Text.{concat}
use multi_agent_ad_optimizer.Prelude.Method.{
  pure, raise, gets, ◌>>=◌, ◌>>◌, demand, refuse_unless, when,
}
use multi_agent_ad_optimizer.Domain.Access.{Role, role_value, role_beq}
use multi_agent_ad_optimizer.Security.{TokenClaims}
use multi_agent_ad_optimizer.Security.Tokens.{Draw, TokenPair, TokenError, issue_pair, decode}
use multi_agent_ad_optimizer.Auth.Records.{User, Accounts, AuthError, AuthService, Hasher, Problem}
use multi_agent_ad_optimizer.Auth.Password.{problems}
use multi_agent_ad_optimizer.Auth.Repository.{
  Auth, by_email, get_or_raise, save_user, create_row, is_locked, failed_login, successful_login,
  create_session, get_valid, revoke, revoke_all_for_user, is_some,
}

abbrev pub refuse_problems : List Problem → Auth Unit
refuse_problems [] = pure tt
refuse_problems (p ∷ ps) = raise (AuthError.weak_password (p ∷ ps))

-- An administrator who can still sign in: `_active_admin_filters`.
abbrev pub is_active_admin : User → Bool
is_active_admin user = user.role == role_value Role.admin && user.is_active

unfoldable pub other_admin : String → Dict String User → Bool
other_admin user_id [] = false
other_admin user_id ((id, user) ∷ rest) =
    is_active_admin user && not (id == user_id) || other_admin user_id rest

-- `_refuse_if_last_admin`
abbrev pub refuse_if_last_admin : String → String → Auth Unit
refuse_if_last_admin user_id verb = do
  others ← gets (λ s. other_admin user_id s.users)
  refuse_unless others (
      AuthError.conflict (
        concat (
          "Cannot " ∷ verb ∷ " the last active administrator; promote another administrator first"
          ∷ [])))

-- The stored hash of an account, after the check of `_hasher.needs_rehash`.
abbrev pub rehashed : Hasher → String → String → String → Option String
rehashed hasher salt stored password =
    if hasher.needs_rehash stored then some (hasher.hash salt password) else none

module _ {T : Type 0} (service : AuthService T) where
  -- `validate_password_strength`
  abbrev pub validate_password_strength : String → Auth Unit
  validate_password_strength password =
      refuse_problems (problems service.password_min_length password)

  unfoldable pub bootstrap_unless : String → String → Bool → Auth (Option String)
  bootstrap_unless new_id salt true = pure none
  bootstrap_unless new_id salt false = do
    id ←
        create_row service.lower new_id service.bootstrap_admin_email
          (service.hasher.hash salt service.bootstrap_admin_password) Role.admin
          "Bootstrap Administrator" true
    pure (some id)

  -- `bootstrap_admin`
  unfoldable pub bootstrap_admin : String → String → Auth (Option String)
  bootstrap_admin new_id salt = do
    existing ← by_email service.lower service.bootstrap_admin_email
    bootstrap_unless new_id salt (is_some existing)

  -- The new session of `login` and of `refresh`.
  unfoldable pub open_session : Draw → String → User → Auth (TokenPair T)
  open_session draw user_id user = do
    let pair = issue_pair service.jwt draw user_id user.email user.role
    create_session draw.now user_id pair.session_id (service.jwt.refresh_token_ttl_days * 86400)
    pure pair

  -- The two ends of `login` once the password is checked.
  unfoldable pub signed_in : Draw → String → String → String → User → Auth (TokenPair T)
  signed_in draw salt password user_id user = do
    let new_hash = rehashed service.hasher salt user.hashed_password password
    save_user user_id (successful_login draw.now new_hash user)
    open_session draw user_id user

  unfoldable pub turned_away : ℕ → String → User → Auth (TokenPair T)
  turned_away now user_id user = do
    save_user user_id (failed_login now service.max_failed_logins service.lockout_seconds user)
    raise (AuthError.authentication "Invalid email or password")

  unfoldable pub login_as : Draw → String → String → Option (String × User) → Auth (TokenPair T)
  login_as draw salt password none = raise (AuthError.authentication "Invalid email or password")
  login_as draw salt password (some (user_id, user)) =
      if not user.is_active
      then raise (AuthError.authentication "This account has been deactivated")
      else if is_locked draw.now user
      then raise (
          AuthError.authentication
            "This account is temporarily locked after repeated failed sign-ins")
      else if service.hasher.verify user.hashed_password password
      then signed_in draw salt password user_id user
      else turned_away draw.now user_id user

  -- `login`
  unfoldable pub login : Draw → String → String → String → Auth (TokenPair T)
  login draw salt email password = do
    found ← by_email service.lower email
    login_as draw salt password found

  abbrev pub claims_or_raise : TokenError ⊎ TokenClaims → Auth TokenClaims
  claims_or_raise (inl e) = raise (AuthError.token e)
  claims_or_raise (inr claims) = pure claims

  abbrev pub active_or_raise : Option User → Auth User
  active_or_raise none = raise (AuthError.authentication "This account is no longer active")
  active_or_raise (some user) =
      if user.is_active
      then pure user
      else raise (AuthError.authentication "This account is no longer active")

  -- `refresh` once the user is looked up.
  unfoldable pub reopen : Draw → TokenClaims → Option User → Auth (TokenPair T)
  reopen draw claims found = do
    user ← active_or_raise found
    revoke draw.now claims.session_id
    open_session draw claims.subject user

  -- `refresh` once the token is decoded.
  unfoldable pub rotate : Draw → TokenClaims → Auth (TokenPair T)
  rotate draw claims = do
    stored ← get_valid draw.now claims.session_id
    demand stored (AuthError.authentication "This session has been revoked or expired")
    found ← gets (λ s. get claims.subject s.users)
    reopen draw claims found

  -- `refresh`
  unfoldable pub refresh : Draw → T → Auth (TokenPair T)
  refresh draw refresh_token = do
    claims ← claims_or_raise (decode service.jwt draw.now "refresh" refresh_token)
    rotate draw claims

  abbrev pub revoke_claimed : ℕ → TokenError ⊎ TokenClaims → Auth Bool
  revoke_claimed now (inl e) = pure false
  revoke_claimed now (inr claims) = revoke now claims.session_id

  -- `logout`
  unfoldable pub logout : ℕ → T → Auth Bool
  logout now refresh_token = revoke_claimed now (decode service.jwt now "refresh" refresh_token)

  -- `logout_everywhere`
  abbrev pub logout_everywhere : ℕ → String → Auth ℕ
  logout_everywhere now user_id = revoke_all_for_user now user_id

  -- `change_password` once everything is checked.
  unfoldable pub replace_password : ℕ → String → String → String → User → Auth Unit
  replace_password now salt user_id new_password user = do
    save_user user_id (record user {
      hashed_password = service.hasher.hash salt new_password;
      must_change_password = false;
    })
    logout_everywhere now user_id
    pure tt

  -- `change_password`
  unfoldable pub change_password : ℕ → String → String → String → String → Auth Unit
  change_password now salt user_id current_password new_password = do
    user ← get_or_raise user_id
    refuse_unless (service.hasher.verify user.hashed_password current_password)
        (AuthError.authentication "The current password is incorrect")
    validate_password_strength new_password
    refuse_unless (not (service.hasher.verify user.hashed_password new_password))
        (AuthError.validation "The new password must differ from the current one")
    replace_password now salt user_id new_password user

  -- `create_user`
  unfoldable pub create_user : String → String → String → String → Role → String → Auth String
  create_user new_id salt email password role full_name = do
    existing ← by_email service.lower email
    refuse_unless (not (is_some existing))
        (AuthError.conflict "A user with that email already exists")
    validate_password_strength password
    create_row service.lower new_id email (service.hasher.hash salt password) role full_name true

  -- `set_active` and `set_role` once they are allowed.
  unfoldable pub switch : ℕ → String → Bool → User → Auth User
  switch now user_id is_active user = do
    save_user user_id (record user { is_active = is_active })
    when (not is_active) (do logout_everywhere now user_id; pure tt)
    pure (record user { is_active = is_active })

  unfoldable pub assign : ℕ → String → Role → User → Auth User
  assign now user_id role user = do
    save_user user_id (record user { role = role_value role })
    logout_everywhere now user_id
    pure (record user { role = role_value role })

  -- `set_active`
  unfoldable pub set_active : ℕ → String → Bool → Auth User
  set_active now user_id is_active = do
    user ← get_or_raise user_id
    when (not is_active && user.role == role_value Role.admin)
        (refuse_if_last_admin user_id "deactivate")
    switch now user_id is_active user

  -- `set_role`
  unfoldable pub set_role : ℕ → String → Role → Auth User
  set_role now user_id role = do
    user ← get_or_raise user_id
    when (user.role == role_value Role.admin && not (role_beq role Role.admin))
        (refuse_if_last_admin user_id "demote")
    assign now user_id role user

-- A method behind the guard for the last administrator runs with another administrator at hand, where
-- the guard applies at all, or nothing is changed.
pub guarded-cases :
    {A : Type 0} (test : Bool) (user_id verb : String) (m : Auth A) (s : Accounts)
    → (((test ≡ false) ⊎ (other_admin user_id s.users ≡ true))
        × ((when test (refuse_if_last_admin user_id verb) >> m) s ≡ m s))
      ⊎ (((e : AuthError) × ((when test (refuse_if_last_admin user_id verb) >> m) s ≡ (inl e, s))))
guarded-cases false user_id verb m s = inl (inl refl, refl)
guarded-cases true user_id verb m s = elim (Bool-cases (other_admin user_id s.users)) [
  | inl others ↦ rw others (inl (inr refl, refl))
  | inr last ↦ rw last (inr (_, refl))
]
