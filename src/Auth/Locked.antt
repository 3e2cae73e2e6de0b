-- ===== src/Auth/Locked.antt =====
-- Wrong passwords in a row, and the lock they lead to: `login` of services/auth.py.
use multi_agent_ad_optimizer.Prelude.{
  ℕ, suc, All, length, ◌<◌, ◌+◌, String, true, false, some, List, [], ◌∷◌, ◌==◌, string_eq, inl,
  inr, ◌≡◌, refl, ◌∙◌, arith, Bool-cases,
}
use multi_agent_ad_optimizer.Prelude.Dict.{Dict, get, put, get-put_self}
use multi_agent_ad_optimizer.Security.Tokens.{Draw}
use multi_agent_ad_optimizer.Auth.Records.{User, Accounts, AuthError, AuthService}
use multi_agent_ad_optimizer.Auth.Repository.{failed_login, find_email, normalised, is_locked}
use multi_agent_ad_optimizer.Auth.Service.{turned_away, login_as, login}

find_email-put :
    (email id : String) (user user' : User) (rows : Dict String User)
    → get id rows ≡ some user
    → user'.email ≡ user.email
    → find_email email (put id user' rows) ≡ find_email email rows
unfolding find_email put get
find_email-put email id user user' [] found same = absurd (ground (arith, found))
find_email-put email id user user' ((k, u) ∷ rest) found same = elim (Bool-cases (k == id)) [
  | inl here ↦ rw here (ground (arith, found, here, same))
  | inr there ↦
      rw there (
        ground (arith, find_email-put email id user user' rest (ground (arith, found, there)) same))
]

-- One try: what the call draws, the salt and the password.
pub record Attempt : Type 0 where
  pub draw : Draw
  pub salt : String
  pub password : String

-- The instant of the last try.
abbrev pub last_now : Attempt → List Attempt → ℕ
last_now a [] = a.draw.now
last_now a (b ∷ rest) = last_now b rest

-- The account signs in with the email, and is active.
pub record SignsIn {T : Type 0} (service : AuthService T) (email id : String) (user : User)
    (s : Accounts) : Type 0 where
  pub found : find_email (normalised service.lower email) s.users ≡ some id
  pub row : get id s.users ≡ some user
  pub active : user.is_active ≡ true

module _ {T : Type 0} (service : AuthService T) (email : String) where
  unfoldable pub attempts : List Attempt → Accounts → Accounts
  attempts [] s = s
  attempts (a ∷ rest) s = attempts rest (login service a.draw a.salt email a.password s).1

  -- The password is wrong and the account is not locked at that moment.
  abbrev pub IsWrong : User → Attempt → Type 0
  IsWrong user a =
      (service.hasher.verify user.hashed_password a.password ≡ false)
      × (is_locked a.draw.now user ≡ false)

  abbrev failed : Attempt → User → User
  failed a user = failed_login a.draw.now service.max_failed_logins service.lockout_seconds user

  login-wrong :
      (a : Attempt) (id : String) (user : User) (s : Accounts)
      → SignsIn service email id user s
      → IsWrong user a
      → (login service a.draw a.salt email a.password s).1
        ≡ record s { users = put id (failed a user) s.users }
  unfolding login login_as turned_away
  login-wrong a id user s ok (wrong, open') =
      rw (ok.found, ok.row) (ground (arith, ok.active, wrong, open'))

  login-locked :
      (draw : Draw) (salt password id : String) (user : User) (s : Accounts)
      → SignsIn service email id user s
      → is_locked draw.now user ≡ true
      → (e : AuthError) × (login service draw salt email password s ≡ (inl e, s))
  unfolding login login_as
  login-locked draw salt password id user s ok locked =
      rw (ok.found, ok.row)
        (
          AuthError.authentication
              "This account is temporarily locked after repeated failed sign-ins",
          ground (arith, ok.active, locked),
        )

  saved-SignsIn :
      (id : String) (user user' : User) (s : Accounts)
      → SignsIn service email id user s
      → user'.email ≡ user.email
      → user'.is_active ≡ user.is_active
      → SignsIn service email id user' (record s { users = put id user' s.users })
  saved-SignsIn id user user' s ok same same' = record {
    found = find_email-put _ id user user' s.users ok.row same ∙ ok.found;
    row = get-put_self id user' s.users;
    active = same' ∙ ok.active;
  }

  failed-email : (a : Attempt) (user : User) → (failed a user).email ≡ user.email
  unfolding failed_login
  failed-email a user = ground arith

  failed-is_active : (a : Attempt) (user : User) → (failed a user).is_active ≡ user.is_active
  unfolding failed_login
  failed-is_active a user = ground arith

  failed-counts :
      (a : Attempt) (user : User)
      → suc user.failed_login_count < service.max_failed_logins
      → failed a user ≡ record user { failed_login_count = user.failed_login_count + 1 }
  unfolding failed_login
  failed-counts a user more = ground (arith, more)

  failed-locks :
      (a : Attempt) (user : User)
      → suc user.failed_login_count ≡ service.max_failed_logins
      → (failed a user).locked_until ≡ some (a.draw.now + service.lockout_seconds)
  unfolding failed_login
  failed-locks a user last = ground (arith, last)

  attempts-lock :
      (a : Attempt) (rest : List Attempt) (id : String) (user : User) (s : Accounts)
      → SignsIn service email id user s
      → All (IsWrong user) (a ∷ rest)
      → user.failed_login_count + suc (length rest) ≡ service.max_failed_logins
      → (user' : User) × SignsIn service email id user' (attempts (a ∷ rest) s)
        × (user'.locked_until ≡ some (last_now a rest + service.lockout_seconds))
  unfolding attempts
  attempts-lock a [] id user s ok (wrong, none_left) count = rw (login-wrong a id user s ok wrong) (
    failed a user,
    saved-SignsIn id user (failed a user) s ok (failed-email a user) (failed-is_active a user),
    failed-locks a user (omega (arith, count)),
  )
  attempts-lock a (b ∷ rest) id user s ok (wrong, others) count =
      let user' : User = record user { failed_login_count = user.failed_login_count + 1 } in
      rw (login-wrong a id user s ok wrong, failed-counts a user (omega (arith, count)))
        (attempts-lock b rest id user' (record s { users = put id user' s.users })
          (saved-SignsIn id user user' s ok refl refl) others (omega (arith, count)))

  -- As many wrong passwords in a row as the limit allows lock an active account: until the lockout has
  -- passed since the last of them, every sign-in with its email raises and changes nothing, whatever
  -- the password.
  pub attempts-locked :
      (a : Attempt) (rest : List Attempt) (id : String) (user : User) (s : Accounts) (draw : Draw)
      (salt password : String)
      → SignsIn service email id user s
      → All (IsWrong user) (a ∷ rest)
      → user.failed_login_count + suc (length rest) ≡ service.max_failed_logins
      → draw.now < last_now a rest + service.lockout_seconds
      → (e : AuthError) × (login service draw salt email password (attempts (a ∷ rest) s)
          ≡ (inl e, attempts (a ∷ rest) s))
  attempts-locked a rest id user s draw salt password ok wrong count early =
      let (user', ok', locked) = attempts-lock a rest id user s ok wrong count in
      login-locked draw salt password id user' (attempts (a ∷ rest) s) ok'
        (ground (arith, locked, early))
