-- ===== src/Auth/Lockout.antt =====
-- Failed sign-ins in services/auth.py and repositories/users.py.
use multi_agent_ad_optimizer.Prelude.{
  ℕ, ◌<◌, ◌≤◌, String, Bool, ◌||◌, some, [], ◌∷◌, ◌==◌, string_eq, inl, inr, ◌≡◌, arith, Bool-cases,
}
use multi_agent_ad_optimizer.Prelude.Dict.{Dict, get, put}
use multi_agent_ad_optimizer.Prelude.Method.{Keeps}
use multi_agent_ad_optimizer.Domain.Access.{Role}
use multi_agent_ad_optimizer.Auth.Records.{User, Accounts, AuthService}
use multi_agent_ad_optimizer.Auth.Repository.{
  create_row, successful_login, failed_login, find_email, normalised, is_some,
}
use multi_agent_ad_optimizer.Auth.Moves.{
  Moves, Change, signed_in_change, turned_away_change, password_change, switch_change, role_change,
}
use multi_agent_ad_optimizer.Auth.Rows.{users-Kept}
use multi_agent_ad_optimizer.Auth.Kept.{Moves-Kept}

-- Every account's counter of failed sign-ins is below a limit.
abbrev pub Below : ℕ → Dict String User → Type 0
Below limit [] = Unit
Below limit ((id, user) ∷ rest) = (user.failed_login_count < limit) × Below limit rest

put-Below :
    (limit : ℕ) (id : String) (user : User) (rows : Dict String User)
    → Below limit rows
    → user.failed_login_count < limit
    → Below limit (put id user rows)
unfolding put
put-Below limit id user [] below new = (new, tt)
put-Below limit id user ((k, u) ∷ rest) (here, below) new = elim (Bool-cases (k == id)) [
  | inl same ↦ rw same (new, below)
  | inr other ↦ rw other (here, put-Below limit id user rest below new)
]

get-Below :
    (limit : ℕ) (id : String) (user : User) (rows : Dict String User)
    → Below limit rows
    → get id rows ≡ some user
    → user.failed_login_count < limit
unfolding get
get-Below limit id user [] below found = absurd (ground (arith, found))
get-Below limit id user ((k, u) ∷ rest) (here, below) found = elim (Bool-cases (k == id)) [
  | inl same ↦ ground (arith, found, same, here)
  | inr other ↦ get-Below limit id user rest below (ground (arith, found, other))
]

module _ {T : Type 0} (service : AuthService T) (some_allowed : 1 ≤ service.max_failed_logins) where
  changed-below :
      (others : Bool) (user user' : User)
      → Change service others user user'
      → user.failed_login_count < service.max_failed_logins
      → user'.failed_login_count < service.max_failed_logins
  unfolding successful_login failed_login
  changed-below others _ _ (signed_in_change now hash user) below = omega (arith, some_allowed)
  changed-below others _ _ (turned_away_change now user) below = ground (arith, some_allowed, below)
  changed-below others _ _ (password_change hash user) below = below
  changed-below others _ _ (switch_change is_active user allowed) below = below
  changed-below others _ _ (role_change role user allowed) below = below

  create_row-Below :
      (new_id email hash : String) (role : Role) (name : String) (must : Bool)
      → Keeps
          (λ s. Below service.max_failed_logins s.users)
          (create_row service.lower new_id email hash role name must)
  unfolding create_row
  create_row-Below new_id email hash role name must s below =
      elim (Bool-cases (
        is_some (get new_id s.users)
        || is_some (find_email (normalised service.lower email) s.users))) [
          | inl taken ↦ rw taken below
          | inr free ↦ rw free (
              put-Below service.max_failed_logins new_id _ s.users below
                (omega (arith, some_allowed)))
        ]

  -- Where at least one failure is allowed, every account's counter of failures stays below the limit
  -- through any sequence of calls of the service.
  pub Moves-Below :
      (s t : Accounts)
      → Moves service s t
      → Below service.max_failed_logins s.users
      → Below service.max_failed_logins t.users
  Moves-Below s t moves below =
      Moves-Kept service (λ s. Below service.max_failed_logins s.users)
        (users-Kept service (Below service.max_failed_logins) create_row-Below
          (λ s id user user' found change below.
            put-Below service.max_failed_logins id user' s.users below (
              changed-below _ user user' change
                (get-Below service.max_failed_logins id user s.users below found))))
        s t moves below
