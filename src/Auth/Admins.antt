-- ===== src/Auth/Admins.antt =====
-- The administrators who can still sign in, across the calls of services/auth.py.
use multi_agent_ad_optimizer.Prelude.{
  String, Bool, true, false, ◌||◌, Option, none, some, [], ◌∷◌, string_eq, inl, inr, ◌≡◌, arith,
  Bool-cases,
}
use multi_agent_ad_optimizer.Prelude.Dict.{Dict, get, put}
use multi_agent_ad_optimizer.Prelude.Method.{Keeps}
use multi_agent_ad_optimizer.Domain.Access.{Role}
use multi_agent_ad_optimizer.Auth.Records.{User, Accounts, AuthService}
use multi_agent_ad_optimizer.Auth.Repository.{
  create_row, successful_login, failed_login, find_email, normalised, is_some,
}
use multi_agent_ad_optimizer.Auth.Service.{other_admin, is_active_admin}
use multi_agent_ad_optimizer.Auth.Moves.{
  Moves, Change, signed_in_change, turned_away_change, password_change, switch_change, role_change,
}
use multi_agent_ad_optimizer.Auth.Rows.{users-Kept}
use multi_agent_ad_optimizer.Auth.Kept.{Moves-Kept}

-- `count_active_admins` is positive.
abbrev pub has_admin : Dict String User → Bool
has_admin [] = false
has_admin ((id, user) ∷ rest) = is_active_admin user || has_admin rest

abbrev pub HasAdmin : Accounts → Type 0
HasAdmin s = has_admin s.users ≡ true

abbrev is_admin_row : Option User → Bool
is_admin_row none = false
is_admin_row (some user) = is_active_admin user

put-admin :
    (id : String) (user : User) (rows : Dict String User)
    → is_active_admin user ≡ true
    → has_admin (put id user rows) ≡ true
unfolding put
put-admin id user [] admin = ground arith
put-admin id user ((k, u) ∷ rest) admin = ground (arith, put-admin id user rest admin)

other-has_admin :
    (id : String) (rows : Dict String User) → other_admin id rows ≡ true → has_admin rows ≡ true
unfolding other_admin
other-has_admin id [] others = others
other-has_admin id ((k, u) ∷ rest) others = ground (arith, others, other-has_admin id rest)

put-other_admin :
    (id : String) (user : User) (rows : Dict String User)
    → other_admin id rows ≡ true
    → has_admin (put id user rows) ≡ true
unfolding put other_admin
put-other_admin id user [] others = ground (arith, others)
put-other_admin id user ((k, u) ∷ rest) others =
    ground (arith, others, put-other_admin id user rest, other-has_admin id rest)

put-plain :
    (id : String) (user : User) (rows : Dict String User)
    → has_admin rows ≡ true
    → is_admin_row (get id rows) ≡ false
    → has_admin (put id user rows) ≡ true
unfolding put get
put-plain id user [] admin plain = ground (arith, admin)
put-plain id user ((k, u) ∷ rest) admin plain = ground (arith, admin, plain, put-plain id user rest)

module _ {T : Type 0} (service : AuthService T) where
  -- With no other administrator left, a row that is not an active administrator's after a change was
  -- not one before it.
  plain_before :
      (others : Bool) (user user' : User)
      → others ≡ false
      → Change service others user user'
      → is_active_admin user' ≡ false
      → is_active_admin user ≡ false
  unfolding successful_login failed_login
  plain_before others _ _ alone (signed_in_change now hash user) lost = lost
  plain_before others _ _ alone (turned_away_change now user) lost = ground (arith, lost)
  plain_before others _ _ alone (password_change hash user) lost = lost
  plain_before others _ _ alone (switch_change is_active user allowed) lost =
      ground (arith, alone, allowed, lost)
  plain_before others _ _ alone (role_change Role.admin user allowed) lost =
      ground (arith, alone, allowed, lost)
  plain_before others _ _ alone (role_change Role.optimizer user allowed) lost =
      ground (arith, alone, allowed, lost)
  plain_before others _ _ alone (role_change Role.analyst user allowed) lost =
      ground (arith, alone, allowed, lost)
  plain_before others _ _ alone (role_change Role.viewer user allowed) lost =
      ground (arith, alone, allowed, lost)
  plain_before others _ _ alone (role_change Role.ingestor user allowed) lost =
      ground (arith, alone, allowed, lost)

  create_row-HasAdmin :
      (new_id email hash : String) (role : Role) (name : String) (must : Bool)
      → Keeps HasAdmin (create_row service.lower new_id email hash role name must)
  unfolding create_row
  create_row-HasAdmin new_id email hash role name must s admin =
      elim (Bool-cases (
        is_some (get new_id s.users)
        || is_some (find_email (normalised service.lower email) s.users))) [
          | inl taken ↦ rw taken admin
          | inr free ↦ rw free (put-plain new_id _ s.users admin (ground (arith, free)))
        ]

  save-HasAdmin :
      (s : Accounts) (id : String) (user user' : User)
      → get id s.users ≡ some user
      → Change service (other_admin id s.users) user user'
      → HasAdmin s
      → has_admin (put id user' s.users) ≡ true
  save-HasAdmin s id user user' found change admin = elim (Bool-cases (is_active_admin user')) [
    | inl stays ↦ put-admin id user' s.users stays
    | inr lost ↦ elim (Bool-cases (other_admin id s.users)) [
      | inl others ↦ put-other_admin id user' s.users others
      | inr alone ↦
          put-plain id user' s.users admin (rw found (plain_before _ user user' alone change lost))
    ]
  ]

  -- While an active administrator exists, one exists after any sequence of calls of the service.
  pub Moves-HasAdmin : (s t : Accounts) → Moves service s t → HasAdmin s → HasAdmin t
  Moves-HasAdmin s t moves admin =
      Moves-Kept service HasAdmin
        (users-Kept service (λ rows. has_admin rows ≡ true) create_row-HasAdmin save-HasAdmin) s t
        moves admin
