-- ===== src/Auth/Repository.antt =====
-- repositories/users.py: the queries and writes on accounts and refresh sessions.
use multi_agent_ad_optimizer.Prelude.{
  ℕ, ◌+◌, String, Bool, true, false, not, ◌&&◌, ◌||◌, Option, none, some, [], ◌∷◌, keep, length,
  leb, ltb, if◌then◌else◌, ◌==◌, string_eq, inl, inr,
}
use multi_agent_ad_optimizer.Prelude.Dict.{Dict, get, put}
use multi_agent_ad_optimizer.Prelude.Text.{strip}
use multi_agent_ad_optimizer.Prelude.Method.{Method, pure, gets, modify, ◌>>=◌, demand}
use multi_agent_ad_optimizer.Domain.Access.{Role, role_value}
use multi_agent_ad_optimizer.Auth.Records.{User, RefreshSession, Accounts, AuthError}

abbrev pub Auth : Type 0 → Type 0
Auth A = Method Accounts AuthError A

abbrev pub is_some : {A : Type 0} → Option A → Bool
is_some none = false
is_some (some a) = true

-- Email addresses as they are stored.
abbrev pub normalised : (String → String) → String → String
normalised lower email = lower (strip email)

-- The id of the row with an email: emails are unique.
unfoldable pub find_email : String → Dict String User → Option String
find_email email [] = none
find_email email ((id, user) ∷ rest) =
    if user.email == email then some id else find_email email rest

abbrev pub keyed : String → Option User → Option (String × User)
keyed id none = none
keyed id (some user) = some (id, user)

abbrev pub row_of : Option String → Dict String User → Option (String × User)
row_of none users = none
row_of (some id) users = keyed id (get id users)

-- `UserRepository.by_email`
abbrev pub by_email : (String → String) → String → Auth (Option (String × User))
by_email lower email = gets (λ s. row_of (find_email (normalised lower email) s.users) s.users)

-- `get_or_raise`
abbrev pub get_or_raise : String → Auth User
get_or_raise id = do found ← gets (λ s. get id s.users); demand found (AuthError.not_found id)

-- A changed row, under the identity map of the session.
abbrev pub save_user : String → User → Auth Unit
save_user id user = modify (λ s. record s { users = put id user s.users })

-- `UserRepository.create`: the primary key and the index on emails refuse a second row.
unfoldable pub create_row :
    (String → String) → String → String → String → Role → String → Bool → Auth String
unfolding find_email
create_row lower id email hashed_password role full_name must_change_password s =
    if is_some (get id s.users) || is_some (find_email (normalised lower email) s.users)
    then (inl AuthError.integrity, s)
    else (
      inr id,
      record s {
        users =
            put id
              (record {
                email = normalised lower email;
                full_name = full_name;
                hashed_password = hashed_password;
                role = role_value role;
                is_active = true;
                failed_login_count = 0;
                locked_until = none;
                last_login_at = none;
                must_change_password = must_change_password;
              })
              s.users;
      },
    )

-- `is_locked`
abbrev pub is_locked : ℕ → User → Bool
is_locked now user = elim user.locked_until [ none ↦ false | some until ↦ ltb now until ]

-- The row after a failed and after a successful sign-in.
unfoldable pub failed_login : ℕ → ℕ → ℕ → User → User
failed_login now max_failures lockout_seconds user =
    let count = user.failed_login_count + 1 in
    if leb max_failures count
    then record user { locked_until = some (now + lockout_seconds); failed_login_count = 0 }
    else record user { failed_login_count = count }

unfoldable pub successful_login : ℕ → Option String → User → User
successful_login now new_hash user = record user {
  failed_login_count = 0;
  locked_until = none;
  last_login_at = some now;
  hashed_password = elim new_hash [ none ↦ user.hashed_password | some hash ↦ hash ];
}

-- `is_valid`
abbrev pub is_valid : ℕ → RefreshSession → Bool
is_valid now row = not (is_some row.revoked_at) && ltb now row.expires_at

-- `RefreshSessionRepository.create`
unfoldable pub create_session : ℕ → String → String → ℕ → Auth Unit
create_session now user_id session_id ttl s =
    if is_some (get session_id s.sessions) then (inl AuthError.integrity, s) else (
      inr tt,
      record s {
        sessions =
            put session_id (record { user_id = user_id; expires_at = now + ttl; revoked_at = none })
              s.sessions;
      },
    )

abbrev pub if_valid : ℕ → Option RefreshSession → Option RefreshSession
if_valid now none = none
if_valid now (some row) = if is_valid now row then some row else none

-- `get_valid`
abbrev pub get_valid : ℕ → String → Auth (Option RefreshSession)
get_valid now session_id = gets (λ s. if_valid now (get session_id s.sessions))

unfoldable pub revoke_row : ℕ → String → Option RefreshSession → Auth Bool
revoke_row now session_id none = pure false
revoke_row now session_id (some row) = if is_some row.revoked_at then pure false else λ s. (
  inr true,
  record s { sessions = put session_id (record row { revoked_at = some now }) s.sessions },
)

-- `revoke`
unfoldable pub revoke : ℕ → String → Auth Bool
revoke now session_id s = revoke_row now session_id (get session_id s.sessions) s

abbrev pub is_open_for : String → RefreshSession → Bool
is_open_for user_id row = row.user_id == user_id && not (is_some row.revoked_at)

unfoldable pub revoke_rows : ℕ → String → Dict String RefreshSession → Dict String RefreshSession
revoke_rows now user_id [] = []
revoke_rows now user_id ((id, row) ∷ rest) =
    (id, if is_open_for user_id row then record row { revoked_at = some now } else row)
    ∷ revoke_rows now user_id rest

-- `revoke_all_for_user`
unfoldable pub revoke_all_for_user : ℕ → String → Auth ℕ
revoke_all_for_user now user_id s = (
  inr (length (keep (λ entry. is_open_for user_id entry.1) s.sessions)),
  record s { sessions = revoke_rows now user_id s.sessions },
)
