-- ===== src/Auth/Moves.antt =====
-- Sequences of calls of services/auth.py, and what it takes for every call to keep a statement.
use multi_agent_ad_optimizer.Prelude.{
  ℕ, String, Bool, true, false, not, ◌&&◌, Option, some, ◌==◌, string_eq, ◌⊎◌, ◌≡◌,
}
use multi_agent_ad_optimizer.Prelude.Dict.{get, put}
use multi_agent_ad_optimizer.Prelude.Method.{Keeps}
use multi_agent_ad_optimizer.Domain.Access.{Role, role_value, role_beq}
use multi_agent_ad_optimizer.Security.Tokens.{Draw}
use multi_agent_ad_optimizer.Auth.Records.{User, Accounts, AuthService}
use multi_agent_ad_optimizer.Auth.Repository.{
  create_row, create_session, revoke, revoke_all_for_user, successful_login, failed_login,
}
use multi_agent_ad_optimizer.Auth.Service.{
  bootstrap_admin, login, refresh, logout, change_password, create_user, set_active, set_role,
  other_admin,
}

module _ {T : Type 0} (service : AuthService T) where
  -- The tables that calls of the service lead to, whatever each call answers.
  pub data Moves (s : Accounts) : Accounts → Type 0 where
    done : Moves s s
    bootstrap_step :
        (new_id salt : String) (t : Accounts)
        → Moves s t
        → Moves s (bootstrap_admin service new_id salt t).1
    login_step :
        (draw : Draw) (salt email password : String) (t : Accounts)
        → Moves s t
        → Moves s (login service draw salt email password t).1
    refresh_step :
        (draw : Draw) (token : T) (t : Accounts)
        → Moves s t
        → Moves s (refresh service draw token t).1
    logout_step :
        (now : ℕ) (token : T) (t : Accounts) → Moves s t → Moves s (logout service now token t).1
    logout_everywhere_step :
        (now : ℕ) (user_id : String) (t : Accounts)
        → Moves s t
        → Moves s (revoke_all_for_user now user_id t).1
    change_password_step :
        (now : ℕ) (salt user_id current_password new_password : String) (t : Accounts)
        → Moves s t
        → Moves s (change_password service now salt user_id current_password new_password t).1
    create_user_step :
        (new_id salt email password : String) (role : Role) (full_name : String) (t : Accounts)
        → Moves s t
        → Moves s (create_user service new_id salt email password role full_name t).1
    set_active_step :
        (now : ℕ) (user_id : String) (is_active : Bool) (t : Accounts)
        → Moves s t
        → Moves s (set_active service now user_id is_active t).1
    set_role_step :
        (now : ℕ) (user_id : String) (role : Role) (t : Accounts)
        → Moves s t
        → Moves s (set_role service now user_id role t).1

  -- How a call changes the row of an account; `others` tells whether another administrator remains.
  pub data Change (others : Bool) : User → User → Type 0 where
    signed_in_change :
        (now : ℕ) (hash : Option String) (user : User)
        → Change others user (successful_login now hash user)
    turned_away_change :
        (now : ℕ) (user : User)
        → Change others user
            (failed_login now service.max_failed_logins service.lockout_seconds user)
    password_change :
        (hash : String) (user : User)
        → Change others user (record user { hashed_password = hash; must_change_password = false })
    switch_change :
        (is_active : Bool) (user : User)
        → ((not is_active && user.role == role_value Role.admin) ≡ false) ⊎ (others ≡ true)
        → Change others user (record user { is_active = is_active })
    role_change :
        (role : Role) (user : User)
        → ((user.role == role_value Role.admin && not (role_beq role Role.admin)) ≡ false)
          ⊎ (others ≡ true)
        → Change others user (record user { role = role_value role })

  -- A statement about the tables that the writes of the repositories keep.
  pub record Kept (P : Accounts → Type 0) : Type 0 where
    pub on_create_row :
        (new_id email hash : String) (role : Role) (name : String) (must : Bool)
        → Keeps P (create_row service.lower new_id email hash role name must)
    pub on_create_session :
        (now : ℕ) (user_id session_id : String) (ttl : ℕ)
        → Keeps P (create_session now user_id session_id ttl)
    pub on_revoke : (now : ℕ) (session_id : String) → Keeps P (revoke now session_id)
    pub on_revoke_all : (now : ℕ) (user_id : String) → Keeps P (revoke_all_for_user now user_id)
    pub on_save :
        (s : Accounts) (id : String) (user user' : User)
        → get id s.users ≡ some user
        → Change (other_admin id s.users) user user'
        → P s
        → P (record s { users = put id user' s.users })
