-- ===== src/Auth/Kept.antt =====
-- Every method of services/auth.py keeps what the writes of the repositories keep.
use multi_agent_ad_optimizer.Prelude.{
  ℕ, ◌*◌, String, Bool, true, false, not, ◌&&◌, Option, none, some, ◌==◌, string_eq, ◌⊎◌, inl, inr,
  ◌≡◌, refl, arith, List-cases, Option-cases, Sum-cases,
}
use multi_agent_ad_optimizer.Prelude.Dict.{get}
use multi_agent_ad_optimizer.Prelude.Method.{◌>>◌, when, Keeps, bind-Keeps, guard-after}
use multi_agent_ad_optimizer.Domain.Access.{Role, role_value, role_beq}
use multi_agent_ad_optimizer.Security.{TokenClaims}
use multi_agent_ad_optimizer.Security.Tokens.{Draw, decode, issue_pair}
use multi_agent_ad_optimizer.Auth.Records.{User, Accounts, AuthError, AuthService}
use multi_agent_ad_optimizer.Auth.Repository.{
  Auth, create_row, revoke, revoke_all_for_user, is_some, save_user, if_valid, find_email, keyed,
  row_of, normalised, successful_login,
}
use multi_agent_ad_optimizer.Auth.Password.{problems}
use multi_agent_ad_optimizer.Auth.Service.{
  bootstrap_unless, bootstrap_admin, open_session, signed_in, turned_away, rehashed, reopen, rotate,
  login_as, login, refresh, logout, change_password, create_user, set_active, set_role,
  replace_password, validate_password_strength, refuse_if_last_admin, validate_password_strength,
  guarded-cases, switch, assign, other_admin,
}
use multi_agent_ad_optimizer.Auth.Moves.{
  Moves, done, bootstrap_step, login_step, refresh_step, logout_step, logout_everywhere_step,
  change_password_step, create_user_step, set_active_step, set_role_step, signed_in_change,
  turned_away_change, password_change, switch_change, role_change, Kept,
}

-- As `guard-after`, for the guard of the last administrator.
guarded-after :
    (P : Accounts → Type 0) {A : Type 0} (test : Bool) (user_id verb : String) (m : Auth A)
    (s : Accounts)
    → P s
    → (((test ≡ false) ⊎ (other_admin user_id s.users ≡ true)) → P (m s).1)
    → P ((when test (refuse_if_last_admin user_id verb) >> m) s).1
guarded-after P test user_id verb m s p after = elim (guarded-cases test user_id verb m s) [
  | inl (allowed, runs) ↦ rw runs (after allowed)
  | inr (e, refused) ↦ rw refused p
]

module _ {T : Type 0} (service : AuthService T) where
  module _ (P : Accounts → Type 0) (kept : Kept service P) where
    bootstrap_unless-Keeps :
        (new_id salt : String) (existing : Bool)
        → Keeps P (bootstrap_unless service new_id salt existing)
    unfolding bootstrap_unless
    bootstrap_unless-Keeps new_id salt true s p = p
    bootstrap_unless-Keeps new_id salt false s p = ground (
      arith,
      kept.on_create_row new_id service.bootstrap_admin_email
          (service.hasher.hash salt service.bootstrap_admin_password) Role.admin
          "Bootstrap Administrator" true s p,
    )

    bootstrap_admin-Keeps : (new_id salt : String) → Keeps P (bootstrap_admin service new_id salt)
    unfolding bootstrap_admin
    bootstrap_admin-Keeps new_id salt s p = bootstrap_unless-Keeps new_id salt _ s p

    pub open_session-Keeps :
        (draw : Draw) (user_id : String) (user : User)
        → Keeps P (open_session service draw user_id user)
    unfolding open_session
    open_session-Keeps draw user_id user s p =
        let pair = issue_pair service.jwt draw user_id user.email user.role in
        let ttl = service.jwt.refresh_token_ttl_days * 86400 in
        ground (arith, kept.on_create_session draw.now user_id pair.session_id ttl s p)

    login_as-Keeps :
        (draw : Draw) (salt password user_id : String) (o : Option User) (s : Accounts)
        → get user_id s.users ≡ o
        → P s
        → P (login_as service draw salt password (keyed user_id o) s).1
    unfolding login_as signed_in turned_away
    login_as-Keeps draw salt password user_id none s found p = p
    login_as-Keeps draw salt password user_id (some user) s found p =
        let hash = rehashed service.hasher salt user.hashed_password password in
        let ok : P (save_user user_id (successful_login draw.now hash user) s).1 =
          kept.on_save s user_id user _ found (signed_in_change draw.now hash user) p in
        ground (
          arith,
          p,
          kept.on_save s user_id user _ found (turned_away_change draw.now user) p,
          open_session-Keeps draw user_id user _ ok,
        )

    login-Keeps :
        (draw : Draw) (salt email password : String)
        → Keeps P (login service draw salt email password)
    unfolding login login_as
    login-Keeps draw salt email password s p =
        elim (Option-cases (find_email (normalised service.lower email) s.users)) [
          | inl missing ↦ rw missing p
          | inr (user_id, found) ↦
              rw found (login_as-Keeps draw salt password user_id (get user_id s.users) s refl p)
        ]

    revoke_then-Keeps :
        (draw : Draw) (session_id user_id : String) (user : User)
        → Keeps P (revoke draw.now session_id >> open_session service draw user_id user)
    revoke_then-Keeps draw session_id user_id user =
        bind-Keeps P (revoke draw.now session_id) (λ _. open_session service draw user_id user)
          (kept.on_revoke draw.now session_id) (λ _. open_session-Keeps draw user_id user)

    reopen-Keeps :
        (draw : Draw) (claims : TokenClaims) (found : Option User)
        → Keeps P (reopen service draw claims found)
    unfolding reopen
    reopen-Keeps draw claims none s p = p
    reopen-Keeps draw claims (some user) s p =
        ground (arith, p, revoke_then-Keeps draw claims.session_id claims.subject user s p)

    rotate-Keeps : (draw : Draw) (claims : TokenClaims) → Keeps P (rotate service draw claims)
    unfolding rotate
    rotate-Keeps draw claims s p =
        elim (Option-cases (if_valid draw.now (get claims.session_id s.sessions))) [
          | inl missing ↦ rw missing p
          | inr (row, found) ↦ rw found (reopen-Keeps draw claims (get claims.subject s.users) s p)
        ]

    refresh-Keeps : (draw : Draw) (token : T) → Keeps P (refresh service draw token)
    unfolding refresh
    refresh-Keeps draw token s p = elim (Sum-cases (decode service.jwt draw.now "refresh" token)) [
      | inl (e, bad) ↦ rw bad p
      | inr (claims, good) ↦ rw good (rotate-Keeps draw claims s p)
    ]

    logout-Keeps : (now : ℕ) (token : T) → Keeps P (logout service now token)
    unfolding logout
    logout-Keeps now token s p = elim (Sum-cases (decode service.jwt now "refresh" token)) [
      | inl (e, bad) ↦ rw bad p
      | inr (claims, good) ↦ rw good (kept.on_revoke now claims.session_id s p)
    ]

    strong-after :
        {A : Type 0} (password : String) (m : Auth A) (s : Accounts)
        → P s
        → P (m s).1
        → P ((validate_password_strength service password >> m) s).1
    strong-after password m s p after =
        elim (List-cases (problems service.password_min_length password)) [
          | inl fine ↦ rw fine after
          | inr (q, qs, weak) ↦ rw weak p
        ]

    change_password-Keeps :
        (now : ℕ) (salt user_id current_password new_password : String)
        → Keeps P (change_password service now salt user_id current_password new_password)
    unfolding change_password replace_password revoke_all_for_user
    change_password-Keeps now salt user_id current_password new_password s p =
        elim (Option-cases (get user_id s.users)) [
          | inl missing ↦ rw missing p
          | inr (user, found) ↦ rw found (
              guard-after P (service.hasher.verify user.hashed_password current_password) _ _ s p (
                strong-after new_password _ s p (
                  guard-after P (not (service.hasher.verify user.hashed_password new_password)) _ _
                    s p
                    (kept.on_revoke_all now user_id _
                      (kept.on_save s user_id user _ found (password_change _ user) p)))))
        ]

    create_user-Keeps :
        (new_id salt email password : String) (role : Role) (full_name : String)
        → Keeps P (create_user service new_id salt email password role full_name)
    unfolding create_user
    create_user-Keeps new_id salt email password role full_name s p =
        let hash = service.hasher.hash salt password in
        let row = create_row service.lower new_id email hash role full_name true in
        guard-after P
          (not (is_some (row_of (find_email (normalised service.lower email) s.users) s.users)))
          (AuthError.conflict "A user with that email already exists")
          (validate_password_strength service password >> row) s p
          (strong-after password row s p
            (kept.on_create_row new_id email hash role full_name true s p))

    switch-Keeps :
        (now : ℕ) (user_id : String) (is_active : Bool) (user : User) (s : Accounts)
        → P (save_user user_id (record user { is_active = is_active }) s).1
        → P (switch service now user_id is_active user s).1
    unfolding switch revoke_all_for_user
    switch-Keeps now user_id true user s saved = saved
    switch-Keeps now user_id false user s saved = kept.on_revoke_all now user_id _ saved

    set_active-Keeps :
        (now : ℕ) (user_id : String) (is_active : Bool)
        → Keeps P (set_active service now user_id is_active)
    unfolding set_active
    set_active-Keeps now user_id is_active s p = elim (Option-cases (get user_id s.users)) [
      | inl missing ↦ rw missing p
      | inr (user, found) ↦ rw found (
          guarded-after P (not is_active && user.role == role_value Role.admin) user_id "deactivate"
            _ s p
            (λ allowed.
              switch-Keeps now user_id is_active user s
                (kept.on_save s user_id user _ found (switch_change is_active user allowed) p)))
    ]

    set_role-Keeps :
        (now : ℕ) (user_id : String) (role : Role) → Keeps P (set_role service now user_id role)
    unfolding set_role assign revoke_all_for_user
    set_role-Keeps now user_id role s p = elim (Option-cases (get user_id s.users)) [
      | inl missing ↦ rw missing p
      | inr (user, found) ↦ rw found (
          guarded-after P (user.role == role_value Role.admin && not (role_beq role Role.admin))
            user_id "demote" _ s p
            (λ allowed.
              kept.on_revoke_all now user_id _
                (kept.on_save s user_id user _ found (role_change role user allowed) p)))
    ]

    -- Any sequence of calls keeps what the writes keep.
    pub Moves-Kept : (s t : Accounts) → Moves service s t → P s → P t
    Moves-Kept s _ done p = p
    Moves-Kept s _ (bootstrap_step new_id salt t moves) p =
        bootstrap_admin-Keeps new_id salt t (Moves-Kept s t moves p)
    Moves-Kept s _ (login_step draw salt email password t moves) p =
        login-Keeps draw salt email password t (Moves-Kept s t moves p)
    Moves-Kept s _ (refresh_step draw token t moves) p =
        refresh-Keeps draw token t (Moves-Kept s t moves p)
    Moves-Kept s _ (logout_step now token t moves) p =
        logout-Keeps now token t (Moves-Kept s t moves p)
    Moves-Kept s _ (logout_everywhere_step now user_id t moves) p =
        kept.on_revoke_all now user_id t (Moves-Kept s t moves p)
    Moves-Kept s _ (change_password_step now salt user_id old new t moves) p =
        change_password-Keeps now salt user_id old new t (Moves-Kept s t moves p)
    Moves-Kept s _ (create_user_step new_id salt email password role name t moves) p =
        create_user-Keeps new_id salt email password role name t (Moves-Kept s t moves p)
    Moves-Kept s _ (set_active_step now user_id is_active t moves) p =
        set_active-Keeps now user_id is_active t (Moves-Kept s t moves p)
    Moves-Kept s _ (set_role_step now user_id role t moves) p =
        set_role-Keeps now user_id role t (Moves-Kept s t moves p)
