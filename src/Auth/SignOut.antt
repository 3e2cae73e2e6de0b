-- ===== src/Auth/SignOut.antt =====
-- What ends an account's sessions in services/auth.py.
use multi_agent_ad_optimizer.Prelude.{
  ℕ, String, Bool, true, false, not, ◌&&◌, Option, none, some, ◌==◌, string_eq, ◌⊎◌, inl, inr, ◌≡◌,
  refl, sym, ◌∙◌, arith, List-cases, Option-cases,
}
use multi_agent_ad_optimizer.Prelude.Dict.{get}
use multi_agent_ad_optimizer.Prelude.Method.{◌>>◌, refuse_unless, when}
use multi_agent_ad_optimizer.Domain.Access.{Role, role_value, role_beq}
use multi_agent_ad_optimizer.Auth.Records.{RefreshSession, Accounts, AuthError, AuthService}
use multi_agent_ad_optimizer.Auth.Repository.{Auth, revoke_rows, revoke_all_for_user, is_some}
use multi_agent_ad_optimizer.Auth.Password.{problems}
use multi_agent_ad_optimizer.Auth.Service.{
  switch, assign, replace_password, guarded-cases, validate_password_strength, change_password,
  set_active, set_role, refuse_if_last_admin,
}
use multi_agent_ad_optimizer.Auth.Sessions.{closed, get-revoke_rows}

-- Every session of the account is revoked.
abbrev pub SignedOut : String → Accounts → Type 0
SignedOut user_id s =
    (id : String) (row : RefreshSession)
    → get id s.sessions ≡ some row
    → row.user_id ≡ user_id
    → is_some row.revoked_at ≡ true

closed-signed_out :
    (now : ℕ) (user_id : String) (o : Option RefreshSession) (row : RefreshSession)
    → closed now user_id o ≡ some row
    → row.user_id ≡ user_id
    → is_some row.revoked_at ≡ true
closed-signed_out now user_id none row found own = ground (arith, found)
closed-signed_out now user_id (some r) row found own =
    ground (arith, found, own, string_eq.decides r.user_id user_id)

revoke_rows-SignedOut :
    (now : ℕ) (user_id : String) (s : Accounts)
    → SignedOut user_id (record s { sessions = revoke_rows now user_id s.sessions })
revoke_rows-SignedOut now user_id s id row found own =
    closed-signed_out now user_id (get id s.sessions) row
      (sym (get-revoke_rows now user_id id s.sessions) ∙ found) own

-- A method that signs the account out, or raises and changes nothing.
abbrev pub SignsOut : {A : Type 0} → String → Auth A → Accounts → Type 0
SignsOut user_id m s = ((e : AuthError) × (m s ≡ (inl e, s))) ⊎ SignedOut user_id (m s).1

guarded-SignsOut :
    {A : Type 0} (user_id : String) (test : Bool) (verb : String) (m : Auth A) (s : Accounts)
    → SignsOut user_id m s
    → SignsOut user_id (when test (refuse_if_last_admin user_id verb) >> m) s
guarded-SignsOut user_id test verb m s out = elim (guarded-cases test user_id verb m s) [
  | inl (allowed, runs) ↦ rw runs out
  | inr (e, refused) ↦ inl (e, refused)
]

guard-SignsOut :
    {A : Type 0} (user_id : String) (test : Bool) (e : AuthError) (m : Auth A) (s : Accounts)
    → SignsOut user_id m s
    → SignsOut user_id (refuse_unless test e >> m) s
guard-SignsOut user_id true e m s out = out
guard-SignsOut user_id false e m s out = inl (_, refl)

module _ {T : Type 0} (service : AuthService T) (now : ℕ) (user_id : String) (s : Accounts) where
  strong-SignsOut :
      {A : Type 0} (password : String) (m : Auth A)
      → SignsOut user_id m s
      → SignsOut user_id (validate_password_strength service password >> m) s
  strong-SignsOut password m out =
      elim (List-cases (problems service.password_min_length password)) [
        | inl fine ↦ rw fine out
        | inr (q, qs, weak) ↦ rw weak (inl (_, refl))
      ]

  set_role-SignsOut : (role : Role) → SignsOut user_id (set_role service now user_id role) s
  unfolding set_role assign revoke_all_for_user
  set_role-SignsOut role = elim (Option-cases (get user_id s.users)) [
    | inl missing ↦ rw missing (inl (_, refl))
    | inr (user, found) ↦ rw found (
        guarded-SignsOut user_id
          (user.role == role_value Role.admin && not (role_beq role Role.admin)) "demote"
          (assign service now user_id role user) s (inr (revoke_rows-SignedOut now user_id s)))
  ]

  deactivate-SignsOut : SignsOut user_id (set_active service now user_id false) s
  unfolding set_active switch revoke_all_for_user
  deactivate-SignsOut = elim (Option-cases (get user_id s.users)) [
    | inl missing ↦ rw missing (inl (_, refl))
    | inr (user, found) ↦ rw found (
        guarded-SignsOut user_id (user.role == role_value Role.admin) "deactivate"
          (switch service now user_id false user) s (inr (revoke_rows-SignedOut now user_id s)))
  ]

  change_password-SignsOut :
      (salt current_password new_password : String)
      → SignsOut user_id (change_password service now salt user_id current_password new_password) s
  unfolding change_password replace_password revoke_all_for_user
  change_password-SignsOut salt current_password new_password =
      elim (Option-cases (get user_id s.users)) [
        | inl missing ↦ rw missing (inl (_, refl))
        | inr (user, found) ↦ rw found (
            guard-SignsOut user_id (service.hasher.verify user.hashed_password current_password) _ _
              s
              (strong-SignsOut new_password _ (
                guard-SignsOut user_id
                  (not (service.hasher.verify user.hashed_password new_password)) _
                  (replace_password service now salt user_id new_password user) s
                  (inr (revoke_rows-SignedOut now user_id s)))))
      ]

  -- A change of role, a deactivation and a change of password each either raise and change nothing, or
  -- leave every session of the account revoked, that of the caller included.
  pub changes-SignsOut :
      (role : Role) (salt current_password new_password : String)
      → SignsOut user_id (set_role service now user_id role) s
        × SignsOut user_id (set_active service now user_id false) s
        × SignsOut user_id
            (change_password service now salt user_id current_password new_password)
            s
  changes-SignsOut role salt current_password new_password = (
    set_role-SignsOut role,
    deactivate-SignsOut,
    change_password-SignsOut salt current_password new_password,
  )
