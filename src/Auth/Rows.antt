-- ===== src/Auth/Rows.antt =====
-- Writes on sessions leave the accounts of repositories/users.py alone.
use multi_agent_ad_optimizer.Prelude.{
  ℕ, String, Bool, some, string_eq, inl, inr, ◌≡◌, refl, sym, subst, arith, Option-cases,
}
use multi_agent_ad_optimizer.Prelude.Dict.{Dict, get, put}
use multi_agent_ad_optimizer.Prelude.Method.{Keeps}
use multi_agent_ad_optimizer.Domain.Access.{Role}
use multi_agent_ad_optimizer.Auth.Records.{User, Accounts, AuthService}
use multi_agent_ad_optimizer.Auth.Repository.{
  create_row, create_session, revoke, revoke_row, revoke_all_for_user,
}
use multi_agent_ad_optimizer.Auth.Service.{other_admin}
use multi_agent_ad_optimizer.Auth.Moves.{Change, Kept}

create_session-users :
    (now : ℕ) (user_id session_id : String) (ttl : ℕ) (s : Accounts)
    → (create_session now user_id session_id ttl s).1.users ≡ s.users
unfolding create_session
create_session-users now user_id session_id ttl s = ground arith

revoke-users :
    (now : ℕ) (session_id : String) (s : Accounts) → (revoke now session_id s).1.users ≡ s.users
unfolding revoke revoke_row
revoke-users now session_id s = elim (Option-cases (get session_id s.sessions)) [
  | inl missing ↦ rw missing refl
  | inr (row, found) ↦ rw found (ground arith)
]

module _ {T : Type 0} (service : AuthService T) (Q : Dict String User → Type 0) where
  -- A statement about the accounts alone is kept once new rows and changed rows keep it.
  pub users-Kept :
      ((new_id email hash : String) (role : Role) (name : String) (must : Bool)
        → Keeps (λ s. Q s.users) (create_row service.lower new_id email hash role name must))
      → ((s : Accounts) (id : String) (user user' : User)
          → get id s.users ≡ some user
          → Change service (other_admin id s.users) user user'
          → Q s.users
          → Q (put id user' s.users))
      → Kept service (λ s. Q s.users)
  unfolding revoke_all_for_user
  users-Kept on_create on_save = record {
    on_create_row = on_create;
    on_create_session = λ now user_id session_id ttl s q.
        subst Q (sym (create_session-users now user_id session_id ttl s)) q;
    on_revoke = λ now session_id s q. subst Q (sym (revoke-users now session_id s)) q;
    on_revoke_all = λ now user_id s q. q;
    on_save = on_save;
  }
