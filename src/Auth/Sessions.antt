-- ===== src/Auth/Sessions.antt =====
-- Refresh sessions of services/auth.py: what no later call undoes, and when a token is refused.
use multi_agent_ad_optimizer.Prelude.{
  ℕ, ◌+◌, String, Bool, true, false, Option, none, some, [], ◌∷◌, if◌then◌else◌, string_eq, inl,
  inr, ◌≡◌, refl, arith, Option-cases,
}
use multi_agent_ad_optimizer.Prelude.Dict.{Dict, get, get-put}
use multi_agent_ad_optimizer.Prelude.Method.{Keeps}
use multi_agent_ad_optimizer.Domain.Access.{Role}
use multi_agent_ad_optimizer.Auth.Records.{RefreshSession, Accounts}
use multi_agent_ad_optimizer.Auth.Repository.{
  create_row, create_session, revoke, revoke_row, revoke_rows, revoke_all_for_user, is_some,
  is_open_for,
}

abbrev pub is_revoked : Option RefreshSession → Bool
is_revoked none = false
is_revoked (some row) = is_some row.revoked_at

-- The session stands in the table, revoked.
abbrev pub Revoked : String → Accounts → Type 0
Revoked id s = is_revoked (get id s.sessions) ≡ true

-- A row after `revoke_all_for_user`.
abbrev pub closed : ℕ → String → Option RefreshSession → Option RefreshSession
closed now user_id none = none
closed now user_id (some row) =
    some (if is_open_for user_id row then record row { revoked_at = some now } else row)

pub get-revoke_rows :
    (now : ℕ) (user_id id : String) (rows : Dict String RefreshSession)
    → get id (revoke_rows now user_id rows) ≡ closed now user_id (get id rows)
unfolding get revoke_rows
get-revoke_rows now user_id id [] = refl
get-revoke_rows now user_id id ((k, r) ∷ rest) = ground (arith, get-revoke_rows now user_id id rest)

closed-is_revoked :
    (now : ℕ) (user_id : String) (o : Option RefreshSession)
    → is_revoked o ≡ true
    → is_revoked (closed now user_id o) ≡ true
closed-is_revoked now user_id none h = h
closed-is_revoked now user_id (some row) h = ground arith

pub revoke_rows-is_revoked :
    (now : ℕ) (user_id id : String) (rows : Dict String RefreshSession)
    → is_revoked (get id rows) ≡ true
    → is_revoked (get id (revoke_rows now user_id rows)) ≡ true
revoke_rows-is_revoked now user_id id rows revoked =
    rw (get-revoke_rows now user_id id rows) (closed-is_revoked now user_id (get id rows) revoked)

module _ (id : String) where
  pub create_row-Revoked :
      (lower : String → String) (new_id email hash : String) (role : Role) (name : String)
      (must : Bool)
      → Keeps (Revoked id) (create_row lower new_id email hash role name must)
  unfolding create_row
  create_row-Revoked lower new_id email hash role name must s revoked = ground arith

  pub create_session-Revoked :
      (now : ℕ) (user_id session_id : String) (ttl : ℕ)
      → Keeps (Revoked id) (create_session now user_id session_id ttl)
  unfolding create_session
  create_session-Revoked now user_id session_id ttl s revoked =
      let row : RefreshSession = record {
        user_id = user_id;
        expires_at = now + ttl;
        revoked_at = none;
      } in
      ground (arith, get-put session_id id row s.sessions, string_eq.decides session_id id)

  pub revoke-Revoked : (now : ℕ) (session_id : String) → Keeps (Revoked id) (revoke now session_id)
  unfolding revoke revoke_row
  revoke-Revoked now session_id s revoked = elim (Option-cases (get session_id s.sessions)) [
    | inl missing ↦ rw missing revoked
    | inr (row, found) ↦ rw found (
        let gone : RefreshSession = record row { revoked_at = some now } in
        ground (arith, get-put session_id id gone s.sessions))
  ]

  pub revoke_all-Revoked :
      (now : ℕ) (user_id : String) → Keeps (Revoked id) (revoke_all_for_user now user_id)
  unfolding revoke_all_for_user
  revoke_all-Revoked now user_id s revoked =
      revoke_rows-is_revoked now user_id id s.sessions revoked
