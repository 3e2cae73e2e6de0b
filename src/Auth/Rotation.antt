-- ===== src/Auth/Rotation.antt =====
-- The rotation of refresh tokens in services/auth.py.
use multi_agent_ad_optimizer.Prelude.{
  ℕ, String, Bool, true, false, Option, none, some, ◌==◌, string_eq, ◌⊎◌, inl, inr, ◌≡◌, refl, sym,
  ap, ◌∙◌, subst, arith, Bool-cases, Option-cases, Sum-cases,
}
use multi_agent_ad_optimizer.Prelude.Dict.{get, get-put_self}
use multi_agent_ad_optimizer.Prelude.Method.{◌>>◌}
use multi_agent_ad_optimizer.Domain.Access.{Role}
use multi_agent_ad_optimizer.Security.{TokenClaims}
use multi_agent_ad_optimizer.Security.Tokens.{
  checked, role_of, claims_of, Payload, JwtError, Draw, TokenPair, decode,
}
use multi_agent_ad_optimizer.Auth.Records.{User, RefreshSession, Accounts, AuthError, AuthService}
use multi_agent_ad_optimizer.Auth.Repository.{Auth, revoke, revoke_row, is_some, if_valid, is_valid}
use multi_agent_ad_optimizer.Auth.Service.{rotate, reopen, open_session, refresh}
use multi_agent_ad_optimizer.Auth.Sessions.{
  Revoked, is_revoked, create_row-Revoked, create_session-Revoked, revoke-Revoked,
  revoke_all-Revoked,
}
use multi_agent_ad_optimizer.Auth.Moves.{Moves, Kept}
use multi_agent_ad_optimizer.Auth.Kept.{Moves-Kept, open_session-Keeps}

module _ {T : Type 0} (service : AuthService T) where
  Revoked-Kept : (id : String) → Kept service (Revoked id)
  Revoked-Kept id = record {
    on_create_row = create_row-Revoked id service.lower;
    on_create_session = create_session-Revoked id;
    on_revoke = revoke-Revoked id;
    on_revoke_all = revoke_all-Revoked id;
    on_save = λ s user_id user user' found change revoked. revoked;
  }

  -- What the library keeps of a token: whenever it accepts the token, it reads the same payload.
  abbrev pub IsStable : Type 0
  IsStable =
      (now now' : ℕ) (token : T) (p p' : Payload)
      → service.jwt.decode now token ≡ inr p
      → service.jwt.decode now' token ≡ inr p'
      → p ≡ p'

  abbrev HasSession : TokenClaims → Payload → Type 0
  HasSession claims p = claims.session_id ≡ p.sid

  claims_of-HasSession :
      (p : Payload) (role : Option Role) (claims : TokenClaims)
      → claims_of service.jwt p role ≡ inr claims
      → HasSession claims p
  claims_of-HasSession p none claims good = ground (arith, good)
  claims_of-HasSession p (some role) claims good = ground (arith, good)

  checked-HasSession :
      (typ : String) (answer : JwtError ⊎ Payload) (claims : TokenClaims)
      → checked service.jwt typ answer ≡ inr claims
      → (p : Payload) × (answer ≡ inr p) × HasSession claims p
  checked-HasSession typ (inl JwtError.expired_signature) claims good = ground (arith, good)
  checked-HasSession typ (inl JwtError.invalid_token) claims good = ground (arith, good)
  checked-HasSession typ (inr p) claims good = elim (Bool-cases (p.typ == typ)) [
    | inl same ↦
        (p, refl, claims_of-HasSession p (role_of p.role) claims (ground (arith, good, same)))
    | inr other ↦ absurd (ground (arith, good, other))
  ]

  revoke-returns :
      (now : ℕ) (session_id : String) (s : Accounts)
      → (done : Bool) × ((revoke now session_id s).0 ≡ inr done)
  unfolding revoke revoke_row
  revoke-returns now session_id s = elim (Option-cases (get session_id s.sessions)) [
    | inl missing ↦ rw missing (false, refl)
    | inr (row, found) ↦ rw found (elim (Bool-cases (is_some row.revoked_at)) [
      | inl gone ↦ rw gone (false, refl)
      | inr here ↦ rw here (true, refl)
    ])
  ]

  revoke-revokes :
      (now : ℕ) (session_id : String) (s : Accounts) (row : RefreshSession)
      → get session_id s.sessions ≡ some row
      → Revoked session_id (revoke now session_id s).1
  unfolding revoke revoke_row
  revoke-revokes now session_id s row found = rw found (
      let gone : RefreshSession = record row { revoked_at = some now } in
      ground (arith, found, get-put_self session_id gone s.sessions))

  -- A method that revokes a session, or raises and changes nothing.
  abbrev Revokes : {A : Type 0} → String → Auth A → Accounts → Type 0
  Revokes id m s = ((e : AuthError) × (m s ≡ (inl e, s))) ⊎ Revoked id (m s).1

  revoke_then_open-Revoked :
      (draw : Draw) (claims : TokenClaims) (user : User) (row : RefreshSession) (s : Accounts)
      → get claims.session_id s.sessions ≡ some row
      → Revoked claims.session_id
          ((revoke draw.now claims.session_id >> open_session service draw claims.subject user) s).1
  revoke_then_open-Revoked draw claims user row s present =
      let (b, returns) = revoke-returns draw.now claims.session_id s in
      rw returns (
        open_session-Keeps service (Revoked claims.session_id) (Revoked-Kept claims.session_id) draw
          claims.subject user _ (revoke-revokes draw.now claims.session_id s row present))

  reopen-Revokes :
      (draw : Draw) (claims : TokenClaims) (found : Option User) (row : RefreshSession)
      (s : Accounts)
      → get claims.session_id s.sessions ≡ some row
      → Revokes claims.session_id (reopen service draw claims found) s
  unfolding reopen open_session
  reopen-Revokes draw claims none row s present = inl (_, refl)
  reopen-Revokes draw claims (some user) row s present = elim (Bool-cases user.is_active) [
    | inl active ↦ rw active (inr (revoke_then_open-Revoked draw claims user row s present))
    | inr inactive ↦ rw inactive (inl (_, refl))
  ]

  if_valid-row :
      (now : ℕ) (o : Option RefreshSession) (row : RefreshSession)
      → if_valid now o ≡ some row
      → (o ≡ some row) × (is_revoked o ≡ false)
  if_valid-row now none row valid = ground (arith, valid)
  if_valid-row now (some r) row valid = elim (Bool-cases (is_valid now r)) [
    | inl ok ↦ (ground (arith, valid, ok), ground (arith, ok))
    | inr bad ↦ absurd (ground (arith, valid, bad))
  ]

  rotate-Revokes :
      (draw : Draw) (claims : TokenClaims) (s : Accounts)
      → Revokes claims.session_id (rotate service draw claims) s
  unfolding rotate
  rotate-Revokes draw claims s =
      elim (Option-cases (if_valid draw.now (get claims.session_id s.sessions))) [
        | inl missing ↦ rw missing (inl (_, refl))
        | inr (row, found) ↦ rw found (
            reopen-Revokes draw claims (get claims.subject s.users) row s
              (if_valid-row draw.now (get claims.session_id s.sessions) row found).0)
      ]

  rotate-refuses :
      (draw : Draw) (claims : TokenClaims) (s : Accounts)
      → Revoked claims.session_id s
      → (e : AuthError) × (rotate service draw claims s ≡ (inl e, s))
  unfolding rotate
  rotate-refuses draw claims s revoked =
      elim (Option-cases (if_valid draw.now (get claims.session_id s.sessions))) [
        | inl missing ↦ rw missing (_, refl)
        | inr (row, found) ↦ absurd (
            ground (
              arith,
              revoked,
              (if_valid-row draw.now (get claims.session_id s.sessions) row found).1,
            ))
      ]

  refresh-refused :
      (draw : Draw) (token : T) (s : Accounts)
      → ((claims : TokenClaims)
          → decode service.jwt draw.now "refresh" token ≡ inr claims
          → Revoked claims.session_id s)
      → (e : AuthError) × (refresh service draw token s ≡ (inl e, s))
  unfolding refresh
  refresh-refused draw token s revoked =
      elim (Sum-cases (decode service.jwt draw.now "refresh" token)) [
        | inl (e, bad) ↦ rw bad (_, refl)
        | inr (claims, good) ↦ rw good (rotate-refuses draw claims s (revoked claims good))
      ]

  refresh-answers :
      (draw : Draw) (token : T) (s : Accounts)
      → ((e : AuthError) × (refresh service draw token s ≡ (inl e, s)))
        ⊎ ((claims : TokenClaims) × (decode service.jwt draw.now "refresh" token ≡ inr claims)
            × Revoked claims.session_id (refresh service draw token s).1)
  unfolding refresh
  refresh-answers draw token s = elim (Sum-cases (decode service.jwt draw.now "refresh" token)) [
    | inl (e, bad) ↦ rw bad (inl (_, refl))
    | inr (claims, good) ↦ elim (rotate-Revokes draw claims s) [
      | inl (e, refused) ↦ rw good (inl (e, refused))
      | inr revoked ↦ inr (claims, good, rw good revoked)
    ]
  ]

  same_session :
      IsStable
      → (now now' : ℕ) (token : T) (claims claims' : TokenClaims)
      → decode service.jwt now "refresh" token ≡ inr claims
      → decode service.jwt now' "refresh" token ≡ inr claims'
      → claims.session_id ≡ claims'.session_id
  unfolding decode
  same_session stable now now' token claims claims' good good' =
      let (p, read, is) = checked-HasSession "refresh" (service.jwt.decode now token) claims good in
      let (p', read', is') =
        checked-HasSession "refresh" (service.jwt.decode now' token) claims' good' in
      is ∙ ap (λ p. p.sid) (stable now now' token p p' read read') ∙ sym is'

  -- A refresh token works once: after a successful refresh and any further calls of the service, at
  -- whatever instants, presenting it again raises and changes nothing, provided that the JWT library
  -- reads the same payload whenever it accepts the token.
  pub refresh-once :
      IsStable
      → (draw again : Draw) (token : T) (pair : TokenPair T) (s t u : Accounts)
      → refresh service draw token s ≡ (inr pair, t)
      → Moves service t u
      → (e : AuthError) × (refresh service again token u ≡ (inl e, u))
  refresh-once stable draw again token pair s t u done moves = elim (refresh-answers draw token s) [
    | inl (e, refused) ↦ absurd (ground (arith, done, refused))
    | inr (claims, good, revoked) ↦
        let then' : Revoked claims.session_id t =
          subst (λ r. Revoked claims.session_id r.1) done revoked in
        let now' : Revoked claims.session_id u =
          Moves-Kept service (Revoked claims.session_id) (Revoked-Kept claims.session_id) t u moves
            then' in
        refresh-refused again token u (λ claims' good'.
          subst (λ id. Revoked id u)
            (same_session stable draw.now again.now token claims claims' good good') now')
  ]
