-- ===== src/Security/Tokens.antt =====
-- `TokenService` of core/security.py. Encoding and checking a signed token are calls of the JWT
-- library: they are parameters, and so is the type of tokens, on which the program does nothing else.
-- Instants are whole seconds.
use multi_agent_ad_optimizer.Prelude.{
  ℕ, ◌+◌, ◌*◌, ◌≤◌, ◌<◌, String, not, Option, none, some, List, [], ◌⊎◌, inl, inr, ◌≡◌, refl,
  if◌then◌else◌, ◌==◌, string_eq,
}
use multi_agent_ad_optimizer.Domain.Access.{Role, role_value}
use multi_agent_ad_optimizer.Security.{TokenClaims}

-- The claims of a token as they are signed.
pub record Payload : Type 0 where
  pub sub : String
  pub email : String
  pub role : String
  pub sid : String
  pub iat : ℕ
  pub exp : ℕ
  pub nbf : ℕ
  pub iss : String
  pub aud : String
  pub typ : String
  pub jti : String
  pub scopes : List String

-- What `jwt.decode` raises.
pub data JwtError : Type 0 where
  expired_signature invalid_token : JwtError

pub data TokenError : Type 0 where
  expired invalid unknown_role : TokenError
  wrong_type : String → TokenError

-- The settings that tokens depend on, with the two calls of the library for them: `decode` is given
-- the current instant and checks signature, expiry, issuer and audience.
pub record Jwt (T : Type 0) : Type 0 where
  pub issuer : String
  pub audience : String
  pub access_token_ttl_minutes : ℕ
  pub refresh_token_ttl_days : ℕ
  pub encode : Payload → T
  pub decode : ℕ → T → JwtError ⊎ Payload

-- What one call draws: the instant and random identifiers.
pub record Draw : Type 0 where
  pub now : ℕ
  pub session_id : String
  pub access_jti : String
  pub refresh_jti : String

pub record TokenPair (T : Type 0) : Type 0 where
  pub access_token : T
  pub refresh_token : T
  pub expires_in : ℕ
  pub session_id : String

-- `Role(value)`
unfoldable pub role_of : String → Option Role
role_of value =
    if value == "admin"
    then some Role.admin
    else if value == "optimizer"
    then some Role.optimizer
    else if value == "analyst"
    then some Role.analyst
    else if value == "viewer"
    then some Role.viewer
    else if value == "ingestor"
    then some Role.ingestor
    else none

pub role_of-role_value : (role : Role) → role_of (role_value role) ≡ some role
unfolding role_of
role_of-role_value Role.admin = refl
role_of-role_value Role.optimizer = refl
role_of-role_value Role.analyst = refl
role_of-role_value Role.viewer = refl
role_of-role_value Role.ingestor = refl

module _ {T : Type 0} (jwt : Jwt T) where
  -- The payload that `_encode` signs.
  abbrev pub payload_for : String → String → String → String → ℕ → ℕ → String → String → Payload
  payload_for subject email role session_id issued_at expires_at token_type jti = record {
    sub = subject;
    email = email;
    role = role;
    sid = session_id;
    iat = issued_at;
    exp = expires_at;
    nbf = issued_at;
    iss = jwt.issuer;
    aud = jwt.audience;
    typ = token_type;
    jti = jti;
    scopes = [];
  }

  -- `issue_pair`, with no scopes, as the services call it.
  unfoldable pub issue_pair : Draw → String → String → String → TokenPair T
  issue_pair draw subject email role =
      let access_ttl = jwt.access_token_ttl_minutes * 60 in
      let refresh_ttl = jwt.refresh_token_ttl_days * 86400 in
      record {
        access_token = jwt.encode (
            payload_for subject email role draw.session_id draw.now (draw.now + access_ttl) "access"
              draw.access_jti);
        refresh_token = jwt.encode (
            payload_for subject email role draw.session_id draw.now (draw.now + refresh_ttl)
              "refresh" draw.refresh_jti);
        expires_in = access_ttl;
        session_id = draw.session_id;
      }

  -- The claims of a payload that the library accepted and that has the right type, with its role.
  abbrev pub claims_of : Payload → Option Role → TokenError ⊎ TokenClaims
  claims_of payload none = inl TokenError.unknown_role
  claims_of payload (some role) = inr (record {
    subject = payload.sub;
    email = payload.email;
    role = role;
    session_id = payload.sid;
  })

  abbrev pub checked : String → JwtError ⊎ Payload → TokenError ⊎ TokenClaims
  checked expected_type (inl JwtError.expired_signature) = inl TokenError.expired
  checked expected_type (inl JwtError.invalid_token) = inl TokenError.invalid
  checked expected_type (inr payload) =
      if not (payload.typ == expected_type)
      then inl (TokenError.wrong_type expected_type)
      else claims_of payload (role_of payload.role)

  -- `decode`
  unfoldable pub decode : ℕ → String → T → TokenError ⊎ TokenClaims
  decode now expected_type token = checked expected_type (jwt.decode now token)

  -- What the library documents: a token it encoded for this issuer and audience decodes to its payload
  -- from its `nbf` on until before its `exp`.
  abbrev pub IsFaithful : Type 0
  IsFaithful =
      (p : Payload) (now : ℕ)
      → p.iss ≡ jwt.issuer
      → p.aud ≡ jwt.audience
      → p.nbf ≤ now
      → now < p.exp
      → jwt.decode now (jwt.encode p) ≡ inr p

  -- The refresh token of a pair, decoded as one within its lifetime, gives back the subject, the email,
  -- the role and the session id it was issued for, and decoded as an access token it is refused,
  -- provided that the JWT library gives back what it encoded.
  pub decode-issue_pair :
      IsFaithful
      → (draw : Draw) (subject email : String) (role : Role) (now : ℕ) → draw.now ≤ now
      → now < draw.now + jwt.refresh_token_ttl_days * 86400
      → (decode now "refresh" (issue_pair draw subject email (role_value role)).refresh_token
          ≡ inr (record {
            subject = subject;
            email = email;
            role = role;
            session_id = (issue_pair draw subject email (role_value role)).session_id;
          }))
        × (decode now "access" (issue_pair draw subject email (role_value role)).refresh_token
            ≡ inl (TokenError.wrong_type "access"))
  unfolding decode issue_pair
  decode-issue_pair faithful draw subject email role now from until =
      let payload =
        payload_for subject email (role_value role) draw.session_id draw.now
          (draw.now + jwt.refresh_token_ttl_days * 86400) "refresh" draw.refresh_jti in
      rw (faithful payload now refl refl from until, role_of-role_value role) (refl, refl)
