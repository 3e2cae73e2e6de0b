-- ===== src/Auth/Examples.antt =====
-- The theorems on accounts and sessions at concrete rows. Tokens are their payloads.
use multi_agent_ad_optimizer.Prelude.{
  ℕ, ◌≤◌, ◌<◌, ◌||◌, not, ltb, leb, String, true, false, none, [], ◌∷◌, ◌≡◌, refl, arith, inl, inr,
  ◌⊎◌, if◌then◌else◌, ◌==◌, string_eq, sym, ◌∙◌,
}
use multi_agent_ad_optimizer.Prelude.Dict.{get, put}
use multi_agent_ad_optimizer.Prelude.Text.{strip_left, strip_right, is_space}
use multi_agent_ad_optimizer.Domain.Access.{Role}
use multi_agent_ad_optimizer.Security.Tokens.{
  Jwt, JwtError, Payload, Draw, TokenError, issue_pair, decode, role_of, decode-issue_pair,
}
use multi_agent_ad_optimizer.Auth.Records.{User, Accounts, AuthError, AuthService, Hasher}
use multi_agent_ad_optimizer.Auth.Repository.{find_email, create_session, revoke, revoke_row}
use multi_agent_ad_optimizer.Auth.Service.{
  login, open_session, refresh, rotate, reopen, set_role, set_active, change_password,
}
use multi_agent_ad_optimizer.Auth.Moves.{done, set_active_step}
use multi_agent_ad_optimizer.Auth.Rotation.{refresh-once}
use multi_agent_ad_optimizer.Auth.Admins.{HasAdmin, Moves-HasAdmin}
use multi_agent_ad_optimizer.Auth.Locked.{Attempt, attempts, attempts-locked}
use multi_agent_ad_optimizer.Auth.SignOut.{SignsOut, changes-SignsOut}

-- A library whose tokens are their payloads.
abbrev plain_decode : ℕ → Payload → JwtError ⊎ Payload
plain_decode now p =
    if not (p.iss == "app") || not (p.aud == "api") || ltb now p.nbf
    then inl JwtError.invalid_token
    else if leb p.exp now
    then inl JwtError.expired_signature
    else inr p

abbrev plain_jwt : Jwt Payload
plain_jwt = record {
  issuer = "app";
  audience = "api";
  access_token_ttl_minutes = 30;
  refresh_token_ttl_days = 7;
  encode = λ p. p;
  decode = plain_decode;
}

abbrev plain_hasher : Hasher
plain_hasher = record {
  hash = λ salt password. password;
  verify = λ stored password. stored == password;
  needs_rehash = λ stored. false;
}

abbrev service : AuthService Payload
service = record {
  jwt = plain_jwt;
  hasher = plain_hasher;
  lower = λ email. email;
  max_failed_logins = 2;
  lockout_seconds = 900;
  password_min_length = 10;
  bootstrap_admin_email = "root@example.com";
  bootstrap_admin_password = "Adm1n!ChangeMe";
}

abbrev ann : User
ann = record {
  email = "ann@example.com";
  full_name = "Ann";
  hashed_password = "secret-1234";
  role = "admin";
  is_active = true;
  failed_login_count = 0;
  locked_until = none;
  last_login_at = none;
  must_change_password = false;
}

abbrev accounts : Accounts
accounts = record {
  users = ("u1", ann) ∷ [];
  sessions = ("s1", record { user_id = "u1"; expires_at = 604800; revoked_at = none }) ∷ [];
}

abbrev draw_at : ℕ → String → Draw
draw_at now session_id = record {
  now = now;
  session_id = session_id;
  access_jti = "a";
  refresh_jti = "r";
}

abbrev token : Payload
token = (issue_pair plain_jwt (draw_at 0 "s1") "u1" "ann@example.com" "admin").refresh_token

plain_decode_own :
    (p : Payload) (now : ℕ)
    → p.iss ≡ "app"
    → p.aud ≡ "api"
    → p.nbf ≤ now
    → now < p.exp
    → plain_decode now p ≡ inr p
plain_decode_own p now issuer audience from until = ground (
  arith,
  issuer,
  audience,
  from,
  until,
  string_eq.decides p.iss "app",
  string_eq.decides p.aud "api",
)

decode-issue_pair_example :
    (decode plain_jwt 100 "refresh"
        (issue_pair plain_jwt (draw_at 10 "s1") "u1" "ann@example.com" "admin").refresh_token
      ≡ inr (record {
        subject = "u1";
        email = "ann@example.com";
        role = Role.admin;
        session_id =
            (issue_pair plain_jwt (draw_at 10 "s1") "u1" "ann@example.com" "admin").session_id;
      }))
    × (decode plain_jwt 100 "access"
          (issue_pair plain_jwt (draw_at 10 "s1") "u1" "ann@example.com" "admin").refresh_token
        ≡ inl (TokenError.wrong_type "access"))
decode-issue_pair_example =
    decode-issue_pair plain_jwt plain_decode_own (draw_at 10 "s1") "u1" "ann@example.com" Role.admin
      100 (omega arith) (omega arith)

plain_decode_sound : (now : ℕ) (t p : Payload) → plain_decode now t ≡ inr p → t ≡ p
plain_decode_sound now t p good = ground (arith, good)

abbrev rotated : Accounts
rotated = (refresh service (draw_at 10 "s2") token accounts).1

refresh-once_example :
    (e : AuthError) × (refresh service (draw_at 30 "s3") token rotated ≡ (inl e, rotated))
unfolding refresh rotate reopen decode issue_pair role_of open_session create_session revoke
    revoke_row get put
refresh-once_example =
    refresh-once service
      (λ now now' t p p' good good'.
        sym (plain_decode_sound now t p good) ∙ plain_decode_sound now' t p' good')
      (draw_at 10 "s2") (draw_at 30 "s3") token
      (issue_pair plain_jwt (draw_at 10 "s2") "u1" "ann@example.com" "admin") accounts rotated
      rotated refl done

abbrev deactivated : Accounts
deactivated = (set_active service 20 "u1" false accounts).1

Moves-HasAdmin_example : HasAdmin deactivated
Moves-HasAdmin_example =
    Moves-HasAdmin service accounts deactivated (set_active_step 20 "u1" false accounts done) refl

abbrev tried : Accounts
tried = (login service (draw_at 40 "s4") "" "ann@example.com" "wrong" accounts).1

abbrev guess : String → ℕ → Attempt
guess password now = record { draw = draw_at now "s9"; salt = ""; password = password }

attempts-locked_example :
    (e : AuthError) × (login service
        (draw_at 800 "s5")
        ""
        "ann@example.com"
        "secret-1234"
        (attempts service "ann@example.com" (guess "a" 50 ∷ guess "b" 60 ∷ []) accounts)
      ≡ (inl e, attempts service "ann@example.com" (guess "a" 50 ∷ guess "b" 60 ∷ []) accounts))
unfolding find_email get strip_left strip_right is_space
attempts-locked_example =
    attempts-locked service "ann@example.com" (guess "a" 50) (guess "b" 60 ∷ []) "u1" ann accounts
      (draw_at 800 "s5") "" "secret-1234" (record { found = refl; row = refl; active = refl })
      ((refl, refl), ((refl, refl), tt)) refl (omega arith)

changes-SignsOut_example :
    SignsOut "u1" (set_role service 70 "u1" Role.viewer) accounts
    × SignsOut "u1" (set_active service 70 "u1" false) accounts
    × SignsOut "u1" (change_password service 70 "" "u1" "secret-1234" "n3w-secret!!") accounts
changes-SignsOut_example =
    changes-SignsOut service 70 "u1" accounts Role.viewer "" "secret-1234" "n3w-secret!!"
