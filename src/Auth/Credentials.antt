-- ===== src/Auth/Credentials.antt =====
-- What server/src/modules/auth/auth.service.ts takes from the JWT library, bcrypt, the hash of
-- Node's crypto and its configuration.
use bid_battle.Prelude.{true, some, ◌≡◌, Bool, Option, String, ℕ}
use bid_battle.Platform.Sockets.{AuthJwt}
use bid_battle.Mail.{MailConfig}

pub record Credentials : Type 0 where
  -- a token for a user's id and email that is issued at a time
  pub sign_access : ℕ → String → ℕ → String
  pub sign_refresh : ℕ → String → ℕ → String
  -- the payload of a refresh token that is valid at a time, and of one that may have expired
  pub verify_refresh : String → ℕ → Option AuthJwt
  pub verify_refresh_expired : String → Option AuthJwt
  -- SHA-256 of a token, as text
  pub hash_token : String → String
  -- `bcrypt.hash` with a salt, and `bcrypt.compare`
  pub hash_password : String → String → String
  pub compare : String → String → Bool
  -- `ms` of the life of a refresh token: `none` where it answers undefined
  pub refresh_token_life : Option ℕ
  pub email_verification_expires_in_min : ℕ
  pub reset_password_expires_in_min : ℕ
  pub mail : MailConfig
  -- a token that is valid has the payload that is signed into it, at any time
  pub verify_refresh_lem :
      (token : String) (now : ℕ) (p : AuthJwt)
      → verify_refresh token now ≡ some p
      → verify_refresh_expired token ≡ some p
  pub compare-hash : (p salt : String) → compare p (hash_password p salt) ≡ true
