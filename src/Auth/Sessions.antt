-- ===== src/Auth/Sessions.antt =====
-- Logging in, refreshing and logging out: the methods of server/src/modules/auth/auth.service.ts that
-- make and take tokens.
pub mod Once
use bid_battle.Users.Profile.{update_by, find_one_by, find_one_with_password_by_email}
use bid_battle.Platform.Effects.{current_time, ◌>>=◌, ◌>>◌}
use bid_battle.Platform.Accounts.{without_password}
use bid_battle.Users.Tokens.{save_refresh_token, find_active_refresh_token, mark_token_as_used}
use bid_battle.Auth.Credentials.{Credentials}
use bid_battle.Platform.Effects.{Exception, pure, throw, Eff, Platform}
use bid_battle.Entities.{UserToken, User}
use bid_battle.Prelude.{none, ◌==◌, if◌then◌else◌, ◌&&◌, Bool, some, Option, String, ℕ}
use text.Mathlib.Text.{◌==◌ as str_eq}
use bid_battle.Platform.Sockets.{AuthJwt}

-- IOAuthUser
pub record SessionUser : Type 0 where
  pub id : ℕ
  pub email : String
  pub first_name : String
  pub last_name : String
  pub avatar : Option String

-- AuthSession
pub record AuthSession : Type 0 where
  pub access_token : String
  pub refresh_token : String
  pub user : SessionUser

abbrev pub session_user : User → SessionUser
session_user u = record {
  id = u.id;
  email = u.email;
  first_name = u.first_name;
  last_name = u.last_name;
  avatar = u.avatar;
}

abbrev pub unauthorized : {P : Platform} {A : Type 0} → String → Eff P A
unauthorized key = throw (Exception.unauthorized key)

module _ (P : Platform) (c : Credentials) where
  open P.database.account_tables use {same_text}
  open c use {
    sign_access, sign_refresh, verify_refresh, verify_refresh_expired, hash_token, compare,
  }

  -- the user whose password this is; an account without a password has none
  abbrev pub if_password : String → Option User → Option User
  if_password password none = none
  if_password password (some u) = elim u.password [
    | none ↦ none
    | some hashed ↦ if compare password hashed then some (without_password u) else none
  ]

  unfoldable pub validate_user : String → String → Eff P (Option User)
  validate_user email password = do
    found ← find_one_with_password_by_email P email
    pure (if_password password found)

  unfoldable pub generate_access_token : User → Eff P String
  generate_access_token u = do now ← current_time; pure (sign_access u.id u.email now)

  unfoldable pub generate_refresh_token : User → Eff P String
  generate_refresh_token u = do
    now ← current_time
    let token = sign_refresh u.id u.email now
    saved ← save_refresh_token P u.id (hash_token token) c.refresh_token_life
    pure token

  -- the access token and the refresh token
  unfoldable pub generate_auth_tokens : User → Eff P (String × String)
  generate_auth_tokens u = do
    access ← generate_access_token u
    refresh ← generate_refresh_token u
    pure (access, refresh)

  unfoldable pub open_session : User → Eff P AuthSession
  open_session u = do
    tokens ← generate_auth_tokens u
    pure (record { access_token = tokens.0; refresh_token = tokens.1; user = session_user u })

  unfoldable pub record_login : ℕ → Eff P (Unit {0})
  record_login user_id = do
    now ← current_time
    update_by P (λ u. u.id == user_id) (λ u. record u { last_login_at = some now })

  abbrev pub log_in : Option User → Eff P AuthSession
  log_in none = unauthorized "auth.errors.invalid_credential"
  log_in (some u) =
      if u.is_email_verified
      then (do record_login u.id; open_session u)
      else unauthorized "auth.errors.email_not_verified"

  unfoldable pub login : String → String → Eff P AuthSession
  login email password = do found ← validate_user email password; log_in found

  abbrev pub spend : User → Option UserToken → Eff P String
  spend u none = unauthorized "auth.errors.refresh_token_not_recognized"
  spend u (some stored) = do mark_token_as_used P stored; generate_access_token u

  abbrev pub refresh_for : String → Option User → Eff P String
  refresh_for token none = unauthorized "auth.errors.invalid_credential"
  refresh_for token (some u) = do
    stored ← find_active_refresh_token P (hash_token token) u.id
    spend u stored

  -- `findOneBy({ email: payload.email, id: payload.sub })`
  abbrev pub names : AuthJwt → User → Bool
  names payload u = same_text u.email payload.email && u.id == payload.sub

  abbrev pub refresh_with : String → Option AuthJwt → Eff P String
  refresh_with token none = unauthorized "auth.errors.refresh_token_not_recognized"
  refresh_with token (some payload) = do
    found ← find_one_by P (names payload)
    refresh_for token found

  unfoldable pub refresh_access : String → Eff P String
  refresh_access token = do now ← current_time; refresh_with token (verify_refresh token now)

  abbrev spend_if_active : Option UserToken → Eff P (Unit {0})
  spend_if_active none = pure tt
  spend_if_active (some stored) = mark_token_as_used P stored

  abbrev log_out : String → Option AuthJwt → Eff P (Unit {0})
  log_out token none = pure tt
  log_out token (some payload) = do
    stored ← find_active_refresh_token P (hash_token token) payload.sub
    spend_if_active stored

  -- no token, or the empty one, is no session
  unfoldable pub logout : Option String → Eff P (Unit {0})
  logout none = pure tt
  logout (some token) =
      if str_eq token "" then pure tt else log_out token (verify_refresh_expired token)
