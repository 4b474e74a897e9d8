-- ===== src/Auth/Controller.antt =====
-- server/src/modules/auth/auth.controller.ts with the cookie service of server/src. A handler answers
-- a body and what it does to the response; a message stands for its i18n key.
use bid_battle.Auth.Passwords.{change_password, ChangePassword, forgot_password, reset_password}
use bid_battle.Auth.Registration.{register, Register, resend_verification_email, verify_email}
use bid_battle.Entities.{Language, SocialProvider, User}
use bid_battle.Auth.Credentials.{Credentials}
use bid_battle.Auth.OAuth.{
  exchange_oauth_code, create_oauth_exchange_code, validate_oauth_login, OAuthProfile,
}
use bid_battle.Auth.Sessions.{refresh_access, login, logout, unauthorized, AuthSession, SessionUser}
use bid_battle.Prelude.{none, if◌then◌else◌, get_or, some, ◌∷◌, ℕ, Bool, List, Option, String, []}
use bid_battle.Platform.Effects.{pure, Eff, Platform, ◌>>=◌, ◌>>◌}
use Prim.Native.String.{◌++◌ as str_append}
use text.Mathlib.Text.{◌==◌ as str_eq}

-- The cookies that a response sets or clears; all are HttpOnly, SameSite lax and for the path `/`.
pub data CookieChange : Type 0 where
  -- the name, the value, whether it is Secure, and its age in milliseconds where `ms` answers one
  set_cookie : String → String → Bool → Option ℕ → CookieChange
  clear_cookie : String → CookieChange

pub record Reply (T : Type 0) : Type 0 where
  pub body : T
  pub cookies : List CookieChange

-- AuthLoginResponse
pub record LoginResponse : Type 0 where
  pub access_token : String
  pub user : SessionUser

pub record ControllerConfig : Type 0 where
  pub refresh_token_name : String
  pub in_production : Bool
  pub frontend_host : String
  -- `encodeURIComponent`
  pub encode : String → String

-- what the guard has put into the request: an error with its message, or the profile
pub data Callback : Type 0 where
  failed : Option String → Callback
  profile_given : OAuthProfile → Callback

abbrev pub message : {T : Type 0} → T → Reply T
message body = record { body = body; cookies = [] }

module _ (P : Platform) (c : Credentials) (config : ControllerConfig) where
  abbrev pub refresh_cookie : String → CookieChange
  refresh_cookie token =
      CookieChange.set_cookie config.refresh_token_name token config.in_production
        c.refresh_token_life

  abbrev pub cleared_cookie : CookieChange
  cleared_cookie = CookieChange.clear_cookie config.refresh_token_name

  -- the session without its refresh token, which goes into the cookie
  abbrev pub session_reply : AuthSession → Reply LoginResponse
  session_reply s = record {
    body = record { access_token = s.access_token; user = s.user };
    cookies = refresh_cookie s.refresh_token ∷ [];
  }

  unfoldable pub post_register : Language → String → String → Register → Eff P (Reply String)
  post_register lang salt random dto = do
    register P c lang salt random dto
    pure (message "auth.info.registration_completed_successfully")

  unfoldable pub post_login : String → String → Eff P (Reply LoginResponse)
  post_login email password = do s ← login P c email password; pure (session_reply s)

  -- no cookie, or an empty one
  abbrev refresh_by : Option String → Eff P (Reply String)
  refresh_by none = unauthorized "auth.errors.refresh_token_not_recognized"
  refresh_by (some token) =
      if str_eq token ""
      then unauthorized "auth.errors.refresh_token_not_recognized"
      else (do access ← refresh_access P c token; pure (message access))

  -- the cookie has a fixed name here
  unfoldable pub post_refresh : (String → Option String) → Eff P (Reply String)
  post_refresh cookie = refresh_by (cookie "refreshToken")

  unfoldable pub post_logout : (String → Option String) → Eff P (Reply String)
  post_logout cookie = do
    logout P c (cookie config.refresh_token_name)
    pure (record { body = "auth.info.logged_out_successfully"; cookies = cleared_cookie ∷ [] })

  unfoldable pub post_forgot_password : Language → String → String → Eff P (Reply String)
  post_forgot_password lang random email = do
    forgot_password P c lang random email
    pure (message "auth.info.password_reset_link_sent")

  unfoldable pub post_reset_password : Language → String → String → String → Eff P (Reply String)
  post_reset_password lang salt token password = do
    reset_password P c lang salt token password
    pure (message "auth.info.password_successfully_changed")

  unfoldable pub post_change_password : String → User → ChangePassword → Eff P (Reply String)
  post_change_password salt user dto = do
    change_password P c salt user.email dto
    pure (message "auth.info.password_successfully_changed")

  unfoldable pub post_verify_email : String → Eff P (Reply String)
  post_verify_email token = do
    verify_email P c token
    pure (message "auth.info.email_verified_successfully")

  unfoldable pub post_resend_verification : Language → String → String → Eff P (Reply String)
  post_resend_verification lang random email = do
    resend_verification_email P c lang random email
    pure (message "auth.info.verification_email_resent")

  -- where the browser is sent, with the code of the session or with an error
  abbrev pub callback_url : String → String
  callback_url query = str_append config.frontend_host (str_append "/auth/oauth-callback?" query)

  unfoldable pub handle_oauth_callback :
      (AuthSession → String) → String → OAuthProfile → SocialProvider → Eff P (Reply String)
  handle_oauth_callback stringify code profile provider = do
    s ← validate_oauth_login P c profile provider
    exchange_code ← create_oauth_exchange_code P stringify code s
    pure (record {
      body = callback_url (str_append "code=" exchange_code);
      cookies = refresh_cookie s.refresh_token ∷ [];
    })

  abbrev oauth_callback :
      SocialProvider → (AuthSession → String) → String → Callback → Eff P (Reply String)
  oauth_callback provider stringify code (Callback.failed text) = pure (
      message (
        callback_url
          (str_append "error=" (config.encode (get_or text "OAuth authentication failed")))))
  oauth_callback provider stringify code (Callback.profile_given profile) =
      handle_oauth_callback stringify code profile provider

  unfoldable pub google_auth_callback :
      (AuthSession → String) → String → Callback → Eff P (Reply String)
  google_auth_callback = oauth_callback SocialProvider.google

  unfoldable pub github_auth_callback :
      (AuthSession → String) → String → Callback → Eff P (Reply String)
  github_auth_callback = oauth_callback SocialProvider.github

  unfoldable pub get_oauth_exchange :
      (String → Option AuthSession) → Option String → Eff P (Reply LoginResponse)
  get_oauth_exchange parse none = unauthorized "auth.errors.oauth_code_not_provided"
  get_oauth_exchange parse (some code) =
      if str_eq code ""
      then unauthorized "auth.errors.oauth_code_not_provided"
      else (do s ← exchange_oauth_code P parse code; pure (session_reply s))
