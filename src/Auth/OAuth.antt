-- ===== src/Auth/OAuth.antt =====
-- Logins by an OAuth provider: server/src/modules/auth/auth.service.ts. What is drawn at random is an
-- argument, and so are JSON.parse and JSON.stringify of an exchange payload.
pub mod Linking
pub mod Exchange
use bid_battle.Platform.Redis.{RedisKey}
use bid_battle.Users.Profile.{
  create_default_preferences, create_for_user, find_by_provider, find_one_by, save_new_user,
}
use bid_battle.Platform.Effects.{◌>>=◌, ◌>>◌}
use bid_battle.Auth.Sessions.{record_login, open_session, AuthSession, unauthorized}
use bid_battle.Auth.Credentials.{Credentials}
use bid_battle.Platform.Effects.{Exception, pure, throw, transaction, Eff, Platform}
use bid_battle.Prelude.{if◌then◌else◌, some, Bool, Option, none, String, ℕ}
use bid_battle.Entities.{SocialAccount, SocialProvider, User}
use Prim.Native.String.{◌++◌ as str_append}
use bid_battle.Redis.Cache.{get_cache, set_cache, delete_cache}

-- IOAuthProfile
pub record OAuthProfile : Type 0 where
  pub provider_id : String
  pub email : String
  pub email_verified : Bool
  pub first_name : String
  pub last_name : String
  pub avatar : Option String

abbrev pub new_user : OAuthProfile → User
new_user profile = record {
  id = 0;
  email = profile.email;
  password = none;
  first_name = profile.first_name;
  last_name = profile.last_name;
  avatar = profile.avatar;
  is_email_verified = profile.email_verified;
  last_login_at = none;
  password_changed_at = none;
  deleted_at = none;
}

abbrev provider_name : SocialProvider → String
provider_name SocialProvider.google = "google"
provider_name SocialProvider.github = "github"

abbrev pub cannot_link : String → SocialProvider → String
cannot_link email provider = str_append "Cannot link account: email '" (
    str_append email (str_append "' is not verified by " (str_append (provider_name provider) ".")))

-- The key in Redis of an exchange code, and the seconds it lasts.
abbrev pub exchange_key : String → String
exchange_key code = str_append "oauth:exchange:" code

abbrev pub exchange_ttl : ℕ
exchange_ttl = 120

module _ (P : Platform) (c : Credentials) where
  open P.database.account_tables use {same_text}

  -- a user's social account and the user
  abbrev Linked : Type 0
  Linked = SocialAccount × Option User

  abbrev link : SocialProvider → OAuthProfile → User → Eff P Linked
  link provider profile u =
      if profile.email_verified
      then (do social ← create_for_user P provider profile.provider_id u.id; pure (social, some u))
      else unauthorized (cannot_link profile.email provider)

  abbrev sign_up : SocialProvider → OAuthProfile → Eff P Linked
  sign_up provider profile = transaction do
    u ← save_new_user P (new_user profile)
    preferences ← create_default_preferences P u.id
    social ← create_for_user P provider profile.provider_id u.id
    pure (social, some u)

  abbrev link_or_sign_up : SocialProvider → OAuthProfile → Option User → Eff P Linked
  link_or_sign_up provider profile none = sign_up provider profile
  link_or_sign_up provider profile (some u) = link provider profile u

  abbrev identify : SocialProvider → OAuthProfile → Option Linked → Eff P Linked
  identify provider profile (some known) = pure known
  identify provider profile none = do
    found ← find_one_by P (λ u. same_text u.email profile.email)
    link_or_sign_up provider profile found

  -- the user of the social account is null when he is soft-deleted
  abbrev open_linked : Option User → Eff P AuthSession
  open_linked none = throw Exception.type_error
  open_linked (some u) = open_session P c u

  unfoldable pub validate_oauth_login : OAuthProfile → SocialProvider → Eff P AuthSession
  validate_oauth_login profile provider = do
    known ← find_by_provider P provider profile.provider_id
    linked ← identify provider profile known
    record_login P c linked.0.user_id
    open_linked linked.1

module _ (P : Platform) where
  unfoldable pub create_oauth_exchange_code :
      {T : Type 0} → (T → String) → String → T → Eff P String
  create_oauth_exchange_code stringify code payload = do
    set_cache P stringify (exchange_key code) payload exchange_ttl
    pure code

  abbrev take_payload : {T : Type 0} → String → Option T → Eff P T
  take_payload code none = unauthorized "auth.errors.oauth_code_invalid_or_expired"
  take_payload code (some payload) = do
    delete_cache P (RedisKey.cached (exchange_key code))
    pure payload

  unfoldable pub exchange_oauth_code : {T : Type 0} → (String → Option T) → String → Eff P T
  exchange_oauth_code parse code = do
    payload ← get_cache P parse (exchange_key code)
    take_payload code payload
