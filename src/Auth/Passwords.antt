-- ===== src/Auth/Passwords.antt =====
-- Forgotten, reset and changed passwords: server/src/modules/auth/auth.service.ts. What is drawn at
-- random, a token or a salt, is an argument.
pub mod Changing
use bid_battle.Mail.{send_password_changed_email, send_forgot_password_email}
use bid_battle.Users.Profile.{update_by, find_one_with_password_by_email}
use bid_battle.Users.Tokens.{
  mark_token_as_used, generate_token, revoke_all_refresh_tokens, delete_user_tokens_by_type,
  verify_token,
}
use bid_battle.Platform.Effects.{current_time, ◌>>=◌, ◌>>◌}
use bid_battle.Auth.Credentials.{Credentials}
use bid_battle.Platform.Effects.{Exception, pure, throw, Eff, Platform}
use bid_battle.Entities.{UserTokenType, UserToken, Language, User}
use bid_battle.Prelude.{◌==◌, none, if◌then◌else◌, some, ℕ, Option, String}
use text.Mathlib.Text.{◌==◌ as str_eq}
use Prim.Native.String.{◌++◌ as str_append}

-- AuthChangePasswordDto: the empty text counts as no current password
pub record ChangePassword : Type 0 where
  pub current_password : Option String
  pub password : String
  pub password_repeat : String

abbrev pub concat_name : User → String
concat_name u = str_append u.first_name (str_append " " u.last_name)

abbrev pub bad_request : {P : Platform} {A : Type 0} → String → Eff P A
bad_request key = throw (Exception.bad_request key)

abbrev pub set_password : String → ℕ → User → User
set_password hashed now u = record u { password = some hashed; password_changed_at = some now }

module _ (P : Platform) (c : Credentials) where
  open P.database.account_tables use {same_text}
  open c use {hash_password, compare}

  abbrev offer_reset : Language → String → User → Option String → Eff P (Unit {0})
  offer_reset lang random u none = bad_request "auth.errors.oauth_account_cannot_reset_password"
  offer_reset lang random u (some _) = do
    delete_user_tokens_by_type P u.id UserTokenType.password_reset
    reset ←
        generate_token P u.id UserTokenType.password_reset c.reset_password_expires_in_min random
    send_forgot_password_email P c.mail u.email lang (concat_name u) c.reset_password_expires_in_min
        reset.token

  -- nobody is told whether the email exists
  abbrev offer_reset_if_found : Language → String → Option User → Eff P (Unit {0})
  offer_reset_if_found lang random none = pure tt
  offer_reset_if_found lang random (some u) = offer_reset lang random u u.password

  unfoldable pub forgot_password : Language → String → String → Eff P (Unit {0})
  forgot_password lang random email = do
    found ← find_one_with_password_by_email P email
    offer_reset_if_found lang random found

  -- `userWithPassword?.password`
  abbrev password_of : Option User → Option String
  password_of none = none
  password_of (some u) = u.password

  abbrev reset_of : Language → String → String → UserToken → User → Option String → Eff P (Unit {0})
  reset_of lang salt password stored u none =
      bad_request "auth.errors.oauth_account_cannot_reset_password"
  reset_of lang salt password stored u (some _) = do
    now ← current_time
    update_by P (λ v. v.id == stored.user_id) (set_password (hash_password password salt) now)
    mark_token_as_used P stored
    send_password_changed_email P c.mail u.email lang (concat_name u)

  -- `tokenEntity.user` is null when the account is soft-deleted
  abbrev reset_for : Language → String → String → UserToken → Option User → Eff P (Unit {0})
  reset_for lang salt password stored none = throw Exception.type_error
  reset_for lang salt password stored (some u) = do
    found ← find_one_with_password_by_email P u.email
    reset_of lang salt password stored u (password_of found)

  unfoldable pub reset_password : Language → String → String → String → Eff P (Unit {0})
  reset_password lang salt token password = do
    found ← verify_token P token UserTokenType.password_reset
    reset_for lang salt password found.0 found.1

  abbrev write_password : String → String → String → User → Eff P (Unit {0})
  write_password salt email password u = do
    now ← current_time
    update_by P (λ v. same_text v.email email) (set_password (hash_password password salt) now)
    revoke_all_refresh_tokens P u.id

  abbrev check_current : String → String → String → User → String → Option String → Eff P (Unit {0})
  check_current salt email password u hashed none =
      bad_request "error.validation.currentPassword_is_string"
  check_current salt email password u hashed (some current) =
      if compare current hashed
      then write_password salt email password u
      else bad_request "auth.errors.the_current_password_incorrect"

  abbrev change_of : String → String → ChangePassword → User → Option String → Eff P (Unit {0})
  change_of salt email dto u none = bad_request "auth.errors.oauth_account_use_reset_password"
  change_of salt email dto u (some hashed) =
      check_current salt email dto.password u hashed dto.current_password

  abbrev change_for : String → String → ChangePassword → Option User → Eff P (Unit {0})
  change_for salt email dto none = throw (Exception.not_found "users.user_not_found")
  change_for salt email dto (some u) = change_of salt email dto u u.password

  abbrev change_found : String → String → ChangePassword → Eff P (Unit {0})
  change_found salt email dto = do
    found ← find_one_with_password_by_email P email
    change_for salt email dto found

  unfoldable pub change_password : String → String → ChangePassword → Eff P (Unit {0})
  change_password salt email dto =
      if str_eq dto.password dto.password_repeat
      then change_found salt email dto
      else bad_request "error.validation.passwords_do_not_match"
