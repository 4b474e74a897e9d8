-- ===== src/Auth/Registration.antt =====
-- Accounts by email and password, and their verification: server/src/modules/auth/auth.service.ts.
-- What is drawn at random, a token or a salt, is an argument.
use bid_battle.Auth.Passwords.{bad_request, concat_name}
use bid_battle.Mail.{send_email_verification_email}
use bid_battle.Users.Profile.{create_default_preferences, update_by, save_new_user, find_one_by}
use bid_battle.Users.Tokens.{
  mark_token_as_used, delete_user_tokens_by_type, generate_token, verify_token,
}
use bid_battle.Entities.{UserTokenType, Language, User, UserToken}
use bid_battle.Prelude.{true, ◌==◌, false, if◌then◌else◌, none, Option, some, String}
use bid_battle.Platform.Effects.{Exception, pure, throw, Eff, Platform, ◌>>=◌, ◌>>◌}
use bid_battle.Auth.Credentials.{Credentials}

-- AuthRegisterDto, without the repetition of the password, which is validated before
pub record Register : Type 0 where
  pub email : String
  pub password : String
  pub first_name : String
  pub last_name : String

abbrev pub registered : Register → String → User
registered dto hashed = record {
  id = 0;
  email = dto.email;
  password = some hashed;
  first_name = dto.first_name;
  last_name = dto.last_name;
  avatar = none;
  is_email_verified = false;
  last_login_at = none;
  password_changed_at = none;
  deleted_at = none;
}

module _ (P : Platform) (c : Credentials) where
  open P.database.account_tables use {same_text}

  unfoldable pub send_verification_email : Language → String → User → Eff P (Unit {0})
  send_verification_email lang random u = do
    stored ←
        generate_token P u.id UserTokenType.email_verification c.email_verification_expires_in_min
          random
    send_email_verification_email P c.mail u.email lang (concat_name u)
        c.email_verification_expires_in_min stored.token

  abbrev register_new : Language → String → String → Register → Option User → Eff P (Unit {0})
  register_new lang salt random dto (some _) =
      throw (Exception.conflict "auth.errors.user_with_email_#email_exists")
  register_new lang salt random dto none = do
    saved ← save_new_user P (registered dto (c.hash_password dto.password salt))
    preferences ← create_default_preferences P saved.id
    send_verification_email lang random saved

  unfoldable pub register : Language → String → String → Register → Eff P (Unit {0})
  register lang salt random dto = do
    existing ← find_one_by P (λ u. same_text u.email dto.email)
    register_new lang salt random dto existing

  -- `tokenEntity.user` is null when the account is soft-deleted
  abbrev verify_for : UserToken → Option User → Eff P (Unit {0})
  verify_for stored none = throw Exception.type_error
  verify_for stored (some u) =
      if u.is_email_verified then bad_request "auth.errors.email_already_verified" else (do
        update_by P (λ v. v.id == u.id) (λ v. record v { is_email_verified = true })
        mark_token_as_used P stored)

  unfoldable pub verify_email : String → Eff P (Unit {0})
  verify_email token = do
    found ← verify_token P token UserTokenType.email_verification
    verify_for found.0 found.1

  -- nobody is told whether the email exists
  abbrev resend_for : Language → String → Option User → Eff P (Unit {0})
  resend_for lang random none = pure tt
  resend_for lang random (some u) = if u.is_email_verified then pure tt else (do
    delete_user_tokens_by_type P u.id UserTokenType.email_verification
    send_verification_email lang random u)

  unfoldable pub resend_verification_email : Language → String → String → Eff P (Unit {0})
  resend_verification_email lang random email = do
    found ← find_one_by P (λ u. same_text u.email email)
    resend_for lang random found
