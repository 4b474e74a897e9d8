-- ===== src/Users/Profile.antt =====
-- server/src/modules/users/users.service.ts, user-preferences.service.ts and
-- social-account.service.ts, with their repositories. The files of avatars are the parameters
-- `upload` and `delete_file`, of server/src/shared/file-upload; a text stands for its i18n key.
use mathlib.Core.Option
use bid_battle.Prelude.{◌&&◌, none, some, true, Bool, Option, String, get_or, ℕ, ◌==◌}
use bid_battle.Prelude.{find_where, update_where}
use bid_battle.Platform.Accounts.{
  insert_user, insert_social, provider_eq, save_over, save_preferences_row, without_password,
  find_user_where,
}
use bid_battle.Entities.{User, SocialAccount, SocialProvider, UserPreferences, Language}
use bid_battle.Platform.Effects.{
  Platform, Eff, Exception, pure, throw, transaction, try_catch, ◌>>=◌, ◌>>◌, current_time,
}
use bid_battle.Users.{ask_accounts, tell_accounts, change_accounts}
use bid_battle.Users.Tokens.{delete_all_user_tokens}

-- UpdateProfileDto: an empty text counts as none.
pub record UpdateProfile : Type 0 where
  pub first_name : Option String
  pub last_name : Option String

pub record UpdateUserPreferences : Type 0 where
  pub lang : Language
  pub notify_on_outbid : Bool
  pub notify_on_auction_end : Bool

abbrev pub set_profile : UpdateProfile → User → User
set_profile dto u = record u {
  first_name = get_or dto.first_name u.first_name;
  last_name = get_or dto.last_name u.last_name;
}

abbrev pub default_preferences : ℕ → UserPreferences
default_preferences id = record {
  user_id = id;
  lang = Language.en;
  notify_on_outbid = true;
  notify_on_auction_end = true;
}

abbrev pub unknown_user : Exception
unknown_user = Exception.not_found "user.error.user_not_found"

module _ (P : Platform) where
  open P.database.account_tables use {same_text}

  -- `findOneBy` on any columns
  unfoldable pub find_one_by : (User → Bool) → Eff P (Option User)
  find_one_by p = ask_accounts λ t. Option.map without_password (find_user_where p t)

  unfoldable pub find_one_with_password_by_email : String → Eff P (Option User)
  find_one_with_password_by_email email =
      ask_accounts (find_user_where λ u. same_text u.email email)

  abbrev or_duplicate : {A : Type 0} → Option A → Eff P A
  or_duplicate none = throw Exception.duplicate_entry
  or_duplicate (some x) = pure x

  -- `save` of a user who has no id yet
  unfoldable pub save_new_user : User → Eff P User
  save_new_user u = do saved ← tell_accounts (insert_user same_text u); or_duplicate saved

  -- `save` of a user who was loaded
  unfoldable pub save_user : User → Eff P User
  save_user u = do
    change_accounts λ t. record t { users = update_where (λ v. v.id == u.id) (save_over u) t.users }
    pure u

  unfoldable pub update_by : (User → Bool) → (User → User) → Eff P (Unit {0})
  update_by p f = change_accounts λ t. record t { users = update_where p f t.users }

  abbrev or_not_found : Option User → Eff P User
  or_not_found none = throw unknown_user
  or_not_found (some u) = pure u

  abbrev pub found_user : ℕ → Eff P User
  found_user user_id = do found ← find_one_by (λ u. u.id == user_id); or_not_found found

  unfoldable pub get_public_profile : ℕ → Eff P User
  get_public_profile user_id = found_user user_id

  unfoldable pub update_profile : ℕ → UpdateProfile → Eff P User
  update_profile user_id dto = do u ← found_user user_id; save_user (set_profile dto u)

  unfoldable pub delete_account : ℕ → Eff P (Unit {0})
  delete_account user_id = transaction do
    now ← current_time
    update_by (λ u. u.id == user_id) (λ u. record u { deleted_at = some now })
    delete_all_user_tokens P user_id

  module _ {File : Type 0} (upload : File → Eff P String)
      (delete_file : String → Eff P (Unit {0})) where
    abbrev drop_avatar : Option String → Eff P (Unit {0})
    drop_avatar none = pure tt
    drop_avatar (some path) = try_catch (delete_file path) (λ _. pure tt)

    unfoldable pub update_avatar : ℕ → File → Eff P User
    update_avatar user_id file = do
      u ← found_user user_id
      url ←
          try_catch (upload file)
            (λ _. throw (Exception.bad_request "user.error.update_avatar_failed"))
      saved ← save_user (record u { avatar = some url })
      drop_avatar u.avatar
      pure saved

    abbrev clear_avatar : User → Option String → Eff P (Unit {0})
    clear_avatar u none = pure tt
    clear_avatar u (some path) = do
      delete_file path
      saved ← save_user (record u { avatar = none })
      pure tt

    abbrev clear_if_found : Option User → Eff P (Unit {0})
    clear_if_found none = pure tt
    clear_if_found (some u) = clear_avatar u u.avatar

    unfoldable pub delete_avatar : ℕ → Eff P (Unit {0})
    delete_avatar user_id = do found ← find_one_by (λ u. u.id == user_id); clear_if_found found

  unfoldable pub save_preferences : UserPreferences → Eff P UserPreferences
  save_preferences p = do
    change_accounts λ t. record t { preferences = save_preferences_row p t.preferences }
    pure p

  unfoldable pub create_default_preferences : ℕ → Eff P UserPreferences
  create_default_preferences user_id = save_preferences (default_preferences user_id)

  unfoldable pub find_by_user_id : ℕ → Eff P (Option UserPreferences)
  find_by_user_id user_id = ask_accounts λ t. find_where (λ p. p.user_id == user_id) t.preferences

  abbrev or_create : ℕ → Option UserPreferences → Eff P UserPreferences
  or_create user_id none = create_default_preferences user_id
  or_create user_id (some p) = pure p

  unfoldable pub find_or_create_by_user_id : ℕ → Eff P UserPreferences
  find_or_create_by_user_id user_id = do
    existing ← find_by_user_id user_id
    or_create user_id existing

  unfoldable pub update_preferences : ℕ → UpdateUserPreferences → Eff P UserPreferences
  update_preferences user_id dto = do
    p ← find_or_create_by_user_id user_id
    save_preferences (record {
      user_id = p.user_id;
      lang = dto.lang;
      notify_on_outbid = dto.notify_on_outbid;
      notify_on_auction_end = dto.notify_on_auction_end;
    })

  -- the social account, and its user unless he is soft-deleted
  unfoldable pub find_by_provider :
      SocialProvider → String → Eff P (Option (SocialAccount × Option User))
  find_by_provider provider provider_id = ask_accounts λ t.
      Option.map
        (λ s. (s, Option.map without_password (find_user_where (λ u. u.id == s.user_id) t)))
        (find_where (λ s. provider_eq s.provider provider && same_text s.provider_id provider_id)
          t.social_accounts)

  unfoldable pub create_for_user : SocialProvider → String → ℕ → Eff P SocialAccount
  create_for_user provider provider_id user_id = do
    saved ← tell_accounts (
        insert_social same_text
          (record { id = 0; provider = provider; provider_id = provider_id; user_id = user_id }))
    or_duplicate saved
