-- ===== src/Platform/Accounts.antt =====
-- The four tables of accounts as TypeORM reads and writes them. A row that is saved without an id
-- gets the next one; a row that is saved with one replaces the row that has it.
pub mod Queries
use text.Mathlib.Text.{◌==◌ as str_eq}
use bid_battle.Prelude.{
  update_where, find_where, ℕ, suc, String, Bool, true, false, not, ◌&&◌, Option, none, some, List,
  [], ◌∷◌, ◌==◌, if◌then◌else◌, is_some,
}
use bid_battle.Entities.{
  User, UserToken, UserTokenType, SocialAccount, SocialProvider, UserPreferences,
}

-- The rows, and the next values of the ids that the server counts up.
pub record Accounts : Type 0 where
  pub users : List User
  pub tokens : List UserToken
  pub social_accounts : List SocialAccount
  pub preferences : List UserPreferences
  pub next_user_id : ℕ
  pub next_token_id : ℕ
  pub next_social_id : ℕ

-- `a === b` on the values of the enums.
abbrev pub kind_eq : UserTokenType → UserTokenType → Bool
kind_eq UserTokenType.password_reset UserTokenType.password_reset = true
kind_eq UserTokenType.refresh_token UserTokenType.refresh_token = true
kind_eq UserTokenType.email_verification UserTokenType.email_verification = true
kind_eq _ _ = false

abbrev pub provider_eq : SocialProvider → SocialProvider → Bool
provider_eq SocialProvider.google SocialProvider.google = true
provider_eq SocialProvider.github SocialProvider.github = true
provider_eq _ _ = false

-- A query without the column `password`, which is not selected by default.
abbrev pub without_password : User → User
without_password u = record u { password = none }

-- A soft-deleted row is found by no query; an update still reaches it.
abbrev pub is_live : User → Bool
is_live u = not (is_some u.deleted_at)

-- `save` of a user that was loaded without its password leaves that column alone.
abbrev pub save_over : User → User → User
save_over u old = record u { password = elim u.password [ none ↦ old.password | some p ↦ some p ] }

abbrev pub find_user_where : (User → Bool) → Accounts → Option User
find_user_where p t = find_where (λ u. is_live u && p u) t.users

-- The equality of texts is that of the columns' collation.
module _ (same_text : String → String → Bool) where
  -- an insert that the UNIQUE index on `email` refuses gives no row; soft-deleted rows count
  abbrev pub insert_user : User → Accounts → Option User × Accounts
  insert_user u t =
      let row = record u { id = t.next_user_id } in
      if is_some (find_where (λ v. same_text v.email u.email) t.users)
      then (none, t)
      else (some row, record t { users = row ∷ t.users; next_user_id = suc t.next_user_id })

  -- the UNIQUE index on (`provider`, `provider_id`)
  abbrev pub insert_social : SocialAccount → Accounts → Option SocialAccount × Accounts
  insert_social a t =
      let row = record a { id = t.next_social_id } in
      if is_some (
        find_where (λ b. provider_eq b.provider a.provider && same_text b.provider_id a.provider_id)
          t.social_accounts)
      then (none, t)
      else (
        some row,
        record t {
          social_accounts = row ∷ t.social_accounts;
          next_social_id = suc t.next_social_id;
        },
      )

abbrev pub insert_token : UserToken → Accounts → UserToken × Accounts
insert_token k t =
    let row = record k { id = t.next_token_id } in
    (row, record t { tokens = row ∷ t.tokens; next_token_id = suc t.next_token_id })

-- The primary key of `user_preferences` is the user's id.
abbrev pub save_preferences_row : UserPreferences → List UserPreferences → List UserPreferences
save_preferences_row p rows =
    if is_some (find_where (λ q. q.user_id == p.user_id) rows)
    then update_where (λ q. q.user_id == p.user_id) (λ _. p) rows
    else p ∷ rows

abbrev pub save_token : UserToken → List UserToken → List UserToken
save_token k rows =
    if is_some (find_where (λ x. x.id == k.id) rows)
    then update_where (λ x. x.id == k.id) (λ _. k) rows
    else k ∷ rows
