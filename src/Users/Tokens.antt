-- ===== src/Users/Tokens.antt =====
-- server/src/modules/users/users-token.service.ts. What `randomBytes` draws is an argument, and so is
-- the hash of a token; `ms` of a life is `none` where it answers undefined.
use mathlib.Core.Option
use bid_battle.Prelude.{
  not, if◌then◌else◌, none, ◌&&◌, ◌*◌, Bool, false, some, true, ◌+◌, ◌==◌, Option, String, ltb, ℕ,
}
use bid_battle.Prelude.{find_where, update_where, delete_where}
use bid_battle.Platform.Accounts.{
  Accounts, is_live, kind_eq, insert_token, save_token, without_password,
}
use bid_battle.Entities.{User, UserToken, UserTokenType}
use bid_battle.Platform.Effects.{
  Platform, Eff, Exception, pure, throw, try_catch, ◌>>=◌, current_time,
}
use bid_battle.Users.{ask_accounts, tell_accounts, change_accounts}

abbrev pub new_token : String → UserTokenType → ℕ → ℕ → UserToken
new_token token kind user_id expires_at = record {
  id = 0;
  token = token;
  kind = kind;
  user_id = user_id;
  expires_at = expires_at;
  is_used = false;
  used_at = none;
}

abbrev pub spent : ℕ → UserToken → UserToken
spent now k = record k { is_used = true; used_at = some now }

module _ (P : Platform) where
  open P.database.account_tables use {same_text}

  unfoldable pub generate_token : ℕ → UserTokenType → ℕ → String → Eff P UserToken
  generate_token user_id kind expires_in_minutes random = do
    now ← current_time
    tell_accounts (insert_token (new_token random kind user_id (now + expires_in_minutes * 60000)))

  unfoldable pub save_refresh_token : ℕ → String → Option ℕ → Eff P UserToken
  save_refresh_token user_id hashed none = throw Exception.invalid_expires_in
  save_refresh_token user_id hashed (some life) = do
    now ← current_time
    tell_accounts (insert_token (new_token hashed UserTokenType.refresh_token user_id (now + life)))

  -- the row that a valid token names; a relation to a soft-deleted user is loaded as null
  abbrev pub is_unused : String → UserTokenType → UserToken → Bool
  is_unused token kind k = same_text k.token token && (kind_eq k.kind kind && not k.is_used)

  abbrev pub user_of : UserToken → Accounts → Option User
  user_of k t =
      Option.map without_password (find_where (λ u. is_live u && u.id == k.user_id) t.users)

  abbrev pub find_unused : String → UserTokenType → Accounts → Option (UserToken × Option User)
  find_unused token kind t = elim (find_where (is_unused token kind) t.tokens) [
    | none ↦ none
    | some k ↦ some (k, user_of k t)
  ]

  abbrev check_token : Option (UserToken × Option User) → Eff P (UserToken × Option User)
  check_token none = throw (Exception.bad_request "auth.errors.token_not_exist_or_used")
  check_token (some found) = do
    now ← current_time
    if ltb found.0.expires_at now
        then throw (Exception.bad_request "auth.errors.token_expired")
        else pure found

  unfoldable pub verify_token : String → UserTokenType → Eff P (UserToken × Option User)
  verify_token token kind = do found ← ask_accounts (find_unused token kind); check_token found

  unfoldable pub mark_token_as_used : UserToken → Eff P (Unit {0})
  mark_token_as_used k = do
    now ← current_time
    change_accounts λ t. record t { tokens = save_token (spent now k) t.tokens }

  unfoldable pub delete_expired_tokens : Eff P (Unit {0})
  delete_expired_tokens = do
    now ← current_time
    change_accounts λ t. record t { tokens = delete_where (λ k. ltb k.expires_at now) t.tokens }

  unfoldable pub delete_user_tokens_by_type : ℕ → UserTokenType → Eff P (Unit {0})
  delete_user_tokens_by_type user_id kind = change_accounts λ t. record t {
    tokens = delete_where (λ k. k.user_id == user_id && kind_eq k.kind kind) t.tokens;
  }

  unfoldable pub delete_all_user_tokens : ℕ → Eff P (Unit {0})
  delete_all_user_tokens user_id =
      change_accounts λ t. record t { tokens = delete_where (λ k. k.user_id == user_id) t.tokens }

  abbrev pub is_refresh : String → ℕ → UserToken → Bool
  is_refresh hashed user_id k =
      same_text k.token hashed
      && (kind_eq k.kind UserTokenType.refresh_token && k.user_id == user_id)

  abbrev pub if_active : ℕ → Option UserToken → Option UserToken
  if_active now none = none
  if_active now (some k) = if k.is_used then none else if ltb k.expires_at now then none else some k

  unfoldable pub find_active_refresh_token : String → ℕ → Eff P (Option UserToken)
  find_active_refresh_token hashed user_id = do
    found ← ask_accounts (λ t. find_where (is_refresh hashed user_id) t.tokens)
    now ← current_time
    pure (if_active now found)

  abbrev pub is_unused_refresh : ℕ → UserToken → Bool
  is_unused_refresh user_id k =
      k.user_id == user_id && (kind_eq k.kind UserTokenType.refresh_token && not k.is_used)

  unfoldable pub revoke_all_refresh_tokens : ℕ → Eff P (Unit {0})
  revoke_all_refresh_tokens user_id = do
    now ← current_time
    change_accounts
        λ t. record t { tokens = update_where (is_unused_refresh user_id) (spent now) t.tokens }

  unfoldable pub cleanup_expired_tokens : Eff P (Unit {0})
  cleanup_expired_tokens = try_catch delete_expired_tokens (λ _. pure tt)
