-- ===== src/Auth/Leaving.antt =====
-- What is left of a deleted account: `deleteAccount` of server/src/modules/users/users.service.ts and
-- `validateJwtUser` of server/src/modules/auth/auth.service.ts.
use bid_battle.Entities.{User}
use bid_battle.Platform.Sockets.{AuthJwt}
use bid_battle.Prelude.{find_where-delete, find_where-bury}
use bid_battle.Users.Tokens.{delete_all_user_tokens}
use bid_battle.Auth.WsGuard.{validate_jwt_user}
use bid_battle.Users.Profile.{update_by, delete_account}
use bid_battle.Prelude.{find_where, delete_where, update_where}
use bid_battle.Platform.Accounts.{is_live, find_user_where, Accounts}
use bid_battle.Prelude.{refl, ◌≢◌, ◌&&◌, arith, Option, none, String, some, ◌≡◌, ◌==◌, ℕ}
use bid_battle.Platform.Effects.{Outcome, World, request, Platform}

module _ (P : Platform) (user_id : ℕ) where
  open P.database.account_tables use {accounts, put_accounts, accounts-put, find_user_lem}

  abbrev buried : ℕ → Accounts → Accounts
  buried now t = record t {
    users = update_where (λ u. u.id == user_id) (λ u. record u { deleted_at = some now }) t.users;
  }

  abbrev bereft : Accounts → Accounts
  bereft t = record t { tokens = delete_where (λ k. k.user_id == user_id) t.tokens }

  deleted_rows :
      (w : World P) {w' : World P}
      → delete_account P user_id w ≡ (Outcome.ok tt, w')
      → accounts w'.rows ≡ bereft (buried w.now (accounts w.rows))
  unfolding delete_account update_by delete_all_user_tokens request
  deleted_rows w {w'} h =
      let t = accounts w.rows in
      let first = accounts-put (buried w.now t) w.rows in
      let second = accounts-put (bereft (buried w.now t)) (put_accounts (buried w.now t) w.rows) in
      ground (arith, first, second)

  nobody :
      (now : ℕ) (t : Accounts)
      → find_user_where (λ u. u.id == user_id) (bereft (buried now t)) ≡ none
  nobody now t =
      find_where-bury (λ u. is_live u && u.id == user_id) (λ u. u.id == user_id)
        (λ u. record u { deleted_at = some now }) t.users (λ u h. refl) (λ u h. ground arith)

  -- When `deleteAccount` succeeds, no token of the user is left, and while the accounts and their
  -- tokens are as it has left them, no access token with his id is taken for that of a user; whatever
  -- requests fail.
  pub delete_account_forgets :
      (w v : World P) {w' : World P} (verify : String → ℕ → Option AuthJwt) (payload : AuthJwt)
      (u : User)
      → delete_account P user_id w ≡ (Outcome.ok tt, w')
      → accounts v.rows ≡ accounts w'.rows
      → payload.sub ≡ user_id
      → (find_where (λ k. k.user_id == user_id) (accounts w'.rows).tokens ≡ none)
        × ((validate_jwt_user P verify payload v).0 ≢ Outcome.ok u)
  unfolding validate_jwt_user request
  delete_account_forgets w v {w'} verify payload u h same his =
      let left = deleted_rows w {w' = w'} h in
      let gone = nobody w.now (accounts w.rows) in
      let tokens = find_where-delete (λ k. k.user_id == user_id) (accounts w.rows).tokens in
      let unknown : P.database.find_user user_id v.rows ≡ none =
        ground (arith, find_user_lem user_id v.rows, same, left, gone) in
      (ground (arith, left, tokens), λ ok. ground (arith, unknown, his))
