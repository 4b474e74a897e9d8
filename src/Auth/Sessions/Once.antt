-- ===== src/Auth/Sessions/Once.antt =====
-- A refresh token is taken once: `refreshToken` of server/src/modules/auth/auth.service.ts.
use bid_battle.Prelude.{find_where_holds}
use bid_battle.Platform.Accounts.Queries.{find_where-save_token}
use bid_battle.Users.Tokens.{is_refresh, mark_token_as_used, spent, find_active_refresh_token}
use bid_battle.Platform.Sockets.{AuthJwt}
use bid_battle.Users.Profile.{find_one_by}
use bid_battle.Auth.Sessions.{names, generate_access_token, refresh_access}
use bid_battle.Prelude.{find_where}
use bid_battle.Platform.Accounts.{find_user_where, save_token, Accounts}
use bid_battle.Entities.{User, UserToken}
use bid_battle.Auth.Credentials.{Credentials}
use bid_battle.Prelude.{refl, false, inr, arith, inl, Option-cases, some, ◌≢◌, ◌≡◌, String, ℕ}
use bid_battle.Platform.Effects.{request, Outcome, World, Platform}

abbrev with_spent : ℕ → UserToken → Accounts → Accounts
with_spent now k t = record t { tokens = save_token (spent now k) t.tokens }

module _ (P : Platform) (c : Credentials) (token : String) where
  open P.database.account_tables use {accounts, same_text, accounts-put}
  open c use {verify_refresh, hash_token}

  -- What a refresh that succeeds has found, and the tables it leaves.
  pub record IsRefreshed (w w' : World P) : Type 0 where
    pub payload : AuthJwt
    pub user : User
    pub stored : UserToken
    pub verified : verify_refresh token w.now ≡ some payload
    pub known : find_user_where (names P c payload) (accounts w.rows) ≡ some user
    pub active :
        find_where (is_refresh P (hash_token token) user.id) (accounts w.rows).tokens ≡ some stored
    pub fresh : stored.is_used ≡ false
    pub left : accounts w'.rows ≡ with_spent w.now stored (accounts w.rows)

  refresh_access_ok :
      (w : World P) {a : String} {w' : World P}
      → refresh_access P c token w ≡ (Outcome.ok a, w')
      → IsRefreshed w w'
  unfolding refresh_access find_one_by find_active_refresh_token mark_token_as_used
      generate_access_token request
  refresh_access_ok w {a} {w'} h = elim (Option-cases (verify_refresh token w.now)) [
    | inl invalid ↦ absurd (ground arith)
    | inr (p, verified) ↦ elim (Option-cases (find_user_where (names P c p) (accounts w.rows))) [
      | inl unknown ↦ absurd (ground arith)
      | inr (u, known) ↦
          elim (Option-cases
            (find_where (is_refresh P (hash_token token) u.id) (accounts w.rows).tokens)) [
              | inl missing ↦ absurd (ground arith)
              | inr (k, active) ↦ record {
                payload = p;
                user = u;
                stored = k;
                verified = verified;
                known = known;
                active = active;
                fresh = ground arith;
                left = ground (arith, accounts-put (with_spent w.now k (accounts w.rows)) w.rows);
              }
            ]
    ]
  ]

  -- A refresh token that was taken is not taken again, whatever the time and whatever requests fail,
  -- while the accounts and their tokens are as the first refresh has left them.
  pub refresh_access_once :
      (w v : World P) (a b : String) {w' v' : World P}
      → refresh_access P c token w ≡ (Outcome.ok a, w')
      → accounts v.rows ≡ accounts w'.rows
      → refresh_access P c token v ≢ (Outcome.ok b, v')
  refresh_access_once w v a b {w'} {v'} first same second =
      let x = refresh_access_ok w first in
      let y = refresh_access_ok v second in
      let mine = is_refresh P (hash_token token) x.user.id in
      let rows = (accounts w.rows).tokens in
      let fits = find_where_holds mine rows x.stored x.active in
      let again =
        find_where-save_token mine rows x.stored (spent w.now x.stored) x.active refl fits in
      let one = c.verify_refresh_lem token w.now x.payload x.verified in
      let other = c.verify_refresh_lem token v.now y.payload y.verified in
      ground (arith, x.left, x.known, y.known, y.active, y.fresh)
