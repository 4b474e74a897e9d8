-- ===== src/Auth/Passwords/Changing.antt =====
-- What a change of password leaves: `changePassword` of server/src/modules/auth/auth.service.ts.
use bid_battle.Auth.WsGuard.{is_outdated}
use bid_battle.Platform.Sockets.{AuthJwt}
use bid_battle.Auth.Sessions.{if_password}
use bid_battle.Prelude.{find_where-exhaust, find_where-update}
use bid_battle.Users.Tokens.{spent, is_unused_refresh, revoke_all_refresh_tokens}
use bid_battle.Users.Profile.{update_by, find_one_with_password_by_email}
use bid_battle.Prelude.{find_where, update_where}
use bid_battle.Platform.Accounts.{without_password, is_live, Accounts, find_user_where}
use bid_battle.Entities.{User}
use bid_battle.Auth.Passwords.{set_password, change_password, ChangePassword}
use bid_battle.Prelude.{
  lt→ltb, Option-cases, ◌/◌, inl, ◌<◌, inr, refl, Bool-cases, arith, ◌&&◌, none, true, some, ◌≡◌,
  Bool, ℕ, String,
}
use bid_battle.Auth.Credentials.{Credentials}
use bid_battle.Platform.Effects.{Outcome, request, World, Platform}
use text.Mathlib.Text.{◌==◌ as str_eq}

module _ (P : Platform) (c : Credentials) (salt email : String) (dto : ChangePassword) where
  open P.database.account_tables use {accounts, same_text, accounts-put}

  abbrev has_email : User → Bool
  has_email u = same_text u.email email

  abbrev pub rewritten : ℕ → User → User
  rewritten now = set_password (c.hash_password dto.password salt) now

  -- The tables when the row of the user has the new password, and when his tokens are revoked too.
  abbrev repassworded : ℕ → Accounts → Accounts
  repassworded now t = record t { users = update_where has_email (rewritten now) t.users }

  abbrev all_revoked : ℕ → ℕ → Accounts → Accounts
  all_revoked user_id now t = record t {
    tokens = update_where (is_unused_refresh P user_id) (spent now) t.tokens;
  }

  -- A user of the email knew his password; the new one is now his, no unused refresh token of his is
  -- left, and an access token issued before the second of the change is outdated.
  pub record IsChanged (w w' : World P) : Type 0 where
    pub user : User
    pub hashed : String
    pub current : String
    pub known : find_user_where has_email (accounts w.rows) ≡ some user
    pub had : user.password ≡ some hashed
    pub given : dto.current_password ≡ some current
    pub right : c.compare current hashed ≡ true
    pub changed : find_user_where has_email (accounts w'.rows) ≡ some (rewritten w.now user)
    pub opens :
        if_password P c dto.password (some (rewritten w.now user))
        ≡ some (without_password (rewritten w.now user))
    pub revoked : find_where (is_unused_refresh P user.id) (accounts w'.rows).tokens ≡ none
    pub outdated :
        (p : AuthJwt) (iat : ℕ)
        → p.iat ≡ some iat
        → iat < w.now / 1000
        → is_outdated p (rewritten w.now user) ≡ true

  known_changed :
      (w : World P) (u : User)
      → find_user_where has_email (accounts w.rows) ≡ some u
      → find_user_where has_email (repassworded w.now (accounts w.rows)) ≡ some (rewritten w.now u)
  known_changed w u known =
      let found =
        find_where-update (λ u. is_live u && has_email u) has_email (rewritten w.now)
          (accounts w.rows).users (λ x h. ground arith) (λ x h. refl) in
      ground (arith, found)

  all_revoked_lem :
      (user_id now : ℕ) (t : Accounts)
      → find_where (is_unused_refresh P user_id) (all_revoked user_id now t).tokens ≡ none
  all_revoked_lem user_id now t =
      find_where-exhaust (is_unused_refresh P user_id) (spent now) t.tokens (λ x. ground arith)

  -- When `changePassword` succeeds, the user of the email gave his present password, he now has the
  -- new one, every refresh token of his is used, and the access tokens issued before the second of
  -- the change are outdated.
  pub change_password_changes :
      (w : World P) {w' : World P}
      → change_password P c salt email dto w ≡ (Outcome.ok tt, w')
      → IsChanged w w'
  unfolding change_password find_one_with_password_by_email update_by revoke_all_refresh_tokens
      request
  change_password_changes w {w'} h = elim (Bool-cases (str_eq dto.password dto.password_repeat)) [
    | inr differ ↦ absurd (ground arith)
    | inl agree ↦ elim (Option-cases (find_user_where has_email (accounts w.rows))) [
      | inl unknown ↦ absurd (ground arith)
      | inr (u, known) ↦ elim (Option-cases u.password) [
        | inl none_set ↦ absurd (ground arith)
        | inr (hashed, had) ↦ elim (Option-cases dto.current_password) [
          | inl not_given ↦ absurd (ground arith)
          | inr (current, given) ↦ elim (Bool-cases (c.compare current hashed)) [
            | inr wrong ↦ absurd (ground arith)
            | inl right ↦
                let t = accounts w.rows in
                let first = accounts-put (repassworded w.now t) w.rows in
                let second =
                  accounts-put (all_revoked u.id w.now (repassworded w.now t))
                    (P.database.account_tables.put_accounts (repassworded w.now t) w.rows) in
                let left : accounts w'.rows ≡ all_revoked u.id w.now (repassworded w.now t) =
                  ground (arith, first, second) in
                record {
                  user = u;
                  hashed = hashed;
                  current = current;
                  known = known;
                  had = had;
                  given = given;
                  right = right;
                  changed = ground (arith, left, known_changed w u known);
                  opens = ground (arith, c.compare-hash dto.password salt);
                  revoked = ground (arith, left, all_revoked_lem u.id w.now (repassworded w.now t));
                  outdated =
                      λ p iat issued before. ground (arith, lt→ltb iat (w.now / 1000) before);
                }
          ]
        ]
      ]
    ]
  ]
