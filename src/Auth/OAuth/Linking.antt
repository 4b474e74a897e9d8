-- ===== src/Auth/OAuth/Linking.antt =====
-- Whom a login by an OAuth provider lets in: `validateOAuthLogin` of
-- server/src/modules/auth/auth.service.ts.
use bid_battle.Auth.Sessions.{AuthSession}
use bid_battle.Prelude.{find_where}
use bid_battle.Platform.Accounts.{find_user_where, provider_eq}
use bid_battle.Prelude.{arith, ◌≢◌, false, some, none, ◌≡◌, ◌&&◌, Bool}
use bid_battle.Users.Profile.{find_one_by, find_by_provider}
use bid_battle.Entities.{User, SocialAccount, SocialProvider}
use bid_battle.Auth.OAuth.{validate_oauth_login, OAuthProfile}
use bid_battle.Auth.Credentials.{Credentials}
use bid_battle.Platform.Effects.{Outcome, World, request, Platform}

module _ (P : Platform) (c : Credentials) (profile : OAuthProfile) (provider : SocialProvider) where
  open P.database.account_tables use {accounts, same_text}

  abbrev pub is_linked : SocialAccount → Bool
  is_linked s = provider_eq s.provider provider && same_text s.provider_id profile.provider_id

  -- A profile whose email the provider has not verified never enters an account that it is not
  -- linked to: if a user has its email, the login throws and nothing changes.
  pub validate_oauth_login_unverified :
      (w : World P) (u : User)
      → find_where is_linked (accounts w.rows).social_accounts ≡ none
      → find_user_where (λ v. same_text v.email profile.email) (accounts w.rows) ≡ some u
      → profile.email_verified ≡ false
      → let (r, w') = validate_oauth_login P c profile provider w in
        ((s : AuthSession) → r ≢ Outcome.ok s)
        × (w'.rows ≡ w.rows)
        × (w'.store ≡ w.store)
        × (w'.jobs ≡ w.jobs)
  unfolding validate_oauth_login find_by_provider find_one_by request
  validate_oauth_login_unverified w u unlinked taken unverified =
      ((λ s h. ground arith), ground arith, ground arith, ground arith)
