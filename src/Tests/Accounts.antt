-- ===== src/Tests/Accounts.antt =====
-- The theorems on accounts: user 2 has a refresh token.
use bid_battle.Users.Tokens.{delete_all_user_tokens}
use bid_battle.Auth.Leaving.{delete_account_forgets}
use bid_battle.Auth.WsGuard.{validate_jwt_user}
use bid_battle.Prelude.{find_where}
use bid_battle.Auth.Joining.{registered_logs_in}
use bid_battle.Auth.Registration.{verify_email, Register, register}
use bid_battle.Redis.Cache.{get_cache, delete_cache}
use bid_battle.Platform.Effects.{request}
use bid_battle.Redis.Cache.{get_cache, delete_cache}
use bid_battle.Platform.Effects.{request}
use bid_battle.Users.Profile.{delete_account, find_one_with_password_by_email, update_by}
use bid_battle.Platform.Effects.{request}
use bid_battle.Users.Tokens.{revoke_all_refresh_tokens}
use bid_battle.Users.Profile.{find_one_by}
use bid_battle.Platform.Effects.{request}
use bid_battle.Users.Tokens.{find_active_refresh_token, mark_token_as_used}
use bid_battle.Auth.Sessions.{login, generate_access_token}
use bid_battle.Auth.OAuth.Exchange.{exchange_oauth_code_twice}
use bid_battle.Auth.OAuth.Linking.{validate_oauth_login_unverified}
use bid_battle.Auth.Sessions.Once.{refresh_access_once}
use bid_battle.Tests.Worlds.{bidder, members, waiting}
use bid_battle.Tests.Fixture.{blank, memory}
use bid_battle.Auth.OAuth.{OAuthProfile, exchange_oauth_code, validate_oauth_login}
use bid_battle.Auth.Passwords.Changing.{change_password_changes, IsChanged}
use bid_battle.Auth.Passwords.{ChangePassword, change_password}
use bid_battle.Auth.Sessions.{AuthSession, refresh_access}
use bid_battle.Platform.Effects.{Outcome, Fault, World}
use bid_battle.Entities.{Language, SocialProvider, UserTokenType, UserToken}
use bid_battle.Auth.Credentials.{Credentials}
use bid_battle.Prelude.{
  ◌==◌, arith, refl, ◌∷◌, [], if◌then◌else◌, none, ◌≡◌, ◌≢◌, Option, false, some, List, String,
}
use bid_battle.Platform.Sockets.{AuthJwt}
use bid_battle.Mail.{MailConfig}
use text.Mathlib.Text.{◌==◌ as str_eq}
use text.Mathlib.TextPositions.{eq_refl as str_eq_refl}

abbrev pub letters : MailConfig
letters = record {
  app_name = "Bid Battle";
  app_url = "https://example.org";
  translate = λ key lang. key;
  show = λ n. "7";
}

abbrev ann_payload : AuthJwt
ann_payload = record { sub = 2; email = "ann@example.org"; iat = some 1 }

abbrev payload_of : String → Option AuthJwt
payload_of token = if str_eq token "refresh" then some ann_payload else none

abbrev plain : Credentials
plain = record {
  sign_access = λ id email now. "access";
  sign_refresh = λ id email now. "refresh";
  verify_refresh = λ token now. payload_of token;
  verify_refresh_expired = payload_of;
  hash_token = λ token. token;
  hash_password = λ p salt. p;
  compare = str_eq;
  refresh_token_life = some 604800000;
  email_verification_expires_in_min = 60;
  reset_password_expires_in_min = 15;
  mail = letters;
  verify_refresh_lem = λ token now p h. h;
  compare-hash = λ p salt. str_eq_refl p;
}

abbrev ann_token : UserToken
ann_token = record {
  id = 1;
  token = "refresh";
  kind = UserTokenType.refresh_token;
  user_id = 2;
  expires_at = 604801000;
  is_used = false;
  used_at = none;
}

abbrev signed_in : World memory
signed_in = record (waiting []) {
  rows = record {
    auctions = [];
    bids = [];
    images = [];
    accounts = record members { tokens = ann_token ∷ []; next_token_id = 2 };
  };
}

abbrev refreshed : World memory
refreshed = (refresh_access memory plain "refresh" signed_in).1

refresh_taken : refresh_access memory plain "refresh" signed_in ≡ (Outcome.ok "access", refreshed)
unfolding refresh_access find_one_by request find_active_refresh_token mark_token_as_used
    generate_access_token
refresh_taken = refl

refresh_access_once_example :
    refresh_access memory plain "refresh" refreshed
    ≢ (Outcome.ok "access", (refresh_access memory plain "refresh" refreshed).1)
refresh_access_once_example =
    refresh_access_once memory plain "refresh" signed_in refreshed "access" "access"
      {w' = refreshed} {v' = (refresh_access memory plain "refresh" refreshed).1} refresh_taken refl

abbrev new_password : ChangePassword
new_password = record {
  current_password = some "hash of old";
  password = "new";
  password_repeat = "new";
}

abbrev rekeyed : World memory
rekeyed = (change_password memory plain "salt" "ann@example.org" new_password signed_in).1

password_changed :
    change_password memory plain "salt" "ann@example.org" new_password signed_in
    ≡ (Outcome.ok tt, rekeyed)
unfolding change_password find_one_with_password_by_email request update_by
    revoke_all_refresh_tokens
password_changed = refl

change_password_changes_example :
    IsChanged memory plain "salt" "ann@example.org" new_password signed_in rekeyed
change_password_changes_example =
    change_password_changes memory plain "salt" "ann@example.org" new_password signed_in
      {w' = rekeyed} password_changed

abbrev ann_elsewhere : OAuthProfile
ann_elsewhere = record {
  provider_id = "12";
  email = "ann@example.org";
  email_verified = false;
  first_name = "Not";
  last_name = "Ann";
  avatar = none;
}

validate_oauth_login_unverified_example :
    let (r, w') = validate_oauth_login memory plain ann_elsewhere SocialProvider.github signed_in in
    ((s : AuthSession) → r ≢ Outcome.ok s)
    × (w'.rows ≡ signed_in.rows)
    × (w'.store ≡ signed_in.store)
    × (w'.jobs ≡ signed_in.jobs)
validate_oauth_login_unverified_example =
    validate_oauth_login_unverified memory plain ann_elsewhere SocialProvider.github signed_in
      (bidder) refl refl refl

-- The text of a cached payload is the payload.
abbrev as_text : String → Option String
as_text t = some t

abbrev cached_code : List (Option Fault) → World memory
cached_code faults = record signed_in {
  store = record blank { entry = λ k. some "payload" };
  faults = faults;
}

abbrev exchanged : List (Option Fault) → World memory
exchanged faults = (exchange_oauth_code memory as_text "c0de" (cached_code faults)).1

code_taken :
    exchange_oauth_code memory as_text "c0de" (cached_code [])
    ≡ (Outcome.ok "payload", exchanged [])
unfolding exchange_oauth_code get_cache request delete_cache
code_taken = refl

abbrev stuck : List (Option Fault)
stuck = none ∷ some Fault.refused ∷ []

code_kept :
    exchange_oauth_code memory as_text "c0de" (cached_code stuck)
    ≡ (Outcome.ok "payload", exchanged stuck)
unfolding exchange_oauth_code get_cache request delete_cache
code_kept = refl

exchange_oauth_code_twice_example :
    (exchange_oauth_code memory as_text "c0de" (exchanged stuck)).0 ≡ Outcome.ok "payload"
exchange_oauth_code_twice_example =
    exchange_oauth_code_twice memory as_text "c0de" "payload" (cached_code stuck)
      {w' = exchanged stuck} code_kept refl

abbrev bob : Register
bob = record {
  email = "bob@example.org";
  password = "secret";
  first_name = "Bob";
  last_name = "Ray";
}

-- Registered in Polish at 1000, verified at 2000.
registered_logs_in_example :
    let (r1, w1) = register memory plain Language.pl "salt" "random" bob signed_in in
    let (r2, w2) = verify_email memory plain "random" (record w1 { now = 2000 }) in
    (r1 ≡ Outcome.ok tt)
    × (r2 ≡ Outcome.ok tt)
    × (s : AuthSession) × ((login memory plain "bob@example.org" "secret" w2).0 ≡ Outcome.ok s)
    × (s.user.email ≡ "bob@example.org")
registered_logs_in_example =
    registered_logs_in memory plain Language.pl "salt" "random" bob signed_in 2000 604800000 refl
      refl refl (omega arith)

abbrev gone : World memory
gone = (delete_account memory 2 signed_in).1

ann_deleted : delete_account memory 2 signed_in ≡ (Outcome.ok tt, gone)
unfolding delete_account update_by request delete_all_user_tokens
ann_deleted = refl

delete_account_forgets_example :
    (find_where (λ k. k.user_id == 2) gone.rows.accounts.tokens ≡ none)
    × ((validate_jwt_user memory (λ token now. payload_of token) ann_payload gone).0
        ≢ Outcome.ok bidder)
delete_account_forgets_example =
    delete_account_forgets memory 2 signed_in gone {w' = gone} (λ token now. payload_of token)
      ann_payload bidder ann_deleted refl refl
