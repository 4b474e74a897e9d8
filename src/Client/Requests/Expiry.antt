-- ===== src/Client/Requests/Expiry.antt =====
-- What becomes of a session when a token has expired or the user has logged out.
use bid_battle.Client.Session.{is_authenticated, has_text}
use bid_battle.Client.Session.{logout}
use bid_battle.Client.Requests.{
  on_session, unauthorized_status, Phase, RefreshReply, Result, Browser, reject_refresh,
  catch_second, intercept_error, resolve_refresh, reply_refresh, respond, respond_own,
}
use bid_battle.Prelude.{arith, false, none, true, ◌≡◌, not, String, ℕ}
use text.Mathlib.Text.{◌==◌ as str_eq}

-- A 401 on a request of a user whose access token is in memory logs him out at once: the request
-- fails, and no refresh is started.
pub expired_token_logs_out :
    (i : ℕ) (b : Browser)
    → has_text b.session.access_token ≡ true
    → b.session.is_refreshing ≡ false
    → let b' = respond i (Result.failed unauthorized_status) b in
      (b'.session.access_token ≡ none)
      × (b'.session.user ≡ none)
      × (b'.session.is_refreshing ≡ false)
      × (b'.phase i ≡ Phase.settled (Result.failed unauthorized_status))
unfolding respond intercept_error logout
expired_token_logs_out i b live idle = ground (arith, live, idle)

-- When the request that a refresh was started for fails after it, whatever its status, the user is
-- logged out although the refresh has succeeded.
pub retried_failure_logs_out :
    (i status : ℕ) (b : Browser)
    → let b' = respond_own i (Result.failed status) b in
      (b'.session.access_token ≡ none)
      × (b'.session.user ≡ none)
      × (b'.phase i ≡ Phase.settled (Result.failed status))
unfolding respond_own catch_second reject_refresh intercept_error logout
retried_failure_logs_out i status b = ground arith

-- A refresh that is answered after a logout gives the session an access token again, without a user.
pub late_refresh_revives :
    (i : ℕ) (token : String) (b : Browser)
    → not (str_eq token "") ≡ true
    → let b' = reply_refresh i (RefreshReply.renewed token) (on_session (logout true) b) in
      (b'.session.user ≡ none) × (is_authenticated b'.session ≡ true)
unfolding reply_refresh resolve_refresh logout
late_refresh_revives i token b filled = ground (arith, filled)
