-- ===== src/Client/Requests.antt =====
-- The requests of the browser behind client/src/app/core/interceptors/refresh.interceptor.ts and
-- error.interceptor.ts, in the order of client/src/app/app.config.ts: the answer to a request passes
-- the error interceptor, which is the innermost, and then the refresh interceptor. The toast of an
-- error is a call of its own and not part of the session.
pub mod Expiry
pub mod Served
pub mod Waiting
use bid_battle.Prelude.{is_some, ◌&&◌, not, some, ◌==◌, Bool, String, false, if◌then◌else◌, true, ℕ}
use text.Mathlib.Text.{◌==◌ as str_eq}
use bid_battle.Client.Session.{has_text, refresh_access_token, Session, logout}

-- The outcome of a request, an answer or a status.
pub data Result : Type 0 where
  succeeded : Result
  failed : ℕ → Result

-- Where a request stands: not sent, sent, waiting for a refresh of another, behind the refresh that it
-- has started, sent again with a token (after its own refresh or another's), settled, or unsubscribed
-- from before it was.
pub data Phase : Type 0 where
  idle sent waiting refreshing abandoned : Phase
  resent_own resent_other : String → Phase
  settled : Result → Phase

pub record Browser : Type 0 where
  pub session : Session
  pub phase : ℕ → Phase

abbrev pub unauthorized_status : ℕ
unauthorized_status = 401

abbrev pub set_phase : ℕ → Phase → (ℕ → Phase) → ℕ → Phase
set_phase i p phase j = if j == i then p else phase j

-- what the waiting requests become
abbrev released : Phase → Phase → Phase
released p Phase.waiting = p
released p q = q

abbrev pub release : Phase → (ℕ → Phase) → ℕ → Phase
release p phase j = released p (phase j)

abbrev pub move : ℕ → Phase → Browser → Browser
move i p b = record b { phase = set_phase i p b.phase }

abbrev pub on_session : (Session → Session) → Browser → Browser
on_session f b = record b { session = f b.session }

-- `startRefresh`, `resolveRefresh` and `rejectRefresh`: a waiting request is sent again with the new
-- token, or fails with its own 401 where the token is null or empty
abbrev pub set_refreshing : Bool → Session → Session
set_refreshing r s = record s { is_refreshing = r }

unfoldable pub resolve_refresh : String → Browser → Browser
resolve_refresh token b = record {
  session = record b.session { is_refreshing = false; access_token = some token };
  phase =
      release
        (if str_eq token ""
          then Phase.settled (Result.failed unauthorized_status)
          else Phase.resent_other token)
        b.phase;
}

unfoldable pub reject_refresh : Browser → Browser
reject_refresh b = record {
  session = set_refreshing false b.session;
  phase = release (Phase.settled (Result.failed unauthorized_status)) b.phase;
}

-- `errorInterceptor`
unfoldable pub intercept_error : ℕ → Browser → Browser
intercept_error status b =
    if (status == unauthorized_status) && has_text b.session.access_token
    then on_session (logout true) b
    else b

-- the first `catchError` of `refreshInterceptor`
abbrev pub catch_first : ℕ → ℕ → Browser → Browser
catch_first i status b =
    if not (status == unauthorized_status)
    then move i (Phase.settled (Result.failed status)) b
    else if b.session.is_refreshing
    then move i Phase.waiting b
    else if not (is_some b.session.user)
    then move i (Phase.settled (Result.failed status)) b
    else move i Phase.refreshing (on_session (set_refreshing true) b)

-- its second one, around the refresh and the request that is sent again after it
unfoldable pub catch_second : ℕ → ℕ → Browser → Browser
catch_second i status b =
    move i (Phase.settled (Result.failed status)) (on_session (logout true) (reject_refresh b))

-- the answer to a request that was sent
unfoldable pub respond : ℕ → Result → Browser → Browser
respond i Result.succeeded b = move i (Phase.settled Result.succeeded) b
respond i (Result.failed status) b = catch_first i status (intercept_error status b)

-- what `POST /auth/refresh` answers: a token or a status
pub data RefreshReply : Type 0 where
  renewed : String → RefreshReply
  refused : ℕ → RefreshReply

unfoldable pub reply_refresh : ℕ → RefreshReply → Browser → Browser
reply_refresh i (RefreshReply.renewed token) b =
    move i (Phase.resent_own token) (resolve_refresh token b)
reply_refresh i (RefreshReply.refused status) b = catch_second i status (intercept_error status b)

-- the answer to a request that was sent again
unfoldable pub respond_own : ℕ → Result → Browser → Browser
respond_own i Result.succeeded b = move i (Phase.settled Result.succeeded) b
respond_own i (Result.failed status) b = catch_second i status (intercept_error status b)

unfoldable pub respond_other : ℕ → Result → Browser → Browser
respond_other i Result.succeeded b = move i (Phase.settled Result.succeeded) b
respond_other i (Result.failed status) b =
    move i (Phase.settled (Result.failed status)) (intercept_error status b)

abbrev pub abandon_at : ℕ → Phase → Browser → Browser
abandon_at i Phase.idle b = b
abandon_at i (Phase.settled _) b = b
abandon_at i _ b = move i Phase.abandoned b

-- The subscriber of a request unsubscribes, as `takeUntilDestroyed` does when its page goes away. With
-- the request goes what its interceptors have subscribed to, the refresh that it is behind too; no
-- interceptor has anything to do then.
abbrev pub abandon : ℕ → Browser → Browser
abandon i b = abandon_at i (b.phase i) b

-- `silentRefresh` of the guard: the answer to its refresh
unfoldable pub reply_silent : RefreshReply → Browser → Browser
reply_silent (RefreshReply.renewed token) b = on_session (refresh_access_token token) b
reply_silent (RefreshReply.refused status) b =
    on_session (logout true) (reject_refresh (intercept_error status b))
