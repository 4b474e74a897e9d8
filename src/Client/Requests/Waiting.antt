-- ===== src/Client/Requests/Waiting.antt =====
-- Runs of the browser's requests under client/src/app/core/interceptors, guards and services.
use bid_battle.Client.Requests.Served.{
  is_queued, intercept_error-IsServed, catch_second-IsServed, intercept_error-phase, released-free,
  reply_refresh-frees, at_rest-IsServed, logout-IsServed, move-IsServed, reply_refresh-IsServed,
  respond-IsServed, settle-IsServed, IsServed, is_behind,
}
use bid_battle.Client.Session.{loaded, logout}
use bid_battle.Client.Session.{set_session, ClientUser}
use bid_battle.Client.Requests.{
  abandon_at, abandon, reject_refresh, unauthorized_status, intercept_error, on_session,
  respond_other, move, reply_refresh, reply_silent, respond, respond_own, Browser, Phase,
  RefreshReply, Result,
}
use bid_battle.Prelude.{
  not, ◌&&◌, Bool, Option, refl, ◌∙◌, ap, arith, false, [], true, String, ◌∷◌, ◌≡◌, List, ℕ,
}

-- What happens to the browser; an answer to a request that does not stand there is ignored.
pub data Happening : Type 0 where
  send : ℕ → Happening
  unsubscribed : ℕ → Happening
  answered answered_again : ℕ → Result → Happening
  refresh_answered : ℕ → RefreshReply → Happening
  silent_answered : RefreshReply → Happening
  logged_in : String → ClientUser → Happening
  logged_out : Happening

abbrev answer_sent : ℕ → Result → Phase → Browser → Browser
answer_sent i r Phase.sent b = respond i r b
answer_sent i r _ b = b

abbrev answer_again : ℕ → Result → Phase → Browser → Browser
answer_again i r (Phase.resent_own _) b = respond_own i r b
answer_again i r (Phase.resent_other _) b = respond_other i r b
answer_again i r _ b = b

abbrev answer_refresh : ℕ → RefreshReply → Phase → Browser → Browser
answer_refresh i r Phase.refreshing b = reply_refresh i r b
answer_refresh i r _ b = b

abbrev start_sending : ℕ → Phase → Browser → Browser
start_sending i Phase.idle b = move i Phase.sent b
start_sending i _ b = b

abbrev pub happen : Happening → Browser → Browser
happen (Happening.send i) b = start_sending i (b.phase i) b
happen (Happening.unsubscribed i) b = abandon i b
happen (Happening.answered i r) b = answer_sent i r (b.phase i) b
happen (Happening.answered_again i r) b = answer_again i r (b.phase i) b
happen (Happening.refresh_answered i r) b = answer_refresh i r (b.phase i) b
happen (Happening.silent_answered r) b = reply_silent r b
happen (Happening.logged_in token user) b = on_session (set_session token user) b
happen Happening.logged_out b = on_session (logout true) b

-- Not the unsubscription of a request that is behind its refresh.
abbrev keeps_refresh : Happening → Browser → Bool
keeps_refresh (Happening.unsubscribed i) b = not (is_behind (b.phase i))
keeps_refresh _ b = true

-- No request of the run is unsubscribed from while it is behind its refresh.
unfoldable pub keeps_refreshes : List Happening → Browser → Bool
keeps_refreshes [] b = true
keeps_refreshes (h ∷ hs) b = keeps_refresh h b && keeps_refreshes hs (happen h b)

unfoldable pub happen_all : List Happening → Browser → Browser
happen_all [] b = b
happen_all (h ∷ hs) b = happen_all hs (happen h b)

respond_own-IsServed :
    (i : ℕ) (r : Result) (b : Browser)
    → is_behind (b.phase i) ≡ false
    → IsServed b
    → IsServed (respond_own i r b)
unfolding respond_own
respond_own-IsServed i Result.succeeded b apart h = settle-IsServed i Result.succeeded b apart h
respond_own-IsServed i (Result.failed status) b apart h =
    catch_second-IsServed i status (intercept_error status b)

respond_other-IsServed :
    (i : ℕ) (r : Result) (b : Browser)
    → is_behind (b.phase i) ≡ false
    → IsServed b
    → IsServed (respond_other i r b)
unfolding respond_other
respond_other-IsServed i Result.succeeded b apart h = settle-IsServed i Result.succeeded b apart h
respond_other-IsServed i (Result.failed status) b apart h =
    settle-IsServed i (Result.failed status) (intercept_error status b)
      (ap is_behind (intercept_error-phase status i b) ∙ apart)
      (intercept_error-IsServed status b h)

reply_silent-IsServed : (r : RefreshReply) (b : Browser) → IsServed b → IsServed (reply_silent r b)
unfolding reply_silent reject_refresh logout
reply_silent-IsServed (RefreshReply.renewed token) b h = record {
  flagged = h.flagged;
  in_flight = h.in_flight;
}
reply_silent-IsServed (RefreshReply.refused status) b h =
    at_rest-IsServed (reply_silent (RefreshReply.refused status) b)
      (λ j.
        released-free (Phase.settled (Result.failed unauthorized_status))
          ((intercept_error status b).phase j) refl)
      refl

start_sending-IsServed :
    (i : ℕ) (p : Phase) (b : Browser) → b.phase i ≡ p → IsServed b → IsServed (start_sending i p b)
start_sending-IsServed i Phase.idle b e h =
    move-IsServed i Phase.sent b (ap is_behind e) (λ w. ground (arith, w)) h
start_sending-IsServed i Phase.sent b e h = h
start_sending-IsServed i Phase.abandoned b e h = h
start_sending-IsServed i Phase.waiting b e h = h
start_sending-IsServed i Phase.refreshing b e h = h
start_sending-IsServed i (Phase.resent_own _) b e h = h
start_sending-IsServed i (Phase.resent_other _) b e h = h
start_sending-IsServed i (Phase.settled _) b e h = h

answer_sent-IsServed :
    (i : ℕ) (r : Result) (p : Phase) (b : Browser)
    → b.phase i ≡ p
    → IsServed b
    → IsServed (answer_sent i r p b)
answer_sent-IsServed i r Phase.sent b e h = respond-IsServed i r b e h
answer_sent-IsServed i r Phase.idle b e h = h
answer_sent-IsServed i r Phase.waiting b e h = h
answer_sent-IsServed i r Phase.abandoned b e h = h
answer_sent-IsServed i r Phase.refreshing b e h = h
answer_sent-IsServed i r (Phase.resent_own _) b e h = h
answer_sent-IsServed i r (Phase.resent_other _) b e h = h
answer_sent-IsServed i r (Phase.settled _) b e h = h

answer_again-IsServed :
    (i : ℕ) (r : Result) (p : Phase) (b : Browser)
    → b.phase i ≡ p
    → IsServed b
    → IsServed (answer_again i r p b)
answer_again-IsServed i r (Phase.resent_own _) b e h = respond_own-IsServed i r b (ap is_behind e) h
answer_again-IsServed i r (Phase.resent_other _) b e h =
    respond_other-IsServed i r b (ap is_behind e) h
answer_again-IsServed i r Phase.idle b e h = h
answer_again-IsServed i r Phase.sent b e h = h
answer_again-IsServed i r Phase.waiting b e h = h
answer_again-IsServed i r Phase.abandoned b e h = h
answer_again-IsServed i r Phase.refreshing b e h = h
answer_again-IsServed i r (Phase.settled _) b e h = h

answer_refresh-IsServed :
    (i : ℕ) (r : RefreshReply) (p : Phase) (b : Browser)
    → IsServed b
    → IsServed (answer_refresh i r p b)
answer_refresh-IsServed i r Phase.refreshing b h = reply_refresh-IsServed i r b
answer_refresh-IsServed i r Phase.idle b h = h
answer_refresh-IsServed i r Phase.sent b h = h
answer_refresh-IsServed i r Phase.waiting b h = h
answer_refresh-IsServed i r Phase.abandoned b h = h
answer_refresh-IsServed i r (Phase.resent_own _) b h = h
answer_refresh-IsServed i r (Phase.resent_other _) b h = h
answer_refresh-IsServed i r (Phase.settled _) b h = h

abandon-IsServed :
    (i : ℕ) (b : Browser) → is_behind (b.phase i) ≡ false → IsServed b → IsServed (abandon i b)
abandon-IsServed i b apart h = go (b.phase i)
  where
    gone : IsServed (move i Phase.abandoned b)
    gone = move-IsServed i Phase.abandoned b apart (λ e. ground (arith, e)) h

    go : (p : Phase) → IsServed (abandon_at i p b)
    go Phase.idle = h
    go Phase.sent = gone
    go Phase.waiting = gone
    go Phase.refreshing = gone
    go Phase.abandoned = gone
    go (Phase.resent_own _) = gone
    go (Phase.resent_other _) = gone
    go (Phase.settled _) = h

happen-IsServed :
    (e : Happening) (b : Browser) → keeps_refresh e b ≡ true → IsServed b → IsServed (happen e b)
unfolding set_session
happen-IsServed (Happening.send i) b ok h = start_sending-IsServed i (b.phase i) b refl h
happen-IsServed (Happening.unsubscribed i) b ok h = abandon-IsServed i b (ground (arith, ok)) h
happen-IsServed (Happening.answered i r) b ok h = answer_sent-IsServed i r (b.phase i) b refl h
happen-IsServed (Happening.answered_again i r) b ok h =
    answer_again-IsServed i r (b.phase i) b refl h
happen-IsServed (Happening.refresh_answered i r) b ok h =
    answer_refresh-IsServed i r (b.phase i) b h
happen-IsServed (Happening.silent_answered r) b ok h = reply_silent-IsServed r b h
happen-IsServed (Happening.logged_in token user) b ok h = record {
  flagged = h.flagged;
  in_flight = h.in_flight;
}
happen-IsServed Happening.logged_out b ok h = logout-IsServed true b h

happen_all-IsServed :
    (es : List Happening) (b : Browser)
    → keeps_refreshes es b ≡ true
    → IsServed b
    → IsServed (happen_all es b)
unfolding happen_all keeps_refreshes
happen_all-IsServed [] b ok h = h
happen_all-IsServed (e ∷ es) b ok h =
    happen_all-IsServed es (happen e b) (ground (arith, ok))
      (happen-IsServed e b (ground (arith, ok)) h)

-- A page that has been loaded, with no request sent.
abbrev pub fresh : Option ClientUser → Browser
fresh user = record { session = loaded user; phase = λ i. Phase.idle }

-- After the page is loaded, whatever requests, answers, unsubscriptions, logins and logouts have
-- happened and in whatever order, but for the unsubscription of a request that is behind its refresh:
-- while a request waits for a token, another one is behind a refresh that is flagged, and whatever that
-- refresh replies, the first no longer waits.
pub waiting_is_answered :
    (user : Option ClientUser) (es : List Happening) (j : ℕ)
    → keeps_refreshes es (fresh user) ≡ true
    → let b = happen_all es (fresh user) in
      b.phase j ≡ Phase.waiting
      → (b.session.is_refreshing ≡ true)
        × ((i : ℕ) × (is_behind (b.phase i) ≡ true)
            × ((r : RefreshReply) → is_queued ((reply_refresh i r b).phase j) ≡ false))
waiting_is_answered user es j ok waits =
    let b = happen_all es (fresh user) in
    let start = at_rest-IsServed (fresh user) (λ k. refl) refl in
    let served = happen_all-IsServed es (fresh user) ok start in
    let flag = served.flagged j (ap is_queued waits) in
    let i = served.in_flight flag in (flag, (i.0, i.1, λ r. reply_refresh-frees i.0 r b j))
