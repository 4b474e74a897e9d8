-- ===== src/Client/Requests/Served.antt =====
-- The requests that wait and those that refresh, under the handlers of refresh.interceptor.ts and
-- error.interceptor.ts of client/src/app/core/interceptors.
use bid_battle.Client.Session.{has_text, logout}
use bid_battle.Client.Requests.{
  release, str_eq, set_phase, catch_second, reject_refresh, released, resolve_refresh,
  set_refreshing, catch_first, unauthorized_status, intercept_error, on_session, move,
  reply_refresh, respond, Browser, Phase, RefreshReply, Result,
}
use bid_battle.Prelude.{
  if◌then◌else◌, refl, ==_iff, ==_refl, ◌∙◌, ap, is_some, inr, ◌&&◌, inl, ◌==◌, Bool-cases, arith,
  Bool, false, true, String, ◌≡◌, ℕ,
}

-- Whether a request waits for the refresh of another, and whether it is behind its own.
abbrev pub is_queued : Phase → Bool
is_queued Phase.waiting = true
is_queued _ = false

abbrev pub is_behind : Phase → Bool
is_behind Phase.refreshing = true
is_behind _ = false

-- Whoever waits, a refresh is flagged; and while one is flagged, a request is behind its refresh.
pub record IsServed (b : Browser) : Type 0 where
  pub flagged : (j : ℕ) → is_queued (b.phase j) ≡ true → b.session.is_refreshing ≡ true
  pub in_flight : b.session.is_refreshing ≡ true → (i : ℕ) × (is_behind (b.phase i) ≡ true)

apart_phases :
    (i k : ℕ) (phase : ℕ → Phase)
    → is_behind (phase k) ≡ true
    → is_behind (phase i) ≡ false
    → (k == i) ≡ false
apart_phases i k phase behind apart = elim (Bool-cases (k == i)) [
  | inl same ↦
      let alike = ap (λ x. is_behind (phase x)) ((==_iff k i).0 same) in
      ground (arith, alike, behind, apart)
  | inr other ↦ other
]

-- a request that is behind no refresh goes on to a phase that does not wait for nothing
pub move-IsServed :
    (i : ℕ) (p : Phase) (b : Browser)
    → is_behind (b.phase i) ≡ false
    → (is_queued p ≡ true → b.session.is_refreshing ≡ true)
    → IsServed b
    → IsServed (move i p b)
move-IsServed i p b apart allowed h = record {
  flagged = λ j e. elim (Bool-cases (j == i)) [
    | inl same ↦ allowed (ground (arith, e, same))
    | inr other ↦ h.flagged j (ground (arith, e, other))
  ];
  in_flight = λ e.
      let k = h.in_flight e in (k.0, ground (arith, k.1, apart_phases i k.0 b.phase k.1 apart));
}

-- no request waits, and no refresh is flagged
pub at_rest-IsServed :
    (b : Browser)
    → ((j : ℕ) → is_queued (b.phase j) ≡ false)
    → b.session.is_refreshing ≡ false
    → IsServed b
at_rest-IsServed b still idle = record {
  flagged = λ j e. ground (arith, still j, e);
  in_flight = λ e. ground (arith, idle, e);
}

pub logout-IsServed :
    (redirect : Bool) (b : Browser) → IsServed b → IsServed (on_session (logout redirect) b)
unfolding logout
logout-IsServed true b h = record { flagged = h.flagged; in_flight = h.in_flight }
logout-IsServed false b h = record { flagged = h.flagged; in_flight = h.in_flight }

pub intercept_error-IsServed :
    (status : ℕ) (b : Browser) → IsServed b → IsServed (intercept_error status b)
unfolding intercept_error
intercept_error-IsServed status b h =
    elim (Bool-cases ((status == unauthorized_status) && has_text b.session.access_token)) [
      | inl live ↦ rw live (logout-IsServed true b h)
      | inr dead ↦ rw dead h
    ]

-- a request that is behind no refresh is settled
pub settle-IsServed :
    (i : ℕ) (r : Result) (b : Browser)
    → is_behind (b.phase i) ≡ false
    → IsServed b
    → IsServed (move i (Phase.settled r) b)
settle-IsServed i r b apart h = move-IsServed i (Phase.settled r) b apart (λ e. ground (arith, e)) h

refreshing-IsServed :
    (i : ℕ) (b : Browser) → IsServed (move i Phase.refreshing (on_session (set_refreshing true) b))
refreshing-IsServed i b = record {
  flagged = λ j e. refl;
  in_flight = λ e. (i, ground (arith, ==_refl i));
}

catch_first-IsServed :
    (i status : ℕ) (b : Browser)
    → is_behind (b.phase i) ≡ false
    → IsServed b
    → IsServed (catch_first i status b)
catch_first-IsServed i status b apart h = elim (Bool-cases (status == unauthorized_status)) [
  | inr other ↦ rw other (settle-IsServed i (Result.failed status) b apart h)
  | inl expired ↦ elim (Bool-cases b.session.is_refreshing) [
    | inl busy ↦ simp (expired, busy) (move-IsServed i Phase.waiting b apart (λ e. busy) h)
    | inr idle ↦ elim (Bool-cases (is_some b.session.user)) [
      | inl known ↦ simp (expired, idle, known) (refreshing-IsServed i b)
      | inr unknown ↦
          simp (expired, idle, unknown) (settle-IsServed i (Result.failed status) b apart h)
    ]
  ]
]

pub intercept_error-phase :
    (status i : ℕ) (b : Browser) → (intercept_error status b).phase i ≡ b.phase i
unfolding intercept_error
intercept_error-phase status i b = ground arith

pub respond-IsServed :
    (i : ℕ) (r : Result) (b : Browser)
    → b.phase i ≡ Phase.sent
    → IsServed b
    → IsServed (respond i r b)
unfolding respond
respond-IsServed i Result.succeeded b e h = settle-IsServed i Result.succeeded b (ap is_behind e) h
respond-IsServed i (Result.failed status) b e h =
    catch_first-IsServed i status (intercept_error status b)
      (ap is_behind (intercept_error-phase status i b ∙ e)) (intercept_error-IsServed status b h)

-- the waiting requests are released, and one request goes on: nobody waits any more
pub released-free : (p q : Phase) → is_queued p ≡ false → is_queued (released p q) ≡ false
released-free p Phase.idle e = refl
released-free p Phase.sent e = refl
released-free p Phase.abandoned e = refl
released-free p Phase.waiting e = e
released-free p Phase.refreshing e = refl
released-free p (Phase.resent_own _) e = refl
released-free p (Phase.resent_other _) e = refl
released-free p (Phase.settled _) e = refl

move-free :
    (i j : ℕ) (p q : Phase) (phase : ℕ → Phase)
    → is_queued p ≡ false
    → is_queued q ≡ false
    → is_queued (set_phase i q (release p phase) j) ≡ false
move-free i j p q phase p_free q_free = elim (Bool-cases (j == i)) [
  | inl same ↦ ground (arith, same, q_free)
  | inr other ↦ ground (arith, other, released-free p (phase j) p_free)
]

token-free :
    (token : String)
    → is_queued (
        if str_eq token ""
        then Phase.settled (Result.failed unauthorized_status)
        else Phase.resent_other token)
      ≡ false
token-free token = ground arith

-- whatever a refresh replies, nobody waits for it any more
catch_second-frees :
    (i status : ℕ) (b : Browser) (j : ℕ) → is_queued ((catch_second i status b).phase j) ≡ false
unfolding catch_second reject_refresh
catch_second-frees i status b j =
    move-free i j (Phase.settled (Result.failed unauthorized_status))
      (Phase.settled (Result.failed status)) b.phase refl refl

pub reply_refresh-frees :
    (i : ℕ) (r : RefreshReply) (b : Browser) (j : ℕ)
    → is_queued ((reply_refresh i r b).phase j) ≡ false
unfolding reply_refresh resolve_refresh
reply_refresh-frees i (RefreshReply.renewed token) b j =
    move-free i j _ (Phase.resent_own token) b.phase (token-free token) refl
reply_refresh-frees i (RefreshReply.refused status) b j =
    catch_second-frees i status (intercept_error status b) j

pub catch_second-IsServed : (i status : ℕ) (b : Browser) → IsServed (catch_second i status b)
unfolding catch_second reject_refresh logout
catch_second-IsServed i status b =
    at_rest-IsServed (catch_second i status b) (catch_second-frees i status b) refl

pub reply_refresh-IsServed :
    (i : ℕ) (r : RefreshReply) (b : Browser) → IsServed (reply_refresh i r b)
unfolding reply_refresh resolve_refresh
reply_refresh-IsServed i (RefreshReply.renewed token) b =
    let b' = reply_refresh i (RefreshReply.renewed token) b in
    at_rest-IsServed b' (reply_refresh-frees i (RefreshReply.renewed token) b) refl
reply_refresh-IsServed i (RefreshReply.refused status) b =
    catch_second-IsServed i status (intercept_error status b)
