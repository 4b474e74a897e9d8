-- ===== src/Client/Pages/Submitting.antt =====
-- Runs of client/src/app/features/auth/pages/login/login.ts.
use bid_battle.Client.Forms.{Control}
use bid_battle.Client.Pages.{
  message_of, first_invalid_login, focus_first, show, Effect, answer_form, is_invalid_login,
  take_first, Request, Answer, Form, LoginPage, answer_login, send_request, submit_login,
}
use bid_battle.Prelude.{
  none, some, Option, refl, if◌then◌else◌, [], ◌∷◌, ◌≡◌, Bool-cases, arith, false, inl, inr, length,
  true, Bool, List, String,
}

-- What happens on the login page: a control is edited, the form is submitted, or a request is answered.
pub data LoginEvent : Type 0 where
  edited_email edited_password : Control → LoginEvent
  submitted : LoginEvent
  replied : Answer → LoginEvent

-- only a request that is in flight is answered
abbrev reply_if : (String → Bool) → Bool → Answer → LoginPage → LoginPage
reply_if is_email false a p = p
reply_if is_email true a p = answer_login is_email a p

abbrev pub occur_login : (String → Bool) → LoginEvent → LoginPage → LoginPage
occur_login is_email (LoginEvent.edited_email c) p = record p { email = c }
occur_login is_email (LoginEvent.edited_password c) p = record p { password = c }
occur_login is_email LoginEvent.submitted p = submit_login is_email p
occur_login is_email (LoginEvent.replied a) p = reply_if is_email p.form.is_loading a p

unfoldable pub occur_logins : (String → Bool) → List LoginEvent → LoginPage → LoginPage
occur_logins is_email [] p = p
occur_logins is_email (e ∷ es) p = occur_logins is_email es (occur_login is_email e p)

-- `isLoading` says whether a request is in flight, and there is one then.
unfoldable pub IsSingleFlight : Form → Type 0
IsSingleFlight f = length f.in_flight ≡ (if f.is_loading then 1 else 0)

send_request-IsSingleFlight :
    (r : Request) (f : Form) → IsSingleFlight f → IsSingleFlight (send_request r f)
unfolding send_request IsSingleFlight
send_request-IsSingleFlight r f h = elim (Bool-cases f.is_loading) [
  | inl busy ↦ ground (arith, busy, h)
  | inr idle ↦ ground (arith, idle, h)
]

focus_first-form : (o : Option String) (f : Form) → (focus_first o f).in_flight ≡ f.in_flight
focus_first-form none f = refl
focus_first-form (some name) f = refl

one_less : (rs : List Request) → length rs ≡ 1 → length (take_first rs) ≡ 0
one_less [] h = omega (arith, h)
one_less (r ∷ rs) h = omega (arith, h)

answer_form-IsSingleFlight :
    (done : Effect) (fallback : String) (invalid : Option String) (a : Answer) (f : Form)
    → f.is_loading ≡ true
    → IsSingleFlight f
    → IsSingleFlight (answer_form done fallback invalid a f)
unfolding answer_form IsSingleFlight
answer_form-IsSingleFlight done fallback invalid Answer.accepted f busy h =
    one_less f.in_flight (ground (arith, busy, h))
answer_form-IsSingleFlight done fallback invalid (Answer.refused message) f busy h =
    let same = focus_first-form invalid (show (Effect.notified (message_of fallback message)) f) in
    rw same (one_less f.in_flight (ground (arith, busy, h)))

submit_login-IsSingleFlight :
    (is_email : String → Bool) (p : LoginPage)
    → IsSingleFlight p.form
    → IsSingleFlight (submit_login is_email p).form
unfolding submit_login
submit_login-IsSingleFlight is_email p h = elim (Bool-cases (is_invalid_login is_email p)) [
  | inl invalid ↦ rw invalid h
  | inr valid ↦
      rw valid (
        send_request-IsSingleFlight (Request.login_request p.email.value p.password.value) p.form h)
]

reply_if-IsSingleFlight :
    (is_email : String → Bool) (b : Bool) (a : Answer) (p : LoginPage)
    → p.form.is_loading ≡ b
    → IsSingleFlight p.form
    → IsSingleFlight (reply_if is_email b a p).form
unfolding answer_login
reply_if-IsSingleFlight is_email false a p e h = h
reply_if-IsSingleFlight is_email true a p e h =
    answer_form-IsSingleFlight (Effect.navigated "/") "AUTH.LOGIN.ERROR_GENERIC"
      (first_invalid_login is_email p) a p.form e h

occur_login-IsSingleFlight :
    (is_email : String → Bool) (e : LoginEvent) (p : LoginPage)
    → IsSingleFlight p.form
    → IsSingleFlight (occur_login is_email e p).form
occur_login-IsSingleFlight is_email (LoginEvent.edited_email c) p h = h
occur_login-IsSingleFlight is_email (LoginEvent.edited_password c) p h = h
occur_login-IsSingleFlight is_email LoginEvent.submitted p h =
    submit_login-IsSingleFlight is_email p h
occur_login-IsSingleFlight is_email (LoginEvent.replied a) p h =
    reply_if-IsSingleFlight is_email p.form.is_loading a p refl h

-- However the user edits and submits the login page and whatever the server answers, at most one request
-- is in flight, and `isLoading` says whether there is one.
pub occur_logins-IsSingleFlight :
    (is_email : String → Bool) (es : List LoginEvent) (p : LoginPage)
    → IsSingleFlight p.form
    → IsSingleFlight (occur_logins is_email es p).form
unfolding occur_logins
occur_logins-IsSingleFlight is_email [] p h = h
occur_logins-IsSingleFlight is_email (e ∷ es) p h =
    occur_logins-IsSingleFlight is_email es (occur_login is_email e p)
      (occur_login-IsSingleFlight is_email e p h)
