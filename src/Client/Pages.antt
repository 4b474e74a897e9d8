-- ===== src/Client/Pages.antt =====
-- The pages of client/src/app/features/auth/pages: what their submissions and the answers to them do. A
-- request is in flight from `sent` until it is answered; `screen` is what a page does to the browser
-- around it, newest first. The text of a message is the server's or the page's own, whose translation is
-- another call.
pub mod Submitting
pub mod LockedOut
pub mod Arrivals
use bid_battle.Client.Forms.{is_bad_email, is_bad_password, is_mismatch, is_missing, touch, Control}
use bid_battle.Client.Session.{has_text}
use bid_battle.Prelude.{
  [], ◌∷◌, ◌||◌, is_some, not, none, some, false, true, Bool, List, Option, String, if◌then◌else◌,
}

pub data Request : Type 0 where
  login_request : String → String → Request
  register_request : String → String → String → String → String → Request
  forgot_request : String → Request
  reset_request : String → String → String → Request
  resend_request : String → Request

pub data Effect : Type 0 where
  navigated focused notified : String → Effect
  popped_up : String → Effect

-- The part that the pages share: `isLoading`, and the requests that are not answered yet.
pub record Form : Type 0 where
  pub is_loading : Bool
  pub in_flight : List Request
  pub screen : List Effect

abbrev pub idle_form : Form
idle_form = record { is_loading = false; in_flight = []; screen = [] }

abbrev pub show : Effect → Form → Form
show e f = record f { screen = e ∷ f.screen }

-- the end of every `onSubmit`: nothing while a request is in flight
unfoldable pub send_request : Request → Form → Form
send_request r f =
    if f.is_loading then f else record f { is_loading = true; in_flight = r ∷ f.in_flight }

-- What the server answers: the message of an error may be missing.
pub data Answer : Type 0 where
  accepted : Answer
  refused : Option String → Answer

abbrev pub take_first : List Request → List Request
take_first [] = []
take_first (r ∷ rs) = rs

-- `finalize`
abbrev pub finalize_form : Form → Form
finalize_form f = record f { is_loading = false; in_flight = take_first f.in_flight }

-- `err?.error?.message || fallback`
abbrev pub message_of : String → Option String → String
message_of fallback none = fallback
message_of fallback (some m) = if has_text (some m) then m else fallback

abbrev pub focus_first : Option String → Form → Form
focus_first none f = f
focus_first (some name) f = show (Effect.focused name) f

-- what every page does with an answer: its own effect, or a message and the focus on the first invalid
-- control; then `finalize`
unfoldable pub answer_form : Effect → String → Option String → Answer → Form → Form
answer_form done fallback invalid Answer.accepted f = finalize_form (show done f)
answer_form done fallback invalid (Answer.refused message) f =
    finalize_form (focus_first invalid (show (Effect.notified (message_of fallback message)) f))

pub record LoginPage : Type 0 where
  pub email : Control
  pub password : Control
  pub form : Form

module _ (is_email : String → Bool) where
  abbrev pub is_invalid_login : LoginPage → Bool
  is_invalid_login p = is_bad_email is_email p.email || is_bad_password p.password

  unfoldable pub submit_login : LoginPage → LoginPage
  submit_login p =
      if is_invalid_login p
      then record p { email = touch p.email; password = touch p.password }
      else record p {
        form = send_request (Request.login_request p.email.value p.password.value) p.form;
      }

  abbrev pub first_invalid_login : LoginPage → Option String
  first_invalid_login p =
      if is_bad_email is_email p.email
      then some "input-email"
      else if is_bad_password p.password
      then some "input-password"
      else none

  unfoldable pub answer_login : Answer → LoginPage → LoginPage
  answer_login a p = record p {
    form =
        answer_form (Effect.navigated "/") "AUTH.LOGIN.ERROR_GENERIC" (first_invalid_login p) a
          p.form;
  }

pub record RegisterPage : Type 0 where
  pub first_name : Control
  pub last_name : Control
  pub email : Control
  pub password : Control
  pub password_repeat : Control
  pub form : Form

module _ (is_email : String → Bool) where
  abbrev pub is_invalid_register : RegisterPage → Bool
  is_invalid_register p =
      is_missing p.first_name
      || (is_missing p.last_name
          || (is_bad_email is_email p.email
              || (is_bad_password p.password
                  || (is_bad_password p.password_repeat
                      || is_mismatch p.password p.password_repeat))))

  unfoldable pub submit_register : RegisterPage → RegisterPage
  submit_register p =
      if is_invalid_register p
      then record p {
        first_name = touch p.first_name;
        last_name = touch p.last_name;
        email = touch p.email;
        password = touch p.password;
        password_repeat = touch p.password_repeat;
      }
      else record p {
        form =
            send_request
              (Request.register_request p.first_name.value p.last_name.value p.email.value
                p.password.value p.password_repeat.value)
              p.form;
      }

  abbrev pub first_invalid_register : RegisterPage → Option String
  first_invalid_register p =
      if is_missing p.first_name
      then some "input-firstName"
      else if is_missing p.last_name
      then some "input-lastName"
      else if is_bad_email is_email p.email
      then some "input-email"
      else if is_bad_password p.password
      then some "input-password"
      else if is_bad_password p.password_repeat
      then some "input-passwordRepeat"
      else none

  unfoldable pub answer_register : Answer → RegisterPage → RegisterPage
  answer_register a p = record p {
    form =
        answer_form (Effect.popped_up "AUTH.REGISTER.SUCCESS_TITLE") "AUTH.REGISTER.ERROR_GENERIC"
          (first_invalid_register p) a p.form;
  }

-- when the popup of a registration is closed
abbrev pub registered : RegisterPage → RegisterPage
registered p = record p { form = show (Effect.navigated "/auth/login") p.form }

pub record ForgotPage : Type 0 where
  pub email : Control
  pub form : Form

module _ (is_email : String → Bool) where
  unfoldable pub submit_forgot : ForgotPage → ForgotPage
  submit_forgot p =
      if is_bad_email is_email p.email
      then record p { email = touch p.email }
      else record p { form = send_request (Request.forgot_request p.email.value) p.form }

  unfoldable pub answer_forgot : Answer → ForgotPage → ForgotPage
  answer_forgot a p = record p {
    form =
        answer_form (Effect.popped_up "AUTH.FORGOT_PASSWORD.SUCCESS_TITLE")
          "AUTH.FORGOT_PASSWORD.ERROR_GENERIC"
          (if is_bad_email is_email p.email then some "input-email" else none) a p.form;
  }

pub record ResetPage : Type 0 where
  pub token : Option String
  pub password : Control
  pub password_repeat : Control
  pub form : Form

abbrev pub is_invalid_reset : ResetPage → Bool
is_invalid_reset p =
    is_bad_password p.password
    || (is_bad_password p.password_repeat || is_mismatch p.password p.password_repeat)

abbrev text_or_empty : Option String → String
text_or_empty none = ""
text_or_empty (some t) = t

unfoldable pub submit_reset : ResetPage → ResetPage
submit_reset p =
    if not (has_text p.token)
    then record p { form = show (Effect.notified "AUTH.RESET_PASSWORD.ERROR_NO_TOKEN") p.form }
    else if is_invalid_reset p
    then record p { password = touch p.password; password_repeat = touch p.password_repeat }
    else record p {
      form =
          send_request
            (Request.reset_request (text_or_empty p.token) p.password.value p.password_repeat.value)
            p.form;
    }

abbrev pub first_invalid_reset : ResetPage → Option String
first_invalid_reset p =
    if is_bad_password p.password
    then some "input-password"
    else if is_bad_password p.password_repeat
    then some "input-passwordRepeat"
    else none

unfoldable pub answer_reset : Answer → ResetPage → ResetPage
answer_reset a p = record p {
  form =
      answer_form (Effect.popped_up "AUTH.RESET_PASSWORD.SUCCESS_TITLE")
        "AUTH.RESET_PASSWORD.ERROR_GENERIC" (first_invalid_reset p) a p.form;
}
