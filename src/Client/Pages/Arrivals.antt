-- ===== src/Client/Pages/Arrivals.antt =====
-- The pages that a link leads to: client/src/app/features/auth/pages/oauth-callback/oauth-callback.ts and
-- pages/verify-email/verify-email.ts beside it. What they ask of the server is kept until it is answered.
use bid_battle.Client.Forms.{is_bad_email, touch, Control}
use bid_battle.Client.Pages.{answer_form, message_of, send_request, Answer, Effect, Form, Request}
use bid_battle.Client.Session.{has_text, set_session, ClientUser, Session}
use bid_battle.Prelude.{
  [], ◌∷◌, ◌||◌, ◌≡◌, Bool-cases, inl, inr, refl, not, none, some, true, Bool, List, Option, String,
  if◌then◌else◌,
}

-- The query of the link.
pub record CallbackQuery : Type 0 where
  pub error : Option String
  pub code : Option String

pub record CallbackPage : Type 0 where
  pub executed : Bool
  pub exchanging : List String
  pub session : Session
  pub screen : List Effect

abbrev text_or_empty : Option String → String
text_or_empty none = ""
text_or_empty (some t) = t

abbrev to_login : CallbackPage → CallbackPage
to_login p = record p { screen = Effect.navigated "/auth/login" ∷ p.screen }

abbrev notify : String → CallbackPage → CallbackPage
notify message p = record p { screen = Effect.notified message ∷ p.screen }

unfoldable pub process_callback : Bool → CallbackQuery → CallbackPage → CallbackPage
process_callback is_browser query p =
    if not is_browser || p.executed
    then p
    else let q = record p { executed = true } in
      if has_text query.error
      then notify (text_or_empty query.error) (to_login q)
      else if not (has_text query.code)
      then to_login q
      else record q { exchanging = text_or_empty query.code ∷ q.exchanging }

-- what the exchange of the code answers: a token and a user, or an error
pub data ExchangeReply : Type 0 where
  exchanged : String → ClientUser → ExchangeReply
  not_exchanged : ExchangeReply

abbrev take_rest : List String → List String
take_rest [] = []
take_rest (c ∷ cs) = cs

unfoldable pub answer_exchange : ExchangeReply → CallbackPage → CallbackPage
answer_exchange (ExchangeReply.exchanged token user) p = record p {
  exchanging = take_rest p.exchanging;
  session = set_session token user p.session;
  screen = Effect.navigated "/" ∷ p.screen;
}
answer_exchange ExchangeReply.not_exchanged p =
    to_login (record p { exchanging = take_rest p.exchanging })

-- However often the page is rendered, it acts once: a second run of the callback, whatever it reads,
-- changes nothing.
pub process_callback_once :
    (first second : CallbackQuery) (p : CallbackPage)
    → process_callback true second (process_callback true first p) ≡ process_callback true first p
unfolding process_callback
process_callback_once first second p = elim (Bool-cases p.executed) [
  | inl done ↦ simp done refl
  | inr fresh ↦ elim (Bool-cases (has_text first.error)) [
    | inl failed ↦ simp (fresh, failed) refl
    | inr clean ↦ elim (Bool-cases (has_text first.code)) [
      | inl code ↦ simp (fresh, clean, code) refl
      | inr nothing ↦ simp (fresh, clean, nothing) refl
    ]
  ]
]

pub data VerifyStatus : Type 0 where
  loading verified failed no_token : VerifyStatus

pub record VerifyPage : Type 0 where
  pub executed : Bool
  pub status : VerifyStatus
  pub error_message : String
  pub verifying : List String
  pub email : Control
  pub form : Form

unfoldable pub verify_from_query_token : Bool → Option String → VerifyPage → VerifyPage
verify_from_query_token is_browser token p =
    if not is_browser || p.executed
    then p
    else if not (has_text token)
    then record p { executed = true; status = VerifyStatus.no_token }
    else record p { executed = true; verifying = text_or_empty token ∷ p.verifying }

unfoldable pub answer_verify : Answer → VerifyPage → VerifyPage
answer_verify Answer.accepted p = record p {
  status = VerifyStatus.verified;
  verifying = take_rest p.verifying;
}
answer_verify (Answer.refused message) p = record p {
  status = VerifyStatus.failed;
  error_message = message_of "AUTH.VERIFY_EMAIL.ERROR_GENERIC" message;
  verifying = take_rest p.verifying;
}

module _ (is_email : String → Bool) where
  unfoldable pub submit_resend : VerifyPage → VerifyPage
  submit_resend p =
      if is_bad_email is_email p.email
      then record p { email = touch p.email }
      else record p { form = send_request (Request.resend_request p.email.value) p.form }

unfoldable pub answer_resend : Answer → VerifyPage → VerifyPage
answer_resend a p = record p {
  form =
      answer_form (Effect.popped_up "AUTH.VERIFY_EMAIL.RESEND_SUCCESS_TITLE")
        "AUTH.VERIFY_EMAIL.RESEND_ERROR_GENERIC" none a p.form;
}
