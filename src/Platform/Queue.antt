-- ===== src/Platform/Queue.antt =====
-- The two BullMQ queues of auctions, and that of mails. A job of an auction is known by its id: the
-- queue's name and the auction's number.
use bid_battle.Prelude.{
  String, List, ◌∷◌, ℕ, ◌≡◌, Bool, false, Option, none, some, ◌==◌, if◌then◌else◌,
}

-- IMailFooter and the contexts of the templates (server/src/shared/mail/interfaces). A mail names its
-- template by the context it has.
pub data MailContext : Type 0 where
  -- the name of the user, the link, the minutes it lasts
  forgot_password verify_email : String → String → ℕ → MailContext
  password_changed : String → MailContext
  -- the name of the user, the title, the price, the link, and for the owner the winner's name
  auction_winner : String → String → ℕ → String → MailContext
  auction_owner : String → String → ℕ → String → Option String → MailContext
  test : MailContext

-- IMailOptions
pub record Mail : Type 0 where
  pub to : String
  pub subject : String
  pub template : String
  pub app_name : String
  pub app_url : String
  pub rights : String
  pub context : MailContext

pub data JobId : Type 0 where
  start_job end_job : ℕ → JobId

abbrev pub job_eq : JobId → JobId → Bool
job_eq (JobId.start_job a) (JobId.start_job b) = a == b
job_eq (JobId.end_job a) (JobId.end_job b) = a == b
job_eq _ _ = false

-- `add` of an id that the queue still holds is ignored.
pub record JobQueue : Type 1 where
  pub Jobs : Type 0
  -- the delay of the job, in milliseconds
  pub get_job : JobId → Jobs → Option ℕ
  pub add_job : JobId → ℕ → Jobs → Jobs
  pub remove_job : JobId → Jobs → Jobs
  pub get-add :
      (j k : JobId) (d : ℕ) (q : Jobs)
      → get_job j (add_job k d q)
        ≡ (if job_eq k j then some (elim (get_job j q) [ some e ↦ e | none ↦ d ]) else get_job j q)
  pub get-remove :
      (j k : JobId) (q : Jobs)
      → get_job j (remove_job k q) ≡ (if job_eq k j then none else get_job j q)
  -- the mails that were added to their queue, newest first
  pub mails : Jobs → List Mail
  pub add_mail : Mail → Jobs → Jobs
  pub mails-add : (m : Mail) (q : Jobs) → mails (add_mail m q) ≡ m ∷ mails q
