-- ===== src/Auctions/Scheduler.antt =====
-- server/src/modules/auctions/auction.scheduler.ts. Delays and dates are milliseconds.
use bid_battle.Prelude.{ℕ, ◌-◌, Option, none, some, leb, if◌then◌else◌}
use bid_battle.Platform.Queue.{JobId}
use bid_battle.Platform.Effects.{Platform, Eff, pure, ◌>>=◌, request, change_jobs, current_time}

-- The delay of a job for the date `at`: a date that is not ahead counts as two seconds from now.
unfoldable pub delay_until : ℕ → ℕ → ℕ
delay_until at now = if leb at now then 2000 else at - now

module _ (P : Platform) where
  open P.queue use {get_job, add_job, remove_job}

  unfoldable pub schedule_auction_start : ℕ → ℕ → Eff P (Unit {0})
  schedule_auction_start auction starts_at = do
    now ← current_time
    change_jobs (add_job (JobId.start_job auction) (delay_until starts_at now))

  unfoldable pub schedule_auction_end : ℕ → ℕ → Eff P (Unit {0})
  schedule_auction_end auction ends_at = do
    now ← current_time
    change_jobs (add_job (JobId.end_job auction) (delay_until ends_at now))

  abbrev pub ask_job : JobId → Eff P (Option ℕ)
  ask_job id = request λ w. (get_job id w.jobs, w)

  abbrev remove_found : JobId → Option ℕ → Eff P (Unit {0})
  remove_found id none = pure tt
  remove_found id (some _) = change_jobs (remove_job id)

  unfoldable pub cancel_auction_start : ℕ → Eff P (Unit {0})
  cancel_auction_start auction = do
    job ← ask_job (JobId.start_job auction)
    remove_found (JobId.start_job auction) job

  unfoldable pub cancel_auction_end : ℕ → Eff P (Unit {0})
  cancel_auction_end auction = do
    job ← ask_job (JobId.end_job auction)
    remove_found (JobId.end_job auction) job

  unfoldable pub get_start_job : ℕ → Eff P (Option ℕ)
  get_start_job auction = ask_job (JobId.start_job auction)
