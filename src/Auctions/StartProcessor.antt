-- ===== src/Auctions/StartProcessor.antt =====
-- `process` of server/src/modules/auctions/auctions-start.processor.ts.
pub mod Activation
pub mod Opening
use bid_battle.Prelude.{
  ℕ, ◌-◌, ◌/◌, Bool, true, false, Option, none, some, not, ◌==◌, if◌then◌else◌,
}
use bid_battle.Entities.{Auction, AuctionStatus, is_pending}
use bid_battle.Platform.Effects.{
  Platform, Eff, pure, throw, try_catch, transaction, ◌>>=◌, ◌>>◌, ask_rows, change_rows,
  current_time,
}
use bid_battle.Redis.Auctions.{initialize_auction}
use bid_battle.Redis.Cache.{invalidate_cache}
use bid_battle.Auctions.Scheduler.{schedule_auction_end}

-- `Math.floor((endTime - now) / 1000)`, with 0 for what is not positive
abbrev pub duration_seconds : ℕ → ℕ → ℕ
duration_seconds end_time now = (end_time - now) / 1000

abbrev pub mark_ended : ℕ → Auction → Auction
mark_ended now a = record a { status = AuctionStatus.ended; ended_at = some now }

abbrev pub mark_active : ℕ → Auction → Auction
mark_active now a = record a { status = AuctionStatus.active; started_at = some now }

abbrev pub mark_pending : Auction → Auction
mark_pending a = record a { status = AuctionStatus.pending; started_at = none }

module _ (P : Platform) where
  open P.database use {find_auction, update_auction}

  abbrev activate_found : ℕ → ℕ → Option Auction → Eff P Bool
  activate_found id now none = pure false
  activate_found id now (some locked) =
      if not (is_pending locked.status)
      then pure false
      else (do change_rows (update_auction id (mark_active now)); pure true)

  -- the transaction with the row locked
  unfoldable pub activate : ℕ → ℕ → Eff P Bool
  activate id now =
      transaction (do locked ← ask_rows (find_auction id); activate_found id now locked)

  unfoldable pub set_up : Auction → ℕ → Eff P (Unit {0})
  set_up a duration =
      try_catch
        (do
          initialize_auction P a.id a.starting_price duration a.owner_id
          schedule_auction_end P a.id a.end_time
          invalidate_cache P "auctions:active:*")
        (λ e. do try_catch (change_rows (update_auction a.id mark_pending)) (λ _. pure tt); throw e)

  unfoldable pub start_or_end : Auction → ℕ → Eff P (Unit {0})
  start_or_end a now =
      if duration_seconds a.end_time now == 0
      then change_rows (update_auction a.id (mark_ended now))
      else (do
        was_started ← activate a.id now
        if was_started then set_up a (duration_seconds a.end_time now) else pure tt)

  unfoldable pub start_pending : Auction → Eff P (Unit {0})
  start_pending a = do now ← current_time; start_or_end a now

  abbrev start_found : Option Auction → Eff P (Unit {0})
  start_found none = pure tt
  start_found (some a) = if is_pending a.status then start_pending a else pure tt

  unfoldable pub process_start : ℕ → Eff P (Unit {0})
  process_start id = do found ← ask_rows (find_auction id); start_found found
