-- ===== src/Auctions/Reconciliation.antt =====
-- `onApplicationBootstrap` of server/src/modules/auctions/auctions-start.processor.ts, and the SQL
-- text of `findByOrphanedIds` in server/src/modules/bid/repositories/bid.repository.ts.
pub mod Restoring
pub mod Bootstrap
use bid_battle.Prelude.{
  ℕ, zero, suc, ◌+◌, Bool, Option, none, some, List, [], ◌∷◌, map, ◌==◌, ltb, if◌then◌else◌, take,
  drop, length, ◌||◌, ◌&&◌,
}
use bid_battle.Entities.{Auction, Bid}
use bid_battle.Platform.Effects.{
  Platform, Eff, pure, try_catch, ◌>>=◌, ◌>>◌, ask_rows, change_rows, current_time,
}
use bid_battle.Redis.Auctions.{are_auctions_active, restore_auction}
use bid_battle.Redis.Rooms.{contains}
use bid_battle.Auctions.Scheduler.{schedule_auction_end}
use bid_battle.Auctions.StartProcessor.{duration_seconds, mark_ended}

abbrev pub reconciliation_batch_size : ℕ
reconciliation_batch_size = 100

-- RANK() OVER (ORDER BY amount DESC, id ASC) = 1
abbrev pub ranks_before : Bid → Bid → Bool
ranks_before b c = ltb c.amount b.amount || (b.amount == c.amount && ltb b.id c.id)

abbrev pub better : Bid → Option Bid → Bid
better b none = b
better b (some c) = if ranks_before c b then c else b

unfoldable pub top_bid : List Bid → Option Bid
top_bid [] = none
top_bid (b ∷ bs) = some (better b (top_bid bs))

abbrev pub bidder_of : Option Bid → Option ℕ
bidder_of none = none
bidder_of (some b) = some b.user_id

unfoldable pub orphans : List ℕ → List Auction → List Auction
orphans known [] = []
orphans known (a ∷ more) =
    if contains a.id known then orphans known more else a ∷ orphans known more

module _ (P : Platform) where
  open P.database use {Rows, active_auctions, bids_of, update_auction}

  -- what is done with one orphan, under its own try
  unfoldable pub reconcile : ℕ → Auction → Option ℕ → Eff P (Unit {0})
  reconcile now a bidder =
      try_catch
        (if duration_seconds a.end_time now == 0
          then change_rows (update_auction a.id (mark_ended now))
          else (do
            restore_auction P a.id a.current_price (duration_seconds a.end_time now) a.owner_id
                bidder
            schedule_auction_end P a.id a.end_time))
        (λ _. pure tt)

  unfoldable pub reconcile_all : ℕ → (ℕ → Option ℕ) → List Auction → Eff P (Unit {0})
  reconcile_all now bidder [] = pure tt
  reconcile_all now bidder (a ∷ more) = do
    reconcile now a (bidder a.id)
    reconcile_all now bidder more

  unfoldable pub reconcile_batch : ℕ → List Auction → Eff P (Unit {0})
  reconcile_batch now batch = do
    known ← are_auctions_active P (map (λ a. a.id) batch)
    elim (orphans known batch) [
      | [] ↦ pure tt
      | a ∷ more ↦ (do
        bidders ← ask_rows λ r i. bidder_of (top_bid (bids_of i r))
        reconcile_all now bidders (a ∷ more))
    ]

  -- `break` on an empty page, else another round after a full one
  abbrev next_page : ℕ → Eff P (Unit {0}) → Eff P (Unit {0}) → Eff P (Unit {0})
  next_page size work rest =
      if size == 0
      then pure tt
      else if size == reconciliation_batch_size
      then (do work; rest)
      else work

  -- the do-while loop over pages; the number bounds its rounds
  unfoldable pub reconcile_pages : ℕ → ℕ → Eff P (Unit {0})
  reconcile_pages zero skip = pure tt
  reconcile_pages (suc n) skip = do
    now ← current_time
    batch ← ask_rows λ r. take reconciliation_batch_size (drop skip (active_auctions r))
    let rest = reconcile_pages n (skip + reconciliation_batch_size)
    let work = reconcile_batch now batch
    next_page (length batch) work rest

  unfoldable pub on_application_bootstrap : ℕ → Eff P (Unit {0})
  on_application_bootstrap rounds = try_catch (reconcile_pages rounds 0) (λ _. pure tt)
