-- ===== src/Auctions/EndProcessor.antt =====
-- `process` of server/src/modules/auctions/auctions-end.processor.ts, and `notifyAuctionEnd` of
-- server/src/modules/bid/bid.gateway.ts, which it calls. The mails that `process` sends off at its
-- end are not awaited and are a module of their own.
pub mod Closing
pub mod Notifications
use bid_battle.Prelude.{ℕ, Bool, true, false, Option, none, some, ◌==◌, if◌then◌else◌}
use bid_battle.Entities.{Auction, AuctionStatus, is_ended}
use bid_battle.Platform.Effects.{
  Platform, Eff, Emission, pure, transaction, ◌>>=◌, ◌>>◌, ask_rows, change_rows, current_time,
  emit,
}
use bid_battle.Redis.Auctions.{get_live_price, get_highest_bidder_id, cleanup_auction}
use bid_battle.Redis.Cache.{invalidate_cache}

abbrev pub finalize : ℕ → Option ℕ → ℕ → Auction → Auction
finalize price winner now a = record a {
  status = AuctionStatus.ended;
  current_price = price;
  winner_id = winner;
  ended_at = some now;
}

module _ (P : Platform) where
  open P.database use {find_auction, update_auction}

  -- `if (winnerId)`: no id is 0
  abbrev notify_winner : ℕ → Option ℕ → Option ℕ → Eff P (Unit {0})
  notify_winner auction none price = pure tt
  notify_winner auction (some u) price =
      if u == 0 then pure tt else emit (Emission.auction_won u auction price)

  unfoldable pub notify_auction_end : ℕ → Option ℕ → Option ℕ → Eff P (Unit {0})
  notify_auction_end auction winner price = do
    emit (Emission.auction_ended auction price)
    notify_winner auction winner price

  abbrev finish_found : ℕ → ℕ → Option ℕ → Option Auction → Eff P Bool
  finish_found id price winner none = pure false
  finish_found id price winner (some a) = if is_ended a.status then pure false else (do
    now ← current_time
    change_rows (update_auction id (finalize price winner now))
    pure true)

  -- the transaction with the row locked; the result is `dbUpdated`
  unfoldable pub finish : ℕ → ℕ → Option ℕ → Eff P Bool
  finish id price winner =
      transaction (do locked ← ask_rows (find_auction id); finish_found id price winner locked)

  unfoldable pub end_with : ℕ → ℕ → Eff P (Unit {0})
  end_with id price = do
    winner ← get_highest_bidder_id P id
    db_updated ← finish id price winner
    cleanup_auction P id
    invalidate_cache P "auctions:active:*"
    if db_updated then notify_auction_end id winner (some price) else pure tt

  abbrev end_found : ℕ → Option ℕ → Eff P (Unit {0})
  end_found id none = pure tt
  end_found id (some price) = if price == 0 then pure tt else end_with id price

  unfoldable pub process_end : ℕ → Eff P (Unit {0})
  process_end id = do price ← get_live_price P id; end_found id price
