-- ===== src/Sale/Crash.antt =====
-- A sale over which Redis loses its data.
use bid_battle.Auctions.Reconciliation.Restoring.{Others}
use bid_battle.Platform.Redis.{RedisKey}
use bid_battle.Auctions.Reconciliation.{
  on_application_bootstrap, reconciliation_batch_size, top_bid,
}
use bid_battle.Entities.{Bid, Auction}
use bid_battle.Bid.Service.{BidConfig}
use bid_battle.Platform.Effects.{World, Platform}
use bid_battle.Sale.{Attempt, bidding}
use bid_battle.Sale.Backing.{IsBacked, bidding-IsBacked, bidding_keeps}
use bid_battle.Auctions.Reconciliation.Bootstrap.{on_application_bootstrap_restores}
use bid_battle.Prelude.{zero, ◌≤◌, ◌+◌, length, ◌∷◌, ◌++◌, none, some, [], List, ◌<◌, ◌≡◌, arith}

module _ (P : Platform) (config : BidConfig) (positive : 0 < config.min_increment_absolute)
    (ts : List Attempt) (a : Auction) (w : World P) where
  open P.redis use {get}

  -- The world after the bids, and the one in which Redis has lost them.
  abbrev pub bids_in : World P
  bids_in = bidding P config ts w

  abbrev lost_store : P.redis.Store → World P
  lost_store s = record bids_in { store = s }

  -- Before the bids Redis holds the price of the auction's row and the best bid saved, if any
  -- (`IsBacked`). When Redis loses its data after bids that leave at least one saved, and a server
  -- starts, the user of the best bid leads again, but at the price of the row, which no bid has
  -- changed. The configured minimum increment is positive, every request succeeds, fewer than a page
  -- of rows are ACTIVE after the bids, the auction is one of them, no other has its id, and a second
  -- or more is left.
  pub crash_restores_row_price :
      (s : P.redis.Store) (b : Bid) (before after : List Auction)
      → IsBacked P a.id a.current_price w
      → w.faults ≡ []
      → top_bid (P.database.bids_of a.id bids_in.rows) ≡ some b
      → ((j : RedisKey) → get j s ≡ none)
      → P.database.active_auctions bids_in.rows ≡ before ++ a ∷ after
      → length (before ++ a ∷ after) < reconciliation_batch_size
      → Others a.id before
      → Others a.id after
      → bids_in.now + 1000 ≤ a.end_time
      → let w' = (on_application_bootstrap P 1 (lost_store s)).1 in
        (P.database.find_auction a.id bids_in.rows ≡ P.database.find_auction a.id w.rows)
        × (get (RedisKey.auction_price a.id) bids_in.store ≡ some b.amount)
        × (get (RedisKey.auction_bidder a.id) bids_in.store ≡ some b.user_id)
        × (get (RedisKey.auction_price a.id) w'.store ≡ some a.current_price)
        × (get (RedisKey.auction_bidder a.id) w'.store ≡ some b.user_id)
  crash_restores_row_price s b before after backed f best empty listed few elsewhere elsewhere'
        ahead =
      let keeps = bidding_keeps P config ts w f in
      let still = bidding-IsBacked P a.id a.current_price config positive ts w f backed in
      let back =
        on_application_bootstrap_restores P zero before after a (lost_store s) listed few elsewhere
          elsewhere' ahead keeps.0 empty in
      ground (arith, keeps.2 a.id, best, still, back)
