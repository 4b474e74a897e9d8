-- ===== src/Sale/Settlement.antt =====
-- A whole sale: the start job, the bids, the end job.
use bid_battle.Auctions.StartProcessor.Activation.{process_start_activates}
use bid_battle.Auctions.EndProcessor.Closing.{process_end_closes}
use bid_battle.Platform.Redis.{RedisKey}
use bid_battle.Auctions.EndProcessor.{finalize, process_end}
use bid_battle.Auctions.Reconciliation.{bidder_of, top_bid}
use bid_battle.Auctions.StartProcessor.{mark_active, process_start}
use bid_battle.Entities.{AuctionStatus, is_ended, Auction}
use bid_battle.Bid.Service.{BidConfig}
use bid_battle.Platform.Effects.{Outcome, World, Platform}
use bid_battle.Sale.{price_after, Attempt, bidding}
use bid_battle.Sale.Backing.{IsBacked, bidding-IsBacked, bidding_keeps}
use bid_battle.Auctions.StartProcessor.Opening.{process_start_opens}
use bid_battle.Prelude.{refl, none, ◌≤◌, false, ◌+◌, some, [], List, ◌<◌, ℕ, ◌≡◌, arith}

module _ (P : Platform) (id : ℕ) (a : Auction) where
  open P.database use {find_auction, bids_of}

  -- When every request of the end job succeeds on an auction that is backed and not ENDED, the row
  -- gets the amount and the user of its best bid.
  backed_closes :
      (start : ℕ) (w : World P)
      → IsBacked P id start w
      → w.faults ≡ []
      → find_auction id w.rows ≡ some a
      → is_ended a.status ≡ false
      → let (r, w') = process_end P id w in
        let top = top_bid (bids_of id w.rows) in
        (r ≡ Outcome.ok tt)
        × (find_auction id w'.rows
            ≡ some (finalize (price_after start top) (bidder_of top) w.now a))
        × (P.redis.get (RedisKey.auction_active id) w'.store ≡ none)
  backed_closes start w backed f found open_still =
      let price = price_after start (top_bid (bids_of id w.rows)) in
      let closes =
        process_end_closes P id w price backed.price_backed backed.price_positive f a found
          open_still in
      ground (arith, closes, backed.leader_backed)

module _ (P : Platform) (config : BidConfig) (positive : 0 < config.min_increment_absolute) (id : ℕ)
    (a : Auction) (ts : List Attempt) (w : World P) where
  open P.database use {find_auction, bids_of}

  -- The world when the auction is open, and the world when the bids are in.
  abbrev pub opened : World P
  opened = (process_start P id w).1

  abbrev pub bid_upon : World P
  bid_upon = bidding P config ts opened

  -- At a positive configured minimum increment and with no time passing, so that no key runs out: a
  -- sale from its start to its end, every request of which succeeds: the start job of a PENDING
  -- auction with a second or more left, a positive starting price, no bid and nothing in Redis, then
  -- any bids of any users on any auctions, then the end job. The row is ENDED with the amount and
  -- the user of the best bid that was saved (the highest amount, the oldest of equal ones), or with
  -- the starting price and no winner if none was, and its active key is gone.
  pub sale_settles :
      find_auction id w.rows ≡ some a
      → a.status ≡ AuctionStatus.pending
      → w.now + 1000 ≤ a.end_time
      → 0 < a.starting_price
      → bids_of id w.rows ≡ []
      → w.faults ≡ []
      → ((j : RedisKey) → P.redis.get j w.store ≡ none)
      → let (r, w') = process_end P id bid_upon in
        let top = top_bid (bids_of id bid_upon.rows) in
        (r ≡ Outcome.ok tt)
        × (find_auction id w'.rows
            ≡ some (
                finalize
                  (price_after a.starting_price top)
                  (bidder_of top)
                  bid_upon.now
                  (mark_active w.now a)))
        × (P.redis.get (RedisKey.auction_active id) w'.store ≡ none)
  unfolding top_bid
  sale_settles found pending ahead priced no_bids f empty =
      let opens = process_start_opens P id w a found pending ahead f in
      let free : P.redis.exists (RedisKey.auction_active id) w.store ≡ false = ground (
        arith,
        P.redis.exists_lem (RedisKey.auction_active id) w.store,
        empty (RedisKey.auction_active id),
      ) in
      let active =
        process_start_activates P id w a found pending ahead f free
          (empty (RedisKey.auction_price id)) (empty (RedisKey.auction_owner id)) in
      let fresh : IsBacked P id a.starting_price opened = record {
        price_backed = ground (arith, active, opens, no_bids);
        price_positive = ground (arith, opens, no_bids, priced);
        leader_backed = ground (arith, opens, no_bids, empty (RedisKey.auction_bidder id));
      } in
      let keeps = bidding_keeps P config ts opened opens.0 in
      backed_closes P id (mark_active w.now a) a.starting_price bid_upon
        (bidding-IsBacked P id a.starting_price config positive ts opened opens.0 fresh) keeps.0
        (ground (arith, active, keeps.2 id)) refl
