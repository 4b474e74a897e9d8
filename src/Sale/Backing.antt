-- ===== src/Sale/Backing.antt =====
-- Redis against the rows of the bids, while every request succeeds.
use bid_battle.Redis.Script.Acceptance.{bid_script_writes, bid_script_accepts}
use bid_battle.Bid.Increment.{whole_increment_positive}
use bid_battle.Bid.Service.Acceptance.{increment_for}
use bid_battle.Bid.Service.Healthy.{place_bid_healthy, IsTaken}
use bid_battle.Platform.Redis.{RedisKey}
use bid_battle.Auctions.Reconciliation.{bidder_of, better, top_bid}
use bid_battle.Bid.Service.{place_bid, BidConfig}
use bid_battle.Platform.Effects.{World, Platform}
use bid_battle.Entities.{Bid}
use bid_battle.Entities.{Bid}
use bid_battle.Prelude.{
  inr, inl, ◌∷◌, [], List, refl, none, some, get_or, some, Option, ℕ, ◌≡◌, ◌<◌, arith,
}
use bid_battle.Sale.{Attempt, bidding, price_after}

better_first :
    (b : Bid) (top : Option Bid) (start : ℕ) → price_after start top < b.amount → better b top ≡ b
better_first b none start h = refl
better_first b (some c) start h = ground arith

module _ (P : Platform) (j start : ℕ) where
  open P.database use {bids_of}

  -- What Redis holds of the auction is its best row: the highest amount, the oldest of equal ones.
  -- Without rows it holds the starting price and no bidder.
  pub record IsBacked (w : World P) : Type 0 where
    pub price_backed :
        P.redis.get (RedisKey.auction_price j) w.store
        ≡ some (price_after start (top_bid (bids_of j w.rows)))
    pub price_positive : 0 < price_after start (top_bid (bids_of j w.rows))
    pub leader_backed :
        P.redis.get (RedisKey.auction_bidder j) w.store ≡ bidder_of (top_bid (bids_of j w.rows))

  module _ (config : BidConfig) (positive : 0 < config.min_increment_absolute) where
    taken-IsBacked :
        (a u m : ℕ) (w w' : World P) → IsBacked w → IsTaken P config a u m w w' → IsBacked w'
    unfolding top_bid
    taken-IsBacked a u m w w' backed (price, taken, stored, saved) =
        let inc = increment_for config price in
        let big =
          whole_increment_positive (get_or price 0) config.min_increment_percent
            config.min_increment_absolute positive in
        let fits = (bid_script_accepts P.redis a m u inc w.store).0 taken in
        let writes = bid_script_writes P.redis a m u inc w.store taken in
        let row : Bid = record {
          id = P.database.next_bid_id w.rows;
          amount = m;
          auction_id = a;
          user_id = u;
        } in
        let best = better_first row (top_bid (bids_of j w.rows)) start in
        let rows = P.database.bids_of-insert_bid j a u m w.rows in
        ground (
          arith,
          big,
          fits.enough,
          backed,
          best,
          rows,
          stored,
          saved,
          writes.0 (RedisKey.auction_price j),
          writes.0 (RedisKey.auction_bidder j),
        )

    -- At a positive configured minimum increment and while every request succeeds: however users bid,
    -- on whatever auctions, what Redis holds of the auction stays its best row (`IsBacked`).
    pub bidding-IsBacked :
        (ts : List Attempt) (w : World P)
        → w.faults ≡ []
        → IsBacked w
        → IsBacked (bidding P config ts w)
    unfolding bidding
    bidding-IsBacked [] w f backed = backed
    bidding-IsBacked (t ∷ ts) w f backed =
        let w' = (place_bid P config t.auction t.user t.amount w).1 in
        let step = place_bid_healthy P config t.auction t.user t.amount w f in
        bidding-IsBacked ts w' step.0.healthy (elim step.1 [
          | inl taken ↦ taken-IsBacked t.auction t.user t.amount w w' backed taken
          | inr same ↦ ground (arith, backed, same)
        ])

module _ (P : Platform) (config : BidConfig) where
  -- The rows of auctions, the jobs and the time are as before the bids.
  pub bidding_keeps :
      (ts : List Attempt) (w : World P)
      → w.faults ≡ []
      → let w' = bidding P config ts w in
        (w'.faults ≡ [])
        × (w'.now ≡ w.now)
        × ((j : ℕ) → P.database.find_auction j w'.rows ≡ P.database.find_auction j w.rows)
  unfolding bidding
  bidding_keeps [] w f = (f, refl, λ j. refl)
  bidding_keeps (t ∷ ts) w f =
      let w' = (place_bid P config t.auction t.user t.amount w).1 in
      let step = place_bid_healthy P config t.auction t.user t.amount w f in
      let rest = bidding_keeps ts w' step.0.healthy in
      (
        rest.0,
        ground (arith, rest.1, step.0.now_kept),
        λ j. ground (
          arith,
          rest.2 j,
          step.1,
          P.database.find-insert_bid j t.auction t.user t.amount w.rows,
        ),
      )
