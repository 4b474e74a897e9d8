-- ===== src/Bid/Service/Progress.antt =====
-- The bids that `placeBid` of server/src/modules/bid/bid.service.ts has to take.
use bid_battle.Bid.Service.Acceptance.{increment_for}
use bid_battle.Redis.Script.Acceptance.{bid_script_writes, bid_script_accepts, IsAcceptable}
use bid_battle.Platform.Redis.{RedisKey}
use bid_battle.Redis.Auctions.{read_reply}
use bid_battle.Platform.Effects.{Outcome, request, World, Platform}
use bid_battle.Bid.Service.{placed, save_bid, settle_bid, BidConfig, place_bid}
use bid_battle.Bid.Service.Failure.{place_bid_settles}
use bid_battle.Prelude.{[], some, ◌≢◌, ℕ, ◌≡◌, arith}

module _ (P : Platform) (config : BidConfig) (auction user amount : ℕ) (w : World P) where
  open P.redis use {get}

  -- While every request succeeds, a positive bid on an open auction with a known owner is placed, if
  -- its user is not the owner and does not lead, and it reaches the price plus the increment: its
  -- user then leads at its amount, and it is a row.
  pub place_bid_progress :
      (o : ℕ)
      → amount ≢ 0
      → get (RedisKey.auction_owner auction) w.store ≡ some o
      → o ≢ user
      → IsAcceptable P.redis auction amount user
          (increment_for config (get (RedisKey.auction_price auction) w.store))
          w.store
      → w.faults ≡ []
      → let (r, w') = place_bid P config auction user amount w in
        (r ≡ Outcome.ok placed)
        × (w'.rows ≡ P.database.insert_bid auction user amount w.rows)
        × (get (RedisKey.auction_price auction) w'.store ≡ some amount)
        × (get (RedisKey.auction_bidder auction) w'.store ≡ some user)
  unfolding settle_bid save_bid read_reply request
  place_bid_progress o nonzero owned other fits f =
      let inc = increment_for config (get (RedisKey.auction_price auction) w.store) in
      let taken = (bid_script_accepts P.redis auction amount user inc w.store).1 fits in
      let written = (bid_script_writes P.redis auction amount user inc w.store taken).0 in
      ground (
        arith,
        taken,
        f,
        place_bid_settles P config auction user amount w o nonzero owned other fits (ground arith)
            (ground arith) (ground arith),
        written (RedisKey.auction_price auction),
        written (RedisKey.auction_bidder auction),
      )
