-- ===== src/Bid/Service/Quiet.antt =====
-- What `placeBid` of server/src/modules/bid/bid.service.ts sends: nothing.

use bid_battle.Redis.Script.{bid_script}
use bid_battle.Platform.Redis.{RedisKey}
use bid_battle.Redis.Auctions.Replies.{
  is_auction_active_lem, place_bid_atomic_lem, get_auction_owner_lem, get_live_price_lem,
}
use bid_battle.Bid.Service.Acceptance.{increment_for}
use bid_battle.Redis.Auctions.{
  read_reply, place_bid_atomic_with_snapshot, BidAtomicSnapshot, ResultPlateBidAtomic, rollback_bid,
}
use bid_battle.Bid.Service.{
  check_bid, BidConfig, answer_rejection, attempt_bid, place_bid, save_bid, settle_bid, submit_bid,
}
use bid_battle.Platform.Effects.{fault_of, heard, advance, request, World, Platform}
use bid_battle.Prelude.{none, arith, Option, ℕ, ◌≡◌}

-- Nothing was sent, and the client is as it was.
pub record IsQuiet {P : Platform} (w w' : World P) : Type 0 where
  pub sent_kept : w'.sent ≡ w.sent
  pub client_kept : w'.client ≡ w.client

module _ (P : Platform) (w : World P) (auction : ℕ) where
  rollback_bid-IsQuiet :
      (price bidder : Option ℕ) → IsQuiet w (rollback_bid P auction price bidder w).1
  unfolding rollback_bid request
  rollback_bid-IsQuiet price bidder = ground arith

  answer_rejection-IsQuiet : (code : Option ℕ) → IsQuiet w (answer_rejection P auction code w).1
  unfolding answer_rejection
  answer_rejection-IsQuiet code = ground (arith, get_live_price_lem P auction w)

module _ (P : Platform) (auction user amount : ℕ) where
  save_bid-IsQuiet :
      (snapshot : BidAtomicSnapshot) (w : World P)
      → IsQuiet w (save_bid P auction user amount snapshot w).1
  unfolding save_bid request
  save_bid-IsQuiet s w = ground (
    arith,
    rollback_bid-IsQuiet P (advance w) auction s.previous_price s.previous_bidder_id,
    rollback_bid-IsQuiet P
        (record (advance w) { rows = P.database.insert_bid auction user amount w.rows }) auction
        s.previous_price s.previous_bidder_id,
  )

  settle_bid-IsQuiet :
      (r : ResultPlateBidAtomic) (w : World P) → IsQuiet w (settle_bid P auction user amount r w).1
  unfolding settle_bid
  settle_bid-IsQuiet (ResultPlateBidAtomic.success s) w = save_bid-IsQuiet s w
  settle_bid-IsQuiet (ResultPlateBidAtomic.failure c) w = answer_rejection-IsQuiet P w auction c

  submit_bid-IsQuiet :
      (config : BidConfig) (price : Option ℕ) (w : World P)
      → IsQuiet w (submit_bid P config auction user amount price w).1
  unfolding submit_bid
  submit_bid-IsQuiet config price w =
      let inc = increment_for config price in
      let answered = (place_bid_atomic_with_snapshot P auction user amount inc w).1 in
      ground (
        arith,
        place_bid_atomic_lem P auction w user amount inc,
        settle_bid-IsQuiet
            (heard (fault_of w) (read_reply (bid_script P.redis auction amount user inc w.store).0)
              (ResultPlateBidAtomic.failure none))
            answered,
      )

  pub place_bid-IsQuiet :
      (config : BidConfig) (w : World P) → IsQuiet w (place_bid P config auction user amount w).1
  unfolding place_bid attempt_bid check_bid
  place_bid-IsQuiet config w = ground (
    arith,
    get_auction_owner_lem P auction w,
    is_auction_active_lem P auction (advance w),
    get_live_price_lem P auction (advance (advance w)),
    submit_bid-IsQuiet config
        (heard (fault_of (advance (advance w)))
          (P.redis.get (RedisKey.auction_price auction) w.store) none)
        (advance (advance (advance w))),
  )
