-- ===== src/Bid/Service/Acceptance.antt =====
-- What `placeBid` of server/src/modules/bid/bid.service.ts has done when it reports success, and
-- what it never does.
use bid_battle.Bid.Increment.{whole_increment, calc_min_increment}
use bid_battle.Platform.Redis.{RedisKey}
use bid_battle.Redis.Script.{bid_script}
use bid_battle.Prelude.{ap, get_or, ◌≢◌, ℕ, ◌≡◌, true, false, Option, arith}
use bid_battle.Platform.Effects.{heard, advance, fault_of, Platform, World, Outcome, request}
use bid_battle.Redis.Auctions.{get_live_price, read_reply, BidAtomicSnapshot}
use bid_battle.Redis.Auctions.Replies.{
  is_auction_active_lem, get_auction_owner_lem, place_bid_atomic_lem, get_live_price_lem,
}
use bid_battle.Bid.Service.{
  attempt_bid, some, none, check_bid, place_bid, settle_bid, submit_bid, BidConfig, BidResult,
  save_bid, answer_rejection,
}

-- The whole increment that goes with a price that was read or not.
abbrev pub increment_for : BidConfig → Option ℕ → ℕ
increment_for config price =
    whole_increment (
      calc_min_increment (get_or price 0) config.min_increment_percent
        config.min_increment_absolute)

module _ (P : Platform) (config : BidConfig) (auction user amount : ℕ) (w : World P) where
  open P.redis use {get, exists}

  answer_rejection_lem :
      (code : Option ℕ) {r : BidResult} {w' : World P}
      → answer_rejection P auction code w ≡ (Outcome.ok r, w')
      → (r.success ≡ false) × (w'.store ≡ w.store) × (w'.rows ≡ w.rows)
  unfolding answer_rejection
  answer_rejection_lem code h = ground (arith, get_live_price_lem P auction w)

  save_bid_success :
      (snapshot : BidAtomicSnapshot) {r : BidResult} {w' : World P}
      → save_bid P auction user amount snapshot w ≡ (Outcome.ok r, w')
      → r.success ≡ true
      → (w'.store ≡ w.store) × (w'.rows ≡ P.database.insert_bid auction user amount w.rows)
  unfolding save_bid request
  save_bid_success snapshot h ok = ground (arith)

  submit_bid_success :
      (price : Option ℕ) {r : BidResult} {w' : World P}
      → submit_bid P config auction user amount price w ≡ (Outcome.ok r, w')
      → r.success ≡ true
      → let (reply, s) =
          bid_script P.redis auction amount user (increment_for config price) w.store in
        (reply.0 ≡ 1)
        × (w'.store ≡ s)
        × (w'.rows ≡ P.database.insert_bid auction user amount w.rows)
  unfolding submit_bid settle_bid save_bid answer_rejection read_reply request
  submit_bid_success price h ok =
      ground (arith, place_bid_atomic_lem P auction w user amount (increment_for config price))

module _ (P : Platform) (config : BidConfig) (auction user amount : ℕ) (w : World P) where
  open P.redis use {get, exists}

  -- One bid, taken by the script at the increment for `price` and saved as a row.
  pub record IsPlaced (price : Option ℕ) (w' : World P) : Type 0 where
    pub owner_known : get (RedisKey.auction_owner auction) w.store ≢ none
    pub not_owner : get (RedisKey.auction_owner auction) w.store ≢ some user
    pub accepted :
        (bid_script P.redis auction amount user (increment_for config price) w.store).0.0 ≡ 1
    pub store_written :
        w'.store ≡ (bid_script P.redis auction amount user (increment_for config price) w.store).1
    pub row_saved : w'.rows ≡ P.database.insert_bid auction user amount w.rows

  -- When `placeBid` reports success, the auction's owner was known and is not the bidder, the script
  -- took the bid at the increment for the price that `getLivePrice` gave as the third request (none,
  -- when that read failed or found none), Redis holds what the script wrote, and the bid is a row;
  -- whatever requests fail.
  pub place_bid_success :
      {r : BidResult} {w' : World P}
      → place_bid P config auction user amount w ≡ (Outcome.ok r, w')
      → r.success ≡ true
      → (price : Option ℕ) × ((get_live_price P auction (advance (advance w))).0 ≡ Outcome.ok price)
        × IsPlaced price w'
  unfolding place_bid attempt_bid check_bid
  place_bid_success {r} {w'} h ok =
      let price =
        heard (fault_of (advance (advance w))) (get (RedisKey.auction_price auction) w.store)
          none in
      let w₃ = advance (advance (advance w)) in
      (
        price,
        ap (λ x. x.0) (get_live_price_lem P auction (advance (advance w))),
        ground (
          arith,
          get_auction_owner_lem P auction w,
          is_auction_active_lem P auction (advance w),
          get_live_price_lem P auction (advance (advance w)),
          submit_bid_success P config auction user amount w₃ price {r = r} {w' = w'},
        ),
      )
