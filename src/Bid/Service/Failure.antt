-- ===== src/Bid/Service/Failure.antt =====
-- What `placeBid` of server/src/modules/bid/bid.service.ts leaves behind when a bid is refused or a
-- request fails on the way.
use bid_battle.Redis.Commands.Undo.{rollback-bid_script}
use bid_battle.Redis.Auctions.{ResultPlateBidAtomic, BidAtomicSnapshot, read_reply}
use bid_battle.Redis.Script.{bid_script, ScriptReply}
use bid_battle.Redis.Commands.{safe_ttl, rollback_commands}
use bid_battle.Redis.Auctions.Replies.{
  place_bid_atomic_lem, rollback_bid_healthy, get_live_price_lem, is_auction_active_lem,
  get_auction_owner_lem,
}
use bid_battle.Bid.Service.Acceptance.{increment_for}
use bid_battle.Redis.Script.Acceptance.{bid_script_writes, bid_script_accepts, IsAcceptable}
use bid_battle.Platform.Redis.{is_missing, RedisKey}
use bid_battle.Prelude.{refl, ◌∷◌, arith, ◌≢◌, ◌≡◌, ◌∷◌, ◌≢◌, []}
use bid_battle.Platform.Effects.{
  pure, try_catch, heard, reached, fault_of, Fault, advance, request, try_catch_total, Outcome,
  World, Platform,
}
use bid_battle.Bid.Service.{
  attempt_bid, none, fail_result, false, some, BidResult, ℕ, BidConfig, place_bid, check_bid,
  submit_bid, settle_bid, save_bid, answer_rejection,
}

-- `placeBid` answers a result and never throws, whatever requests fail.
pub place_bid_answers :
    (P : Platform) (config : BidConfig) (auction user amount : ℕ) (w : World P)
    → (r : BidResult) × ((place_bid P config auction user amount w).0 ≡ Outcome.ok r)
unfolding place_bid
place_bid_answers P config auction user amount w =
    try_catch_total (attempt_bid P config auction user amount)
      (fail_result "SERVER_ERROR" "bid.error.bid_failed") w

-- The row is refused: the rollback of the snapshot follows.
save_bid_refused :
    (P : Platform) (auction user amount : ℕ) (snapshot : BidAtomicSnapshot) (v : World P)
    → fault_of v ≡ some Fault.refused
    → fault_of (advance v) ≡ none
    → fault_of (advance (advance v)) ≡ none
    → is_missing (P.redis.ttl (RedisKey.auction_price auction) v.store) ≡ false
    → save_bid P auction user amount snapshot v ≡ (
      Outcome.ok (fail_result "SERVER_ERROR" "bid.error.bid_failed"),
      record (advance (advance (advance v))) {
        store =
            rollback_commands P.redis auction snapshot.previous_price snapshot.previous_bidder_id
              (safe_ttl (P.redis.ttl (RedisKey.auction_price auction) v.store))
              v.store;
      },
    )
unfolding save_bid request
save_bid_refused P auction user amount snapshot v e f g there = ground (
  arith,
  rollback_bid_healthy P auction (advance v) snapshot.previous_price snapshot.previous_bidder_id,
)

module _ (P : Platform) (config : BidConfig) (auction user amount : ℕ) (w : World P) where
  open P.redis use {get, exists}

  -- The owner's own bid is refused and changes neither Redis nor the tables, whatever requests fail.
  pub place_bid_owner :
      get (RedisKey.auction_owner auction) w.store ≡ some user
      → {r : BidResult} {w' : World P}
      → place_bid P config auction user amount w ≡ (Outcome.ok r, w')
      → (r.success ≡ false) × (w'.store ≡ w.store) × (w'.rows ≡ w.rows)
  unfolding place_bid attempt_bid check_bid
  place_bid_owner own h = ground (
    arith,
    get_auction_owner_lem P auction w,
    is_auction_active_lem P auction (advance w),
    get_live_price_lem P auction (advance (advance w)),
  )

  module _ (o : ℕ) (nonzero : amount ≢ 0)
      (owned : get (RedisKey.auction_owner auction) w.store ≡ some o) (other : o ≢ user)
      (fits : IsAcceptable P.redis auction amount user
        (increment_for config (get (RedisKey.auction_price auction) w.store))
        w.store) where
    abbrev pub script_result : ScriptReply × P.redis.Store
    script_result =
        bid_script P.redis auction amount user
          (increment_for config (get (RedisKey.auction_price auction) w.store)) w.store

    -- The world when the script has answered.
    abbrev pub settled : World P
    settled = record (advance (advance (advance (advance w)))) {
      store = reached (fault_of (advance (advance (advance w)))) script_result.1 w.store;
    }

    pub place_bid_settles :
        fault_of w ≡ none
        → fault_of (advance w) ≡ none
        → fault_of (advance (advance w)) ≡ none
        → place_bid P config auction user amount w
          ≡ try_catch
              (settle_bid P auction user amount (
                heard
                  (fault_of (advance (advance (advance w))))
                  (read_reply script_result.0)
                  (ResultPlateBidAtomic.failure none)))
              (λ _. pure (fail_result "SERVER_ERROR" "bid.error.bid_failed"))
              settled
    unfolding place_bid attempt_bid check_bid submit_bid
    place_bid_settles f g h = ground (
      arith,
      fits,
      get_auction_owner_lem P auction w,
      is_auction_active_lem P auction (advance w),
      get_live_price_lem P auction (advance (advance w)),
      place_bid_atomic_lem P auction (advance (advance (advance w))) user amount
          (increment_for config (get (RedisKey.auction_price auction) w.store)),
    )

    -- When the bid could be taken, Redis answers every request and the database refuses the row, the
    -- bid is undone: every string key reads as before the call, the tables are untouched, and the
    -- answer is SERVER_ERROR.
    pub place_bid_undone :
        w.faults ≡ none ∷ none ∷ none ∷ none ∷ some Fault.refused ∷ []
        → let (r, w') = place_bid P config auction user amount w in
          (r ≡ Outcome.ok (fail_result "SERVER_ERROR" "bid.error.bid_failed"))
          × (w'.rows ≡ w.rows)
          × ((j : RedisKey) → get j w'.store ≡ get j w.store)
    unfolding settle_bid read_reply
    place_bid_undone f =
        let inc = increment_for config (get (RedisKey.auction_price auction) w.store) in
        let taken = (bid_script_accepts P.redis auction amount user inc w.store).1 fits in
        let written = bid_script_writes P.redis auction amount user inc w.store taken in
        let snapshot : BidAtomicSnapshot = record {
          previous_price = script_result.0.1;
          previous_bidder_id = script_result.0.2;
        } in
        let refused = save_bid_refused P auction user amount snapshot settled in
        let settles = place_bid_settles (ground arith) (ground arith) (ground arith) in
        let life = P.redis.ttl (RedisKey.auction_price auction) script_result.1 in
        let undone : World P = record (advance (advance (advance settled))) {
          store =
              rollback_commands P.redis auction script_result.0.1 script_result.0.2 (safe_ttl life)
                script_result.1;
        } in
        let whole : place_bid P config auction user amount w
            ≡ (Outcome.ok (fail_result "SERVER_ERROR" "bid.error.bid_failed"), undone) =
          ground (arith, settles, refused, taken, written.1 (RedisKey.auction_price auction)) in
        rw whole
          (refl, refl, rollback-bid_script P.redis auction w.store amount user inc life taken)

    -- When instead only the reply of the script is lost, the bid stays in Redis as the price and the
    -- leader, but it is answered OUTBID and never becomes a row.
    pub place_bid_lost_reply :
        w.faults ≡ none ∷ none ∷ none ∷ some Fault.lost ∷ []
        → let (r, w') = place_bid P config auction user amount w in
          (r
            ≡ Outcome.ok
                (record (fail_result "OUTBID" "bid.error.outbid") { current_price = some amount }))
          × (w'.rows ≡ w.rows)
          × (get (RedisKey.auction_price auction) w'.store ≡ some amount)
          × (get (RedisKey.auction_bidder auction) w'.store ≡ some user)
    unfolding settle_bid answer_rejection
    place_bid_lost_reply f =
        let inc = increment_for config (get (RedisKey.auction_price auction) w.store) in
        let taken = (bid_script_accepts P.redis auction amount user inc w.store).1 fits in
        let written = (bid_script_writes P.redis auction amount user inc w.store taken).0 in
        let settles = place_bid_settles (ground arith) (ground arith) (ground arith) in
        ground (
          arith,
          settles,
          get_live_price_lem P auction settled,
          written (RedisKey.auction_price auction),
          written (RedisKey.auction_bidder auction),
        )
