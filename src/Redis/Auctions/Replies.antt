-- ===== src/Redis/Auctions/Replies.antt =====
-- What each method of `RedisService` answers and leaves behind, whatever the fault of its request.
use bid_battle.Prelude.{◌≡◌, arith, ℕ, Option, none, false}
use bid_battle.Platform.Redis.{is_missing, RedisKey}
use bid_battle.Platform.Effects.{
  Platform, World, Outcome, request, fault_of, advance, heard, reached,
}
use bid_battle.Redis.Script.{bid_script}
use bid_battle.Redis.Commands.{
  safe_ttl, rollback_commands, initialize_commands, extend_commands, restore_commands,
  cleanup_commands,
}
use bid_battle.Redis.Auctions.{
  rollback_bid, ResultPlateBidAtomic, read_reply, get_live_price, is_auction_active,
  get_auction_owner, get_highest_bidder_id, place_bid_atomic_with_snapshot, cleanup_auction,
  initialize_auction, extend_auction_time, restore_auction,
}

module _ (P : Platform) (auction : ℕ) (w : World P) where
  open P.redis use {get, exists}

  pub get_live_price_lem : get_live_price P auction w ≡ (
    Outcome.ok (heard (fault_of w) (get (RedisKey.auction_price auction) w.store) none),
    advance w,
  )
  unfolding get_live_price request
  get_live_price_lem = ground arith

  pub get_auction_owner_lem : get_auction_owner P auction w ≡ (
    Outcome.ok (heard (fault_of w) (get (RedisKey.auction_owner auction) w.store) none),
    advance w,
  )
  unfolding get_auction_owner request
  get_auction_owner_lem = ground arith

  pub get_highest_bidder_id_lem : get_highest_bidder_id P auction w ≡ (
    Outcome.ok (heard (fault_of w) (get (RedisKey.auction_bidder auction) w.store) none),
    advance w,
  )
  unfolding get_highest_bidder_id request
  get_highest_bidder_id_lem = ground arith

  pub is_auction_active_lem : is_auction_active P auction w ≡ (
    Outcome.ok (heard (fault_of w) (exists (RedisKey.auction_active auction) w.store) false),
    advance w,
  )
  unfolding is_auction_active request
  is_auction_active_lem = ground arith

  pub place_bid_atomic_lem :
      (user amount increment : ℕ)
      → let (reply, s) = bid_script P.redis auction amount user increment w.store in
        place_bid_atomic_with_snapshot P auction user amount increment w ≡ (
          Outcome.ok (heard (fault_of w) (read_reply reply) (ResultPlateBidAtomic.failure none)),
          record (advance w) { store = reached (fault_of w) s w.store },
        )
  unfolding place_bid_atomic_with_snapshot request
  place_bid_atomic_lem user amount increment = ground arith

  pub cleanup_auction_lem : cleanup_auction P auction w ≡ (
    Outcome.ok tt,
    record (advance w) {
      store = reached (fault_of w) (cleanup_commands P.redis auction w.store) w.store;
    },
  )
  unfolding cleanup_auction request
  cleanup_auction_lem = ground arith

  pub initialize_auction_lem :
      (price duration owner : ℕ)
      → initialize_auction P auction price duration owner w ≡ (
        Outcome.ok tt,
        record (advance w) {
          store =
              reached
                (fault_of w)
                (initialize_commands P.redis auction price duration owner w.store).1
                w.store;
        },
      )
  unfolding initialize_auction request
  initialize_auction_lem price duration owner = ground arith

  pub extend_auction_time_lem :
      (duration : ℕ)
      → extend_auction_time P auction duration w ≡ (
        Outcome.ok tt,
        record (advance w) {
          store = reached (fault_of w) (extend_commands P.redis auction duration w.store) w.store;
        },
      )
  unfolding extend_auction_time request
  extend_auction_time_lem duration = ground arith

  pub restore_auction_lem :
      (price duration owner : ℕ) (bidder : Option ℕ)
      → restore_auction P auction price duration owner bidder w ≡ (
        Outcome.ok tt,
        record (advance w) {
          store =
              reached
                (fault_of w)
                (restore_commands P.redis auction price duration owner bidder w.store)
                w.store;
        },
      )
  unfolding restore_auction request
  restore_auction_lem price duration owner bidder = ground arith

  -- A rollback whose two requests go through, on an auction whose price key is there.
  pub rollback_bid_healthy :
      (price bidder : Option ℕ)
      → fault_of w ≡ none
      → fault_of (advance w) ≡ none
      → is_missing (P.redis.ttl (RedisKey.auction_price auction) w.store) ≡ false
      → rollback_bid P auction price bidder w ≡ (
        Outcome.ok tt,
        record (advance (advance w)) {
          store =
              rollback_commands P.redis auction price bidder
                (safe_ttl (P.redis.ttl (RedisKey.auction_price auction) w.store))
                w.store;
        },
      )
  unfolding rollback_bid request
  rollback_bid_healthy price bidder f g there = ground arith

  -- A rollback touches the store alone, and never throws.
  pub rollback_bid_frame :
      (price bidder : Option ℕ)
      → ((rollback_bid P auction price bidder w).0 ≡ Outcome.ok tt)
        × ((rollback_bid P auction price bidder w).1.rows ≡ w.rows)
  unfolding rollback_bid request
  rollback_bid_frame price bidder = ground arith
