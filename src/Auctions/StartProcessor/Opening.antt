-- ===== src/Auctions/StartProcessor/Opening.antt =====
-- The start job of server/src/modules/auctions/auctions-start.processor.ts as the opening of a sale.
use bid_battle.Redis.Cache.Frame.{invalidate_cache_healthy, invalidate_cache-Keeps}
use bid_battle.Redis.Commands.Results.{initialize-get_bidder}
use bid_battle.Auctions.StartProcessor.Activation.{
  set_up_ok, process_start_sets_up, duration_pos, scheduled, activated,
}
use bid_battle.Platform.Redis.{RedisKey}
use bid_battle.Entities.{AuctionStatus, Auction}
use bid_battle.Platform.Effects.{World, Platform}
use bid_battle.Auctions.StartProcessor.Activation.{duration_pos}
use bid_battle.Auctions.StartProcessor.{mark_active, duration_seconds, process_start}
use bid_battle.Prelude.{[], ◌≤◌, ◌+◌, some, ℕ, ◌≡◌, arith}

module _ (P : Platform) (id : ℕ) (w : World P) (a : Auction)
    (found : P.database.find_auction id w.rows ≡ some a)
    (pending : a.status ≡ AuctionStatus.pending) (ahead : w.now + 1000 ≤ a.end_time)
    (f : w.faults ≡ []) where
  -- The start job brings in no bidder and no bid.
  pub process_start_opens :
      let w' = (process_start P id w).1 in
      (w'.faults ≡ [])
      × (P.redis.get (RedisKey.auction_bidder id) w'.store
          ≡ P.redis.get (RedisKey.auction_bidder id) w.store)
      × (P.database.bids_of id w'.rows ≡ P.database.bids_of id w.rows)
  process_start_opens =
      let d = duration_seconds a.end_time w.now in
      let begun = activated P id w a found pending ahead in
      let v = scheduled P a d begun in
      let same = P.database.find_id id w.rows a found in
      let kept =
        initialize-get_bidder P.redis id w.store a.starting_price d a.owner_id
          (duration_pos P id w a found pending ahead) in
      let keeps = invalidate_cache-Keeps P (RedisKey.auction_bidder id) (λ h. h) v in
      rw
        (process_start_sets_up P id w a found pending ahead (ground arith) (ground arith)
          (ground arith))
        (rw (set_up_ok P a d begun (ground arith)) (
          invalidate_cache_healthy P v (ground arith),
          ground (arith, same, kept, keeps),
          ground (arith, keeps, P.database.bids_of-update id a.id (mark_active w.now) w.rows),
        ))
