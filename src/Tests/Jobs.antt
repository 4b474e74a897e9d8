-- ===== src/Tests/Jobs.antt =====
-- The theorems on the jobs that start and end an auction.

use bid_battle.Auctions.StartProcessor.Activation.{process_start_lost_initialization}
use bid_battle.Auctions.EndProcessor.Closing.{process_end_closes, announced, process_end_twice}
use bid_battle.Platform.Redis.{IsCached, RedisKey}
use bid_battle.Tests.Worlds.{lamp, live_store, running, waiting}
use bid_battle.Entities.{AuctionStatus, is_pending, Auction}
use bid_battle.Auctions.StartProcessor.{mark_active, process_start}
use bid_battle.Auctions.EndProcessor.{finalize, process_end}
use bid_battle.Redis.Script.{bid_script}
use bid_battle.Platform.Effects.{Fault, Outcome, World}
use bid_battle.Prelude.{arith, false, refl, ◌∷◌, [], none, some, ◌≡◌}
use bid_battle.Tests.Fixture.{blank, memory_database, memory_redis, memory}

abbrev closing_world : World memory
closing_world = record (running []) { store = (bid_script memory_redis 7 110 2 10 live_store).1 }

closing_price : memory_redis.get (RedisKey.auction_price 7) closing_world.store ≡ some 110
unfolding bid_script
closing_price = refl

process_end_closes_example :
    let winner = memory_redis.get (RedisKey.auction_bidder 7) closing_world.store in
    let (r, w') = process_end memory 7 closing_world in
    (r ≡ Outcome.ok tt)
    × (memory_database.find_auction 7 w'.rows
        ≡ some (finalize 110 winner 1000 (lamp AuctionStatus.active)))
    × (memory_redis.get (RedisKey.auction_price 7) w'.store ≡ none)
    × (memory_redis.get (RedisKey.auction_bidder 7) w'.store ≡ none)
    × (memory_redis.get (RedisKey.auction_active 7) w'.store ≡ none)
    × (memory_redis.get (RedisKey.auction_owner 7) w'.store ≡ none)
    × (w'.sent ≡ announced memory 7 closing_world 110 winner [])
process_end_closes_example =
    process_end_closes memory 7 closing_world 110 closing_price (omega arith) refl
      (lamp AuctionStatus.active) refl refl

process_end_twice_example :
    let once = (process_end memory 7 closing_world).1 in
    let (r, twice) = process_end memory 7 once in
    (r ≡ Outcome.ok tt)
    × (twice.rows ≡ once.rows)
    × (twice.sent ≡ once.sent)
    × (twice.store ≡ once.store)
process_end_twice_example =
    process_end_twice memory 7 closing_world (lamp AuctionStatus.active) refl refl refl

abbrev no_queue : World memory
no_queue = waiting (none ∷ none ∷ none ∷ none ∷ some Fault.refused ∷ [])

abbrev no_redis : World memory
no_redis = waiting (none ∷ none ∷ none ∷ some Fault.refused ∷ [])

process_start_lost_initialization_example :
    let (r, w') = process_start memory 7 no_redis in
    (r ≡ Outcome.ok tt)
    × (memory_database.find_auction 7 w'.rows
        ≡ some (mark_active 1000 (lamp AuctionStatus.pending)))
    × ((j : RedisKey) → (IsCached j → ⊥) → memory_redis.get j w'.store ≡ memory_redis.get j blank)
process_start_lost_initialization_example =
    process_start_lost_initialization memory 7 no_redis (lamp AuctionStatus.pending) refl refl
      (omega arith) refl

abbrev too_late : World memory
too_late = record (waiting []) { now = 600500 }

found_not_pending :
    (a : Auction)
    → memory_database.find_auction 7 (running []).rows ≡ some a
    → is_pending a.status ≡ false
found_not_pending a h = ground arith
