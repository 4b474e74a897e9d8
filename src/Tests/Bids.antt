-- ===== src/Tests/Bids.antt =====
-- The theorems on bids, at the running auction.
use bid_battle.Redis.Commands.Readings.{Reading}
use bid_battle.Redis.Commands.Undo.{rollback-bid_script, rollback_wipes_later_bid}
use bid_battle.Redis.Commands.{safe_ttl, rollback_commands}
use bid_battle.Redis.Script.Ladder.{
  run_bids_climb, final_leader, leader_of, final_price, price_of, Climbs, Offer, run_bids,
}
use bid_battle.Redis.Auctions.{
  get_auction_owner, is_auction_active, get_live_price, place_bid_atomic_with_snapshot, read_reply,
}
use bid_battle.Bid.Increment.{whole_increment, calc_min_increment_least, calc_min_increment}
use bid_battle.Prelude.{
  max, ◌*◌, ◌↔◌, ℕ, ◌≡◌, ◌≢◌, ◌≤◌, refl, arith, Option, none, some, List, [], ◌∷◌,
}
use bid_battle.Platform.Effects.{advance, Fault, World, Outcome, request}
use bid_battle.Platform.Redis.{RedisKey, Ttl}
use bid_battle.Redis.Script.{bid_script}
use bid_battle.Redis.Script.Acceptance.{IsAcceptable, bid_script_accepts}
use bid_battle.Tests.Fixture.{memory, memory_redis}
use bid_battle.Tests.Worlds.{five_percent, live_store, running}
use bid_battle.Bid.Service.{
  fail_result, place_bid, attempt_bid, check_bid, submit_bid, settle_bid, save_bid, placed,
}
use bid_battle.Bid.Service.Acceptance.{increment_for, place_bid_success, IsPlaced}
use bid_battle.Bid.Service.Failure.{place_bid_undone, place_bid_lost_reply}

abbrev bid_world : World memory
bid_world = (place_bid memory five_percent 7 2 110 (running [])).1

placed_110 : place_bid memory five_percent 7 2 110 (running []) ≡ (Outcome.ok placed, bid_world)
unfolding place_bid attempt_bid check_bid submit_bid settle_bid save_bid request bid_script
    get_auction_owner is_auction_active get_live_price calc_min_increment whole_increment
    place_bid_atomic_with_snapshot read_reply
placed_110 = refl

place_bid_success_example :
    (price : Option ℕ) × ((get_live_price memory 7 (advance (advance (running [])))).0
      ≡ Outcome.ok price)
    × IsPlaced memory five_percent 7 2 110 (running []) price bid_world
place_bid_success_example =
    place_bid_success memory five_percent 7 2 110 (running []) {r = placed} {w' = bid_world}
      placed_110 refl

fits_110 : IsAcceptable memory_redis 7 110 2 10 live_store
fits_110 = record { is_open = refl; not_leading = ground arith; enough = omega arith }

fits_at_increment :
    IsAcceptable memory_redis 7 110 2 (increment_for five_percent (some 100)) live_store
unfolding calc_min_increment whole_increment
fits_at_increment = fits_110

abbrev refused_row : World memory
refused_row = running (none ∷ none ∷ none ∷ none ∷ some Fault.refused ∷ [])

place_bid_undone_example :
    let (r, w') = place_bid memory five_percent 7 2 110 refused_row in
    (r ≡ Outcome.ok (fail_result "SERVER_ERROR" "bid.error.bid_failed"))
    × (w'.rows ≡ refused_row.rows)
    × ((j : RedisKey) → memory_redis.get j w'.store ≡ memory_redis.get j live_store)
place_bid_undone_example =
    place_bid_undone memory five_percent 7 2 110 refused_row 1 (omega arith) refl (omega arith)
      fits_at_increment refl

abbrev lost_reply : World memory
lost_reply = running (none ∷ none ∷ none ∷ some Fault.lost ∷ [])

place_bid_lost_reply_example :
    let (r, w') = place_bid memory five_percent 7 2 110 lost_reply in
    (r ≡ Outcome.ok (record (fail_result "OUTBID" "bid.error.outbid") { current_price = some 110 }))
    × (w'.rows ≡ lost_reply.rows)
    × (memory_redis.get (RedisKey.auction_price 7) w'.store ≡ some 110)
    × (memory_redis.get (RedisKey.auction_bidder 7) w'.store ≡ some 2)
place_bid_lost_reply_example =
    place_bid_lost_reply memory five_percent 7 2 110 lost_reply 1 (omega arith) refl (omega arith)
      fits_at_increment refl

bid_script_accepts_example :
    ((bid_script memory_redis 7 110 2 10 live_store).0.0 ≡ 1)
    ↔ IsAcceptable memory_redis 7 110 2 10 live_store
bid_script_accepts_example = bid_script_accepts memory_redis 7 110 2 10 live_store

taken_110 : (bid_script memory_redis 7 110 2 10 live_store).0.0 ≡ 1
unfolding bid_script
taken_110 = refl

low_104 : (bid_script memory_redis 7 104 2 10 live_store).0.0 ≢ 1
unfolding bid_script
low_104 = ground arith

abbrev three_offers : List Offer
three_offers =
    record { amount = 110; user = 2; increment = 10 }
    ∷ record { amount = 120; user = 2; increment = 10 }
    ∷ record { amount = 130; user = 3; increment = 10 }
    ∷ []

run_bids_climb_example :
    let (taken, t) = run_bids memory_redis 7 three_offers live_store in
    Climbs 100 none taken
    × (price_of memory_redis 7 t ≡ final_price 100 taken)
    × (leader_of memory_redis 7 t ≡ final_leader none taken)
run_bids_climb_example = run_bids_climb memory_redis 7 three_offers live_store

rollback-bid_script_example :
    let (reply, t) = bid_script memory_redis 7 110 2 10 live_store in
    memory_redis.get
      (RedisKey.auction_price 7)
      (rollback_commands memory_redis 7 reply.1 reply.2 (safe_ttl (Ttl.seconds 500)) t)
    ≡ some 100
rollback-bid_script_example =
    rollback-bid_script memory_redis 7 live_store 110 2 10 (Ttl.seconds 500) taken_110
      (RedisKey.auction_price 7)

taken_130 :
    (bid_script memory_redis 7 130 3 10 (bid_script memory_redis 7 110 2 10 live_store).1).0.0 ≡ 1
unfolding bid_script
taken_130 = refl

rollback_wipes_later_bid_example :
    let (reply, s') = bid_script memory_redis 7 110 2 10 live_store in
    let s'' = (bid_script memory_redis 7 130 3 10 s').1 in
    let s''' = rollback_commands memory_redis 7 reply.1 reply.2 (safe_ttl (Ttl.seconds 500)) s'' in
    (memory_redis.get (RedisKey.auction_price 7) s'' ≡ some 130)
    × (memory_redis.get (RedisKey.auction_bidder 7) s'' ≡ some 3)
    × (memory_redis.get (RedisKey.auction_price 7) s''' ≡ some 100)
    × (memory_redis.get (RedisKey.auction_bidder 7) s''' ≡ none)
rollback_wipes_later_bid_example =
    rollback_wipes_later_bid memory_redis 7 live_store 110 2 10 130 3 10 (Ttl.seconds 500) taken_110
      taken_130

-- a bid, then a rollback that reads the price's life before a minute passes and writes after it
abbrev bid_store : memory_redis.Store
bid_store = (bid_script memory_redis 7 110 2 10 live_store).1

abbrev price_life : Reading
price_life = record { auction = 7; life = memory_redis.ttl (RedisKey.auction_price 7) bid_store }

calc_min_increment_least_example :
    let inc = calc_min_increment 101 5 1 in
    (1 ≤ inc)
    × (101 * 5 ≤ inc)
    × ((k : ℕ) × (inc ≡ max (100 * k) 1)
        × (101 * 5 ≤ 100 * k)
        × ((n : ℕ) → 101 * 5 ≤ 100 * n → k ≤ n))
calc_min_increment_least_example = calc_min_increment_least 101 5 1
