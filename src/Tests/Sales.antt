-- ===== src/Tests/Sales.antt =====
-- The theorems on whole sales.
use bid_battle.Bid.Service.{attempt_bid, check_bid, submit_bid, settle_bid, save_bid}
use bid_battle.Redis.Auctions.{
  get_auction_owner, is_auction_active, get_live_price, place_bid_atomic_with_snapshot, read_reply,
}
use bid_battle.Platform.Effects.{request}
use bid_battle.Redis.Script.{bid_script}
use bid_battle.Bid.Service.{attempt_bid, check_bid, submit_bid, settle_bid, save_bid}
use bid_battle.Redis.Auctions.{
  get_auction_owner, is_auction_active, get_live_price, place_bid_atomic_with_snapshot, read_reply,
}
use bid_battle.Platform.Effects.{request}
use bid_battle.Redis.Script.{bid_script}
use bid_battle.Bid.Service.{attempt_bid, check_bid, submit_bid, settle_bid, save_bid}
use bid_battle.Redis.Auctions.{
  get_auction_owner, is_auction_active, get_live_price, place_bid_atomic_with_snapshot, read_reply,
}
use bid_battle.Platform.Effects.{request}
use bid_battle.Redis.Script.{bid_script}
use bid_battle.Auctions.StartProcessor.{mark_active}
use bid_battle.Bid.Service.Progress.{place_bid_progress}
use bid_battle.Auctions.Reconciliation.Bootstrap.{on_application_bootstrap_restores}
use bid_battle.Platform.Effects.{Outcome}
use bid_battle.Platform.Redis.{RedisKey}
use bid_battle.Redis.Script.Refinement.{run_bids-take_offers, book, take_offers}
use bid_battle.Auctions.Reconciliation.Restoring.{IsRestored}
use bid_battle.Auctions.EndProcessor.{finalize, process_end}
use bid_battle.Bid.Service.Acceptance.{increment_for}
use bid_battle.Redis.Script.Acceptance.{IsAcceptable}
use bid_battle.Tests.Fixture.{blank, memory, memory_database, memory_redis}
use bid_battle.Redis.Script.Ladder.{Offer, run_bids}
use bid_battle.Bid.Increment.{whole_increment, calc_min_increment}
use bid_battle.Sale.{price_after, Attempt, bidding}
use bid_battle.Bid.Service.{placed, place_bid}
use bid_battle.Entities.{AuctionStatus, Bid}
use bid_battle.Sale.Backing.{bidding-IsBacked, IsBacked}
use bid_battle.Auctions.Reconciliation.{bidder_of, on_application_bootstrap, top_bid}
use bid_battle.Tests.Worlds.{live_store, waiting, five_percent, lamp, running}
use bid_battle.Prelude.{none, refl, some, arith, ◌∷◌, ◌≡◌, [], List, ◌<◌}
use bid_battle.Sale.Settlement.{sale_settles, bid_upon}
use bid_battle.Sale.Crash.{crash_restores_row_price}

abbrev positive : 0 < five_percent.min_increment_absolute
positive = omega arith

-- The second bid is refused, as it is below the price.
abbrev two_bids : List Attempt
two_bids =
    record { auction = 7; user = 2; amount = 110 }
    ∷ record { auction = 7; user = 3; amount = 105 }
    ∷ []

sale_settles_example :
    let open_lamp = lamp AuctionStatus.pending in
    let bid_world = bid_upon memory five_percent positive 7 open_lamp two_bids (waiting []) in
    let (r, w') = process_end memory 7 bid_world in
    let top = top_bid (memory_database.bids_of 7 bid_world.rows) in
    (r ≡ Outcome.ok tt)
    × (memory_database.find_auction 7 w'.rows
        ≡ some (
            finalize
              (price_after 100 top)
              (bidder_of top)
              bid_world.now
              (mark_active 1000 open_lamp)))
    × (memory_redis.get (RedisKey.auction_active 7) w'.store ≡ none)
sale_settles_example =
    sale_settles memory five_percent positive 7 (lamp AuctionStatus.pending) two_bids (waiting [])
      refl refl (omega arith) (omega arith) refl refl (λ j. refl)

running-IsBacked : IsBacked memory 7 100 (running [])
unfolding top_bid
running-IsBacked = record {
  price_backed = refl;
  price_positive = omega arith;
  leader_backed = refl;
}

bidding-IsBacked_example : IsBacked memory 7 100 (bidding memory five_percent two_bids (running []))
bidding-IsBacked_example =
    bidding-IsBacked memory 7 100 five_percent positive two_bids (running []) refl running-IsBacked

abbrev first_bid : List Attempt
first_bid = record { auction = 7; user = 2; amount = 110 } ∷ []

abbrev saved_bid : Bid
saved_bid = record { id = 1; amount = 110; auction_id = 7; user_id = 2 }

bid_saved :
    top_bid (memory_database.bids_of 7 (bidding memory five_percent first_bid (running [])).rows)
    ≡ some saved_bid
unfolding place_bid bidding top_bid attempt_bid get_auction_owner request is_auction_active
    get_live_price check_bid submit_bid calc_min_increment whole_increment
    place_bid_atomic_with_snapshot settle_bid read_reply bid_script save_bid
bid_saved = refl

still_listed :
    memory_database.active_auctions (bidding memory five_percent first_bid (running [])).rows
    ≡ lamp AuctionStatus.active ∷ []
unfolding place_bid bidding attempt_bid get_auction_owner request is_auction_active get_live_price
    check_bid submit_bid calc_min_increment whole_increment place_bid_atomic_with_snapshot
    settle_bid read_reply bid_script save_bid
still_listed = refl

at_1000 : (bidding memory five_percent first_bid (running [])).now ≡ 1000
unfolding place_bid bidding attempt_bid get_auction_owner request is_auction_active get_live_price
    check_bid submit_bid calc_min_increment whole_increment place_bid_atomic_with_snapshot
    settle_bid read_reply bid_script save_bid
at_1000 = refl

crash_restores_row_price_example :
    let before = bidding memory five_percent first_bid (running []) in
    let after = (on_application_bootstrap memory 1 (record before { store = blank })).1 in
    (memory_database.find_auction 7 before.rows ≡ memory_database.find_auction 7 (running []).rows)
    × (memory_redis.get (RedisKey.auction_price 7) before.store ≡ some 110)
    × (memory_redis.get (RedisKey.auction_bidder 7) before.store ≡ some 2)
    × (memory_redis.get (RedisKey.auction_price 7) after.store ≡ some 100)
    × (memory_redis.get (RedisKey.auction_bidder 7) after.store ≡ some 2)
crash_restores_row_price_example =
    crash_restores_row_price memory five_percent positive first_bid (lamp AuctionStatus.active)
      (running []) blank saved_bid [] [] running-IsBacked refl bid_saved (λ j. refl) still_listed
      (omega arith) tt tt (ground (arith, at_1000))

on_application_bootstrap_restores_example :
    let lost = record (running []) { store = blank } in
    IsRestored memory
      (lamp AuctionStatus.active)
      (bidder_of (top_bid []))
      (on_application_bootstrap memory 1 lost).1
on_application_bootstrap_restores_example =
    on_application_bootstrap_restores memory 0 [] [] (lamp AuctionStatus.active)
      (record (running []) { store = blank }) refl (omega arith) tt tt (omega arith) refl
      (λ j. refl)

fits_lamp : IsAcceptable memory_redis 7 110 2 (increment_for five_percent (some 100)) live_store
unfolding calc_min_increment whole_increment
fits_lamp = record { is_open = refl; not_leading = ground arith; enough = omega arith }

place_bid_progress_example :
    let (r, w') = place_bid memory five_percent 7 2 110 (running []) in
    (r ≡ Outcome.ok placed)
    × (w'.rows ≡ memory_database.insert_bid 7 2 110 (running []).rows)
    × (memory_redis.get (RedisKey.auction_price 7) w'.store ≡ some 110)
    × (memory_redis.get (RedisKey.auction_bidder 7) w'.store ≡ some 2)
place_bid_progress_example =
    place_bid_progress memory five_percent 7 2 110 (running []) 1 (omega arith) refl (omega arith)
      fits_lamp refl

-- The second offer is below the increment, and the last comes from the user who leads.
abbrev three_offers : List Offer
three_offers =
    record { user = 2; amount = 110; increment = 10 }
    ∷ record { user = 3; amount = 115; increment = 10 }
    ∷ record { user = 2; amount = 130; increment = 10 }
    ∷ []

run_bids-take_offers_example :
    let (taken, t) = run_bids memory_redis 7 three_offers live_store in
    let (taken', k) = take_offers three_offers (book memory_redis 7 live_store) in
    (taken ≡ taken') × (book memory_redis 7 t ≡ k)
run_bids-take_offers_example = run_bids-take_offers memory_redis 7 three_offers live_store
