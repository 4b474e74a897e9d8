-- ===== src/Tests/Sockets.antt =====
-- The theorems on the events of a socket.
use bid_battle.Core.RateLimit.{pass_within_limit, pass, recent, SocketConfig}
use bid_battle.Bid.Gateway.{revalidated, bid_validated, bid_in_room}
use bid_battle.Auth.WsGuard.{revalidate_socket, revalidate_token, accept_payload, validate_jwt_user}
use bid_battle.Platform.Sockets.{extract_token}
use bid_battle.Platform.Effects.{request}
use bid_battle.Redis.Rooms.{get_socket_auction}
use bid_battle.Bid.Service.{
  place_bid, attempt_bid, check_bid, answer_rejection, save_bid, settle_bid, submit_bid,
}
use bid_battle.Bid.Increment.{whole_increment, calc_min_increment}
use bid_battle.Redis.Auctions.{
  get_auction_owner, is_auction_active, get_live_price, place_bid_atomic_with_snapshot, read_reply,
}
use bid_battle.Redis.Script.{bid_script}
use bid_battle.Platform.Redis.{RedisKey}
use bid_battle.Bid.Gateway.Placing.{handle_place_bid_announces, IsEntitled, IsRejected}
use bid_battle.Platform.Sockets.{AuthJwt}
use bid_battle.Tests.Worlds.{live_store, visitor, five_percent, running}
use bid_battle.Bid.Gateway.{handle_place_bid}
use bid_battle.Platform.Effects.{Emission, Outcome, World}
use bid_battle.Prelude.{◌≤◌, length, arith, refl, ◌∷◌, ◌⊎◌, [], none, some, Option, String, ℕ, ◌≡◌}
use bid_battle.Tests.Fixture.{memory_redis, memory}

abbrev accept_all : String → ℕ → Option AuthJwt
accept_all token now = some (record { sub = 2; email = "ann@example.org"; iat = some 1 })

abbrev in_room : World memory
in_room = record (running []) {
  store = memory_redis.set_ex (RedisKey.user_socket_auction 2 5) 7 86400 live_store;
}

handle_place_bid_announces_example :
    let (r, w') = handle_place_bid memory accept_all five_percent 110 in_room in
    (r ≡ Outcome.ok tt)
    × (IsRejected 5 in_room w' ⊎ IsEntitled memory accept_all five_percent 110 in_room w')
handle_place_bid_announces_example =
    handle_place_bid_announces memory accept_all five_percent 110 in_room

announced_110 :
    (handle_place_bid memory accept_all five_percent 110 in_room).1.sent
    ≡ Emission.new_highest_bid 7 110 ∷ []
unfolding handle_place_bid revalidated revalidate_socket revalidate_token extract_token
    accept_payload validate_jwt_user request bid_validated bid_in_room get_socket_auction place_bid
    attempt_bid get_auction_owner is_auction_active get_live_price check_bid calc_min_increment
    whole_increment answer_rejection save_bid settle_bid submit_bid place_bid_atomic_with_snapshot
    read_reply bid_script
announced_110 = refl

abbrev at_door : World memory
at_door = record (running []) { client = record visitor { auction_id = none } }

abbrev two_a_second : SocketConfig
two_a_second = record { window_ms = 1000; max_events = 2 }

pass_within_limit_example :
    length (recent 1000 1500 (pass two_a_second (100 ∷ 200 ∷ 300 ∷ 1250 ∷ 1500 ∷ []) [] [])) ≤ 2
pass_within_limit_example =
    pass_within_limit two_a_second (omega arith) 0 (100 ∷ 200 ∷ 300 ∷ 1250 ∷ 1500 ∷ [])
      (omega arith, (omega arith, (omega arith, (omega arith, (omega arith, tt)))))
