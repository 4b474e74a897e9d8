-- ===== src/Bid/Gateway/Presence.antt =====
-- Joining and leaving a room in server/src/modules/bid/bid.gateway.ts.
use bid_battle.Redis.Auctions.Replies.{is_auction_active_lem}
use bid_battle.Redis.Commands.{socket_auction_ttl}
use bid_battle.Platform.Redis.{put_field, RedisKey}
use bid_battle.Platform.Sockets.{Room, AuthJwt}
use bid_battle.Redis.Rooms.{
  distinct, get_unique_participants_count, set_socket_auction, add_user_to_auction_room,
  delete_socket_auction, remove_user_from_auction_room,
}
use bid_battle.Platform.Effects.{advance, Emission, Outcome, request, World, Platform}
use bid_battle.Platform.Effects.{Outcome}
use bid_battle.Prelude.{refl, ◌∷◌, map, length, arith, none, none, true, ◌≢◌, some, [], ℕ, ◌≡◌}
use bid_battle.Bid.Gateway.{
  join, set_auction, emit_presence_update, register, leave_previous, unregister, enter_auction,
  handle_leave_auction, handle_join_auction,
}

module _ (P : Platform) (auction : ℕ) (v : World P) (f : v.faults ≡ []) where
  register_healthy :
      (socket user : ℕ)
      → register P auction socket user v ≡ (
        Outcome.ok tt,
        record (advance (advance v)) {
          store =
              P.redis.set_ex
                (RedisKey.user_socket_auction user socket)
                auction
                socket_auction_ttl
                (P.redis.hset (RedisKey.auction_participants auction) socket user v.store);
        },
      )
  unfolding register add_user_to_auction_room set_socket_auction request
  register_healthy socket user = ground arith

  presence_healthy : emit_presence_update P auction v ≡ (
    Outcome.ok tt,
    record (advance v) {
      sent =
          Emission.presence_update auction (
            length (
              distinct
                (map (λ e. e.1) (P.redis.hash (RedisKey.auction_participants auction) v.store))))
          ∷ v.sent;
    },
  )
  unfolding emit_presence_update get_unique_participants_count request
  presence_healthy = ground arith

module _ (P : Platform) (auction : ℕ) (w : World P) where
  open P.redis use {get, exists, hash}

  -- When every request succeeds, a user who joins an active auction, and is in no other, is entered:
  -- the client is in its room, Redis has the socket in it for the user, and the room is told the
  -- number of its users after the client is told that he has joined.
  pub handle_join_auction_enters :
      (user : AuthJwt)
      → w.faults ≡ []
      → exists (RedisKey.auction_active auction) w.store ≡ true
      → w.client.user ≡ some user
      → w.client.auction_id ≡ none
      → let (r, w') = handle_join_auction P auction w in
        let present =
          put_field w.client.id user.sub (hash (RedisKey.auction_participants auction) w.store) in
        (r ≡ Outcome.ok tt)
        × (w'.client.auction_id ≡ some auction)
        × (get (RedisKey.user_socket_auction user.sub w.client.id) w'.store ≡ some auction)
        × (w'.sent
            ≡ Emission.presence_update auction (length (distinct (map (λ e. e.1) present)))
              ∷ Emission.joined_auction w.client.id auction
              ∷ w.sent)
  unfolding handle_join_auction enter_auction leave_previous
  handle_join_auction_enters user f active known outside =
      let participants = RedisKey.auction_participants auction in
      let slot = RedisKey.user_socket_auction user.sub w.client.id in
      let s = P.redis.hset participants w.client.id user.sub w.store in
      let inside : World P = record (advance w) {
        client = set_auction (some auction) (join (Room.auction_room auction) w.client);
      } in
      let told : World P = record (advance (advance inside)) {
        store = P.redis.set_ex slot auction socket_auction_ttl s;
        sent = Emission.joined_auction w.client.id auction ∷ w.sent;
      } in
      let counted : P.redis.hash participants told.store
          ≡ put_field w.client.id user.sub (P.redis.hash participants w.store) =
        ground (
          arith,
          P.redis.hash-hset participants participants w.client.id user.sub w.store,
          P.redis.hash-set_ex participants slot auction socket_auction_ttl s refl,
        ) in
      let shown : World P = record (advance told) {
        sent =
            Emission.presence_update auction
              (length (distinct (map (λ e. e.1) (P.redis.hash participants told.store))))
            ∷ told.sent;
      } in
      let whole : handle_join_auction P auction w ≡ (Outcome.ok tt, shown) = ground (
        arith,
        is_auction_active_lem P auction w,
        register_healthy P auction inside (ground arith) w.client.id user.sub,
        presence_healthy P auction told (ground arith),
      ) in
      rw whole (
        refl,
        refl,
        ground (arith, P.redis.get-set_ex slot slot auction socket_auction_ttl s (omega arith)),
        ground (arith, counted),
      )

  -- When every request succeeds, a user who leaves by the id of another auction than the one he is in
  -- then counts as being in none, and Redis has his socket in none, but it stays among the
  -- participants of the one he was in.
  pub handle_leave_auction_strays :
      (user : AuthJwt) (mine : ℕ)
      → w.faults ≡ []
      → w.client.user ≡ some user
      → w.client.auction_id ≡ some mine
      → mine ≢ auction
      → let (r, w') = handle_leave_auction P auction w in
        (r ≡ Outcome.ok tt)
        × (w'.client.auction_id ≡ none)
        × (get (RedisKey.user_socket_auction user.sub w.client.id) w'.store ≡ none)
        × (hash (RedisKey.auction_participants mine) w'.store
            ≡ hash (RedisKey.auction_participants mine) w.store)
  unfolding handle_leave_auction unregister emit_presence_update remove_user_from_auction_room
      delete_socket_auction get_unique_participants_count request
  handle_leave_auction_strays user mine f known inside other =
      let participants = RedisKey.auction_participants auction in
      let slot = RedisKey.user_socket_auction user.sub w.client.id in
      let s = P.redis.hdel participants w.client.id w.store in
      ground (
        arith,
        P.redis.get-del slot slot s,
        P.redis.hash-del (RedisKey.auction_participants mine) slot s,
        P.redis.hash-hdel (RedisKey.auction_participants mine) participants w.client.id w.store,
      )
