-- ===== src/Bid/Gateway/Placing.antt =====
-- What `handlePlaceBid` of server/src/modules/bid/bid.gateway.ts announces.
use bid_battle.Bid.Gateway.Revalidation.{IsAuthentic, revalidated_cases}
use bid_battle.Bid.Service.Quiet.{place_bid-IsQuiet}
use bid_battle.Redis.Script.Acceptance.{same_number_iff}
use bid_battle.Bid.Service.Failure.{place_bid_answers}
use bid_battle.Redis.Rooms.{get_socket_auction}
use bid_battle.Bid.Gateway.{bid_validated, entered, handle_place_bid, revalidated}
use bid_battle.Auth.WsGuard.{set_user}
use bid_battle.Platform.Sockets.{AuthJwt}
use bid_battle.Platform.Redis.{RedisKey}
use bid_battle.Bid.Service.Acceptance.{place_bid_success}
use bid_battle.Bid.Service.{BidResult, BidConfig, place_bid}
use bid_battle.Platform.Effects.{
  Emission, Outcome, fault_of, heard, advance, request, World, Platform,
}
use bid_battle.Bid.Gateway.{bid_in_room}
use bid_battle.Prelude.{
  true, Bool-cases, get_or, Bool, same_number, ◌∷◌, refl, ◌⊎◌, inr, inl, Option-cases, false, some,
  String, none, arith, Option, ℕ, ◌≡◌,
}

-- One rejection has been sent to the socket, and nothing else.
abbrev pub IsRejected : {P : Platform} → ℕ → World P → World P → Type 0
IsRejected socket w w' =
    (code : String) × (reason : String) × (price : Option ℕ) × (least : Option ℕ) × (w'.sent
      ≡ Emission.bid_rejected socket code reason price least ∷ w.sent)

-- The auction's room has been told of the bid, and nothing else; Redis knows that the socket is in
-- that room for the user, and the bid is a row.
pub record IsAnnounced {P : Platform} (socket user auction amount : ℕ) (w w' : World P)
    : Type 0 where
  pub told : w'.sent ≡ Emission.new_highest_bid auction amount ∷ w.sent
  pub in_room : P.redis.get (RedisKey.user_socket_auction user socket) w.store ≡ some auction
  pub row_saved : w'.rows ≡ P.database.insert_bid auction user amount w.rows

module _ (P : Platform) (verify : String → ℕ → Option AuthJwt) (config : BidConfig) where
  get_socket_auction_lem :
      (user socket : ℕ) (w : World P)
      → get_socket_auction P user socket w ≡ (
        Outcome.ok (
            heard
              (fault_of w)
              (P.redis.get (RedisKey.user_socket_auction user socket) w.store)
              none),
        advance w,
      )
  unfolding get_socket_auction request
  get_socket_auction_lem user socket w = ground arith

  module _ (user auction amount : ℕ) (w : World P) where
    -- How the part of the handler after the re-validation ends.
    abbrev RoomBid : Type 0
    RoomBid =
        let (r, w') = bid_in_room P verify config w.client.id user auction amount w in
        (r ≡ Outcome.ok tt)
        × (IsRejected w.client.id w w' ⊎ IsAnnounced w.client.id user auction amount w w')

    abbrev reply : Option ℕ
    reply =
        heard (fault_of w) (P.redis.get (RedisKey.user_socket_auction user w.client.id) w.store)
          none

    wrong_room : same_number reply (some auction) ≡ false → RoomBid
    unfolding bid_in_room
    wrong_room e = (
      ground (arith, get_socket_auction_lem user w.client.id w),
      inl (
        "NOT_IN_AUCTION_ROOM",
        "bid.error.not_in_room",
        none,
        none,
        ground (arith, get_socket_auction_lem user w.client.id w),
      ),
    )

    right_room :
        reply ≡ some auction
        → (x : BidResult) → (place_bid P config auction user amount (advance w)).0 ≡ Outcome.ok x
        → (b : Bool) → x.success ≡ b
        → RoomBid
    unfolding bid_in_room
    right_room e x answered false failed = (
      ground (arith, e, get_socket_auction_lem user w.client.id w),
      inl (
        get_or x.code "BID_TOO_LOW",
        get_or x.reason "bid.error.rejected_too_low",
        x.current_price,
        x.min_next_bid,
        ground (
          arith,
          e,
          get_socket_auction_lem user w.client.id w,
          place_bid-IsQuiet P auction user amount config (advance w),
        ),
      ),
    )
    right_room e x answered true done =
        let placed =
          place_bid_success P config auction user amount (advance w) {r = x}
            {w' = (place_bid P config auction user amount (advance w)).1} (ground arith) done in
        (
          ground (arith, e, get_socket_auction_lem user w.client.id w),
          inr (record {
            told = ground (
              arith,
              e,
              get_socket_auction_lem user w.client.id w,
              place_bid-IsQuiet P auction user amount config (advance w),
            );
            in_room = ground (arith, e);
            row_saved =
                ground (arith, e, get_socket_auction_lem user w.client.id w, placed.2.row_saved);
          }),
        )

    bid_in_room_cases : RoomBid
    bid_in_room_cases =
        let answer = place_bid_answers P config auction user amount (advance w) in
        elim (Bool-cases (same_number reply (some auction))) [
          | inl same ↦
              right_room (same_number_iff reply auction same) answer.0 answer.1 answer.0.success
                refl
          | inr other ↦ wrong_room other
        ]

  -- A bid of an authentic user in the room that he has entered, announced to that room.
  pub record IsEntitled (amount : ℕ) (w w' : World P) : Type 0 where
    pub payload : AuthJwt
    pub auction : ℕ
    pub authentic : IsAuthentic P verify payload w
    pub present : entered w.client.auction_id ≡ some auction
    pub announced : IsAnnounced w.client.id payload.sub auction amount w w'

  module _ (amount : ℕ) (w : World P) where
    -- How the whole handler ends.
    abbrev Handled : Type 0
    Handled =
        let (r, w') = handle_place_bid P verify config amount w in
        (r ≡ Outcome.ok tt) × (IsRejected w.client.id w w' ⊎ IsEntitled amount w w')

    abbrev fresh : AuthJwt → World P
    fresh payload = record (advance w) { client = set_user (some payload) w.client }

    anonymous : w.client.user ≡ none → Handled
    unfolding handle_place_bid
    anonymous e =
        (ground arith, inl ("UNAUTHORIZED", "bid.error.unauthorized", none, none, ground arith))

    unproven :
        (old : AuthJwt)
        → w.client.user ≡ some old
        → (revalidated P verify w).0 ≡ Outcome.ok none
        → (revalidated P verify w).1.sent ≡ w.sent
        → (revalidated P verify w).1.client.id ≡ w.client.id
        → Handled
    unfolding handle_place_bid bid_validated
    unproven old e failed quiet same =
        (ground arith, inl ("UNAUTHORIZED", "bid.error.unauthorized", none, none, ground arith))

    proven :
        (old payload : AuthJwt)
        → w.client.user ≡ some old
        → revalidated P verify w ≡ (Outcome.ok (some payload), fresh payload)
        → IsAuthentic P verify payload w
        → (room : Option ℕ) → entered w.client.auction_id ≡ room
        → Handled
    unfolding handle_place_bid bid_validated
    proven old payload e done authentic none outside = (
      ground arith,
      inl ("NOT_IN_AUCTION_ROOM", "bid.error.not_in_room", none, none, ground arith),
    )
    proven old payload e done authentic (some auction) inside =
        let bid = bid_in_room_cases payload.sub auction amount (fresh payload) in
        (
          ground (arith, bid.0),
          elim bid.1 [
            | inl (code, reason, price, least, sent) ↦
                inl (code, reason, price, least, ground (arith, sent, bid.0))
            | inr told ↦ inr (record {
              payload = payload;
              auction = auction;
              authentic = authentic;
              present = inside;
              announced = record {
                told = ground (arith, told.told, bid.0);
                in_room = told.in_room;
                row_saved = ground (arith, told.row_saved, bid.0);
              };
            })
          ],
        )

    -- `handlePlaceBid` never throws, and whatever requests fail it sends one message: a rejection to
    -- the client, or the bid to the room of the auction. It tells the room only when the client's
    -- token is valid and names an account whose password is not newer, the client has entered the
    -- auction, Redis has the socket in it for that user, and the bid is saved as a row.
    pub handle_place_bid_announces :
        let (r, w') = handle_place_bid P verify config amount w in
        (r ≡ Outcome.ok tt) × (IsRejected w.client.id w w' ⊎ IsEntitled amount w w')
    handle_place_bid_announces = elim (Option-cases w.client.user) [
      | inl none_there ↦ anonymous none_there
      | inr (old, e) ↦ elim (revalidated_cases P verify w) [
        | inl (failed, quiet, same) ↦ unproven old e failed quiet same
        | inr (payload, done, authentic, same) ↦
            proven old payload e (ground (arith, done, same)) authentic
              (entered w.client.auction_id) refl
      ]
    ]
