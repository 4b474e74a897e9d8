-- ===== src/Bid/Gateway.antt =====
-- The socket events of server/src/modules/bid/bid.gateway.ts. A text stands for its i18n key; the
-- time stamps of what is sent are left out.
pub mod Revalidation
pub mod Placing
pub mod Presence
use bid_battle.Prelude.{
  false, ◌∷◌, ℕ, String, Bool, Option, none, some, ◌==◌, not, get_or, same_number, if◌then◌else◌,
}
use bid_battle.Platform.Sockets.{AuthJwt, Client, Room, without}
use bid_battle.Platform.Effects.{
  Platform, Eff, Emission, pure, throw, try_catch, both, when, ◌>>=◌, ◌>>◌, ask_client,
  change_client, emit,
}
use bid_battle.Redis.Auctions.{is_auction_active}
use bid_battle.Redis.Rooms.{
  remove_user_from_auction_room, get_unique_participants_count, get_socket_auction,
  delete_socket_auction, add_user_to_auction_room, set_socket_auction,
}
use bid_battle.Auth.WsGuard.{set_user, validate_optional, revalidate_socket}
use bid_battle.Bid.Service.{AuctionState, BidConfig, BidResult, get_current_state, place_bid}

-- `client.join`, `client.leave`, `client.disconnect`, and the writes of `client.data.auctionId`
abbrev pub join : Room → Client → Client
join r c = record c { rooms = r ∷ without r c.rooms }

abbrev pub leave : Room → Client → Client
leave r c = record c { rooms = without r c.rooms }

abbrev pub disconnect : Client → Client
disconnect c = record c { connected = false }

abbrev pub set_auction : Option ℕ → Client → Client
set_auction auction c = record c { auction_id = auction }

-- `!auctionId`: no auction, or the id 0
abbrev pub entered : Option ℕ → Option ℕ
entered none = none
entered (some a) = if a == 0 then none else some a

abbrev sub_of : Option AuthJwt → Option ℕ
sub_of none = none
sub_of (some u) = some u.sub

module _ (P : Platform) where
  unfoldable pub emit_presence_update : ℕ → Eff P (Unit {0})
  emit_presence_update auction =
      try_catch
        (do
          count ← get_unique_participants_count P auction
          emit (Emission.presence_update auction count))
        (λ _. pure tt)

  -- the socket is entered in a room of Redis, or taken out of it
  unfoldable pub register : ℕ → ℕ → ℕ → Eff P (Unit {0})
  register auction socket user =
      both (add_user_to_auction_room P auction socket user)
        (set_socket_auction P user socket auction)

  unfoldable pub unregister : ℕ → ℕ → ℕ → Eff P (Unit {0})
  unregister auction socket user =
      both (remove_user_from_auction_room P auction socket) (delete_socket_auction P user socket)

  abbrev disconnect_from : Client → Option ℕ → Option AuthJwt → Eff P (Unit {0})
  disconnect_from c none user = pure tt
  disconnect_from c (some auction) none = pure tt
  disconnect_from c (some auction) (some user) = do
    unregister auction c.id user.sub
    emit_presence_update auction

  unfoldable pub on_client_disconnect : Eff P (Unit {0})
  on_client_disconnect =
      try_catch (do c ← ask_client; disconnect_from c (entered c.auction_id) c.user) (λ _. pure tt)

  abbrev unregister_user : ℕ → Client → Option AuthJwt → Eff P (Unit {0})
  unregister_user auction c none = pure tt
  unregister_user auction c (some user) = unregister auction c.id user.sub

  abbrev leave_previous_room : ℕ → Client → Eff P (Unit {0})
  leave_previous_room previous c = do
    change_client (leave (Room.auction_room previous))
    unregister_user previous c c.user
    emit_presence_update previous

  -- the room of another auction is left first
  unfoldable pub leave_previous : ℕ → Option ℕ → Eff P (Unit {0})
  leave_previous auction none = pure tt
  leave_previous auction (some previous) = do
    c ← ask_client
    when (not (previous == auction)) (leave_previous_room previous c)

  abbrev joined_as : ℕ → Client → Option AuthJwt → Eff P (Unit {0})
  joined_as auction c none = emit (Emission.joined_auction c.id auction)
  joined_as auction c (some user) = do
    register auction c.id user.sub
    emit (Emission.joined_auction c.id auction)
    emit_presence_update auction

  unfoldable pub enter_auction : ℕ → Client → Eff P (Unit {0})
  enter_auction auction c = do
    leave_previous auction c.auction_id
    change_client (join (Room.auction_room auction))
    change_client (set_auction (some auction))
    joined_as auction c c.user

  unfoldable pub handle_join_auction : ℕ → Eff P (Unit {0})
  handle_join_auction auction = do
    c ← ask_client
    try_catch
        (do
          active ← is_auction_active P auction
          if not active
              then emit (Emission.exception c.id "AUCTION_NOT_ACTIVE")
              else enter_auction auction c)
        (λ _. emit (Emission.exception c.id "JOIN_AUCTION_ERROR"))

  abbrev left_as : ℕ → Client → Option AuthJwt → Eff P (Unit {0})
  left_as auction c none = emit (Emission.left_auction c.id auction)
  left_as auction c (some user) = do
    unregister auction c.id user.sub
    emit (Emission.left_auction c.id auction)
    emit_presence_update auction

  unfoldable pub handle_leave_auction : ℕ → Eff P (Unit {0})
  handle_leave_auction auction = do
    c ← ask_client
    try_catch
        (do
          change_client (leave (Room.auction_room auction))
          change_client (set_auction none)
          left_as auction c c.user)
        (λ _. emit (Emission.exception c.id "LEAVE_AUCTION_ERROR"))

  abbrev send_state : ℕ → ℕ → AuctionState → Eff P (Unit {0})
  send_state socket auction s = emit (
      Emission.current_state socket auction s.current_price s.is_leading s.is_active
        s.participants_count)

  abbrev state_of : Client → Option ℕ → Eff P (Unit {0})
  state_of c none = emit (Emission.state_error c.id "NOT_IN_AUCTION_ROOM")
  state_of c (some auction) = do
    state ← get_current_state P auction (sub_of c.user)
    send_state c.id auction state

  unfoldable pub handle_request_current_state : Eff P (Unit {0})
  handle_request_current_state = do
    c ← ask_client
    try_catch (state_of c (entered c.auction_id))
        (λ _. emit (Emission.state_error c.id "GET_STATE_ERROR"))

module _ (P : Platform) (verify : String → ℕ → Option AuthJwt) where
  abbrev connect_as : Option AuthJwt → Eff P (Unit {0})
  connect_as none = pure tt
  connect_as (some user) = change_client (join (Room.user_room user.sub))

  unfoldable pub on_client_connect : Eff P (Unit {0})
  on_client_connect =
      try_catch
        (do user ← validate_optional P verify; change_client (set_user user); connect_as user)
        (λ _. change_client disconnect)

  abbrev register_user : ℕ → ℕ → Option AuthJwt → Eff P (Unit {0})
  register_user auction socket none = pure tt
  register_user auction socket (some user) = register P auction socket user.sub

  abbrev announce_presence : ℕ → Option AuthJwt → Eff P (Unit {0})
  announce_presence auction none = pure tt
  announce_presence auction (some _) = emit_presence_update P auction

  -- unlike `join:auction`, this leaves no room
  unfoldable pub reenter_auction : ℕ → Client → Eff P (Unit {0})
  reenter_auction auction c = do
    user ← validate_optional P verify
    change_client (set_user user)
    change_client (join (Room.auction_room auction))
    change_client (set_auction (some auction))
    register_user auction c.id user
    s ← get_current_state P auction (sub_of user)
    emit (
        Emission.rejoined_auction c.id auction s.current_price s.is_leading s.is_active
          s.participants_count)
    announce_presence auction user

  unfoldable pub handle_rejoin_auction : ℕ → Eff P (Unit {0})
  handle_rejoin_auction auction = do
    c ← ask_client
    try_catch
        (do
          active ← is_auction_active P auction
          if not active
              then emit (Emission.already_ended c.id auction)
              else reenter_auction auction c)
        (λ _. emit (Emission.exception c.id "REJOIN_AUCTION_ERROR"))

  -- the re-validation under its own try: the fresh payload, or none when it throws
  unfoldable pub revalidated : Eff P (Option AuthJwt)
  revalidated =
      try_catch (do payload ← revalidate_socket P verify; pure (some payload)) (λ _. pure none)

  module _ (config : BidConfig) where
    abbrev reject_bid : String → String → Eff P (Unit {0})
    reject_bid code reason = do
      c ← ask_client
      emit (Emission.bid_rejected c.id code reason none none)

    abbrev answer_bid : ℕ → ℕ → ℕ → BidResult → Eff P (Unit {0})
    answer_bid socket auction amount r =
        if r.success
        then emit (Emission.new_highest_bid auction amount)
        else emit (
            Emission.bid_rejected socket (get_or r.code "BID_TOO_LOW")
              (get_or r.reason "bid.error.rejected_too_low") r.current_price r.min_next_bid)

    unfoldable pub bid_in_room : ℕ → ℕ → ℕ → ℕ → Eff P (Unit {0})
    bid_in_room socket user auction amount = do
      redis_auction ← get_socket_auction P user socket
      if not (same_number redis_auction (some auction))
          then reject_bid "NOT_IN_AUCTION_ROOM" "bid.error.not_in_room"
          else (do
            result ← place_bid P config auction user amount
            answer_bid socket auction amount result)

    abbrev bid_entered : ℕ → ℕ → ℕ → Option ℕ → Eff P (Unit {0})
    bid_entered socket user amount none = reject_bid "NOT_IN_AUCTION_ROOM" "bid.error.not_in_room"
    bid_entered socket user amount (some auction) = bid_in_room socket user auction amount

    -- what follows the re-validation, which has answered the fresh payload or thrown
    unfoldable pub bid_validated : Client → ℕ → Option AuthJwt → Eff P (Unit {0})
    bid_validated c amount none = do
      reject_bid "UNAUTHORIZED" "bid.error.unauthorized"
      change_client disconnect
    bid_validated c amount (some user) = bid_entered c.id user.sub amount (entered c.auction_id)

    abbrev bid_as : Client → ℕ → Option AuthJwt → Eff P (Unit {0})
    bid_as c amount none = reject_bid "UNAUTHORIZED" "bid.error.unauthorized"
    bid_as c amount (some _) = do validated ← revalidated; bid_validated c amount validated

    -- the body, which `WsJwtGuard.canActivate` comes before
    unfoldable pub handle_place_bid : ℕ → Eff P (Unit {0})
    handle_place_bid amount = do
      c ← ask_client
      try_catch (bid_as c amount c.user) (λ _. reject_bid "SERVER_ERROR" "bid.error.place_failed")
