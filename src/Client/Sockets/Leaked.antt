-- ===== src/Client/Sockets/Leaked.antt =====
-- `connect` of client/src/app/core/services/socket/socket-connection.ts, called twice.
use bid_battle.Client.Sockets.{
  set_at, undergo, closed_socket, handle, Socket, reopened, new_socket, Connection, current,
  connect, disconnect, emit, is_connected, is_up, socket_event, SocketEvent,
}
use bid_battle.Client.Sockets.Places.{
  socket_event_open, connect_new, get_elem-append, get_elem-last, get_elem-set_at,
  get_elem-set_at_other, length-last,
}
use bid_battle.Prelude.{
  ℕ, ◌∙◌, ap, some, ◌≡◌, String, false, true, none, length, get_elem?, refl, ◌++◌, ◌∷◌, [],
}

abbrev risen_socket : String → Socket
risen_socket id = record { connected = true; id = some id; closed = false }

-- the events of a socket that was new
abbrev rise : ℕ → String → Connection → Connection
rise k id c =
    handle (SocketEvent.on_connect id)
      (record c { sockets = undergo k (SocketEvent.on_connect id) new_socket c.sockets })

abbrev fall : ℕ → String → Connection → Connection
fall k id c =
    handle SocketEvent.on_disconnect
      (record c { sockets = undergo k SocketEvent.on_disconnect (risen_socket id) c.sockets })

-- When `connect` is called again before the connection is there, the first socket is lost: its `connect`
-- event makes the connection connected although nothing can be sent; and after `disconnect`, with no
-- socket left, it drops out and connects again, which makes the connection connected.
pub connect_twice_leaks :
    (c : Connection) (event first second : String)
    → c.socket ≡ none
    → let k = length c.sockets in
      let up = socket_event k (SocketEvent.on_connect first) (connect (connect c)) in
      let down = socket_event k SocketEvent.on_disconnect (disconnect up) in
      let revived = socket_event k (SocketEvent.on_connect second) down in
      (is_connected up ≡ true)
      × (emit event up ≡ up)
      × (is_connected (disconnect up) ≡ false)
      × (revived.socket ≡ none)
      × (is_connected revived ≡ true)
unfolding emit disconnect
connect_twice_leaks c event first second alone =
    let k = length c.sockets in
    let ss = c.sockets ++ new_socket ∷ [] in
    let opening = connect_new c (rw alone refl) in
    let again = connect_new (reopened c) (ap is_up (get_elem-last c.sockets new_socket)) in
    let here : get_elem? (ss ++ new_socket ∷ []) k ≡ some new_socket =
      get_elem-append ss new_socket new_socket k (get_elem-last c.sockets new_socket) in
    let apart = length-last c.sockets new_socket in
    let risen = rise k first (reopened (reopened c)) in
    let rises =
      socket_event_open k (SocketEvent.on_connect first) new_socket (reopened (reopened c)) here
        refl in
    let reached : socket_event k (SocketEvent.on_connect first) (connect (connect c)) ≡ risen =
      rw (opening, again) rises in
    let silent : is_up (current risen) ≡ false = ap is_up (
      get_elem-set_at_other k (length ss) (risen_socket first) (ss ++ new_socket ∷ []) apart.1
      ∙ get_elem-last ss new_socket) in
    let left : get_elem? (disconnect risen).sockets k ≡ some (risen_socket first) =
      get_elem-set_at_other (length ss) k closed_socket
        (set_at k (risen_socket first) (ss ++ new_socket ∷ [])) apart.0
      ∙ get_elem-set_at k (risen_socket first) new_socket (ss ++ new_socket ∷ []) here in
    let drops =
      socket_event_open k SocketEvent.on_disconnect (risen_socket first) (disconnect risen) left
        refl in
    let back =
      socket_event_open k (SocketEvent.on_connect second) new_socket
        (fall k first (disconnect risen))
        (get_elem-set_at k new_socket (risen_socket first) (disconnect risen).sockets left) refl in
    (
      rw reached refl,
      rw reached (simp silent refl),
      refl,
      rw (reached, drops, back) refl,
      rw (reached, drops, back) refl,
    )
