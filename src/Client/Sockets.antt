-- ===== src/Client/Sockets.antt =====
-- client/src/app/core/services/socket/socket-connection.ts and socket.service.ts. A socket of the
-- library is its place among those that the connection's factory has made: whether it is connected,
-- its id, and whether it was disconnected for good. Its events are what happens to it; after
-- `disconnect` it has none. An observer of `on` is a number.
pub mod Places
pub mod Single
pub mod Leaked
pub mod Registry
use bid_battle.Prelude.{
  [], ◌++◌, ◌==◌, ◌∷◌, ◌&&◌, suc, zero, get_elem?, length, none, not, some, true, false, Bool, List,
  Option, String, if◌then◌else◌, map, ℕ, delete_where,
}
use text.Mathlib.Text.{◌==◌ as str_eq}

pub data ConnectionStatus : Type 0 where
  disconnected connecting connected error : ConnectionStatus

pub record Socket : Type 0 where
  pub connected : Bool
  pub id : Option String
  pub closed : Bool

-- An observer of an event: `socket` is the one that its handler hangs on.
pub record Listener : Type 0 where
  pub observer : ℕ
  pub event : String
  pub socket : ℕ

pub record Pending : Type 0 where
  pub observer : ℕ
  pub event : String

pub record Connection : Type 0 where
  pub sockets : List Socket
  pub socket : Option ℕ
  pub status : ConnectionStatus
  pub socket_id : Option String
  -- which subject `_socketReady$` is, counted from the first, and who waits for it
  pub ready : ℕ
  pub pending : List Pending
  pub listeners : List Listener
  -- the observers whose observable has completed or failed, and what was sent on which socket
  pub completed : List ℕ
  pub failed : List ℕ
  pub sent : List (ℕ × String)

abbrev pub new_connection : Connection
new_connection = record {
  sockets = [];
  socket = none;
  status = ConnectionStatus.disconnected;
  socket_id = none;
  ready = 0;
  pending = [];
  listeners = [];
  completed = [];
  failed = [];
  sent = [];
}

abbrev pub set_at : ℕ → Socket → List Socket → List Socket
set_at k s [] = []
set_at zero s (x ∷ xs) = s ∷ xs
set_at (suc k) s (x ∷ xs) = x ∷ set_at k s xs

-- `this.socket?.connected`
abbrev pub is_up : Option Socket → Bool
is_up none = false
is_up (some s) = s.connected

abbrev pub at : Option ℕ → List Socket → Option Socket
at none ss = none
at (some k) ss = get_elem? ss k

abbrev pub current : Connection → Option Socket
current c = at c.socket c.sockets

abbrev pub is_connected : Connection → Bool
is_connected c = has_connected c.status
  where
    has_connected : ConnectionStatus → Bool
    has_connected ConnectionStatus.connected = true
    has_connected _ = false

abbrev pub new_socket : Socket
new_socket = record { connected = false; id = none; closed = false }

abbrev pub attach : ℕ → Pending → Listener
attach k p = record { observer = p.observer; event = p.event; socket = k }

-- `connect`: the pending observers are attached to the new socket
abbrev pub reopened : Connection → Connection
reopened c = record c {
  status = ConnectionStatus.connecting;
  sockets = c.sockets ++ new_socket ∷ [];
  socket = some (length c.sockets);
  listeners = c.listeners ++ map (attach (length c.sockets)) c.pending;
  pending = [];
}

unfoldable pub connect : Connection → Connection
connect c = if is_up (current c) then c else reopened c

abbrev pub closed_socket : Socket
closed_socket = record { connected = false; id = none; closed = true }

abbrev pub close : Option ℕ → List Socket → List Socket
close none ss = ss
close (some k) ss = set_at k closed_socket ss

unfoldable pub disconnect : Connection → Connection
disconnect c = record c {
  sockets = close c.socket c.sockets;
  socket = none;
  status = ConnectionStatus.disconnected;
  socket_id = none;
  completed = c.completed ++ map (λ p. p.observer) c.pending;
  pending = [];
  ready = suc c.ready;
}

abbrev pub send_on : Option ℕ → String → Connection → Connection
send_on none event c = c
send_on (some k) event c = record c { sent = c.sent ++ (k, event) ∷ [] }

unfoldable pub emit : String → Connection → Connection
emit event c = if is_up (current c) then send_on c.socket event c else c

-- What `on` gives: an observable that attaches at once, or one that waits for a subject.
pub data Source : Type 0 where
  direct : Source
  deferred : ℕ → Source

unfoldable pub on : Connection → Source
on c = source c.socket
  where
    source : Option ℕ → Source
    source (some k) = Source.direct
    source none = Source.deferred c.ready

abbrev pub attach_listener : Option ℕ → ℕ → String → Connection → Connection
attach_listener none observer event c = record c { failed = c.failed ++ observer ∷ [] }
attach_listener (some k) observer event c = record c {
  listeners = c.listeners ++ record { observer = observer; event = event; socket = k } ∷ [];
}

-- who subscribes to a subject that has completed is completed at once
unfoldable pub subscribe : Source → ℕ → String → Connection → Connection
subscribe Source.direct observer event c = attach_listener c.socket observer event c
subscribe (Source.deferred subject) observer event c =
    if subject == c.ready
    then record c { pending = c.pending ++ record { observer = observer; event = event } ∷ [] }
    else record c { completed = c.completed ++ observer ∷ [] }

-- `off` of the socket that is the current one when the observer unsubscribes
abbrev off : Option ℕ → ℕ → List Listener → List Listener
off none observer ls = ls
off (some k) observer ls = delete_where (λ l. (l.observer == observer) && (l.socket == k)) ls

unfoldable pub unsubscribe : ℕ → Connection → Connection
unsubscribe observer c = record c {
  listeners = off c.socket observer c.listeners;
  pending = delete_where (λ p. p.observer == observer) c.pending;
}

-- What a socket reports, with the id that it has after `connect`.
pub data SocketEvent : Type 0 where
  on_connect : String → SocketEvent
  on_disconnect on_connect_error on_reconnect on_reconnect_attempt : SocketEvent

abbrev pub id_of : Option Socket → Option String
id_of none = none
id_of (some s) = s.id

-- the socket's own state changes before its listeners are called
abbrev pub undergo : ℕ → SocketEvent → Socket → List Socket → List Socket
undergo k (SocketEvent.on_connect id) s ss =
    set_at k (record s { connected = true; id = some id }) ss
undergo k SocketEvent.on_disconnect s ss = set_at k (record s { connected = false; id = none }) ss
undergo k SocketEvent.on_connect_error s ss = ss
undergo k SocketEvent.on_reconnect s ss = ss
undergo k SocketEvent.on_reconnect_attempt s ss = ss

-- the listeners of `registerCoreListeners`
abbrev pub handle : SocketEvent → Connection → Connection
handle (SocketEvent.on_connect id) c = record c {
  status = ConnectionStatus.connected;
  socket_id = id_of (current c);
}
handle SocketEvent.on_disconnect c = record c {
  status = ConnectionStatus.disconnected;
  socket_id = none;
}
handle SocketEvent.on_connect_error c = record c { status = ConnectionStatus.error }
handle SocketEvent.on_reconnect c = record c { status = ConnectionStatus.connected }
handle SocketEvent.on_reconnect_attempt c = record c { status = ConnectionStatus.connecting }

abbrev report : ℕ → SocketEvent → Option Socket → Connection → Connection
report k e none c = c
report k e (some s) c =
    if s.closed then c else handle e (record c { sockets = undergo k e s c.sockets })

unfoldable pub socket_event : ℕ → SocketEvent → Connection → Connection
socket_event k e c = report k e (get_elem? c.sockets k) c
