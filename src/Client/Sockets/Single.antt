-- ===== src/Client/Sockets/Single.antt =====
-- Runs of a connection of client/src/app/core/services/socket/socket-connection.ts.
use bid_battle.Client.Sockets.Places.{
  get_elem-set_at, get_elem-set_at_is, get_elem-set_at_other, socket_event_open,
  socket_event_closed, get_elem-append_cases, get_elem-last, connect_new,
}
use bid_battle.Client.Sockets.{
  Source, attach_listener, subscribe, unsubscribe, closed_socket, undergo, handle, send_on,
  new_socket, close, reopened, id_of, Connection, current, connect, disconnect, emit, is_connected,
  is_up, new_connection, Socket, socket_event, SocketEvent, set_at,
}
use bid_battle.Prelude.{
  ==_iff, sym, ◌∙◌, Bool-cases, Option, ap, inl, inr, ◌==◌, ◌⊎◌, not, ◌≡◌, Bool, String, arith,
  false, true, none, some, get_elem?, refl, ℕ, List,
}

-- What a socket of the library reports: `reconnect` and `reconnect_attempt` are events of its manager
-- and not of the socket.
abbrev pub may_report : SocketEvent → Socket → Bool
may_report (SocketEvent.on_connect id) s = not s.connected
may_report SocketEvent.on_disconnect s = s.connected
may_report SocketEvent.on_connect_error s = not s.connected
may_report SocketEvent.on_reconnect s = false
may_report SocketEvent.on_reconnect_attempt s = false

pub data Run : Connection → Type 0 where
  fresh : Run new_connection
  connected : {c : Connection} → Run c → c.socket ≡ none → Run (connect c)
  connected_again : {c : Connection} → Run c → is_up (current c) ≡ true → Run (connect c)
  disconnected : {c : Connection} → Run c → Run (disconnect c)
  subscribed :
      {c : Connection} (source : Source) (observer : ℕ) (event : String)
      → Run c
      → Run (subscribe source observer event c)
  unsubscribed : {c : Connection} (observer : ℕ) → Run c → Run (unsubscribe observer c)
  emitted : {c : Connection} (event : String) → Run c → Run (emit event c)
  reported :
      {c : Connection} (k : ℕ) (e : SocketEvent) (s : Socket)
      → Run c
      → get_elem? c.sockets k ≡ some s
      → may_report e s ≡ true
      → Run (socket_event k e c)

-- A socket that is not closed is the current one, which is there; and what the connection says of it is
-- true.
pub record IsSingle (c : Connection) : Type 0 where
  pub alone :
      (k : ℕ) (s : Socket) → get_elem? c.sockets k ≡ some s → s.closed ≡ false → c.socket ≡ some k
  pub honest : is_connected c ≡ is_up (current c)
  pub same_id : c.socket_id ≡ id_of (current c)

reopened-IsSingle : (c : Connection) → c.socket ≡ none → IsSingle c → IsSingle (reopened c)
reopened-IsSingle c lone h =
    let last = get_elem-last c.sockets new_socket in
    let nothing : c.socket_id ≡ none = h.same_id ∙ rw lone refl in
    record {
      alone = λ k s found alive. elim (get_elem-append_cases c.sockets new_socket s k found) [
        | inl old ↦ let other = sym lone ∙ h.alone k s old alive in cc
        | inr here ↦ ap some (sym here)
      ];
      honest = sym (ap is_up last);
      same_id = nothing ∙ sym (ap id_of last);
    }

connect-IsSingle :
    (c : Connection)
    → (c.socket ≡ none) ⊎ (is_up (current c) ≡ true)
    → IsSingle c
    → IsSingle (connect c)
unfolding connect
connect-IsSingle c (inl lone) h = rw (connect_new c (rw lone refl)) (reopened-IsSingle c lone h)
connect-IsSingle c (inr up) h = simp up h

-- What `alone` says of the sockets and the current one.
abbrev Alone : Option ℕ → List Socket → Type 0
Alone o ss = (k : ℕ) (s : Socket) → get_elem? ss k ≡ some s → s.closed ≡ false → o ≡ some k

-- closing the current one leaves none that is not closed
close-closed :
    (o : Option ℕ) (ss : List Socket) (k : ℕ) (s : Socket)
    → Alone o ss
    → get_elem? (close o ss) k ≡ some s
    → s.closed ≡ false
    → true ≡ false
close-closed none ss k s alone found alive = let other = alone k s found alive in cc
close-closed (some j) ss k s alone found alive = elim (Bool-cases (k == j)) [
  | inl same ↦
      let here =
        ap (λ i. get_elem? (set_at j closed_socket ss) i) (sym ((==_iff k j).0 same)) ∙ found in
      let gone = get_elem-set_at_is j closed_socket s ss here in
      sym (ap (λ x. x.closed) gone) ∙ alive
  | inr other ↦
      let kept = sym (get_elem-set_at_other j k closed_socket ss other) ∙ found in
      let same : some j ≡ some k = alone k s kept alive in ground (arith, other, same)
]

disconnect-IsSingle : (c : Connection) → IsSingle c → IsSingle (disconnect c)
unfolding disconnect
disconnect-IsSingle c h = record {
  alone = λ k s found alive.
      let impossible = close-closed c.socket c.sockets k s h.alone found alive in cc;
  honest = refl;
  same_id = refl;
}

-- what changes at the place of the current socket
set_at-Alone :
    (k : ℕ) (x : Socket) (ss : List Socket) → Alone (some k) ss → Alone (some k) (set_at k x ss)
set_at-Alone k x ss alone j s found alive = elim (Bool-cases (j == k)) [
  | inl same ↦ ap some (sym ((==_iff j k).0 same))
  | inr other ↦ alone j s (sym (get_elem-set_at_other k j x ss other) ∙ found) alive
]

handle-IsSingle :
    (k : ℕ) (e : SocketEvent) (s : Socket) (c : Connection)
    → get_elem? c.sockets k ≡ some s
    → may_report e s ≡ true
    → c.socket ≡ some k
    → IsSingle c
    → IsSingle (handle e (record c { sockets = undergo k e s c.sockets }))
handle-IsSingle k (SocketEvent.on_connect id) s c found may here h =
    let s' : Socket = record s { connected = true; id = some id } in
    let placed = get_elem-set_at k s' s c.sockets found in
    record {
      alone = rw here (set_at-Alone k s' c.sockets (rw⁻¹ here h.alone));
      honest = rw here (sym (ap is_up placed));
      same_id = refl;
    }
handle-IsSingle k SocketEvent.on_disconnect s c found may here h =
    let s' : Socket = record s { connected = false; id = none } in
    let placed = get_elem-set_at k s' s c.sockets found in
    record {
      alone = rw here (set_at-Alone k s' c.sockets (rw⁻¹ here h.alone));
      honest = rw here (sym (ap is_up placed));
      same_id = rw here (sym (ap id_of placed));
    }
handle-IsSingle k SocketEvent.on_connect_error s c found may here h = record {
  alone = h.alone;
  honest = rw (here, found) (ground (arith, may));
  same_id = h.same_id;
}
handle-IsSingle k SocketEvent.on_reconnect s c found may here h = cc
handle-IsSingle k SocketEvent.on_reconnect_attempt s c found may here h = cc

socket_event-IsSingle :
    (k : ℕ) (e : SocketEvent) (s : Socket) (c : Connection)
    → get_elem? c.sockets k ≡ some s
    → may_report e s ≡ true
    → IsSingle c
    → IsSingle (socket_event k e c)
socket_event-IsSingle k e s c found may h = elim (Bool-cases s.closed) [
  | inl gone ↦ rw (socket_event_closed k e s c found gone) h
  | inr alive ↦
      rw (socket_event_open k e s c found alive)
        (handle-IsSingle k e s c found may (h.alone k s found alive) h)
]

send_on-IsSingle :
    (o : Option ℕ) (event : String) (c : Connection) → IsSingle c → IsSingle (send_on o event c)
send_on-IsSingle none event c h = h
send_on-IsSingle (some k) event c h = record {
  alone = h.alone;
  honest = h.honest;
  same_id = h.same_id;
}

emit-IsSingle : (event : String) (c : Connection) → IsSingle c → IsSingle (emit event c)
unfolding emit
emit-IsSingle event c h = elim (Bool-cases (is_up (current c))) [
  | inl up ↦ simp up (send_on-IsSingle c.socket event c h)
  | inr down ↦ simp down h
]

attach_listener-IsSingle :
    (o : Option ℕ) (observer : ℕ) (event : String) (c : Connection)
    → IsSingle c
    → IsSingle (attach_listener o observer event c)
attach_listener-IsSingle none observer event c h = record {
  alone = h.alone;
  honest = h.honest;
  same_id = h.same_id;
}
attach_listener-IsSingle (some k) observer event c h = record {
  alone = h.alone;
  honest = h.honest;
  same_id = h.same_id;
}

subscribe-IsSingle :
    (source : Source) (observer : ℕ) (event : String) (c : Connection)
    → IsSingle c
    → IsSingle (subscribe source observer event c)
unfolding subscribe
subscribe-IsSingle Source.direct observer event c h =
    attach_listener-IsSingle c.socket observer event c h
subscribe-IsSingle (Source.deferred subject) observer event c h =
    elim (Bool-cases (subject == c.ready)) [
      | inl now ↦ rw now (record { alone = h.alone; honest = h.honest; same_id = h.same_id })
      | inr past ↦ rw past (record { alone = h.alone; honest = h.honest; same_id = h.same_id })
    ]

unsubscribe-IsSingle :
    (observer : ℕ) (c : Connection) → IsSingle c → IsSingle (unsubscribe observer c)
unfolding unsubscribe
unsubscribe-IsSingle observer c h = record {
  alone = h.alone;
  honest = h.honest;
  same_id = h.same_id;
}

-- A connection on which `connect` is called only while it has no socket or is connected, whatever is
-- sent, subscribed to by `on`, unsubscribed from and disconnected, in whatever order, and whatever its
-- sockets report, has no open socket but its current one; it is connected
-- exactly if that one is, and has its id.
pub Run-IsSingle : (c : Connection) → Run c → IsSingle c
Run-IsSingle _ Run.fresh = record { alone = λ k s found alive. cc; honest = refl; same_id = refl }
Run-IsSingle _ (Run.connected {c} run lone) = connect-IsSingle c (inl lone) (Run-IsSingle c run)
Run-IsSingle _ (Run.connected_again {c} run up) = connect-IsSingle c (inr up) (Run-IsSingle c run)
Run-IsSingle _ (Run.disconnected {c} run) = disconnect-IsSingle c (Run-IsSingle c run)
Run-IsSingle _ (Run.subscribed {c} source observer event run) =
    subscribe-IsSingle source observer event c (Run-IsSingle c run)
Run-IsSingle _ (Run.unsubscribed {c} observer run) =
    unsubscribe-IsSingle observer c (Run-IsSingle c run)
Run-IsSingle _ (Run.emitted {c} event run) = emit-IsSingle event c (Run-IsSingle c run)
Run-IsSingle _ (Run.reported {c} k e s run found may) =
    socket_event-IsSingle k e s c found may (Run-IsSingle c run)
