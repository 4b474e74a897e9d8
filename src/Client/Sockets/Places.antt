-- ===== src/Client/Sockets/Places.antt =====
-- What stands at a place in the list of a connection's sockets, and what an event does there.
use bid_battle.Client.Sockets.{
  Connection, Socket, SocketEvent, connect, current, handle, is_up, reopened, set_at, socket_event,
  undergo,
}
use bid_battle.Prelude.{
  true, ◌⊎◌, ◌≡◌, ◌==◌, ap, inl, inr, arith, false, some, length, get_elem?, refl, ◌++◌, ◌∷◌, [], ℕ,
  zero, suc, List,
}

pub get_elem-set_at :
    (k : ℕ) (s x : Socket) (ss : List Socket)
    → get_elem? ss k ≡ some x
    → get_elem? (set_at k s ss) k ≡ some s
get_elem-set_at zero s x [] h = cc
get_elem-set_at (suc k) s x [] h = cc
get_elem-set_at zero s x (y ∷ ss) h = refl
get_elem-set_at (suc k) s x (y ∷ ss) h = get_elem-set_at k s x ss h

pub get_elem-set_at_other :
    (k j : ℕ) (s : Socket) (ss : List Socket)
    → (j == k) ≡ false
    → get_elem? (set_at k s ss) j ≡ get_elem? ss j
get_elem-set_at_other k j s [] h = refl
get_elem-set_at_other zero zero s (y ∷ ss) h = ground arith
get_elem-set_at_other zero (suc j) s (y ∷ ss) h = refl
get_elem-set_at_other (suc k) zero s (y ∷ ss) h = refl
get_elem-set_at_other (suc k) (suc j) s (y ∷ ss) h = get_elem-set_at_other k j s ss (ground arith)

pub get_elem-set_at_is :
    (k : ℕ) (s x : Socket) (ss : List Socket) → get_elem? (set_at k s ss) k ≡ some x → x ≡ s
get_elem-set_at_is k s x [] h = cc
get_elem-set_at_is zero s x (y ∷ ss) h = cc
get_elem-set_at_is (suc k) s x (y ∷ ss) h = get_elem-set_at_is k s x ss h

pub get_elem-last : (ss : List Socket) (s : Socket) → get_elem? (ss ++ s ∷ []) (length ss) ≡ some s
get_elem-last [] s = refl
get_elem-last (x ∷ ss) s = get_elem-last ss s

-- an element of a list with one more is an old one or the new one
pub get_elem-append_cases :
    (ss : List Socket) (s x : Socket) (k : ℕ)
    → get_elem? (ss ++ s ∷ []) k ≡ some x
    → (get_elem? ss k ≡ some x) ⊎ (k ≡ length ss)
get_elem-append_cases [] s x zero h = inr refl
get_elem-append_cases [] s x (suc k) h = inl h
get_elem-append_cases (y ∷ ss) s x zero h = inl h
get_elem-append_cases (y ∷ ss) s x (suc k) h = elim (get_elem-append_cases ss s x k h) [
  | inl old ↦ inl old
  | inr last ↦ inr (ap suc last)
]

pub get_elem-append :
    (ss : List Socket) (s x : Socket) (k : ℕ)
    → get_elem? ss k ≡ some x
    → get_elem? (ss ++ s ∷ []) k ≡ some x
get_elem-append [] s x k h = ground (arith, h)
get_elem-append (y ∷ ss) s x zero h = h
get_elem-append (y ∷ ss) s x (suc k) h = get_elem-append ss s x k h

-- the place of the last is not the one before it
pub length-last :
    (ss : List Socket) (s : Socket)
    → ((length ss == length (ss ++ s ∷ [])) ≡ false)
      × ((length (ss ++ s ∷ []) == length ss) ≡ false)
length-last [] s = (refl, refl)
length-last (x ∷ ss) s = ground (arith, length-last ss s)

pub connect_new : (c : Connection) → is_up (current c) ≡ false → connect c ≡ reopened c
unfolding connect
connect_new c down = simp down refl

pub socket_event_open :
    (k : ℕ) (e : SocketEvent) (s : Socket) (c : Connection)
    → get_elem? c.sockets k ≡ some s
    → s.closed ≡ false
    → socket_event k e c ≡ handle e (record c { sockets = undergo k e s c.sockets })
unfolding socket_event
socket_event_open k e s c found alive = simp (found, alive) refl

pub socket_event_closed :
    (k : ℕ) (e : SocketEvent) (s : Socket) (c : Connection)
    → get_elem? c.sockets k ≡ some s
    → s.closed ≡ true
    → socket_event k e c ≡ c
unfolding socket_event
socket_event_closed k e s c found gone = simp (found, gone) refl
