-- ===== src/Client/Sockets/Registry.antt =====
-- client/src/app/core/services/socket/socket.service.ts: the connections by namespace, in the order in
-- which they were made. `released` keeps those that were removed.
use bid_battle.Client.Sockets.{Connection, disconnect, new_connection}
use bid_battle.Prelude.{
  inr, find_where-delete, inl, Bool-cases, arith, false, refl, true, ◌≡◌, [], ◌++◌, ◌∷◌, is_some,
  map, none, some, delete_where, find_where, Bool, List, Option, String, if◌then◌else◌,
}
use text.Mathlib.TextEquality.{eq_iff}
use text.Mathlib.Text.{◌==◌ as str_eq}

pub record Entry : Type 0 where
  pub namespace : String
  pub connection : Connection

pub record Registry : Type 0 where
  pub connections : List Entry
  pub released : List Connection

abbrev pub in_namespace : String → Entry → Bool
in_namespace namespace e = str_eq e.namespace namespace

abbrev pub has : String → Registry → Bool
has namespace r = is_some (find_where (in_namespace namespace) r.connections)

-- on the server it throws
pub data Got : Type 0 where
  thrown : Got
  got : Option Connection → Registry → Got

abbrev connection_of : Option Entry → Option Connection
connection_of none = none
connection_of (some e) = some e.connection

abbrev pub look_up : String → Registry → Option Connection
look_up namespace r = connection_of (find_where (in_namespace namespace) r.connections)

abbrev pub ensure : String → Registry → Registry
ensure namespace r = if has namespace r then r else record r {
  connections = r.connections ++ record { namespace = namespace; connection = new_connection } ∷ [];
}

unfoldable pub get_or_create : Bool → String → Registry → Got
get_or_create is_browser namespace r =
    if is_browser
    then Got.got (look_up namespace (ensure namespace r)) (ensure namespace r)
    else Got.thrown

abbrev release : Option Connection → Registry → Registry
release none r = r
release (some c) r = record r { released = disconnect c ∷ r.released }

unfoldable pub remove : String → Registry → Registry
remove namespace r =
    let r' = release (look_up namespace r) r in
    record r' { connections = delete_where (in_namespace namespace) r.connections }

unfoldable pub disconnect_all : Registry → Registry
disconnect_all r = record {
  connections = [];
  released = map (λ e. disconnect e.connection) r.connections ++ r.released;
}

has-append :
    (namespace : String) (c : Connection) (es : List Entry)
    → is_some (
        find_where
          (in_namespace namespace)
          (es ++ record { namespace = namespace; connection = c } ∷ []))
      ≡ true
has-append namespace c [] = ground (arith, (eq_iff namespace namespace).1 refl)
has-append namespace c (e ∷ es) = ground (arith, has-append namespace c es)

ensure-has : (namespace : String) (r : Registry) → has namespace (ensure namespace r) ≡ true
ensure-has namespace r = elim (Bool-cases (has namespace r)) [
  | inl known ↦ let same : ensure namespace r ≡ r = rw known refl in rw same known
  | inr unknown ↦ simp unknown (has-append namespace new_connection r.connections)
]

-- In the browser a namespace has one connection: asked for again, it gives what it gave before and
-- makes no other.
pub get_or_create_twice :
    (namespace : String) (r : Registry)
    → get_or_create true namespace (ensure namespace r) ≡ get_or_create true namespace r
unfolding get_or_create
get_or_create_twice namespace r =
    let known = ensure-has namespace r in
    let same : ensure namespace (ensure namespace r) ≡ ensure namespace r = rw known refl in
    rw same refl

-- A namespace that was removed has no connection.
pub remove-has : (namespace : String) (r : Registry) → has namespace (remove namespace r) ≡ false
unfolding remove
remove-has namespace r = rw (find_where-delete (in_namespace namespace) r.connections) refl
