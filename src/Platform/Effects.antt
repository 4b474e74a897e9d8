-- ===== src/Platform/Effects.antt =====
-- An asynchronous method as a function from the world to its outcome and the next world. Every
-- request to a service takes the next fault of the environment: it succeeds, it is refused before
-- it has any effect, or its reply is lost after it took effect.
use bid_battle.Prelude.{
  arith, refl, ◌≡◌, ℕ, String, Bool, true, false, Option, none, some, List, [], ◌∷◌,
}
use bid_battle.Platform.Redis.{RedisServer}
use bid_battle.Platform.Database.{Database}
use bid_battle.Platform.Queue.{JobQueue}
use bid_battle.Platform.Sockets.{Client}

pub record Platform : Type 1 where
  pub redis : RedisServer
  pub database : Database
  pub queue : JobQueue

pub data Fault : Type 0 where
  refused lost : Fault

-- What the socket server sends. The first number is a socket for what goes to one client, an auction
-- for what goes to its room, and for `auction_won` the user whose own room it goes to.
pub data Emission : Type 0 where
  joined_auction left_auction already_ended : ℕ → ℕ → Emission
  exception : ℕ → String → Emission
  rejoined_auction current_state : ℕ → ℕ → ℕ → Bool → Bool → ℕ → Emission
  state_error : ℕ → String → Emission
  -- the code and the reason, the price and the least next bid where they are known
  bid_rejected : ℕ → String → String → Option ℕ → Option ℕ → Emission
  presence_update new_highest_bid : ℕ → ℕ → Emission
  auction_ended : ℕ → Option ℕ → Emission
  auction_won : ℕ → ℕ → Option ℕ → Emission

pub record World (P : Platform) : Type 0 where
  pub store : P.redis.Store
  pub rows : P.database.Rows
  pub jobs : P.queue.Jobs
  pub now : ℕ
  pub sent : List Emission
  -- the socket whose event is handled
  pub client : Client
  -- the fault of each request still to come; past the end no request fails
  pub faults : List (Option Fault)

-- An `Error`, or an exception of NestJS by its message key.
pub data Exception : Type 0 where
  request_failed type_error duplicate_entry invalid_expires_in : Exception
  not_found forbidden bad_request unauthorized conflict internal_error ws_exception :
      String → Exception

pub data Outcome (A : Type 0) : Type 0 where
  ok : A → Outcome A
  throws : Exception → Outcome A

abbrev pub Eff : Platform → Type 0 → Type 0
Eff P A = World P → Outcome A × World P

module _ {P : Platform} {A : Type 0} where
  abbrev pub pure : A → Eff P A
  pure a w = (Outcome.ok a, w)

  abbrev pub throw : Exception → Eff P A
  throw e w = (Outcome.throws e, w)

  -- `try { m } catch (e) { h }`
  abbrev pub try_catch : Eff P A → (Exception → Eff P A) → Eff P A
  try_catch m h w =
      let (r, w') = m w in elim r [ Outcome.ok a ↦ (Outcome.ok a, w') | Outcome.throws e ↦ h e w' ]

  -- `dataSource.transaction(m)`
  abbrev pub transaction : Eff P A → Eff P A
  transaction m w =
      let (r, w') = m w in
      elim r [
        | Outcome.ok a ↦ (Outcome.ok a, w')
        | Outcome.throws e ↦
            (Outcome.throws e, record w' { rows = P.database.roll_back w.rows w'.rows })
      ]

infixl 5 ◌>>=◌ ◌>>◌
abbrev pub ◌>>=◌ : {P : Platform} {A B : Type 0} → Eff P A → (A → Eff P B) → Eff P B
◌>>=◌ m f w =
    let (r, w') = m w in
    elim r [ Outcome.ok a ↦ f a w' | Outcome.throws e ↦ (Outcome.throws e, w') ]

abbrev pub ◌>>◌ : {P : Platform} {B : Type 0} → Eff P (Unit {0}) → Eff P B → Eff P B
m >> k = m >>= λ _. k

abbrev pub when : {P : Platform} → Bool → Eff P (Unit {0}) → Eff P (Unit {0})
when true m = m
when false m = pure tt

abbrev pub next_fault : List (Option Fault) → Option Fault
next_fault [] = none
next_fault (f ∷ _) = f

abbrev pub later_faults : List (Option Fault) → List (Option Fault)
later_faults [] = []
later_faults (_ ∷ fs) = fs

abbrev pub answer :
    {P : Platform} {A : Type 0} → Option Fault → A × World P → World P → Outcome A × World P
answer none (a, w') w = (Outcome.ok a, w')
answer (some Fault.refused) _ w = (Outcome.throws Exception.request_failed, w)
answer (some Fault.lost) (_, w') w = (Outcome.throws Exception.request_failed, w')

-- One request: what it does to the world if it is carried out, under the next fault.
unfoldable pub request : {P : Platform} {A : Type 0} → (World P → A × World P) → Eff P A
request f w =
    let w' = record w { faults = later_faults w.faults } in answer (next_fault w.faults) (f w') w'

module _ {P : Platform} {A : Type 0} where
  abbrev pub ask_redis : (P.redis.Store → A) → Eff P A
  ask_redis f = request λ w. (f w.store, w)

  abbrev pub tell_redis : (P.redis.Store → A × P.redis.Store) → Eff P A
  tell_redis f = request λ w. let (a, s) = f w.store in (a, record w { store = s })

  abbrev pub ask_rows : (P.database.Rows → A) → Eff P A
  ask_rows f = request λ w. (f w.rows, w)

module _ {P : Platform} where
  abbrev pub change_redis : (P.redis.Store → P.redis.Store) → Eff P (Unit {0})
  change_redis f = tell_redis λ s. (tt, f s)

  abbrev pub change_rows : (P.database.Rows → P.database.Rows) → Eff P (Unit {0})
  change_rows f = request λ w. (tt, record w { rows = f w.rows })

  abbrev pub change_jobs : (P.queue.Jobs → P.queue.Jobs) → Eff P (Unit {0})
  change_jobs f = request λ w. (tt, record w { jobs = f w.jobs })

  -- `new Date()`
  abbrev pub current_time : Eff P ℕ
  current_time w = (Outcome.ok w.now, w)

  -- `socket.emit`: it is not awaited and does not fail
  abbrev pub emit : Emission → Eff P (Unit {0})
  emit e w = (Outcome.ok tt, record w { sent = e ∷ w.sent })

module _ {P : Platform} where
  -- a change of `client` or its data
  abbrev pub change_client : (Client → Client) → Eff P (Unit {0})
  change_client f w = (Outcome.ok tt, record w { client = f w.client })

  abbrev pub ask_client : Eff P Client
  ask_client w = (Outcome.ok w.client, w)

  -- `await Promise.all([m, k])`: both are sent, and the first exception is thrown
  abbrev pub both : Eff P (Unit {0}) → Eff P (Unit {0}) → Eff P (Unit {0})
  both m k w =
      let (r, w') = m w in
      let (r', w'') = k w' in
      elim r [ Outcome.ok _ ↦ (r', w'') | Outcome.throws e ↦ (Outcome.throws e, w'') ]

-- The fault of the next request, and the world once that fault is taken.
abbrev pub fault_of : {P : Platform} → World P → Option Fault
fault_of w = next_fault w.faults

abbrev pub advance : {P : Platform} → World P → World P
advance w = record w { faults = later_faults w.faults }

-- What a request's caller hears, and what the service is left with.
abbrev pub heard : {A : Type 0} → Option Fault → A → A → A
heard none x d = x
heard (some _) x d = d

abbrev pub reached : {A : Type 0} → Option Fault → A → A → A
reached none new old = new
reached (some Fault.refused) new old = old
reached (some Fault.lost) new old = new

-- A block whose handler returns a value never throws.
pub try_catch_total :
    {P : Platform} {A : Type 0} (m : Eff P A) (d : A) (w : World P)
    → (a : A) × ((try_catch m (λ _. pure d) w).0 ≡ Outcome.ok a)
try_catch_total {P} {A} m d w = go (m w)
  where
    go :
        (r : Outcome A × World P)
        → (a : A) × ((elim r.0 as (λ _. Outcome A × World P) [
          | Outcome.ok a ↦ (Outcome.ok a, r.1)
          | Outcome.throws e ↦ (Outcome.ok d, r.1)
        ]).0
            ≡ Outcome.ok a)
    go (Outcome.ok a, w') = (a, refl)
    go (Outcome.throws e, w') = (d, refl)

-- A transaction that throws leaves the rows as they were.
pub transaction_throws :
    {P : Platform} {A : Type 0} (m : Eff P A) (w : World P) {e : Exception} {w' : World P}
    → transaction m w ≡ (Outcome.throws e, w')
    → w'.rows ≡ w.rows
transaction_throws {P} {A} m w {e} {w'} h =
    ground (arith, P.database.roll_back_lem w.rows (m w).1.rows)
