-- ===== src/Redis/Commands/Readings.antt =====
-- The replies of TTL that `rollbackBid` of server/src/shared/redis/redis.service.ts holds between its
-- two requests, the one that reads a price's life and the pipeline that writes the price back with it.
use bid_battle.Platform.Redis.{Ttl}
use bid_battle.Redis.Commands.{safe_ttl}
use bid_battle.Prelude.{
  zero, suc, ◌≡◌, ◌≤◌, ℕ, ◌==◌, true, false, Bool, if◌then◌else◌, List, [], ◌∷◌, ◌++◌, All, arith,
}

-- The first key runs out no later than the second, and is not there without it.
abbrev pub Within : Ttl → Ttl → Type 0
Within Ttl.missing _ = Unit {0}
Within (Ttl.seconds n) (Ttl.seconds m) = n ≤ m
Within _ _ = ⊥

-- A rollback that has read the life of its auction's price and has not written it back.
pub record Reading : Type 0 where
  pub auction : ℕ
  pub life : Ttl

abbrev pub is_reading : ℕ → List Reading → Bool
is_reading b [] = false
is_reading b (r ∷ rs) = if r.auction == b then true else is_reading b rs

-- What the rollbacks of the auction will write lives no shorter than a key with the given life.
abbrev pub Covered : ℕ → Ttl → List Reading → Type 0
Covered a t rs = All (λ r. r.auction ≡ a → Within t (Ttl.seconds (safe_ttl r.life))) rs

pub shorter-Covered :
    (a : ℕ) (t u : Ttl) (rs : List Reading)
    → ((m : ℕ) → Within t (Ttl.seconds m) → Within u (Ttl.seconds m))
    → Covered a t rs
    → Covered a u rs
shorter-Covered a t u [] h c = tt
shorter-Covered a t u (r ∷ rs) h c =
    (λ e. h (safe_ttl r.life) (c.0 e), shorter-Covered a t u rs h c.1)

pub free-Covered : (a : ℕ) (t : Ttl) (rs : List Reading) → is_reading a rs ≡ false → Covered a t rs
free-Covered a t [] h = tt
free-Covered a t (r ∷ rs) h = (λ e. ground (arith, h, e), free-Covered a t rs (ground (arith, h)))

pub split-Covered :
    (a : ℕ) (t : Ttl) (xs ys : List Reading) (r : Reading)
    → Covered a t (xs ++ r ∷ ys)
    → (r.auction ≡ a → Within t (Ttl.seconds (safe_ttl r.life))) × Covered a t (xs ++ ys)
split-Covered a t [] ys r c = (c.0, c.1)
split-Covered a t (x ∷ xs) ys r c =
    let rest = split-Covered a t xs ys r c.1 in (rest.0, (c.0, rest.1))

-- A key within the one that was read is within what will be written.
pub Within-safe_ttl : (t u : Ttl) → Within t u → Within t (Ttl.seconds (safe_ttl u))
unfolding safe_ttl
Within-safe_ttl Ttl.missing u h = tt
Within-safe_ttl Ttl.persistent u h = absurd h
Within-safe_ttl (Ttl.seconds n) Ttl.missing h = absurd h
Within-safe_ttl (Ttl.seconds n) Ttl.persistent h = absurd h
Within-safe_ttl (Ttl.seconds n) (Ttl.seconds zero) h = omega (arith, h)
Within-safe_ttl (Ttl.seconds n) (Ttl.seconds (suc m)) h = h
