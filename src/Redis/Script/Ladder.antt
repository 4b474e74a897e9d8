-- ===== src/Redis/Script/Ladder.antt =====
-- Runs of BID_SCRIPT of server/src/shared/redis/redis.service.ts: one auction's bids in the order in
-- which Redis takes them, whoever sends them.
use bid_battle.Prelude.{
  ℕ, ◌+◌, ◌≤◌, ◌≡◌, ◌≢◌, inl, inr, refl, Option, some, List, [], ◌∷◌, get_or, arith, ◌==◌,
  if◌then◌else◌, Bool-cases, ==_iff,
}
use bid_battle.Platform.Redis.{RedisServer, RedisKey}
use bid_battle.Redis.Script.{bid_script}
use bid_battle.Redis.Script.Acceptance.{bid_script_accepts, bid_script_writes, bid_script_rejects}

pub record Offer : Type 0 where
  pub amount : ℕ
  pub user : ℕ
  pub increment : ℕ

-- Each offer beats the price before it by its increment, and comes from another user than the
-- leader before it.
abbrev pub Climbs : ℕ → Option ℕ → List Offer → Type 0
Climbs price leader [] = Unit {0}
Climbs price leader (o ∷ os) =
    (price + o.increment ≤ o.amount) × (leader ≢ some o.user) × Climbs o.amount (some o.user) os

abbrev pub final_price : ℕ → List Offer → ℕ
final_price price [] = price
final_price price (o ∷ os) = final_price o.amount os

abbrev pub final_leader : Option ℕ → List Offer → Option ℕ
final_leader leader [] = leader
final_leader leader (o ∷ os) = final_leader (some o.user) os

module _ (R : RedisServer) (auction : ℕ) where
  open R use {Store, get, exists}

  abbrev pub price_of : Store → ℕ
  price_of s = get_or (get (RedisKey.auction_price auction) s) 0

  abbrev pub leader_of : Store → Option ℕ
  leader_of s = get (RedisKey.auction_bidder auction) s

  -- The offers that the script takes, and the store at the end.
  unfoldable pub run_bids : List Offer → Store → List Offer × Store
  run_bids [] s = ([], s)
  run_bids (o ∷ os) s =
      let (reply, t) = bid_script R auction o.amount o.user o.increment s in
      let (taken, u) = run_bids os t in (if reply.0 == 1 then o ∷ taken else taken, u)

  -- The offers taken climb from the price and leader at the start, each by at least its increment
  -- and never by the leading user; the last of them is the price and the leader at the end.
  pub run_bids_climb :
      (os : List Offer) (s : Store)
      → let (taken, t) = run_bids os s in
        Climbs (price_of s) (leader_of s) taken
        × (price_of t ≡ final_price (price_of s) taken)
        × (leader_of t ≡ final_leader (leader_of s) taken)
  unfolding run_bids
  run_bids_climb [] s = (tt, refl, refl)
  run_bids_climb (o ∷ os) s =
      let t = (bid_script R auction o.amount o.user o.increment s).1 in
      let later = run_bids_climb os t in
      elim (Bool-cases ((bid_script R auction o.amount o.user o.increment s).0.0 == 1)) [
        | inl yes_taken ↦
            let accepted = (==_iff _ 1).0 yes_taken in
            let fit = (bid_script_accepts R auction o.amount o.user o.increment s).0 accepted in
            let written = (bid_script_writes R auction o.amount o.user o.increment s accepted).0 in
            ground (
              arith,
              later,
              fit,
              yes_taken,
              written (RedisKey.auction_price auction),
              written (RedisKey.auction_bidder auction),
            )
        | inr not_taken ↦
            let same =
              (bid_script_rejects R auction o.amount o.user o.increment s (λ e. ground arith)).0 in
            ground (arith, later, not_taken, same)
      ]
