-- ===== src/Auctions/Reconciliation/Restoring.antt =====
-- What `onApplicationBootstrap` of server/src/modules/auctions/auctions-start.processor.ts brings back
-- when Redis has lost its data.
use bid_battle.Redis.Auctions.Replies.{restore_auction_lem}
use bid_battle.Auctions.StartProcessor.{duration_seconds}
use bid_battle.Platform.Queue.{JobId}
use bid_battle.Platform.Redis.{key_eq, RedisKey}
use bid_battle.Entities.{Auction}
use bid_battle.Auctions.Scheduler.{delay_until, schedule_auction_end}
use bid_battle.Redis.Commands.{restore_commands}
use bid_battle.Platform.Effects.{Outcome, request, World, Platform}
use bid_battle.Auctions.Reconciliation.{reconcile_all, reconcile}
use bid_battle.Prelude.{
  ◌++◌, All, ◌&&◌, is_some, refl, if◌then◌else◌, zero, ◌+◌, ap, suc, none, ◌∷◌, some, take, ◌<◌,
  ◌≢◌, Option, [], ◌≤◌, length, List, ℕ, ◌≡◌, arith,
}

pub take_all {ℓ} : {A : Type ℓ} (n : ℕ) (xs : List A) → length xs ≤ n → take n xs ≡ xs
take_all zero [] h = refl
take_all zero (x ∷ xs) h = absurd (omega arith)
take_all (suc n) [] h = refl
take_all (suc n) (x ∷ xs) h = ap (λ ys. x ∷ ys) (take_all n xs (omega arith))

-- No row of the list has the id.
abbrev pub Others : ℕ → List Auction → Type 0
Others auction bs = All (λ b. b.id ≢ auction) bs

module _ (P : Platform) where
  open P.redis use {get}

  -- The auction's values, and the job that ends it, as they were; no request has failed.
  pub record IsApart (auction : ℕ) (w w' : World P) : Type 0 where
    pub healthy : w'.faults ≡ []
    pub active_kept :
        get (RedisKey.auction_active auction) w'.store
        ≡ get (RedisKey.auction_active auction) w.store
    pub price_kept :
        get (RedisKey.auction_price auction) w'.store ≡ get (RedisKey.auction_price auction) w.store
    pub owner_kept :
        get (RedisKey.auction_owner auction) w'.store ≡ get (RedisKey.auction_owner auction) w.store
    pub bidder_kept :
        get (RedisKey.auction_bidder auction) w'.store
        ≡ get (RedisKey.auction_bidder auction) w.store
    pub job_kept :
        P.queue.get_job (JobId.end_job auction) w'.jobs
        ≡ P.queue.get_job (JobId.end_job auction) w.jobs

  -- The auction is back: its flag, the price of its row, its owner, this bidder, and its end job.
  pub record IsRestored (a : Auction) (bidder : Option ℕ) (w : World P) : Type 0 where
    pub flag : get (RedisKey.auction_active a.id) w.store ≡ some 1
    pub price : get (RedisKey.auction_price a.id) w.store ≡ some a.current_price
    pub owner : get (RedisKey.auction_owner a.id) w.store ≡ some a.owner_id
    pub leader : get (RedisKey.auction_bidder a.id) w.store ≡ bidder
    pub ends : P.queue.get_job (JobId.end_job a.id) w.jobs ≢ none

  restore-get :
      (j : RedisKey) (auction price d owner : ℕ) (bidder : Option ℕ) (s : P.redis.Store)
      → 0 < d
      → get j (restore_commands P.redis auction price d owner bidder s) ≡ (
          if is_some bidder && key_eq (RedisKey.auction_bidder auction) j
          then bidder
          else if key_eq (RedisKey.auction_owner auction) j
          then some owner
          else if key_eq (RedisKey.auction_active auction) j
          then some 1
          else if key_eq (RedisKey.auction_price auction) j
          then some price
          else get j s)
  unfolding restore_commands
  restore-get j auction price d owner none s h = grind (arith, P.redis.get-set_ex)
  restore-get j auction price d owner (some u) s h = grind (arith, P.redis.get-set_ex)

  reconcile-IsApart :
      (auction now : ℕ) (b : Auction) (bidder : Option ℕ) (w : World P)
      → b.id ≢ auction
      → w.faults ≡ []
      → IsApart auction w (reconcile P now b bidder w).1
  unfolding reconcile schedule_auction_end request
  reconcile-IsApart auction now b bidder w other f =
      let d = duration_seconds b.end_time now in
      let restored =
        λ (j : RedisKey). restore-get j b.id b.current_price d b.owner_id bidder w.store in
      ground (
        arith,
        restore_auction_lem P b.id w b.current_price d b.owner_id bidder,
        restored (RedisKey.auction_active auction),
        restored (RedisKey.auction_price auction),
        restored (RedisKey.auction_owner auction),
        restored (RedisKey.auction_bidder auction),
        P.queue.get-add (JobId.end_job auction) (JobId.end_job b.id) (delay_until b.end_time w.now)
            w.jobs,
      )

  reconcile_ok :
      (now : ℕ) (b : Auction) (bidder : Option ℕ) (w : World P)
      → (reconcile P now b bidder w).0 ≡ Outcome.ok tt
  unfolding reconcile
  reconcile_ok now b bidder w = ground arith

  reconcile_healthy :
      (now : ℕ) (b : Auction) (bidder : Option ℕ) (w : World P)
      → w.faults ≡ []
      → (reconcile P now b bidder w).1.faults ≡ []
  unfolding reconcile schedule_auction_end request
  reconcile_healthy now b bidder w f = ground (
    arith,
    restore_auction_lem P b.id w b.current_price (duration_seconds b.end_time now) b.owner_id
        bidder,
  )

  reconcile_restores :
      (now : ℕ) (a : Auction) (bidder : Option ℕ) (w : World P)
      → now + 1000 ≤ a.end_time
      → w.faults ≡ []
      → get (RedisKey.auction_bidder a.id) w.store ≡ none
      → IsRestored a bidder (reconcile P now a bidder w).1
  unfolding reconcile schedule_auction_end request
  reconcile_restores now a bidder w ahead f empty =
      let d = duration_seconds a.end_time now in
      let restored =
        λ (j : RedisKey). restore-get j a.id a.current_price d a.owner_id bidder w.store in
      ground (
        arith,
        restore_auction_lem P a.id w a.current_price d a.owner_id bidder,
        restored (RedisKey.auction_active a.id),
        restored (RedisKey.auction_price a.id),
        restored (RedisKey.auction_owner a.id),
        restored (RedisKey.auction_bidder a.id),
        P.queue.get-add (JobId.end_job a.id) (JobId.end_job a.id) (delay_until a.end_time w.now)
            w.jobs,
      )

  reconcile_all-IsApart :
      (auction now : ℕ) (bidders : ℕ → Option ℕ) (bs : List Auction) (w : World P)
      → Others auction bs
      → w.faults ≡ []
      → IsApart auction w (reconcile_all P now bidders bs w).1
  unfolding reconcile_all
  reconcile_all-IsApart auction now bidders [] w other f = ground arith
  reconcile_all-IsApart auction now bidders (b ∷ bs) w other f =
      let w' = (reconcile P now b (bidders b.id) w).1 in
      let first = reconcile-IsApart auction now b (bidders b.id) w other.0 f in
      let rest = reconcile_all-IsApart auction now bidders bs w' other.1 first.healthy in
      ground (arith, reconcile_ok now b (bidders b.id) w, first, rest)

  pub reconcile_all_restores :
      (now : ℕ) (bidders : ℕ → Option ℕ) (before after : List Auction) (a : Auction) (w : World P)
      → Others a.id before
      → Others a.id after
      → now + 1000 ≤ a.end_time
      → w.faults ≡ []
      → get (RedisKey.auction_bidder a.id) w.store ≡ none
      → IsRestored a (bidders a.id) (reconcile_all P now bidders (before ++ a ∷ after) w).1
  unfolding reconcile_all
  reconcile_all_restores now bidders [] after a w _ other ahead f empty =
      let w' = (reconcile P now a (bidders a.id) w).1 in
      let back = reconcile_restores now a (bidders a.id) w ahead f empty in
      let mine = reconcile_healthy now a (bidders a.id) w f in
      let rest = reconcile_all-IsApart a.id now bidders after w' other mine in
      ground (arith, reconcile_ok now a (bidders a.id) w, back, rest)
  reconcile_all_restores now bidders (b ∷ before) after a w other other' ahead f empty =
      let w' = (reconcile P now b (bidders b.id) w).1 in
      let first = reconcile-IsApart a.id now b (bidders b.id) w other.0 f in
      let rest =
        reconcile_all_restores now bidders before after a w' other.1 other' ahead first.healthy
          (ground (arith, first, empty)) in
      ground (arith, reconcile_ok now b (bidders b.id) w, rest)
