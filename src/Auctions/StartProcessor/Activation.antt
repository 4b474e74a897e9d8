-- ===== src/Auctions/StartProcessor/Activation.antt =====
-- The branches of the start job of server/src/modules/auctions/auctions-start.processor.ts.
use bid_battle.Redis.Commands.Results.{initialize_fresh}
use bid_battle.Redis.Cache.Frame.{invalidate_cache-Keeps, invalidate_cache_ok}
use bid_battle.Redis.Cache.{invalidate_cache}
use bid_battle.Redis.Auctions.Replies.{initialize_auction_lem}
use bid_battle.Entities.{AuctionStatus, is_pending, Auction}
use bid_battle.Auctions.Scheduler.{schedule_auction_end, delay_until}
use bid_battle.Redis.Commands.{initialize_commands}
use bid_battle.Platform.Queue.{JobId}
use bid_battle.Platform.Redis.{IsCached, RedisKey}
use bid_battle.Platform.Effects.{
  Platform, fault_of, reached, Exception, Fault, Outcome, advance, request, World,
}
use bid_battle.Prelude.{refl, inr, inl, Option-cases, ◌≤◌, ◌+◌, ◌≡◌, ◌≢◌, arith, ◌<◌, ◌∷◌, []}
use bid_battle.Auctions.StartProcessor.{
  duration_seconds, mark_pending, mark_active, mark_ended, none, false, some, ℕ, process_start,
  start_pending, start_or_end, activate, set_up,
}

module _ (P : Platform) (a : Auction) (duration : ℕ) (v : World P) where
  -- The world when Redis has taken the start and the queue the end job.
  abbrev pub scheduled : World P
  scheduled = record (advance (advance v)) {
    store =
        reached (fault_of v)
          (initialize_commands P.redis a.id a.starting_price duration a.owner_id v.store).1 v.store;
    jobs = P.queue.add_job (JobId.end_job a.id) (delay_until a.end_time v.now) v.jobs;
  }

  pub set_up_ok :
      fault_of (advance v) ≡ none
      → set_up P a duration v
        ≡ (Outcome.ok tt, (invalidate_cache P "auctions:active:*" scheduled).1)
  unfolding set_up schedule_auction_end request
  set_up_ok e = ground (
    arith,
    initialize_auction_lem P a.id v a.starting_price duration a.owner_id,
    invalidate_cache_ok P scheduled,
  )

  set_up_refused :
      fault_of (advance v) ≡ some Fault.refused
      → fault_of (advance (advance v)) ≡ none
      → ((set_up P a duration v).0 ≡ Outcome.throws Exception.request_failed)
        × ((set_up P a duration v).1.rows ≡ P.database.update_auction a.id mark_pending v.rows)
  unfolding set_up schedule_auction_end request
  set_up_refused e f =
      ground (arith, initialize_auction_lem P a.id v a.starting_price duration a.owner_id)

module _ (P : Platform) (id : ℕ) (w : World P) where
  open P.database use {find_auction}

  -- A job for a row that is missing or not PENDING changes no table, no key, no job, and sends
  -- nothing, whatever requests fail.
  pub process_start_skips :
      ((a : Auction) → find_auction id w.rows ≡ some a → is_pending a.status ≡ false)
      → (process_start P id w).1 ≡ advance w
  unfolding process_start request
  process_start_skips h = elim (Option-cases (find_auction id w.rows)) [
    | inl missing ↦ ground arith
    | inr (a, found) ↦ ground (arith, h a found)
  ]

  -- A PENDING auction with less than a second left goes straight to ENDED, and Redis and the queues
  -- are left alone.
  pub process_start_late :
      (a : Auction)
      → find_auction id w.rows ≡ some a
      → a.status ≡ AuctionStatus.pending
      → a.end_time < w.now + 1000
      → w.faults ≡ []
      → let (r, w') = process_start P id w in
        (r ≡ Outcome.ok tt)
        × (find_auction id w'.rows ≡ some (mark_ended w.now a))
        × (w'.store ≡ w.store)
        × (w'.jobs ≡ w.jobs)
  unfolding process_start start_pending start_or_end request
  process_start_late a found pending late none_fail = ground (
    arith,
    P.database.find_id id w.rows a found,
    P.database.find-update id a.id (mark_ended w.now) w.rows (λ b. refl),
  )

  module _ (a : Auction) (found : find_auction id w.rows ≡ some a)
      (pending : a.status ≡ AuctionStatus.pending) (ahead : w.now + 1000 ≤ a.end_time) where
    -- The world when the row is ACTIVE.
    abbrev pub activated : World P
    activated = record (advance (advance (advance w))) {
      rows = P.database.update_auction a.id (mark_active w.now) w.rows;
    }

    pub duration_pos : 0 < duration_seconds a.end_time w.now
    duration_pos = omega arith

    pub process_start_sets_up :
        fault_of w ≡ none
        → fault_of (advance w) ≡ none
        → fault_of (advance (advance w)) ≡ none
        → process_start P id w ≡ set_up P a (duration_seconds a.end_time w.now) activated
    unfolding process_start start_pending start_or_end activate request
    process_start_sets_up e f g = ground (arith, P.database.find_id id w.rows a found, duration_pos)

    row_activated : P.database.find_auction id activated.rows ≡ some (mark_active w.now a)
    row_activated = ground (
      arith,
      P.database.find_id id w.rows a found,
      P.database.find-update id a.id (mark_active w.now) w.rows (λ b. refl),
    )

    -- When every request succeeds and Redis holds nothing of the auction yet, a PENDING auction with
    -- a second or more left becomes ACTIVE, Redis holds its flag, starting price and owner, and a job
    -- to end it is queued.
    pub process_start_activates :
        w.faults ≡ []
        → P.redis.exists (RedisKey.auction_active id) w.store ≡ false
        → P.redis.get (RedisKey.auction_price id) w.store ≡ none
        → P.redis.get (RedisKey.auction_owner id) w.store ≡ none
        → let (r, w') = process_start P id w in
          (r ≡ Outcome.ok tt)
          × (find_auction id w'.rows ≡ some (mark_active w.now a))
          × (P.redis.get (RedisKey.auction_active id) w'.store ≡ some 1)
          × (P.redis.get (RedisKey.auction_price id) w'.store ≡ some a.starting_price)
          × (P.redis.get (RedisKey.auction_owner id) w'.store ≡ some a.owner_id)
          × (P.queue.get_job (JobId.end_job id) w'.jobs ≢ none)
    process_start_activates f e p o =
        let d = duration_seconds a.end_time w.now in
        let same = P.database.find_id id w.rows a found in
        let v = scheduled P a d activated in
        let fresh =
          initialize_fresh P.redis id w.store a.starting_price d a.owner_id duration_pos e p o in
        let keeps = λ (j : RedisKey) (n : IsCached j → ⊥). invalidate_cache-Keeps P j n v in
        rw (process_start_sets_up (ground arith) (ground arith) (ground arith)) (
          rw (set_up_ok P a d activated (ground arith)) (
            refl,
            ground (arith, row_activated, keeps (RedisKey.auction_active id) (λ h. h)),
            ground (arith, same, fresh, keeps (RedisKey.auction_active id) (λ h. h)),
            ground (arith, same, fresh, keeps (RedisKey.auction_price id) (λ h. h)),
            ground (arith, same, fresh, keeps (RedisKey.auction_owner id) (λ h. h)),
            ground (
              arith,
              same,
              keeps (RedisKey.auction_active id) (λ h. h),
              P.queue.get-add (JobId.end_job id) (JobId.end_job a.id) (delay_until a.end_time w.now)
                  w.jobs,
            ),
          ))

    -- When the job that ends the auction cannot be queued, the row is PENDING again with no start
    -- date and the job fails, so that it is tried again.
    pub process_start_rolls_back :
        w.faults ≡ none ∷ none ∷ none ∷ none ∷ some Fault.refused ∷ []
        → let (r, w') = process_start P id w in
          (r ≡ Outcome.throws Exception.request_failed)
          × (find_auction id w'.rows ≡ some (mark_pending a))
    process_start_rolls_back f = ground (
      arith,
      pending,
      P.database.find_id id w.rows a found,
      process_start_sets_up (ground arith) (ground arith) (ground arith),
      set_up_refused P a (duration_seconds a.end_time w.now) activated,
      row_activated,
      P.database.find-update id a.id mark_pending activated.rows (λ b. refl),
    )

    -- When Redis refuses the initialization, the job still succeeds and the row is ACTIVE, though
    -- Redis holds nothing of the auction that it did not hold before.
    pub process_start_lost_initialization :
        w.faults ≡ none ∷ none ∷ none ∷ some Fault.refused ∷ []
        → let (r, w') = process_start P id w in
          (r ≡ Outcome.ok tt)
          × (find_auction id w'.rows ≡ some (mark_active w.now a))
          × ((j : RedisKey) → (IsCached j → ⊥) → P.redis.get j w'.store ≡ P.redis.get j w.store)
    process_start_lost_initialization f =
        let d = duration_seconds a.end_time w.now in
        let v = scheduled P a d activated in
        rw (process_start_sets_up (ground arith) (ground arith) (ground arith)) (
          rw (set_up_ok P a d activated (ground arith)) (
            refl,
            ground (
              arith,
              row_activated,
              invalidate_cache-Keeps P (RedisKey.auction_active id) (λ h. h) v,
            ),
            λ j n. ground (arith, invalidate_cache-Keeps P j n v),
          ))
