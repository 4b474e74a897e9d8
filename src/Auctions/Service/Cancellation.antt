-- ===== src/Auctions/Service/Cancellation.antt =====
-- `cancelAuction` of server/src/modules/auctions/auctions.service.ts.
use bid_battle.Auctions.EndProcessor.Closing.{process_end_closes}
use bid_battle.Auctions.EndProcessor.{finalize, process_end}
use bid_battle.Platform.Queue.{JobId}
use bid_battle.Platform.Redis.{RedisKey}
use bid_battle.Redis.Cache.Frame.{invalidate_cache-Keeps, invalidate_cache_ok}
use bid_battle.Redis.Cache.{invalidate_cache, delete_cache}
use bid_battle.Redis.Auctions.Replies.{cleanup_auction_lem}
use bid_battle.Auctions.Scheduler.{cancel_auction_end, cancel_auction_start}
use bid_battle.Entities.{is_active, AuctionStatus, Auction}
use bid_battle.Platform.Effects.{
  fault_of, Fault, advance, Outcome, Exception, World, request, Platform,
}
use bid_battle.Prelude.{
  Bool-cases, [], ◌∷◌, ◌<◌, none, ◌≢◌, refl, ap, Option-cases, length, true, some, ℕ, ◌≡◌, arith,
  ◌⊎◌, inl, inr,
}
use bid_battle.Auctions.Service.{
  finish_cancel, is_running, cancel_auction, cancel_row, check_no_bids, clean_up_canceled,
  invalidate_auctions_cache, invalidate_price_cache,
}

-- The row as cancellation saves it.
abbrev pub canceled : Auction → Auction
canceled a = record a { status = AuctionStatus.canceled }

module _ (P : Platform) (id : ℕ) where
  open P.database use {find_auction, save_auction, bids_of}

  -- What lets an auction be canceled: it is PENDING, or ACTIVE without bids.
  pub record IsCancelable (a : Auction) (w : World P) : Type 0 where
    pub found : find_auction id w.rows ≡ some a
    pub running : is_running a.status ≡ true
    pub no_bids : is_active a.status ≡ true → length (bids_of id w.rows) ≡ 0

  cancel_row_ok :
      (w : World P) (a : Auction) {r : AuctionStatus × Auction} {w' : World P}
      → find_auction id w.rows ≡ some a
      → cancel_row P id w ≡ (Outcome.ok r, w')
      → IsCancelable a w
        × (r ≡ (a.status, canceled a))
        × (w'.rows ≡ save_auction (canceled a) w.rows)
        × (w'.store ≡ w.store)
        × (w'.jobs ≡ w.jobs)
  unfolding cancel_row check_no_bids request
  cancel_row_ok w a found h = ground arith

  cancel_row_throws :
      (w : World P) {e : Exception} {w' : World P}
      → cancel_row P id w ≡ (Outcome.throws e, w')
      → (w'.rows ≡ w.rows) × (w'.store ≡ w.store) × (w'.jobs ≡ w.jobs)
  unfolding cancel_row check_no_bids request
  cancel_row_throws w h = elim (Option-cases (find_auction id w.rows)) [
    | inl missing ↦ ground (arith, P.database.roll_back_lem w.rows w.rows)
    | inr (a, found) ↦
        let as_before = P.database.roll_back_lem w.rows w.rows in
        let saved_before = P.database.roll_back_lem w.rows (save_auction (canceled a) w.rows) in
        elim (Bool-cases (is_running a.status)) [
          | inl running ↦ elim (Bool-cases (is_active a.status)) [
            | inl active ↦ ground (arith, as_before, saved_before)
            | inr inactive ↦ ground (arith, as_before, saved_before)
          ]
          | inr stopped ↦ ground (arith, as_before)
        ]
  ]

  -- Either the row was cancelable and is saved, or the tables are as they were.
  cancel_row_cases :
      (w : World P) (a : Auction)
      → find_auction id w.rows ≡ some a
      → let (r, w') = cancel_row P id w in
        ((r ≡ Outcome.ok (a.status, canceled a))
          × IsCancelable a w
          × (w'.rows ≡ save_auction (canceled a) w.rows))
        ⊎ ((e : Exception) × (r ≡ Outcome.throws e) × (w'.rows ≡ w.rows))
  cancel_row_cases w a found = go (cancel_row P id w) refl
    where
      go :
          (x : Outcome (AuctionStatus × Auction) × World P)
          → cancel_row P id w ≡ x
          → ((x.0 ≡ Outcome.ok (a.status, canceled a))
              × IsCancelable a w
              × (x.1.rows ≡ save_auction (canceled a) w.rows))
            ⊎ ((e : Exception) × (x.0 ≡ Outcome.throws e) × (x.1.rows ≡ w.rows))
      go (Outcome.ok r, w') h =
          let facts = cancel_row_ok w a found h in inl (ap Outcome.ok facts.1, facts.0, facts.2)
      go (Outcome.throws e, w') h = inr (e, refl, (cancel_row_throws w h).0)

  -- The clean-up touches no table.
  clean_up_rows :
      (previous : AuctionStatus) (w : World P)
      → ((clean_up_canceled P id previous w).1.rows ≡ w.rows)
        × (((clean_up_canceled P id previous w).0 ≡ Outcome.ok tt)
            ⊎ ((clean_up_canceled P id previous w).0 ≡ Outcome.throws Exception.request_failed))
  unfolding clean_up_canceled cancel_auction_start cancel_auction_end request
  clean_up_rows previous w = ground (arith, cleanup_auction_lem P id (cancel_auction_end P id w).1)

  -- The two invalidations touch no table and do not throw.
  invalidate_price_cache_ok :
      (w : World P)
      → ((invalidate_price_cache P id w).0 ≡ Outcome.ok tt)
        × ((invalidate_price_cache P id w).1.rows ≡ w.rows)
  unfolding invalidate_price_cache delete_cache request
  invalidate_price_cache_ok w = ground arith

  finish_cancel_rows :
      (saved : AuctionStatus × Auction) (v : World P)
      → ((finish_cancel P id saved v).1.rows ≡ v.rows)
        × (((finish_cancel P id saved v).0 ≡ Outcome.ok saved.1)
            ⊎ ((finish_cancel P id saved v).0 ≡ Outcome.throws Exception.request_failed))
  unfolding finish_cancel invalidate_auctions_cache
  finish_cancel_rows saved v =
      let u = (clean_up_canceled P id saved.0 v).1 in
      let t = (invalidate_cache P "auctions:active:*" u).1 in
      ground (
        arith,
        clean_up_rows saved.0 v,
        invalidate_cache_ok P u,
        invalidate_cache-Keeps P (RedisKey.auction_price id) (λ h. h) u,
        invalidate_price_cache_ok t,
      )

  module _ (user : ℕ) (w : World P) where
    -- When `cancelAuction` succeeds, the caller owns the auction, it was PENDING or it was ACTIVE
    -- without bids, and the row is saved as CANCELED with nothing else changed; whatever requests of
    -- the clean-up fail without stopping it.
    pub cancel_auction_ok :
        (a : Auction) {saved : Auction} {w' : World P}
        → find_auction id w.rows ≡ some a
        → cancel_auction P id user w ≡ (Outcome.ok saved, w')
        → IsCancelable a w
          × (a.owner_id ≡ user)
          × (saved ≡ canceled a)
          × (w'.rows ≡ save_auction (canceled a) w.rows)
    unfolding cancel_auction request
    cancel_auction_ok a {saved} {w'} found h = ground (
      arith,
      cancel_row_cases (advance w) a found,
      finish_cancel_rows (a.status, canceled a) (cancel_row P id (advance w)).1,
    )

    -- When it throws, the tables are as before, or the row is saved as CANCELED and the clean-up of
    -- its job has failed.
    pub cancel_auction_throws :
        (a : Auction) {e : Exception} {w' : World P}
        → find_auction id w.rows ≡ some a
        → cancel_auction P id user w ≡ (Outcome.throws e, w')
        → (w'.rows ≡ w.rows)
          ⊎ ((w'.rows ≡ save_auction (canceled a) w.rows)
              × IsCancelable a w
              × (e ≡ Exception.request_failed))
    unfolding cancel_auction request
    cancel_auction_throws a {e} {w'} found h = ground (
      arith,
      cancel_row_cases (advance w) a found,
      finish_cancel_rows (a.status, canceled a) (cancel_row P id (advance w)).1,
    )

module _ (P : Platform) (id : ℕ) (a : Auction) where
  cancel_row_active :
      (v : World P)
      → P.database.find_auction id v.rows ≡ some a
      → a.status ≡ AuctionStatus.active
      → length (P.database.bids_of id v.rows) ≡ 0
      → fault_of v ≡ none
      → fault_of (advance v) ≡ none
      → fault_of (advance (advance v)) ≡ none
      → cancel_row P id v ≡ (
        Outcome.ok (a.status, canceled a),
        record (advance (advance (advance v))) {
          rows = P.database.save_auction (canceled a) v.rows;
        },
      )
  unfolding cancel_row check_no_bids request
  cancel_row_active v found active no_bids f g h = ground arith

  finish_cancel_refused :
      (v : World P)
      → a.status ≡ AuctionStatus.active
      → P.queue.get_job (JobId.end_job id) v.jobs ≢ none
      → fault_of v ≡ none
      → fault_of (advance v) ≡ some Fault.refused
      → finish_cancel P id (a.status, canceled a) v
        ≡ (Outcome.throws Exception.request_failed, advance (advance v))
  unfolding finish_cancel clean_up_canceled cancel_auction_end request
  finish_cancel_refused v active queued f g = ground arith

-- Redis holds a positive price of an ACTIVE auction of the user without bids, whose end job is queued,
-- and of all requests only the one to remove that job is refused (it is running). `cancelAuction` then
-- throws although the row is CANCELED, and the job turns the CANCELED row into an ENDED one, with that
-- price and the highest bidder in Redis.
pub cancel_then_end :
    (P : Platform) (id user price : ℕ) (w : World P) (a : Auction)
    → P.database.find_auction id w.rows ≡ some a
    → a.owner_id ≡ user
    → a.status ≡ AuctionStatus.active
    → length (P.database.bids_of id w.rows) ≡ 0
    → P.queue.get_job (JobId.end_job id) w.jobs ≢ none
    → P.redis.get (RedisKey.auction_price id) w.store ≡ some price
    → 0 < price
    → w.faults ≡ none ∷ none ∷ none ∷ none ∷ none ∷ some Fault.refused ∷ []
    → let (r, w') = cancel_auction P id user w in
      let (r', w'') = process_end P id w' in
      (r ≡ Outcome.throws Exception.request_failed)
      × (P.database.find_auction id w'.rows ≡ some (canceled a))
      × (P.database.find_auction id w''.rows
          ≡ some (
              finalize price (P.redis.get (RedisKey.auction_bidder id) w.store) w.now (canceled a)))
unfolding cancel_auction request
cancel_then_end P id user price w a found own active no_bids queued held priced f =
    let w' = (cancel_auction P id user w).1 in
    let refused : ((cancel_auction P id user w).0 ≡ Outcome.throws Exception.request_failed)
        × (w'.rows ≡ P.database.save_auction (canceled a) w.rows)
        × (w'.store ≡ w.store)
        × (w'.now ≡ w.now)
        × (w'.faults ≡ []) =
      ground (
        arith,
        cancel_row_active P id a (advance w),
        finish_cancel_refused P id a (record (advance (advance (advance (advance w)))) {
          rows = P.database.save_auction (canceled a) w.rows;
        }),
      ) in
    let row : P.database.find_auction id w'.rows ≡ some (canceled a) =
      ground (
        arith,
        P.database.find-save id (canceled a) w.rows,
        P.database.find_id id w.rows a found,
      ) in
    let ends =
      process_end_closes P id w' price (ground arith) priced (ground arith) (canceled a) row refl in
    (refused.0, row, ground (arith, ends.1))
