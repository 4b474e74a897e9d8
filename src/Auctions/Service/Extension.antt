-- ===== src/Auctions/Service/Extension.antt =====
-- `updateAuction` of server/src/modules/auctions/auctions.service.ts.
use bid_battle.Platform.Redis.{RedisKey}
use bid_battle.Redis.Cache.Frame.{invalidate_cache-Keeps, invalidate_cache_ok}
use bid_battle.Auctions.StartProcessor.{duration_seconds}
use bid_battle.Redis.Auctions.Replies.{extend_auction_time_lem}
use bid_battle.Auctions.Scheduler.{schedule_auction_end, cancel_auction_end}
use bid_battle.Entities.{is_active, Auction}
use bid_battle.Platform.Effects.{Exception, advance, Outcome, World, request, Platform}
use bid_battle.Prelude.{
  refl, leb, ◌∙◌, Bool-cases, ap, get_or, ◌≤◌, length, true, some, none, Option, ℕ, ◌≡◌, ◌≢◌, arith,
  ◌<◌, ◌⊎◌, inl, inr,
}
use bid_battle.Auctions.Service.{
  invalidate_auctions_cache, is_running, UpdateAuction, update_auction, write_update, extend_row,
  check_end_time, apply_update, check_no_bids, reschedule_end,
}

module _ (P : Platform) (id : ℕ) where
  open P.database use {find_auction, save_auction, bids_of}

  -- Rescheduling touches no table, and fails only by a request.
  reschedule_end_rows : (a : Auction) (w : World P) → (reschedule_end P id a w).1.rows ≡ w.rows
  unfolding reschedule_end cancel_auction_end schedule_auction_end request
  reschedule_end_rows a w =
      let v = (cancel_auction_end P id w).1 in
      let u = (schedule_auction_end P id a.end_time v).1 in
      ground (arith, extend_auction_time_lem P id u (duration_seconds a.end_time u.now))

  check_end_time_cases :
      (a : Auction) (requested : Option ℕ) (w : World P)
      → ((check_end_time P a requested w ≡ (Outcome.ok tt, w))
          × (a.end_time ≤ get_or requested a.end_time)
          × (get_or requested a.end_time ≢ a.end_time → w.now < get_or requested a.end_time))
        ⊎ ((e : Exception) × (check_end_time P a requested w ≡ (Outcome.throws e, w)))
  unfolding check_end_time
  check_end_time_cases a none w = inl (ground arith)
  check_end_time_cases a (some e) w = elim (Bool-cases (leb e w.now)) [
    | inl past ↦
        inr (Exception.bad_request "auction.error.update_forbidden_end_time_past", ground arith)
    | inr ahead ↦ elim (Bool-cases (leb e a.end_time)) [
      | inl short ↦
          inr (Exception.bad_request "auction.error.update_forbidden_end_time", ground arith)
      | inr longer ↦ inl (ground arith)
    ]
  ]

  write_update_ok :
      (dto : UpdateAuction) (a : Auction) (w : World P) {u : Auction} {w' : World P}
      → find_auction id w.rows ≡ some a
      → write_update P id dto a w ≡ (Outcome.ok u, w')
      → (u ≡ apply_update dto a)
        × (find_auction id w'.rows ≡ some u)
        × (dto.end_time ≢ none → is_active a.status ≡ true → length (bids_of id w.rows) ≡ 0)
  unfolding write_update extend_row check_no_bids apply_update request
  write_update_ok dto a w {u} {w'} found h = ground (
    arith,
    P.database.find_id id w.rows a found,
    P.database.find-save id (apply_update dto a) w.rows,
    P.database.find-save id (apply_update dto a) (save_auction (apply_update dto a) w.rows),
  )

  write_update_cases :
      (dto : UpdateAuction) (a : Auction) (w : World P)
      → find_auction id w.rows ≡ some a
      → let (r, w') = write_update P id dto a w in
        ((r ≡ Outcome.ok (apply_update dto a))
          × (find_auction id w'.rows ≡ some (apply_update dto a))
          × (dto.end_time ≢ none → is_active a.status ≡ true → length (bids_of id w.rows) ≡ 0))
        ⊎ ((e : Exception) × (r ≡ Outcome.throws e))
  write_update_cases dto a w found = go (write_update P id dto a w) refl
    where
      go :
          (x : Outcome Auction × World P)
          → write_update P id dto a w ≡ x
          → ((x.0 ≡ Outcome.ok (apply_update dto a))
              × (find_auction id x.1.rows ≡ some (apply_update dto a))
              × (dto.end_time ≢ none → is_active a.status ≡ true → length (bids_of id w.rows) ≡ 0))
            ⊎ ((e : Exception) × (x.0 ≡ Outcome.throws e))
      go (Outcome.ok u, w') h =
          let facts = write_update_ok dto a w found h in
          inl (ap Outcome.ok facts.0, facts.1 ∙ ap some facts.0, facts.2)
      go (Outcome.throws e, w') h = inr (e, refl)

  -- What a successful update has done.
  pub record IsUpdated (dto : UpdateAuction) (user : ℕ) (a u : Auction) (w w' : World P)
      : Type 0 where
    pub owned : a.owner_id ≡ user
    pub running : is_running a.status ≡ true
    pub as_asked : u ≡ apply_update dto a
    pub saved : find_auction id w'.rows ≡ some u
    pub not_shortened : a.end_time ≤ u.end_time
    pub extended_ahead : u.end_time ≢ a.end_time → w.now < u.end_time
    pub no_bids : dto.end_time ≢ none → is_active a.status ≡ true → length (bids_of id w.rows) ≡ 0

  -- When `updateAuction` succeeds, the caller owns the auction and it was PENDING or ACTIVE; the
  -- saved row is the old one with the fields that were sent; its end is not before the old end, and
  -- lies ahead if it is new; and an ACTIVE auction whose end was sent had no bids.
  pub update_auction_ok :
      (dto : UpdateAuction) (user : ℕ) (a : Auction) (w : World P) {u : Auction} {w' : World P}
      → find_auction id w.rows ≡ some a
      → update_auction P id dto user w ≡ (Outcome.ok u, w')
      → IsUpdated dto user a u w w'
  unfolding update_auction apply_update invalidate_auctions_cache request
  update_auction_ok dto user a w {u} {w'} found h =
      let written = (write_update P id dto a (advance w)).1 in
      let rescheduled = (reschedule_end P id (apply_update dto a) written).1 in
      ground (
        arith,
        check_end_time_cases a dto.end_time (advance w),
        write_update_cases dto a (advance w) found,
        reschedule_end_rows (apply_update dto a) written,
        invalidate_cache_ok P written,
        invalidate_cache_ok P rescheduled,
        invalidate_cache-Keeps P (RedisKey.auction_price id) (λ h. h) written,
        invalidate_cache-Keeps P (RedisKey.auction_price id) (λ h. h) rescheduled,
      )
