-- ===== src/Auctions/Service.antt =====
-- server/src/modules/auctions/auctions.service.ts, without its lists.
pub mod Cancellation
pub mod Extension
pub mod Creation
pub mod Pictures
use text.Mathlib.Text.{◌==◌ as str_eq}
use bid_battle.Prelude.{
  List, get_elem?, is_some, same_number, ℕ, String, Bool, true, false, Option, none, some, not,
  ◌==◌, ◌&&◌, ◌||◌, leb, ltb, if◌then◌else◌, get_or, length,
}
use bid_battle.Entities.{
  Auction, AuctionStatus, AuctionCategory, is_pending, is_active, is_canceled,
}
use bid_battle.Platform.Redis.{RedisKey}
use bid_battle.Platform.Effects.{
  request, Platform, Eff, Exception, pure, throw, transaction, ◌>>=◌, ◌>>◌, when, ask_rows,
  change_rows, current_time,
}
use bid_battle.Redis.Auctions.{
  cleanup_auction, get_live_price, is_auction_active, extend_auction_time,
}
use bid_battle.Redis.Cache.{invalidate_cache, delete_cache}
use bid_battle.Auctions.Scheduler.{
  schedule_auction_start, schedule_auction_end, cancel_auction_start, cancel_auction_end,
}
use bid_battle.Auctions.StartProcessor.{duration_seconds}

-- CreateAuctionDto, once validated
pub record CreateAuction : Type 0 where
  pub title : String
  pub description : String
  pub starting_price : ℕ
  pub start_time : Option ℕ
  pub end_time : ℕ
  pub category : Option AuctionCategory
  pub image_urls : List String
  pub primary_image_index : Option ℕ

-- UpdateAuctionDto: the outer option of `category` says whether the field is sent
pub record UpdateAuction : Type 0 where
  pub title : Option String
  pub description : Option String
  pub category : Option (Option AuctionCategory)
  pub end_time : Option ℕ

abbrev pub is_running : AuctionStatus → Bool
is_running s = is_active s || is_pending s

-- `if (dto.title) auction.title = dto.title`: an empty text changes nothing
abbrev edited : Option String → String → String
edited none old = old
edited (some t) old = if str_eq t "" then old else t

unfoldable pub apply_update : UpdateAuction → Auction → Auction
apply_update dto a = record a {
  end_time = get_or dto.end_time a.end_time;
  title = edited dto.title a.title;
  description = edited dto.description a.description;
  category = get_or dto.category a.category;
}

module _ {P : Platform} {A : Type 0} where
  -- `if (!x) throw e`
  abbrev pub or_throw : Option A → Exception → Eff P A
  or_throw none e = throw e
  or_throw (some a) e = pure a

-- `if (c) throw e`
abbrev pub throw_if : {P : Platform} → Bool → Exception → Eff P (Unit {0})
throw_if true e = throw e
throw_if false e = pure tt

module _ (P : Platform) where
  open P.database use {find_auction, save_auction, next_auction_id, bids_of}
  open P.database.image_table use {insert_images}

  unfoldable pub invalidate_auctions_cache : Eff P (Unit {0})
  invalidate_auctions_cache = invalidate_cache P "auctions:active:*"

  unfoldable pub invalidate_price_cache : ℕ → Eff P (Unit {0})
  invalidate_price_cache auction = delete_cache P (RedisKey.auction_price auction)

  -- the rows of its pictures are saved with it
  abbrev save_new : Auction → List String → ℕ → Eff P Auction
  save_new a urls primary = request λ w.
      let saved = record a { id = next_auction_id w.rows } in
      (
        saved,
        record w {
          rows = insert_images saved.id 0 (λ i. i == primary) urls (save_auction saved w.rows);
        },
      )

  abbrev new_auction : CreateAuction → String → ℕ → ℕ → Auction
  new_auction dto primary start_time owner = record {
    id = 0;
    title = dto.title;
    description = dto.description;
    main_image_url = primary;
    starting_price = dto.starting_price;
    current_price = dto.starting_price;
    start_time = start_time;
    end_time = dto.end_time;
    started_at = none;
    ended_at = none;
    status = AuctionStatus.pending;
    category = some (get_or dto.category AuctionCategory.other);
    owner_id = owner;
    winner_id = none;
  }

  unfoldable pub save_and_schedule : CreateAuction → String → ℕ → ℕ → Eff P Auction
  save_and_schedule dto primary start_time owner = do
    saved ←
        save_new (new_auction dto primary start_time owner) dto.image_urls
          (get_or dto.primary_image_index 0)
    schedule_auction_start P saved.id start_time
    pure saved

  -- the row and its job, or neither row: the query runner's transaction
  unfoldable pub create_with_image : CreateAuction → String → ℕ → Eff P Auction
  create_with_image dto primary owner = do
    now ← current_time
    transaction (save_and_schedule dto primary (get_or dto.start_time now) owner)

  unfoldable pub create_auction : CreateAuction → ℕ → Eff P Auction
  create_auction dto owner = elim (get_elem? dto.image_urls (get_or dto.primary_image_index 0)) [
    | none ↦
        throw (Exception.bad_request "error.validation.auction.primaryImageIndex_must_be_valid")
    | some primary ↦ create_with_image dto primary owner
  ]

  -- `isActiveInRedis && livePrice !== null`
  abbrev with_live_price : Auction → Option ℕ → Bool → Auction
  with_live_price a (some p) true = record a { current_price = p }
  with_live_price a _ _ = a

  abbrev show_auction : Auction → Eff P Auction
  show_auction a =
      if is_active a.status
      then (do
        live ← get_live_price P a.id
        active ← is_auction_active P a.id
        pure (with_live_price a live active))
      else pure a

  unfoldable pub find_one : ℕ → Option ℕ → Eff P Auction
  find_one id requesting_user = do
    found ← ask_rows (find_auction id)
    a ← or_throw found (Exception.not_found "error.auction.not_found")
    throw_if (is_canceled a.status && not (same_number (some a.owner_id) requesting_user))
        (Exception.not_found "error.auction.not_found")
    show_auction a

  -- the bid count, which only an ACTIVE auction is asked for
  unfoldable pub check_no_bids : ℕ → Exception → Eff P (Unit {0})
  check_no_bids id e = do
    bid_count ← ask_rows λ r. length (bids_of id r)
    throw_if (ltb 0 bid_count) e

  -- the transaction of `cancelAuction`: the status before and the saved row
  unfoldable pub cancel_row : ℕ → Eff P (AuctionStatus × Auction)
  cancel_row id = transaction (do
    found ← ask_rows (find_auction id)
    a ← or_throw found (Exception.not_found "error.auction.not_found")
    throw_if (not (is_running a.status))
        (Exception.bad_request "error.auction.cancel_forbidden_not_active")
    when (is_active a.status)
        (check_no_bids id (Exception.bad_request "error.auction.cancel_forbidden_already_has_bids"))
    let canceled = record a { status = AuctionStatus.canceled }
    change_rows (save_auction canceled)
    pure (a.status, canceled))

  -- what `cancelAuction` does once the row is CANCELED
  unfoldable pub clean_up_canceled : ℕ → AuctionStatus → Eff P (Unit {0})
  clean_up_canceled id previous =
      if is_pending previous
      then cancel_auction_start P id
      else (do cancel_auction_end P id; cleanup_auction P id)

  unfoldable pub finish_cancel : ℕ → AuctionStatus × Auction → Eff P Auction
  finish_cancel id saved = do
    clean_up_canceled id saved.0
    invalidate_auctions_cache
    invalidate_price_cache id
    pure saved.1

  unfoldable pub cancel_auction : ℕ → ℕ → Eff P Auction
  cancel_auction id user = do
    found ← ask_rows (find_auction id)
    pre_check ← or_throw found (Exception.not_found "error.auction.not_found")
    throw_if (not (pre_check.owner_id == user))
        (Exception.forbidden "error.auction.cancel_forbidden_not_owner")
    throw_if (not (is_running pre_check.status))
        (Exception.bad_request "error.auction.cancel_forbidden_not_active")
    saved ← cancel_row id
    finish_cancel id saved

  -- a requested end must lie ahead, and after the present end
  unfoldable pub check_end_time : Auction → Option ℕ → Eff P (Unit {0})
  check_end_time a none = pure tt
  check_end_time a (some requested) = do
    now ← current_time
    throw_if (leb requested now)
        (Exception.bad_request "auction.error.update_forbidden_end_time_past")
    throw_if (leb requested a.end_time)
        (Exception.bad_request "auction.error.update_forbidden_end_time")

  -- the transaction that extends an ACTIVE auction; it saves the row twice
  unfoldable pub extend_row : ℕ → UpdateAuction → Eff P Auction
  extend_row id dto = transaction (do
    found ← ask_rows (find_auction id)
    locked ← or_throw found (Exception.not_found "error.auction.not_found")
    throw_if (not (is_active locked.status))
        (Exception.bad_request "error.auction.update_forbidden_not_active")
    check_no_bids id (Exception.bad_request "auction.error.update_forbidden_end_time_has_bids")
    change_rows (save_auction (apply_update dto locked))
    change_rows (save_auction (apply_update dto locked))
    pure (apply_update dto locked))

  unfoldable pub write_update : ℕ → UpdateAuction → Auction → Eff P Auction
  write_update id dto a =
      if is_some dto.end_time && is_active a.status
      then extend_row id dto
      else (do change_rows (save_auction (apply_update dto a)); pure (apply_update dto a))

  -- the end job and the times to live follow a new end of an ACTIVE auction
  unfoldable pub reschedule_end : ℕ → Auction → Eff P (Unit {0})
  reschedule_end id updated = do
    cancel_auction_end P id
    schedule_auction_end P id updated.end_time
    now ← current_time
    when (ltb 0 (duration_seconds updated.end_time now))
        (extend_auction_time P id (duration_seconds updated.end_time now))

  unfoldable pub update_auction : ℕ → UpdateAuction → ℕ → Eff P Auction
  update_auction id dto user = do
    found ← ask_rows (find_auction id)
    a ← or_throw found (Exception.not_found "error.auction.not_found")
    throw_if (not (a.owner_id == user))
        (Exception.forbidden "error.auction.update_forbidden_not_owner")
    throw_if (not (is_running a.status))
        (Exception.bad_request "error.auction.update_forbidden_not_active")
    check_end_time a dto.end_time
    updated ← write_update id dto a
    when (is_some dto.end_time && is_active updated.status) (reschedule_end id updated)
    invalidate_auctions_cache
    pure updated
