-- ===== src/Bid/Service.antt =====
-- server/src/modules/bid/bid.service.ts. A text shown to the user stands for its i18n key.
pub mod Acceptance
pub mod Failure
pub mod Quiet
pub mod Healthy
pub mod Progress
use bid_battle.Prelude.{
  ◌*◌, ℕ, ◌+◌, String, Bool, true, false, Option, none, some, ◌==◌, ltb, ◌&&◌, not, if◌then◌else◌,
  get_or, same_number, is_some,
}
use bid_battle.Platform.Effects.{Platform, Eff, pure, throw, try_catch, ◌>>=◌, ◌>>◌, change_rows}
use bid_battle.Redis.Auctions.{
  BidAtomicSnapshot, ResultPlateBidAtomic, get_live_price, is_auction_active, get_auction_owner,
  get_highest_bidder_id, place_bid_atomic_with_snapshot, rollback_bid,
}
use bid_battle.Redis.Rooms.{get_auction_participants_count}
use bid_battle.Bid.Increment.{whole_increment, calc_min_increment}

-- `configService.bid`: a whole percent, and a minimum in hundredths
pub record BidConfig : Type 0 where
  pub min_increment_percent : ℕ
  pub min_increment_absolute : ℕ

pub record BidResult : Type 0 where
  pub success : Bool
  pub reason : Option String
  pub code : Option String
  pub current_price : Option ℕ
  -- in hundredths
  pub min_next_bid : Option ℕ

pub record AuctionState : Type 0 where
  pub current_price : ℕ
  pub is_leading : Bool
  pub is_active : Bool
  pub participants_count : ℕ

abbrev pub fail_result : String → String → BidResult
fail_result code reason = record {
  success = false;
  reason = some reason;
  code = some code;
  current_price = none;
  min_next_bid = none;
}

abbrev pub placed : BidResult
placed = record {
  success = true;
  reason = none;
  code = none;
  current_price = none;
  min_next_bid = none;
}

module _ (P : Platform) where
  -- the inner try: the row is saved, or the bid is rolled back in Redis
  unfoldable pub save_bid : ℕ → ℕ → ℕ → BidAtomicSnapshot → Eff P BidResult
  save_bid auction user amount snapshot =
      try_catch (do change_rows (P.database.insert_bid auction user amount); pure placed)
        λ _. do
          rollback_bid P auction snapshot.previous_price snapshot.previous_bidder_id
          pure (fail_result "SERVER_ERROR" "bid.error.bid_failed")

  unfoldable pub answer_rejection : ℕ → Option ℕ → Eff P BidResult
  answer_rejection auction code =
      if same_number code (some 3)
      then (do
        price ← get_live_price P auction
        pure (record (fail_result "ALREADY_LEADING" "bid.error.already_leading") {
          current_price = price;
        }))
      else if same_number code (some 2)
      then pure (fail_result "AUCTION_ENDED" "bid.error.auction_ended")
      else (do
        price ← get_live_price P auction
        pure (record (fail_result "OUTBID" "bid.error.outbid") { current_price = price }))

  unfoldable pub settle_bid : ℕ → ℕ → ℕ → ResultPlateBidAtomic → Eff P BidResult
  settle_bid auction user amount (ResultPlateBidAtomic.success snapshot) =
      save_bid auction user amount snapshot
  settle_bid auction user amount (ResultPlateBidAtomic.failure code) = answer_rejection auction code

module _ (P : Platform) (config : BidConfig) where
  -- in hundredths
  abbrev min_increment_of : Option ℕ → ℕ
  min_increment_of price =
      calc_min_increment (get_or price 0) config.min_increment_percent config.min_increment_absolute

  -- what a whole amount is compared with, here and in the script
  abbrev pub min_increment_for : Option ℕ → ℕ
  min_increment_for price = whole_increment (min_increment_of price)

  -- `currentPrice !== null && amount < currentPrice + minIncrement`
  abbrev pub is_too_low : ℕ → Option ℕ → Bool
  is_too_low amount none = false
  is_too_low amount (some p) = ltb amount (p + min_increment_for (some p))

  unfoldable pub submit_bid : ℕ → ℕ → ℕ → Option ℕ → Eff P BidResult
  submit_bid auction user amount price =
      if is_too_low amount price
      then pure (record (fail_result "BID_TOO_LOW" "bid.error.bid_too_low_#minBid") {
        current_price = price;
        min_next_bid = some (100 * get_or price 0 + min_increment_of price);
      })
      else (do
        result ← place_bid_atomic_with_snapshot P auction user amount (min_increment_for price)
        settle_bid P auction user amount result)

  unfoldable pub check_bid : ℕ → ℕ → ℕ → Option ℕ → Bool → Option ℕ → Eff P BidResult
  check_bid auction user amount owner active price =
      if not (is_some owner)
      then pure (fail_result "AUCTION_ENDED" "bid.error.auction_ended")
      else if same_number owner (some user)
      then pure (fail_result "OWNER_CANNOT_BID" "bid.error.owner_cannot_bid")
      else if not active
      then pure (fail_result "AUCTION_ENDED" "bid.error.auction_ended")
      else submit_bid auction user amount price

  unfoldable pub attempt_bid : ℕ → ℕ → ℕ → Eff P BidResult
  attempt_bid auction user amount =
      if amount == 0 then pure (fail_result "INVALID_AMOUNT" "bid.error.invalid_amount") else (do
        owner ← get_auction_owner P auction
        active ← is_auction_active P auction
        price ← get_live_price P auction
        check_bid auction user amount owner active price)

  unfoldable pub place_bid : ℕ → ℕ → ℕ → Eff P BidResult
  place_bid auction user amount =
      try_catch (attempt_bid auction user amount)
        (λ _. pure (fail_result "SERVER_ERROR" "bid.error.bid_failed"))

module _ (P : Platform) where
  unfoldable pub get_current_state : ℕ → Option ℕ → Eff P AuctionState
  get_current_state auction requesting_user =
      try_catch
        (do
          price ← get_live_price P auction
          highest ← get_highest_bidder_id P auction
          active ← is_auction_active P auction
          participants ← get_auction_participants_count P auction
          pure (record {
            current_price = get_or price 0;
            is_leading = is_some requesting_user && same_number highest requesting_user;
            is_active = active;
            participants_count = participants;
          }))
        throw
