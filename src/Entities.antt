-- ===== src/Entities.antt =====
-- The rows of server/src/modules/auctions/entities, bid/entities and auctions/enums. A date is its
-- number of milliseconds; the relations (owner, winner, images, bids) are looked up by their ids.
use bid_battle.Prelude.{ℕ, String, Option, Bool, true, false}

pub data AuctionStatus : Type 0 where
  pending active ended canceled : AuctionStatus

pub data AuctionCategory : Type 0 where
  electronics fashion home_garden collectibles vehicles sports art books toys other :
      AuctionCategory

pub record Auction : Type 0 where
  pub id : ℕ
  pub title : String
  pub description : String
  pub main_image_url : String
  pub starting_price : ℕ
  pub current_price : ℕ
  pub start_time : ℕ
  pub end_time : ℕ
  pub started_at : Option ℕ
  pub ended_at : Option ℕ
  pub status : AuctionStatus
  pub category : Option AuctionCategory
  pub owner_id : ℕ
  pub winner_id : Option ℕ

pub record AuctionImage : Type 0 where
  pub id : ℕ
  pub image_url : String
  pub is_primary : Bool
  pub auction_id : ℕ

pub record Bid : Type 0 where
  pub id : ℕ
  pub amount : ℕ
  pub auction_id : ℕ
  pub user_id : ℕ

-- The rows of server/src/modules/users/entities. The password of a row is read only by the query
-- that asks for it.
pub record User : Type 0 where
  pub id : ℕ
  pub email : String
  pub password : Option String
  pub first_name : String
  pub last_name : String
  pub avatar : Option String
  pub is_email_verified : Bool
  pub last_login_at : Option ℕ
  pub password_changed_at : Option ℕ
  pub deleted_at : Option ℕ

pub data UserTokenType : Type 0 where
  password_reset refresh_token email_verification : UserTokenType

pub record UserToken : Type 0 where
  pub id : ℕ
  pub token : String
  pub kind : UserTokenType
  pub user_id : ℕ
  pub expires_at : ℕ
  pub is_used : Bool
  pub used_at : Option ℕ

pub data SocialProvider : Type 0 where
  google github : SocialProvider

pub record SocialAccount : Type 0 where
  pub id : ℕ
  pub provider : SocialProvider
  pub provider_id : String
  pub user_id : ℕ

pub data Language : Type 0 where
  en pl : Language

pub record UserPreferences : Type 0 where
  pub user_id : ℕ
  pub lang : Language
  pub notify_on_outbid : Bool
  pub notify_on_auction_end : Bool

-- The tests `auction.status === AuctionStatus.X`.
abbrev pub is_pending : AuctionStatus → Bool
is_pending AuctionStatus.pending = true
is_pending _ = false

abbrev pub is_active : AuctionStatus → Bool
is_active AuctionStatus.active = true
is_active _ = false

abbrev pub is_ended : AuctionStatus → Bool
is_ended AuctionStatus.ended = true
is_ended _ = false

abbrev pub is_canceled : AuctionStatus → Bool
is_canceled AuctionStatus.canceled = true
is_canceled _ = false
