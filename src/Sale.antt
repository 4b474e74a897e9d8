-- ===== src/Sale.antt =====
-- The bids of a sale, from any users and on any auctions, one `placeBid` of
-- server/src/modules/bid/bid.service.ts after the other.
pub mod Backing
pub mod Settlement
pub mod Crash
use bid_battle.Prelude.{ℕ, List, [], ◌∷◌, Option, none, some}
use bid_battle.Entities.{Bid}
use bid_battle.Platform.Effects.{Platform, World}
use bid_battle.Bid.Service.{BidConfig, place_bid}

pub record Attempt : Type 0 where
  pub auction : ℕ
  pub user : ℕ
  pub amount : ℕ

-- The price that goes with the best row, if there is one.
abbrev pub price_after : ℕ → Option Bid → ℕ
price_after start none = start
price_after start (some b) = b.amount

module _ (P : Platform) (config : BidConfig) where
  unfoldable pub bidding : List Attempt → World P → World P
  bidding [] w = w
  bidding (t ∷ ts) w = bidding ts (place_bid P config t.auction t.user t.amount w).1
