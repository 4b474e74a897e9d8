-- ===== src/Platform/Database.antt =====
-- The tables as TypeORM reads and writes them. `save_auction` is `save` of an
-- entity with its primary key, `update_auction` is `update(id, columns)`, `roll_back before after`
-- the rows after a transaction that began at `before` is rolled back.
use mathlib.Core.Option
use bid_battle.Prelude.{
  String, Bool, true, none, ℕ, ◌≡◌, Option, List, ◌∷◌, ◌==◌, if◌then◌else◌, some,
}
use bid_battle.Entities.{User, Auction, Bid}
use bid_battle.Platform.Images.{ImageTable}
use bid_battle.Platform.Accounts.{Accounts, find_user_where, without_password}

pub record AccountTables (Rows : Type 0) (find_user : ℕ → Rows → Option User) : Type 0 where
  -- the tables of accounts, and these tables put in their place
  pub accounts : Rows → Accounts
  pub put_accounts : Accounts → Rows → Rows
  -- the equality of texts under the collation of the columns
  pub same_text : String → String → Bool
  pub same_text_refl : (t : String) → same_text t t ≡ true
  pub accounts-put : (t : Accounts) (r : Rows) → accounts (put_accounts t r) ≡ t
  pub find_user_lem :
      (j : ℕ) (r : Rows)
      → find_user j r ≡ Option.map without_password (find_user_where (λ u. u.id == j) (accounts r))

pub record Database : Type 1 where
  pub Rows : Type 0
  pub find_auction : ℕ → Rows → Option Auction
  pub find_user : ℕ → Rows → Option User
  pub save_auction : Auction → Rows → Rows
  pub update_auction : ℕ → (Auction → Auction) → Rows → Rows
  pub bids_of : ℕ → Rows → List Bid
  pub next_bid_id : Rows → ℕ
  pub insert_bid : ℕ → ℕ → ℕ → Rows → Rows
  pub roll_back : Rows → Rows → Rows
  -- the rows whose status is ACTIVE, by ascending id
  pub active_auctions : Rows → List Auction
  -- what an insert of an auction gives it for its id
  pub next_auction_id : Rows → ℕ
  pub find_next_auction_id : (r : Rows) → find_auction (next_auction_id r) r ≡ none
  pub find_id : (j : ℕ) (r : Rows) (a : Auction) → find_auction j r ≡ some a → a.id ≡ j
  pub find-save :
      (j : ℕ) (a : Auction) (r : Rows)
      → find_auction j (save_auction a r) ≡ (if a.id == j then some a else find_auction j r)
  pub find-update :
      (j i : ℕ) (f : Auction → Auction) (r : Rows)
      → ((a : Auction) → (f a).id ≡ a.id)
      → find_auction j (update_auction i f r)
        ≡ (if i == j then Option.map f (find_auction j r) else find_auction j r)
  pub find-insert_bid :
      (j a u m : ℕ) (r : Rows) → find_auction j (insert_bid a u m r) ≡ find_auction j r
  pub bids_of-insert_bid :
      (j a u m : ℕ) (r : Rows)
      → bids_of j (insert_bid a u m r) ≡ (
          if a == j
          then record { id = next_bid_id r; amount = m; auction_id = a; user_id = u } ∷ bids_of j r
          else bids_of j r)
  pub bids_of-save : (j : ℕ) (a : Auction) (r : Rows) → bids_of j (save_auction a r) ≡ bids_of j r
  pub bids_of-update :
      (j i : ℕ) (f : Auction → Auction) (r : Rows) → bids_of j (update_auction i f r) ≡ bids_of j r
  pub image_table : ImageTable Rows find_auction save_auction
  pub account_tables : AccountTables Rows find_user
  pub roll_back_lem : (before after : Rows) → roll_back before after ≡ before
