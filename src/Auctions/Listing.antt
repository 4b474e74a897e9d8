-- ===== src/Auctions/Listing.antt =====
-- The lists of auctions and bids with their cache: `findActiveAuctions`, `buildAuctionsCacheKey` and
-- `findAuctionBids` of server/src/modules/auctions/auctions.service.ts, over
-- server/src/core/models/paginator.model.ts and the repositories of auctions and bids.
use mathlib.Core.Option
use bid_battle.Redis.Cache.{set_cache, get_cache}
use bid_battle.Prelude.{delete_where}
use bid_battle.Entities.{Bid, is_canceled, Auction, AuctionCategory}
use bid_battle.Prelude.{
  length, drop, take, get_or, same_number, false, if◌then◌else◌, leb, not, [], none, true, ◌&&◌,
  ◌*◌, Bool, List, some, ◌-◌, ◌∷◌, Option, String, ℕ,
}
use bid_battle.Platform.Effects.{Exception, ask_rows, throw, pure, Eff, Platform, ◌>>=◌, ◌>>◌}
use Prim.Native.String.{◌++◌ as str_append}
use text.Mathlib.Text.{◌==◌ as str_eq}

-- The validation lets no page below 1 through.
pub record Paginator : Type 0 where
  pub page : ℕ
  pub limit : ℕ

abbrev pub skip : Paginator → ℕ
skip p = (p.page - 1) * p.limit

pub record PaginatorResponse (T : Type 0) : Type 0 where
  pub items : List T
  pub page : ℕ
  pub limit : ℕ
  pub total : ℕ

pub data AuctionSortBy : Type 0 where
  created_at end_time current_price : AuctionSortBy

pub data SortOrder : Type 0 where
  ascending descending : SortOrder

-- IAuctionFilters: the empty text and the price 0 count as none
pub record AuctionFilters : Type 0 where
  pub search : Option String
  pub category : Option AuctionCategory
  pub min_price : Option ℕ
  pub max_price : Option ℕ
  pub sort_by : Option AuctionSortBy
  pub sort_order : Option SortOrder

-- The values of the enums.
abbrev category_name : AuctionCategory → String
category_name AuctionCategory.electronics = "electronics"
category_name AuctionCategory.fashion = "fashion"
category_name AuctionCategory.home_garden = "home_garden"
category_name AuctionCategory.collectibles = "collectibles"
category_name AuctionCategory.vehicles = "vehicles"
category_name AuctionCategory.sports = "sports"
category_name AuctionCategory.art = "art"
category_name AuctionCategory.books = "books"
category_name AuctionCategory.toys = "toys"
category_name AuctionCategory.other = "other"

-- What the libraries give: a number as text, `trim` and `encodeURIComponent`, whether a title meets a
-- FULLTEXT search, and the ORDER BY of the server.
pub record ListLibrary : Type 0 where
  pub show : ℕ → String
  pub trim : String → String
  pub encode : String → String
  pub meets : String → String → Bool
  pub sorted : AuctionSortBy → SortOrder → List Auction → List Auction
  pub by_amount : List Bid → List Bid

abbrev part : String → Option String → List String → List String
part prefix none rest = rest
part prefix (some t) rest = str_append ":" (str_append prefix t) ∷ rest

abbrev concat_parts : List String → String
concat_parts [] = ""
concat_parts (p ∷ ps) = str_append p (concat_parts ps)

-- a default is left out
abbrev by_value : Option AuctionSortBy → Option String
by_value (some AuctionSortBy.end_time) = some "endTime"
by_value (some AuctionSortBy.current_price) = some "currentPrice"
by_value _ = none

abbrev order_value : Option SortOrder → Option String
order_value (some SortOrder.ascending) = some "ASC"
order_value _ = none

module _ (lib : ListLibrary) where
  open lib use {show, trim, encode, meets, sorted, by_amount}

  unfoldable pub build_auctions_cache_key : ℕ → ℕ → AuctionFilters → String
  build_auctions_cache_key page limit f = concat_parts (
      str_append "auctions:active:" (str_append (show page) (str_append ":" (show limit)))
      ∷ part "s=" (Option.map (λ t. encode (trim t)) f.search) (
          part "cat=" (Option.map category_name f.category) (
            part "min=" (Option.map show f.min_price) (
              part "max=" (Option.map show f.max_price)
                (part "by=" (by_value f.sort_by) (part "ord=" (order_value f.sort_order) []))))))

  -- `search?.trim()`: a text of blanks is no search
  abbrev meets_search : Option String → Auction → Bool
  meets_search none a = true
  meets_search (some t) a =
      if str_eq (trim t) "" then true else meets a.title (str_append (trim t) "*")

  abbrev in_category : Option AuctionCategory → Auction → Bool
  in_category none a = true
  in_category (some k) a = elim a.category [
    | none ↦ false
    | some b ↦ str_eq (category_name b) (category_name k)
  ]

  abbrev within : AuctionFilters → Auction → Bool
  within f a =
      meets_search f.search a
      && (in_category f.category a
          && (elim f.min_price [ none ↦ true | some m ↦ leb m a.current_price ]
              && elim f.max_price [ none ↦ true | some m ↦ leb a.current_price m ]))

  -- a page of the ACTIVE rows that meet the filters, and how many there are
  unfoldable pub page_of_active : ℕ → ℕ → AuctionFilters → List Auction → List Auction × ℕ
  page_of_active offset limit f rows =
      let matching = delete_where (λ a. not (within f a)) rows in
      let ordered =
        sorted (get_or f.sort_by AuctionSortBy.created_at)
          (get_or f.sort_order SortOrder.descending) matching in
      (take limit (drop offset ordered), length matching)

  module _ (P : Platform) where
    open P.database use {find_auction, bids_of, active_auctions}

    module _ (parse : String → Option (PaginatorResponse Auction))
        (stringify : PaginatorResponse Auction → String) where
      abbrev or_query :
          Paginator
          → AuctionFilters
          → Option (PaginatorResponse Auction)
          → Eff P (PaginatorResponse Auction)
      or_query p f (some cached) = pure cached
      or_query p f none = do
        found ← ask_rows (λ r. page_of_active (skip p) p.limit f (active_auctions r))
        let response : PaginatorResponse Auction = record {
          items = found.0;
          page = p.page;
          limit = p.limit;
          total = found.1;
        }
        set_cache P stringify (build_auctions_cache_key p.page p.limit f) response 30
        pure response

      unfoldable pub find_active_auctions :
          Paginator → AuctionFilters → Eff P (PaginatorResponse Auction)
      find_active_auctions p f = do
        cached ← get_cache P parse (build_auctions_cache_key p.page p.limit f)
        or_query p f cached

    abbrev is_hidden : Auction → Option ℕ → Bool
    is_hidden a viewer = is_canceled a.status && not (same_number (some a.owner_id) viewer)

    abbrev list_bids : ℕ → Paginator → Option ℕ → Option Auction → Eff P (PaginatorResponse Bid)
    list_bids id p viewer none = throw (Exception.not_found "error.auction.not_found")
    list_bids id p viewer (some a) =
        if is_hidden a viewer then throw (Exception.not_found "error.auction.not_found") else (do
          found ← ask_rows (bids_of id)
          pure (record {
            items = take p.limit (drop (skip p) (by_amount found));
            page = p.page;
            limit = p.limit;
            total = length found;
          }))

    unfoldable pub find_auction_bids : ℕ → Paginator → Option ℕ → Eff P (PaginatorResponse Bid)
    find_auction_bids id p viewer = do
      found ← ask_rows (find_auction id)
      list_bids id p viewer found
