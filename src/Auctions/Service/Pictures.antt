-- ===== src/Auctions/Service/Pictures.antt =====
-- `updateAuctionImages` of server/src/modules/auctions/auctions.service.ts. The files are those of
-- server/src/shared/file-upload: `upload_multiple` answers the URLs, and `relative` is
-- `replace('/uploads/', '')`.
pub mod Atomic
use bid_battle.Auctions.Service.{
  check_no_bids, check_no_bids, invalidate_auctions_cache, invalidate_auctions_cache, is_running,
  is_running, or_throw, or_throw, throw_if, throw_if,
}
use bid_battle.Prelude.{delete_where}
use bid_battle.Entities.{is_active, is_active, AuctionImage, Auction, AuctionImage}
use bid_battle.Prelude.{
  ◌+◌, ◌+◌, ltb, length, get_or, ◌==◌, length, leb, suc, leb, suc, if◌then◌else◌, ◌&&◌, ◌++◌, ◌||◌,
  if◌then◌else◌, ◌&&◌, ◌++◌, ◌||◌, Option, false, same_number, true, [], get_elem?, map, none, some,
  ◌∷◌, Option, false, same_number, true, List, not, Bool, String, ℕ,
}
use bid_battle.Platform.Effects.{
  transaction, transaction, Exception, Exception, change_rows, change_rows, throw, try_catch, when,
  throw, try_catch, when, Eff, ask_rows, pure, Eff, Platform, ◌>>=◌, ◌>>◌,
}
use text.Mathlib.Text.{◌==◌ as str_eq}

abbrev has_text : List String → String → Bool
has_text [] t = false
has_text (u ∷ us) t = str_eq u t || has_text us t

-- `indexOf`
abbrev index_of : String → List String → Option ℕ
index_of t [] = none
index_of t (u ∷ us) =
    if str_eq u t then some 0 else elim (index_of t us) [ none ↦ none | some i ↦ some (suc i) ]

abbrev all_known : List String → List String → Bool
all_known known [] = true
all_known known (t ∷ ts) = has_text known t && all_known known ts

abbrev bool_eq : Bool → Bool → Bool
bool_eq true b = b
bool_eq false b = not b

abbrev is_filled {ℓ} : {A : Type ℓ} → List A → Bool
is_filled [] = false
is_filled _ = true

-- `allUrls.indexOf(url) === primaryIndex`
abbrev pub leads : List String → ℕ → String → Bool
leads all_urls index url = same_number (index_of url all_urls) (some index)

abbrev pub kept_images : List String → List AuctionImage → List AuctionImage
kept_images existing all = delete_where (λ m. not (has_text existing m.image_url)) all

abbrev pub dropped_images : List String → List AuctionImage → List AuctionImage
dropped_images existing all = delete_where (λ m. has_text existing m.image_url) all

abbrev pub urls_of : List AuctionImage → List String
urls_of images = map (λ m. m.image_url) images

abbrev pub max_images : ℕ
max_images = 10

module _ (P : Platform) {File : Type 0} (upload_multiple : List File → Eff P (List String))
    (delete_files : List String → Eff P (Unit {0})) (relative : String → String) where
  open P.database use {find_auction, save_auction}
  open P.database.image_table use {images_of, insert_images, delete_images, set_primary}

  abbrev upload_new : List File → Eff P (List String)
  upload_new [] = pure []
  upload_new files = upload_multiple files

  -- the kept images whose flag changes
  unfoldable pub flag_kept : List String → ℕ → List AuctionImage → Eff P (Unit {0})
  flag_kept all_urls index [] = pure tt
  flag_kept all_urls index (m ∷ ms) = do
    when (not (bool_eq m.is_primary (leads all_urls index m.image_url)))
        (change_rows (set_primary m.id (leads all_urls index m.image_url)))
    flag_kept all_urls index ms

  abbrev leads_at : List String → ℕ → ℕ → Bool
  leads_at all_urls index i = elim (get_elem? all_urls i) [
    | none ↦ false
    | some url ↦ leads all_urls index url
  ]

  -- the body of the transaction; the index is below the number of URLs
  unfoldable pub write_images :
      Auction → List AuctionImage → List AuctionImage → List String → ℕ → Eff P (Unit {0})
  write_images a kept dropped new_urls index =
      let all_urls = urls_of kept ++ new_urls in
      when (is_filled dropped) (change_rows (delete_images (map (λ m. m.id) dropped)))
      >> flag_kept all_urls index kept
      >> when (is_filled new_urls)
          (change_rows (insert_images a.id (length kept) (leads_at all_urls index) new_urls))
      >> change_rows (
          save_auction
            (record a { main_image_url = get_or (get_elem? all_urls index) a.main_image_url }))

  -- deletions of files are tried, and their failures logged
  abbrev try_delete : List String → Eff P (Unit {0})
  try_delete [] = pure tt
  try_delete urls = try_catch (delete_files (map relative urls)) (λ _. pure tt)

  unfoldable pub replace_images :
      Auction → List AuctionImage → List AuctionImage → List File → Option ℕ → Eff P (Unit {0})
  replace_images a kept dropped files primary_index = do
    new_urls ← upload_new files
    throw_if (leb (length (urls_of kept ++ new_urls)) (get_or primary_index 0))
        (Exception.bad_request "error.validation.auction.primaryImageIndex_must_be_valid")
    try_catch (transaction (write_images a kept dropped new_urls (get_or primary_index 0))) (λ _.
        try_delete new_urls >> throw (Exception.bad_request "error.auction.update_images_failed"))
    try_delete (urls_of dropped)
    invalidate_auctions_cache P

  unfoldable pub update_auction_images :
      ℕ → ℕ → List File → List String → Option ℕ → Eff P (Unit {0})
  update_auction_images id user files existing primary_index = do
    found ← ask_rows (find_auction id)
    a ← or_throw found (Exception.not_found "error.auction.not_found")
    throw_if (not (a.owner_id == user))
        (Exception.forbidden "error.auction.update_forbidden_not_owner")
    throw_if (not (is_running a.status))
        (Exception.bad_request "error.auction.update_forbidden_not_active")
    when (is_active a.status) (
        check_no_bids P id (Exception.bad_request "error.auction.update_forbidden_images_has_bids"))
    throw_if (not (is_filled files || is_filled existing))
        (Exception.bad_request "error.auction.no_images_provided")
    all ← ask_rows (images_of id)
    throw_if (not (all_known (urls_of all) existing))
        (Exception.bad_request "error.auction.invalid_existing_image_urls")
    throw_if (ltb max_images (length (kept_images existing all) + length files))
        (Exception.bad_request "error.auction.too_many_images_#max")
    replace_images a (kept_images existing all) (dropped_images existing all) files primary_index
