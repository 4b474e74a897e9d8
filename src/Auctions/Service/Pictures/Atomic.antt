-- ===== src/Auctions/Service/Pictures/Atomic.antt =====
-- `updateAuctionImages` of server/src/modules/auctions/auctions.service.ts when it throws.
use bid_battle.Platform.Inert.{
  try_catch-IsAtomic, bind_last-IsAtomic, or_throw-IsInert, ask_rows-IsInert, throw_if-IsInert,
  bind-IsAtomic, bind-IsInert, when-IsInert, IsInert, IsAtomic, NeverThrows,
}
use bid_battle.Redis.Cache.Frame.{invalidate_cache_ok}
use bid_battle.Auctions.Service.{
  is_running, check_no_bids, invalidate_auctions_cache, or_throw, throw_if,
}
use bid_battle.Auctions.Service.Pictures.{
  dropped_images, kept_images, max_images, all_known, is_filled, urls_of, replace_images,
  update_auction_images, write_images, try_delete, upload_new,
}
use bid_battle.Entities.{is_active, Auction, AuctionImage}
use bid_battle.Platform.Effects.{
  try_catch_total, ask_rows, throw, transaction, transaction_throws, try_catch, when, ◌>>=◌, ◌>>◌,
  Eff, Exception, Outcome, Platform, World,
}
use bid_battle.Prelude.{
  ◌+◌, ◌||◌, ◌==◌, not, get_or, ◌++◌, leb, ltb, length, map, [], ◌∷◌, ◌≡◌, arith, refl, Bool, List,
  Option, String, ℕ,
}

check_no_bids-IsInert : (P : Platform) (id : ℕ) (e : Exception) → IsInert (check_no_bids P id e)
unfolding check_no_bids
check_no_bids-IsInert P id e =
    bind-IsInert (ask_rows (λ r. length (P.database.bids_of id r))) (λ n. throw_if (ltb 0 n) e)
      (ask_rows-IsInert (λ r. length (P.database.bids_of id r))) (λ n. throw_if-IsInert (ltb 0 n) e)

module _ (P : Platform) {File : Type 0} (upload_multiple : List File → Eff P (List String))
    (delete_files : List String → Eff P (Unit {0})) (relative : String → String)
    (upload_inert : (files : List File) → IsInert (upload_multiple files))
    (delete_inert : (urls : List String) → IsInert (delete_files urls)) where
  try_delete-IsInert :
      (urls : List String) → IsInert (try_delete P upload_multiple delete_files relative urls)
  try_delete-IsInert [] w = refl
  try_delete-IsInert (u ∷ us) w = ground (arith, delete_inert (map relative (u ∷ us)) w)

  try_delete-NeverThrows :
      (urls : List String) → NeverThrows (try_delete P upload_multiple delete_files relative urls)
  try_delete-NeverThrows [] w = (tt, refl)
  try_delete-NeverThrows (u ∷ us) w = try_catch_total (delete_files (map relative (u ∷ us))) tt w

  upload_new-IsInert :
      (files : List File) → IsInert (upload_new P upload_multiple delete_files relative files)
  upload_new-IsInert [] w = refl
  upload_new-IsInert (f ∷ fs) w = upload_inert (f ∷ fs) w

  -- the transaction, what is done when it fails, and what is done after it
  abbrev write :
      Auction → List AuctionImage → List AuctionImage → List String → ℕ → Eff P (Unit {0})
  write a kept dropped urls index =
      transaction (write_images P upload_multiple delete_files relative a kept dropped urls index)

  abbrev undo : List String → Exception → Eff P (Unit {0})
  undo urls _ =
      try_delete P upload_multiple delete_files relative urls
      >> throw (Exception.bad_request "error.auction.update_images_failed")

  abbrev tidy : List AuctionImage → Eff P (Unit {0})
  tidy dropped =
      try_delete P upload_multiple delete_files relative (urls_of dropped)
      >> invalidate_auctions_cache P

  abbrev bad_index : List AuctionImage → Option ℕ → List String → Eff P (Unit {0})
  bad_index kept index urls =
      throw_if (leb (length (urls_of kept ++ urls)) (get_or index 0))
        (Exception.bad_request "error.validation.auction.primaryImageIndex_must_be_valid")

  write-IsAtomic :
      (a : Auction) (kept dropped : List AuctionImage) (urls : List String) (index : ℕ)
      → IsAtomic (write a kept dropped urls index)
  write-IsAtomic a kept dropped urls index w e w' h =
      transaction_throws
        (write_images P upload_multiple delete_files relative a kept dropped urls index) w {e = e}
        {w' = w'} h

  undo-IsInert : (urls : List String) (e : Exception) → IsInert (undo urls e)
  undo-IsInert urls e =
      bind-IsInert (try_delete P upload_multiple delete_files relative urls)
        (λ _. throw (Exception.bad_request "error.auction.update_images_failed"))
        (try_delete-IsInert urls) (λ _ w. refl)

  tidy-NeverThrows : (dropped : List AuctionImage) → NeverThrows (tidy dropped)
  unfolding invalidate_auctions_cache
  tidy-NeverThrows dropped w =
      let tidied = try_delete-NeverThrows (urls_of dropped) w in
      let cleared =
        invalidate_cache_ok P
          (try_delete P upload_multiple delete_files relative (urls_of dropped) w).1 in
      (tt, ground (arith, tidied.1, cleared))

  -- the parts of `replaceImages` in their order
  abbrev write_and_tidy :
      Auction → List AuctionImage → List AuctionImage → Option ℕ → List String → Eff P (Unit {0})
  write_and_tidy a kept dropped index urls =
      try_catch (write a kept dropped urls (get_or index 0)) (undo urls) >> tidy dropped

  replace_images-IsAtomic :
      (a : Auction) (kept dropped : List AuctionImage) (files : List File) (index : Option ℕ)
      → IsAtomic (replace_images P upload_multiple delete_files relative a kept dropped files index)
  unfolding replace_images
  replace_images-IsAtomic a kept dropped files index =
      bind-IsAtomic (upload_new P upload_multiple delete_files relative files)
        (λ urls. bad_index kept index urls >> write_and_tidy a kept dropped index urls)
        (upload_new-IsInert files)
        (λ urls.
          bind-IsAtomic (bad_index kept index urls) (λ _. write_and_tidy a kept dropped index urls)
            (throw_if-IsInert (leb (length (urls_of kept ++ urls)) (get_or index 0))
              (Exception.bad_request "error.validation.auction.primaryImageIndex_must_be_valid"))
            (λ _.
              bind_last-IsAtomic
                (try_catch (write a kept dropped urls (get_or index 0)) (undo urls))
                (λ _. tidy dropped)
                (try_catch-IsAtomic (write a kept dropped urls (get_or index 0)) (undo urls)
                  (write-IsAtomic a kept dropped urls (get_or index 0)) (undo-IsInert urls))
                (λ _. tidy-NeverThrows dropped)))

  -- the guards before it
  module _ (id user : ℕ) (files : List File) (existing : List String) (index : Option ℕ) where
    abbrev with_images : Auction → List AuctionImage → Eff P (Unit {0})
    with_images a all = do
      throw_if (not (all_known (urls_of all) existing))
          (Exception.bad_request "error.auction.invalid_existing_image_urls")
      throw_if (ltb max_images (length (kept_images existing all) + length files))
          (Exception.bad_request "error.auction.too_many_images_#max")
      replace_images P upload_multiple delete_files relative a (kept_images existing all)
          (dropped_images existing all) files index

    abbrev no_bids : Auction → Eff P (Unit {0})
    no_bids a = when (is_active a.status) (
        check_no_bids P id (Exception.bad_request "error.auction.update_forbidden_images_has_bids"))

    abbrev with_pictures : Auction → Eff P (Unit {0})
    with_pictures a = do
      throw_if (not (is_filled files || is_filled existing))
          (Exception.bad_request "error.auction.no_images_provided")
      all ← ask_rows (P.database.image_table.images_of id)
      with_images a all

    abbrev with_auction : Auction → Eff P (Unit {0})
    with_auction a = do
      throw_if (not (a.owner_id == user))
          (Exception.forbidden "error.auction.update_forbidden_not_owner")
      throw_if (not (is_running a.status))
          (Exception.bad_request "error.auction.update_forbidden_not_active")
      no_bids a
      with_pictures a

    guarded :
        (b : Bool) (e : Exception) (m : Eff P (Unit {0}))
        → IsAtomic m
        → IsAtomic (throw_if b e >> m)
    guarded b e m atomic =
        bind-IsAtomic (throw_if b e) (λ _. m) (throw_if-IsInert b e) (λ _. atomic)

    with_images-IsAtomic : (a : Auction) (all : List AuctionImage) → IsAtomic (with_images a all)
    with_images-IsAtomic a all =
        guarded (not (all_known (urls_of all) existing))
          (Exception.bad_request "error.auction.invalid_existing_image_urls") _
          (guarded (ltb max_images (length (kept_images existing all) + length files))
            (Exception.bad_request "error.auction.too_many_images_#max") _
            (replace_images-IsAtomic a (kept_images existing all) (dropped_images existing all)
              files index))

    with_pictures-IsAtomic : (a : Auction) → IsAtomic (with_pictures a)
    with_pictures-IsAtomic a =
        guarded (not (is_filled files || is_filled existing))
          (Exception.bad_request "error.auction.no_images_provided") _
          (bind-IsAtomic (ask_rows (P.database.image_table.images_of id)) (with_images a)
            (ask_rows-IsInert (P.database.image_table.images_of id)) (with_images-IsAtomic a))

    no_bids-IsInert : (a : Auction) → IsInert (no_bids a)
    no_bids-IsInert a =
        let e = Exception.bad_request "error.auction.update_forbidden_images_has_bids" in
        when-IsInert (is_active a.status) (check_no_bids P id e) (check_no_bids-IsInert P id e)

    with_auction-IsAtomic : (a : Auction) → IsAtomic (with_auction a)
    with_auction-IsAtomic a =
        guarded (not (a.owner_id == user))
          (Exception.forbidden "error.auction.update_forbidden_not_owner") _
          (guarded (not (is_running a.status))
            (Exception.bad_request "error.auction.update_forbidden_not_active") _
            (bind-IsAtomic (no_bids a) (λ _. with_pictures a) (no_bids-IsInert a)
              (λ _. with_pictures-IsAtomic a)))

    -- When updateAuctionImages throws, whatever requests but the commit of its transaction failed, the
    -- tables are as they were before, as long as the storage of the files changes no table. The commit
    -- is taken to succeed.
    pub update_auction_images_atomic :
        (w w' : World P) (e : Exception)
        → update_auction_images P upload_multiple delete_files relative id user files existing index
            w
          ≡ (Outcome.throws e, w')
        → w'.rows ≡ w.rows
    unfolding update_auction_images
    update_auction_images_atomic w w' e h =
        let not_found = Exception.not_found "error.auction.not_found" in
        bind-IsAtomic (ask_rows (P.database.find_auction id))
          (λ found. or_throw found not_found >>= with_auction)
          (ask_rows-IsInert (P.database.find_auction id))
          (λ found.
            bind-IsAtomic (or_throw found not_found) with_auction (or_throw-IsInert found not_found)
              with_auction-IsAtomic)
          w e w' h
