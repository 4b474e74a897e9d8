-- ===== src/Platform/Images.antt =====
-- The table `auction_images` as TypeORM reads and writes it.
use bid_battle.Prelude.{
  ℕ, suc, String, Bool, false, List, [], ◌∷◌, ◌++◌, ◌≡◌, ◌==◌, ◌||◌, if◌then◌else◌, Option,
}
use bid_battle.Entities.{Auction, AuctionImage}
use bid_battle.Prelude.{update_where, delete_where}

-- The rows that an insert makes of URLs, with the ids that the server counts up; `is_primary` says of
-- a position whether its picture is the primary one.
abbrev pub numbered : ℕ → ℕ → ℕ → (ℕ → Bool) → List String → List AuctionImage
numbered first_id auction i is_primary [] = []
numbered first_id auction i is_primary (url ∷ urls) =
    record { id = first_id; image_url = url; is_primary = is_primary i; auction_id = auction }
    ∷ numbered (suc first_id) auction (suc i) is_primary urls

abbrev pub has_id : List ℕ → ℕ → Bool
has_id [] i = false
has_id (j ∷ js) i = j == i || has_id js i

pub record ImageTable (Rows : Type 0) (find_auction : ℕ → Rows → Option Auction)
    (save_auction : Auction → Rows → Rows) : Type 0 where
  -- the images of an auction, by ascending id
  pub images_of : ℕ → Rows → List AuctionImage
  pub next_image_id : Rows → ℕ
  -- an insert of images of an auction, of which the first stands at a position
  pub insert_images : ℕ → ℕ → (ℕ → Bool) → List String → Rows → Rows
  pub delete_images : List ℕ → Rows → Rows
  -- `save` of an image of which only `is_primary` has changed
  pub set_primary : ℕ → Bool → Rows → Rows
  pub images-insert :
      (j a i : ℕ) (p : ℕ → Bool) (urls : List String) (r : Rows)
      → images_of j (insert_images a i p urls r)
        ≡ (if a == j then images_of j r ++ numbered (next_image_id r) a i p urls else images_of j r)
  pub images-delete :
      (j : ℕ) (ids : List ℕ) (r : Rows)
      → images_of j (delete_images ids r) ≡ delete_where (λ m. has_id ids m.id) (images_of j r)
  pub images-set_primary :
      (j i : ℕ) (b : Bool) (r : Rows)
      → images_of j (set_primary i b r)
        ≡ update_where (λ m. m.id == i) (λ m. record m { is_primary = b }) (images_of j r)
  pub find-insert_images :
      (j a i : ℕ) (p : ℕ → Bool) (urls : List String) (r : Rows)
      → find_auction j (insert_images a i p urls r) ≡ find_auction j r
  pub images-save :
      (j : ℕ) (a : Auction) (r : Rows) → images_of j (save_auction a r) ≡ images_of j r
  pub next_image-save :
      (a : Auction) (r : Rows) → next_image_id (save_auction a r) ≡ next_image_id r
