-- ===== src/Tests/Fixture/Images.antt =====
-- The rows of pictures in memory, and the laws of their table.
use bid_battle.Platform.Images.{has_id, numbered}
use bid_battle.Prelude.{delete_where, update_where}
use bid_battle.Entities.{AuctionImage}
use bid_battle.Prelude.{
  refl, suc, arith, if◌then◌else◌, ◌+◌, [], max, not, ◌==◌, ◌≡◌, ◌++◌, ◌∷◌, String, Bool, List, ℕ,
}

abbrev pub image_rows : ℕ → List AuctionImage → List AuctionImage
image_rows j xs = delete_where (λ m. not (m.auction_id == j)) xs

abbrev pub free_image_id : List AuctionImage → ℕ
free_image_id [] = 1
free_image_id (m ∷ rest) = max (m.id + 1) (free_image_id rest)

image_rows-append :
    (j : ℕ) (xs ys : List AuctionImage)
    → image_rows j (xs ++ ys) ≡ image_rows j xs ++ image_rows j ys
image_rows-append j [] ys = refl
image_rows-append j (x ∷ xs) ys = ground (arith, image_rows-append j xs ys)

append_none : (xs : List AuctionImage) → xs ++ [] ≡ xs
append_none [] = refl
append_none (x ∷ xs) = ground (arith, append_none xs)

image_rows-numbered :
    (j n a i : ℕ) (p : ℕ → Bool) (urls : List String)
    → image_rows j (numbered n a i p urls) ≡ (if a == j then numbered n a i p urls else [])
image_rows-numbered j n a i p [] = ground arith
image_rows-numbered j n a i p (u ∷ us) =
    ground (arith, image_rows-numbered j (suc n) a (suc i) p us)

pub images-insert_lem :
    (j a i : ℕ) (p : ℕ → Bool) (urls : List String) (xs : List AuctionImage)
    → image_rows j (xs ++ numbered (free_image_id xs) a i p urls) ≡ (
        if a == j
        then image_rows j xs ++ numbered (free_image_id xs) a i p urls
        else image_rows j xs)
images-insert_lem j a i p urls xs = ground (
  arith,
  image_rows-append j xs (numbered (free_image_id xs) a i p urls),
  image_rows-numbered j (free_image_id xs) a i p urls,
  append_none (image_rows j xs),
)

pub images-delete_lem :
    (j : ℕ) (ids : List ℕ) (xs : List AuctionImage)
    → image_rows j (delete_where (λ m. has_id ids m.id) xs)
      ≡ delete_where (λ m. has_id ids m.id) (image_rows j xs)
images-delete_lem j ids [] = refl
images-delete_lem j ids (x ∷ xs) = ground (arith, images-delete_lem j ids xs)

pub images-set_primary_lem :
    (j i : ℕ) (b : Bool) (xs : List AuctionImage)
    → image_rows j (update_where (λ m. m.id == i) (λ m. record m { is_primary = b }) xs)
      ≡ update_where (λ m. m.id == i) (λ m. record m { is_primary = b }) (image_rows j xs)
images-set_primary_lem j i b [] = refl
images-set_primary_lem j i b (x ∷ xs) = ground (arith, images-set_primary_lem j i b xs)
