-- ===== src/Prelude/Queries.antt =====
-- What is found after a change of a list.
use Prim.Native.Nat.{ℕ, suc, zero, ◌-◌, ◌≤◌}
use mathlib.Core.Path.{◌≡◌, refl}
use mathlib.Core.Bool.{Bool, true, false, ◌&&◌}
use mathlib.Core.List.{List, [], ◌∷◌, ◌++◌}
use mathlib.Core.Option.{Option, none, some}
use mathlib.Core.Option
use native.Mathlib.Omega.{arith}
use bid_battle.Prelude.Lists.{length, drop, find_where, update_where, delete_where}

module _ {ℓ} {A : Type ℓ} where
  pub find_where_holds :
      (p : A → Bool) (xs : List A) (x : A) → find_where p xs ≡ some x → p x ≡ true
  find_where_holds p [] x h = cc
  find_where_holds p (y ∷ ys) x h = ground (arith, find_where_holds p ys x)

  -- a query that asks for more finds nothing either
  pub find_where_narrows :
      (p q : A → Bool) (xs : List A)
      → find_where q xs ≡ none
      → find_where (λ x. p x && q x) xs ≡ none
  find_where_narrows p q [] h = refl
  find_where_narrows p q (x ∷ xs) h = ground (arith, find_where_narrows p q xs)

  -- a row that is found and written over by one that still fits is found again
  pub find_where-overwrite :
      (p q : A → Bool) (xs : List A) (x y : A)
      → find_where p xs ≡ some x
      → q x ≡ true
      → p y ≡ true
      → find_where p (update_where q (λ _. y) xs) ≡ some y
  find_where-overwrite p q [] x y h fits same = cc
  find_where-overwrite p q (z ∷ zs) x y h fits same =
      ground (arith, find_where-overwrite p q zs x y)

  -- an update that only reaches rows a query finds, and leaves them found
  pub find_where-update :
      (p q : A → Bool) (f : A → A) (xs : List A)
      → ((x : A) → p x ≡ true → q x ≡ true)
      → ((x : A) → q x ≡ true → p (f x) ≡ p x)
      → find_where p (update_where q f xs) ≡ Option.map f (find_where p xs)
  find_where-update p q f [] reach kept = refl
  find_where-update p q f (x ∷ xs) reach kept =
      ground (arith, reach x, kept x, find_where-update p q f xs reach kept)

  -- nothing is left that an update takes away from a query
  pub find_where-exhaust :
      (p : A → Bool) (f : A → A) (xs : List A)
      → ((x : A) → p (f x) ≡ false)
      → find_where p (update_where p f xs) ≡ none
  find_where-exhaust p f [] gone = refl
  find_where-exhaust p f (x ∷ xs) gone = ground (arith, gone x, find_where-exhaust p f xs gone)

  -- an update of all that a query could find, after which it finds none of them
  pub find_where-bury :
      (p q : A → Bool) (f : A → A) (xs : List A)
      → ((x : A) → q x ≡ true → p (f x) ≡ false)
      → ((x : A) → q x ≡ false → p x ≡ false)
      → find_where p (update_where q f xs) ≡ none
  find_where-bury p q f [] gone other = refl
  find_where-bury p q f (x ∷ xs) gone other =
      ground (arith, gone x, other x, find_where-bury p q f xs gone other)

  -- nothing is left of what is deleted
  pub find_where-delete : (p : A → Bool) (xs : List A) → find_where p (delete_where p xs) ≡ none
  find_where-delete p [] = refl
  find_where-delete p (x ∷ xs) = ground (arith, find_where-delete p xs)

  pub find-update_none :
      (p q : A → Bool) (f : A → A) (xs : List A)
      → ((x : A) → p (f x) ≡ p x)
      → find_where p xs ≡ none
      → find_where p (update_where q f xs) ≡ none
  find-update_none p q f [] same h = refl
  find-update_none p q f (x ∷ xs) same h = ground (arith, same x, find-update_none p q f xs same)

  pub find-delete_none :
      (p q : A → Bool) (xs : List A)
      → find_where p xs ≡ none
      → find_where p (delete_where q xs) ≡ none
  find-delete_none p q [] h = refl
  find-delete_none p q (x ∷ xs) h = ground (arith, find-delete_none p q xs)

  pub find-append_none :
      (p : A → Bool) (xs : List A) (y : A)
      → find_where p xs ≡ none
      → p y ≡ false
      → find_where p (xs ++ y ∷ []) ≡ none
  find-append_none p [] y h differs = ground arith
  find-append_none p (x ∷ xs) y h differs = ground (arith, find-append_none p xs y)

  pub length-update :
      (q : A → Bool) (f : A → A) (xs : List A) → length (update_where q f xs) ≡ length xs
  length-update q f [] = refl
  length-update q f (x ∷ xs) = ground (arith, length-update q f xs)

  pub length-delete : (q : A → Bool) (xs : List A) → length (delete_where q xs) ≤ length xs
  length-delete q [] = omega arith
  length-delete q (x ∷ xs) = ground (arith, length-delete q xs)

  pub length-drop : (n : ℕ) (xs : List A) → length (drop n xs) ≡ length xs - n
  length-drop zero xs = omega arith
  length-drop (suc n) [] = omega arith
  length-drop (suc n) (x ∷ xs) = ground (arith, length-drop n xs)

  -- a change of other elements than a query asks for
  pub find_where-other :
      (p q : A → Bool) (f : A → A) (xs : List A)
      → ((x : A) → q x ≡ true → p x ≡ false)
      → ((x : A) → q x ≡ true → p (f x) ≡ false)
      → find_where p (update_where q f xs) ≡ find_where p xs
  find_where-other p q f [] apart after = refl
  find_where-other p q f (x ∷ xs) apart after =
      ground (arith, apart x, after x, find_where-other p q f xs apart after)

  pub find_where-delete_other :
      (p q : A → Bool) (xs : List A)
      → ((x : A) → q x ≡ true → p x ≡ false)
      → find_where p (delete_where q xs) ≡ find_where p xs
  find_where-delete_other p q [] apart = refl
  find_where-delete_other p q (x ∷ xs) apart =
      ground (arith, apart x, find_where-delete_other p q xs apart)
