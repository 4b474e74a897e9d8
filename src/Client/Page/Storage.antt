-- ===== src/Client/Page/Storage.antt =====
-- client/src/app/core/services/storage.service.ts over the local or the session storage of the browser:
-- the items in the order of `storage.key`. Without a browser there is no storage. Removing an item may
-- change the order of the others as the browser likes: what it does to it is the parameter `arrange`,
-- by which no key may get another value. Only the loop of `clear` looks at the order.
pub mod Clear
use bid_battle.Client.Session.{has_text}
use bid_battle.Prelude.{
  ◌≡◌, [], ◌++◌, ◌∷◌, ◌&&◌, find_where, update_where, get_elem?, length, delete_where, is_some,
  none, not, some, suc, zero, Bool, List, Option, String, if◌then◌else◌, ℕ,
}
use Prim.Native.String.{◌++◌ as append}
use text.Mathlib.Text.{starts_with, ◌==◌ as str_eq}

pub record Item : Type 0 where
  pub key : String
  pub value : String

abbrev pub keyed : String → Item → Bool
keyed key it = str_eq it.key key

abbrev pub value_of : Option Item → Option String
value_of none = none
value_of (some it) = some it.value

abbrev pub get_item : String → List Item → Option String
get_item key items = value_of (find_where (keyed key) items)

abbrev set_item : String → String → List Item → List Item
set_item key value items =
    if is_some (find_where (keyed key) items)
    then update_where (keyed key) (λ it. record it { value = value }) items
    else items ++ record { key = key; value = value } ∷ []

abbrev pub remove_item : String → List Item → List Item
remove_item key items = delete_where (keyed key) items

-- In whatever order a browser keeps its items, a key has the value that it has.
abbrev pub KeepsValues : (List Item → List Item) → Type 0
KeepsValues arrange =
    (items : List Item) (key : String) → get_item key (arrange items) ≡ get_item key items

module _ (prefix : String) where
  unfoldable pub get : String → Option (List Item) → Option String
  get key none = none
  get key (some items) = get_item (append prefix key) items

  unfoldable pub set : String → String → Option (List Item) → Option (List Item)
  set key value none = none
  set key value (some items) = some (set_item (append prefix key) value items)

  unfoldable pub remove : String → Option (List Item) → Option (List Item)
  remove key none = none
  remove key (some items) = some (remove_item (append prefix key) items)

  -- `key && key.startsWith(this.prefix)`
  abbrev pub is_own : String → Bool
  is_own key = not (str_eq key "") && starts_with key prefix

  module _ {ℓ} {A : Type ℓ} (parse : String → Option A) (stringify : A → String) where
    abbrev parsed : Option String → Option A
    parsed none = none
    parsed (some raw) = if has_text (some raw) then parse raw else none

    unfoldable pub get_json : String → Option (List Item) → Option A
    get_json key store = parsed (get key store)

    unfoldable pub set_json : String → A → Option (List Item) → Option (List Item)
    set_json key value store = set key (stringify value) store

module _ (arrange : List Item → List Item) (prefix : String) where
  abbrev pub clear_item : Option Item → List Item → List Item
  clear_item none items = items
  clear_item (some it) items =
      if is_own prefix it.key then arrange (remove_item it.key items) else items

  -- the loop of `clear` from the index below the first argument down to 0
  unfoldable pub clear_below : ℕ → List Item → List Item
  clear_below zero items = items
  clear_below (suc i) items = clear_below i (clear_item (get_elem? items i) items)

  unfoldable pub clear : Option (List Item) → Option (List Item)
  clear none = none
  clear (some items) = some (clear_below (length items) items)
