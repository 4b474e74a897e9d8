-- ===== src/Client/Page/Storage/Clear.antt =====
-- `clear` of client/src/app/core/services/storage.service.ts and the items of others.
use Prim.Native.String.{◌++◌ as append}
use text.Mathlib.TextEquality.{eq_iff}
use bid_battle.Prelude.{find_where-delete_other, get_elem?, refl, none, some}
use bid_battle.Client.Page.Storage.{
  clear, clear_below, clear_item, get, get_item, is_own, keyed, remove_item, value_of, Item,
  KeepsValues,
}
use bid_battle.Prelude.{
  ap, sym, ◌∙◌, ◌≡◌, Bool-cases, arith, false, inl, inr, length, suc, true, zero, List, Option,
  String, ℕ,
}

-- an item with the key of another that is own is not foreign
apart_keys :
    (prefix key : String) (it x : Item)
    → is_own prefix key ≡ false
    → is_own prefix it.key ≡ true
    → keyed it.key x ≡ true
    → keyed key x ≡ false
apart_keys prefix key it x foreign own same = elim (Bool-cases (keyed key x)) [
  | inl here ↦
      let one : x.key ≡ it.key = (eq_iff x.key it.key).0 same in
      let other : x.key ≡ key = (eq_iff x.key key).0 here in
      let clash : is_own prefix key ≡ true = ap (is_own prefix) (sym other ∙ one) ∙ own in
      ground (arith, clash, foreign)
  | inr apart ↦ apart
]

module _ (arrange : List Item → List Item) (keeps : KeepsValues arrange) (prefix : String) where
  clear_item_keeps :
      (o : Option Item) (items : List Item) (key : String)
      → is_own prefix key ≡ false
      → get_item key (clear_item arrange prefix o items) ≡ get_item key items
  clear_item_keeps none items key foreign = refl
  clear_item_keeps (some it) items key foreign = elim (Bool-cases (is_own prefix it.key)) [
    | inl own ↦
        let left =
          find_where-delete_other (keyed key) (keyed it.key) items
            (λ x. apart_keys prefix key it x foreign own) in
        rw own (keeps (remove_item it.key items) key ∙ ap value_of left)
    | inr other ↦ rw other refl
  ]

  clear_below_keeps :
      (i : ℕ) (items : List Item) (key : String)
      → is_own prefix key ≡ false
      → get_item key (clear_below arrange prefix i items) ≡ get_item key items
  unfolding clear_below
  clear_below_keeps zero items key foreign = refl
  clear_below_keeps (suc i) items key foreign =
      let item = get_elem? items i in
      clear_below_keeps i (clear_item arrange prefix item items) key foreign
      ∙ clear_item_keeps item items key foreign

  -- In whatever order the browser keeps its items after it has removed one, `clear` leaves a key that
  -- is not of the form that it removes (text that begins with the prefix of the application) with the
  -- value that it had, for a service with any prefix of its own.
  pub clear_keeps_others :
      (other key : String) (store : Option (List Item))
      → is_own prefix (append other key) ≡ false
      → get other key (clear arrange prefix store) ≡ get other key store
  unfolding clear get
  clear_keeps_others other key none foreign = refl
  clear_keeps_others other key (some items) foreign =
      clear_below_keeps (length items) items (append other key) foreign
