-- ===== src/Client/Page/Popup.antt =====
-- client/src/app/shared/components/popup/popup.service.ts. A promise of `open` is a number, and `settled`
-- keeps what the promises were resolved to, newest first.
use bid_battle.Prelude.{
  ap, [], ◌∷◌, ◌==◌, ◌≡◌, ◌<◌, find_where, arith, false, none, refl, some, suc, Bool, List, Option,
  String, ℕ,
}

pub data PopupType : Type 0 where
  info success warning error : PopupType

pub data PopupMode : Type 0 where
  info_mode confirm_mode : PopupMode

pub record PopupConfig : Type 0 where
  pub title : String
  pub message : String
  pub kind : Option PopupType
  pub mode : Option PopupMode
  pub confirm_text : Option String
  pub cancel_text : Option String

pub record PopupState : Type 0 where
  pub title : String
  pub message : String
  pub kind : PopupType
  pub mode : PopupMode
  pub confirm_text : String
  pub cancel_text : String
  pub resolve : ℕ

pub record Settled : Type 0 where
  pub promise : ℕ
  pub confirmed : Bool

pub record Popups : Type 0 where
  pub state : Option PopupState
  pub next : ℕ
  pub settled : List Settled

-- `??`
abbrev default {ℓ} : {A : Type ℓ} → A → Option A → A
default d none = d
default d (some a) = a

module _ (translate : String → String) where
  unfoldable pub open_popup : PopupConfig → Popups → Popups
  open_popup config s = record s {
    state = some record {
      title = config.title;
      message = config.message;
      kind = default PopupType.info config.kind;
      mode = default PopupMode.info_mode config.mode;
      confirm_text = default (translate "POPUP.CONFIRM") config.confirm_text;
      cancel_text = default (translate "POPUP.CANCEL") config.cancel_text;
      resolve = s.next;
    };
    next = suc s.next;
  }

abbrev settle : Bool → Option PopupState → Popups → Popups
settle confirmed none s = s
settle confirmed (some p) s = record s {
  state = none;
  settled = record { promise = p.resolve; confirmed = confirmed } ∷ s.settled;
}

unfoldable pub close_popup : Bool → Popups → Popups
close_popup confirmed s = settle confirmed s.state s

pub data PopupEvent : Type 0 where
  opens : PopupConfig → PopupEvent
  closes : Bool → PopupEvent

abbrev pub occur_popup : (String → String) → PopupEvent → Popups → Popups
occur_popup translate (PopupEvent.opens config) s = open_popup translate config s
occur_popup translate (PopupEvent.closes confirmed) s = close_popup confirmed s

unfoldable pub occur_popups : (String → String) → List PopupEvent → Popups → Popups
occur_popups translate [] s = s
occur_popups translate (e ∷ es) s = occur_popups translate es (occur_popup translate e s)

abbrev pub of_promise : ℕ → Settled → Bool
of_promise p x = x.promise == p

-- The open popup is not of the promise, and neither is a later one.
record IsLost (p : ℕ) (s : Popups) : Type 0 where
  unsettled : find_where (of_promise p) s.settled ≡ none
  before : p < s.next
  other : (q : PopupState) → s.state ≡ some q → (q.resolve == p) ≡ false

abbrev resolves : ℕ → Option PopupState → ℕ
resolves d none = d
resolves d (some q) = q.resolve

settle-IsLost :
    (confirmed : Bool) (o : Option PopupState) (p : ℕ) (s : Popups)
    → s.state ≡ o
    → IsLost p s
    → IsLost p (settle confirmed o s)
settle-IsLost confirmed none p s e h = h
settle-IsLost confirmed (some q) p s e h = record {
  unsettled = ground (arith, h.other q e, h.unsettled);
  before = h.before;
  other = λ r no. cc;
}

occur_popup-IsLost :
    (translate : String → String) (e : PopupEvent) (p : ℕ) (s : Popups)
    → IsLost p s
    → IsLost p (occur_popup translate e s)
unfolding open_popup close_popup
occur_popup-IsLost translate (PopupEvent.opens config) p s h = record {
  unsettled = h.unsettled;
  before = omega (arith, h.before);
  other =
      λ q shown. let e : s.next ≡ q.resolve = ap (resolves 0) shown in ground (arith, e, h.before);
}
occur_popup-IsLost translate (PopupEvent.closes confirmed) p s h =
    settle-IsLost confirmed s.state p s refl h

occur_popups-IsLost :
    (translate : String → String) (es : List PopupEvent) (p : ℕ) (s : Popups)
    → IsLost p s
    → IsLost p (occur_popups translate es s)
unfolding occur_popups
occur_popups-IsLost translate [] p s h = h
occur_popups-IsLost translate (e ∷ es) p s h =
    occur_popups-IsLost translate es p (occur_popup translate e s)
      (occur_popup-IsLost translate e p s h)

-- A popup that is opened while another is open displaces it: whatever is opened and closed after that,
-- the promise of the first is never settled.
pub open_popup_displaces :
    (translate : String → String) (first second : PopupConfig) (es : List PopupEvent) (s : Popups)
    → find_where (of_promise s.next) s.settled ≡ none
    → let s' =
        occur_popups translate es (open_popup translate second (open_popup translate first s)) in
      find_where (of_promise s.next) s'.settled ≡ none
unfolding open_popup
open_popup_displaces translate first second es s unsettled =
    let s2 = open_popup translate second (open_popup translate first s) in
    let lost : IsLost s.next s2 = record {
      unsettled = unsettled;
      before = omega arith;
      other =
          λ q shown. let e : suc s.next ≡ q.resolve = ap (resolves 0) shown in ground (arith, e);
    } in
    (occur_popups-IsLost translate es s.next s2 lost).unsettled
