-- ===== src/Client/Page/Title.antt =====
-- client/src/app/core/services/title.service.ts. `document` is the title of the tab, and `blinking`
-- whether the interval of `startBlink` runs.
use bid_battle.Prelude.{
  inr, inl, Bool-cases, [], ◌/◌, ◌%◌, ◌∷◌, ◌==◌, ◌≡◌, not, arith, false, true, refl, zero, suc,
  Bool, List, String, if◌then◌else◌, ℕ,
}
use Prim.Native.String.{◌++◌ as append}
use text.Mathlib.Text.{◌==◌ as str_eq}

pub record TitleService : Type 0 where
  pub document : String
  pub base_title : String
  pub unread_count : ℕ
  pub blinking : Bool
  pub blink_message : String
  pub blink_state : Bool

abbrev digit : ℕ → String
digit d =
    if d == 0
    then "0"
    else if d == 1
    then "1"
    else if d == 2
    then "2"
    else if d == 3
    then "3"
    else if d == 4
    then "4"
    else if d == 5
    then "5"
    else if d == 6
    then "6"
    else if d == 7
    then "7"
    else if d == 8
    then "8"
    else "9"

-- the decimal digits of a number, the last `fuel` of them
abbrev digits : ℕ → ℕ → String
digits zero n = ""
digits (suc fuel) n =
    let higher = digits fuel (n / 10) in
    if n / 10 == 0 then digit n else append higher (digit (n % 10))

abbrev pub show_count : ℕ → String
show_count n = digits (suc n) n

unfoldable pub resolved_title : TitleService → String
resolved_title s =
    if s.unread_count == 0
    then s.base_title
    else append "(" (append (show_count s.unread_count) (append ") " s.base_title))

unfoldable pub apply_title : TitleService → TitleService
apply_title s = if s.blinking then s else record s { document = resolved_title s }

module _ (app_name : String) where
  unfoldable pub set_title : String → TitleService → TitleService
  set_title page_title s = apply_title (record s {
    base_title =
        if str_eq page_title "" then app_name else append page_title (append " | " app_name);
  })

unfoldable pub set_unread_count : ℕ → TitleService → TitleService
set_unread_count count s = apply_title (record s { unread_count = count })

unfoldable pub start_blink : String → TitleService → TitleService
start_blink message s =
    if s.blinking
    then s
    else record s { blinking = true; blink_message = message; blink_state = false }

-- what the interval does
unfoldable pub blink : TitleService → TitleService
blink s =
    if s.blinking
    then record s {
      blink_state = not s.blink_state;
      document = if not s.blink_state then s.blink_message else resolved_title s;
    }
    else s

unfoldable pub stop_blink : TitleService → TitleService
stop_blink s =
    if s.blinking then apply_title (record s { blinking = false; blink_state = false }) else s

pub data TitleEvent : Type 0 where
  titled started : String → TitleEvent
  counted : ℕ → TitleEvent
  blinked stopped : TitleEvent

abbrev pub occur_title : String → TitleEvent → TitleService → TitleService
occur_title app_name (TitleEvent.titled page) s = set_title app_name page s
occur_title app_name (TitleEvent.started message) s = start_blink message s
occur_title app_name (TitleEvent.counted count) s = set_unread_count count s
occur_title app_name TitleEvent.blinked s = blink s
occur_title app_name TitleEvent.stopped s = stop_blink s

unfoldable pub occur_titles : String → List TitleEvent → TitleService → TitleService
occur_titles app_name [] s = s
occur_titles app_name (e ∷ es) s = occur_titles app_name es (occur_title app_name e s)

-- What the tab shows: the resolved title, unless a blink is on its message.
pub record IsTitled (s : TitleService) : Type 0 where
  pub still : s.blinking ≡ false → s.document ≡ resolved_title s
  pub off : s.blinking ≡ false → s.blink_state ≡ false
  pub lit : s.blinking ≡ true → s.blink_state ≡ true → s.document ≡ s.blink_message

apply_title-IsTitled :
    (s : TitleService)
    → (s.blinking ≡ false → s.blink_state ≡ false)
    → (s.blinking ≡ true → s.blink_state ≡ true → s.document ≡ s.blink_message)
    → IsTitled (apply_title s)
unfolding apply_title resolved_title
apply_title-IsTitled s dark lit = elim (Bool-cases s.blinking) [
  | inl on ↦
      let same : apply_title s ≡ s = simp on refl in
      rw same (record { still = λ off. ground (arith, on, off); off = dark; lit = lit })
  | inr off ↦
      let shown : apply_title s ≡ record s { document = resolved_title s } = simp off refl in
      rw shown (record { still = λ _. refl; off = dark; lit = λ on. ground (arith, on, off) })
]

start_blink-IsTitled :
    (message : String) (s : TitleService) → IsTitled s → IsTitled (start_blink message s)
unfolding start_blink
start_blink-IsTitled message s h = elim (Bool-cases s.blinking) [
  | inl on ↦ let same : start_blink message s ≡ s = simp on refl in rw same h
  | inr off ↦
      let begun : start_blink message s
          ≡ record s { blinking = true; blink_message = message; blink_state = false } =
        simp off refl in
      rw begun (record {
        still = λ no. ground (arith, no);
        off = λ no. refl;
        lit = λ on no. ground (arith, no);
      })
]

blink-IsTitled : (s : TitleService) → IsTitled s → IsTitled (blink s)
unfolding blink
blink-IsTitled s h = elim (Bool-cases s.blinking) [
  | inl on ↦ record {
    still = λ no. ground (arith, no, on);
    off = λ no. ground (arith, no, on);
    lit = λ _ lit. ground (arith, on, lit);
  }
  | inr off ↦ let same : blink s ≡ s = simp off refl in rw same h
]

stop_blink-IsTitled : (s : TitleService) → IsTitled s → IsTitled (stop_blink s)
unfolding stop_blink
stop_blink-IsTitled s h = elim (Bool-cases s.blinking) [
  | inl on ↦
      let stopped : stop_blink s
          ≡ apply_title (record s { blinking = false; blink_state = false }) =
        simp on refl in
      rw stopped (
        apply_title-IsTitled (record s { blinking = false; blink_state = false }) (λ _. refl)
          (λ no. ground (arith, no)))
  | inr off ↦ let same : stop_blink s ≡ s = simp off refl in rw same h
]

occur_title-IsTitled :
    (app_name : String) (e : TitleEvent) (s : TitleService)
    → IsTitled s
    → IsTitled (occur_title app_name e s)
unfolding set_title set_unread_count
occur_title-IsTitled app_name (TitleEvent.titled page) s h = apply_title-IsTitled _ h.off h.lit
occur_title-IsTitled app_name (TitleEvent.started message) s h = start_blink-IsTitled message s h
occur_title-IsTitled app_name (TitleEvent.counted count) s h = apply_title-IsTitled _ h.off h.lit
occur_title-IsTitled app_name TitleEvent.blinked s h = blink-IsTitled s h
occur_title-IsTitled app_name TitleEvent.stopped s h = stop_blink-IsTitled s h

-- While no blink runs, the tab shows the present title with the present count, and while a blink is on
-- its message shows, whatever titles, counts and blinks came before, also in the middle of a blink.
pub occur_titles-IsTitled :
    (app_name : String) (es : List TitleEvent) (s : TitleService)
    → IsTitled s
    → IsTitled (occur_titles app_name es s)
unfolding occur_titles
occur_titles-IsTitled app_name [] s h = h
occur_titles-IsTitled app_name (e ∷ es) s h =
    occur_titles-IsTitled app_name es (occur_title app_name e s)
      (occur_title-IsTitled app_name e s h)
