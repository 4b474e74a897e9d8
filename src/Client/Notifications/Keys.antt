-- ===== src/Client/Notifications/Keys.antt =====
-- I18N_KEY_PATTERN of client/src/app/core/services/notification.service.ts, and the methods that push
-- a message.
use bid_battle.Client.Notifications.{push_notification, Toasts, NotificationType}
use bid_battle.Prelude.{
  not, ◌==◌, none, true, ◌&&◌, false, if◌then◌else◌, leb, some, ◌||◌, Bool, Option, String, ℕ,
}
use Prim.Native.Char.{code}

-- Where a key may stand: before it, in its first part, after a dot, after the first letter of a
-- further part, and after more of that.
pub data KeyState : Type 0 where
  at_start in_head after_dot one_letter more_letters : KeyState

abbrev is_upper : ℕ → Bool
is_upper c = leb 65 c && leb c 90

abbrev is_key_code : ℕ → Bool
is_key_code c = is_upper c || ((leb 48 c && leb c 57) || c == 95)

abbrev next_state : KeyState → ℕ → Option KeyState
next_state KeyState.at_start c = if is_upper c then some KeyState.in_head else none
next_state KeyState.in_head c =
    if is_key_code c
    then some KeyState.in_head
    else if c == 46
    then some KeyState.after_dot
    else none
next_state KeyState.after_dot c = if is_upper c then some KeyState.one_letter else none
next_state KeyState.one_letter c = if is_key_code c then some KeyState.more_letters else none
next_state KeyState.more_letters c =
    if is_key_code c
    then some KeyState.more_letters
    else if c == 46
    then some KeyState.after_dot
    else none

abbrev is_last : Option KeyState → Bool
is_last (some KeyState.more_letters) = true
is_last _ = false

unfoldable pub scan_key : Option KeyState → String → Bool
scan_key state String.[] = is_last state
scan_key none (String.◌∷◌ c s) = false
scan_key (some state) (String.◌∷◌ c s) = scan_key (next_state state (code c)) s

-- `/^[A-Z][A-Z0-9_]*(?:\.[A-Z][A-Z0-9_]+)+$/`
unfoldable pub is_translation_key : String → Bool
is_translation_key message = scan_key (some KeyState.at_start) message

module _ (translate_text : String → String) where
  unfoldable pub push : ℕ → String → NotificationType → ℕ → Bool → Toasts → Toasts
  push id message kind duration translate s =
      if not translate || not (is_translation_key message)
      then push_notification id message kind duration s
      else push_notification id (translate_text message) kind duration s
