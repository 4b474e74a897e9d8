-- ===== src/Client/Forms.antt =====
-- The validators of the forms of client/src/app/features/auth/pages, the keys of their messages, and
-- the password rules of server/src/modules/auth/dto. A text is a list of characters; `is_email` stands
-- for `Validators.email`, whose pattern is Angular's.
pub mod Passwords
use bid_battle.Prelude.{
  ◌&&◌, ◌||◌, ◌+◌, ◌==◌, leb, not, false, true, Bool, String, if◌then◌else◌, ℕ, zero, suc,
}
use Prim.Native.Char.{code}
use Prim.Native.String.{count}
use text.Mathlib.Text.{◌==◌ as str_eq}

abbrev pub is_lower : ℕ → Bool
is_lower c = leb 97 c && leb c 122

abbrev pub is_upper : ℕ → Bool
is_upper c = leb 65 c && leb c 90

abbrev pub is_digit : ℕ → Bool
is_digit c = leb 48 c && leb c 57

-- `\W`, and `[\W_]`
abbrev pub is_non_word : ℕ → Bool
is_non_word c = not (is_lower c || (is_upper c || (is_digit c || c == 95)))

abbrev pub is_special : ℕ → Bool
is_special c = is_non_word c || c == 95

-- what `.` does not match
abbrev pub is_line_end : ℕ → Bool
is_line_end c = c == 10 || (c == 13 || (c == 8232 || c == 8233))

-- `(?=.*[p])` at the beginning of a text
unfoldable pub ahead : (ℕ → Bool) → String → Bool
ahead p String.[] = false
ahead p (String.◌∷◌ c s) =
    let rest = ahead p s in
    if p (code c) then true else if is_line_end (code c) then false else rest

-- `.*$`
unfoldable pub to_end : String → Bool
to_end String.[] = true
to_end (String.◌∷◌ c s) = not (is_line_end (code c)) && to_end s

-- `/^(?=.*[a-z])(?=.*[A-Z])(?=.*\d)(?=.*[\W_]).*$/`
unfoldable pub is_strong : String → Bool
is_strong s =
    ahead is_lower s && (ahead is_upper s && (ahead is_digit s && (ahead is_special s && to_end s)))

-- `(?![.\n])`
abbrev pub starts_plain : String → Bool
starts_plain String.[] = true
starts_plain (String.◌∷◌ c s) = not (code c == 46 || code c == 10)

-- `/((?=.*\d)|(?=.*\W+))(?![.\n])(?=.*[A-Z])(?=.*[a-z]).*$/` at a place, and anywhere
abbrev pub passes_here : String → Bool
passes_here s =
    (ahead is_digit s || ahead is_non_word s)
    && (starts_plain s && (ahead is_upper s && (ahead is_lower s && to_end s)))

unfoldable pub passes : String → Bool
passes String.[] = passes_here String.[]
passes (String.◌∷◌ c s) = let later = passes s in passes_here (String.◌∷◌ c s) || later

abbrev pub min_password : ℕ
min_password = 8

-- the length in UTF-16 units
abbrev pub units : String → ℕ
units String.[] = 0
units (String.◌∷◌ c s) =
    let rest = units s in if leb 65536 (code c) then suc (suc rest) else suc rest

-- `AuthChangePasswordDto` and `AuthResetPasswordDto`, and `AuthRegisterDto`
unfoldable pub change_rule : String → String → Bool
change_rule password password_repeat =
    leb min_password (count password) && (passes password && str_eq password password_repeat)

unfoldable pub register_rule : String → String → Bool
register_rule password password_repeat =
    leb min_password (count password) && (is_strong password && str_eq password password_repeat)

-- A control of a form: its value, and whether it was touched.
pub record Control : Type 0 where
  pub value : String
  pub touched : Bool

abbrev pub untouched : Control
untouched = record { value = ""; touched = false }

abbrev pub touch : Control → Control
touch c = record c { touched = true }

-- the validators, of which all but the first let an empty text pass
abbrev pub is_missing : Control → Bool
is_missing c = str_eq c.value ""

abbrev pub is_short : Control → Bool
is_short c = not (is_missing c) && not (leb min_password (units c.value))

abbrev pub is_weak : Control → Bool
is_weak c = not (is_missing c) && not (is_strong c.value)

abbrev pub is_bad_password : Control → Bool
is_bad_password c = is_missing c || (is_short c || is_weak c)

abbrev pub is_bad_email : (String → Bool) → Control → Bool
is_bad_email is_email c = is_missing c || not (is_email c.value)

unfoldable pub first_name_error_key : Control → String
first_name_error_key c =
    if not (is_missing c) || not c.touched then "" else "AUTH.VALIDATION.FIRST_NAME_REQUIRED"

unfoldable pub last_name_error_key : Control → String
last_name_error_key c =
    if not (is_missing c) || not c.touched then "" else "AUTH.VALIDATION.LAST_NAME_REQUIRED"

unfoldable pub email_error_key : (String → Bool) → Control → String
email_error_key is_email c =
    if not (is_bad_email is_email c) || not c.touched
    then ""
    else if is_missing c
    then "AUTH.VALIDATION.EMAIL_REQUIRED"
    else if not (is_email c.value)
    then "AUTH.VALIDATION.EMAIL_INVALID"
    else ""

unfoldable pub password_error_key : Control → String
password_error_key c =
    if not (is_bad_password c) || not c.touched
    then ""
    else if is_missing c
    then "AUTH.VALIDATION.PASSWORD_REQUIRED"
    else if is_short c
    then "AUTH.VALIDATION.PASSWORD_MIN"
    else if is_weak c
    then "AUTH.VALIDATION.PASSWORD_TOO_WEAK"
    else ""

-- `passwordMatchValidator`
abbrev pub is_mismatch : Control → Control → Bool
is_mismatch password password_repeat = not (str_eq password.value password_repeat.value)

unfoldable pub password_repeat_error_key : Control → Control → String
password_repeat_error_key password c =
    if not c.touched
    then ""
    else if is_missing c
    then "AUTH.VALIDATION.PASSWORD_REPEAT_REQUIRED"
    else if is_short c
    then "AUTH.VALIDATION.PASSWORD_MIN"
    else if is_weak c
    then "AUTH.VALIDATION.PASSWORD_TOO_WEAK"
    else if is_mismatch password c
    then "AUTH.VALIDATION.PASSWORD_MISMATCH"
    else ""
