-- ===== src/Client/Language.antt =====
-- client/src/app/core/services/language.service.ts, and `getLang` of
-- server/src/core/gateways/base.gateway.ts, which reads the same header for a socket. A header is a list
-- of the codes of its characters, which are ASCII, so that only `A` to `Z` have a lower case.
pub mod Agreement
use bid_battle.Client.Session.{has_text}
use bid_battle.Client.Forms.{is_lower, is_upper}
use bid_battle.Prelude.{
  [], ◌+◌, ◌&&◌, ◌||◌, ◌∷◌, ◌==◌, leb, length, map, none, some, true, false, Bool, List, Option,
  String, if◌then◌else◌, ℕ,
}
use Prim.Native.Char.{code}
use text.Mathlib.Text.{◌==◌ as str_eq}

pub data ActiveLanguage : Type 0 where
  english polish : ActiveLanguage

abbrev pub codes : String → List ℕ
codes String.[] = []
codes (String.◌∷◌ c s) = code c ∷ codes s

-- the white space of `trim`
abbrev pub is_space : ℕ → Bool
is_space n = (leb 9 n && leb n 13) || n == 32

abbrev pub trim_start : List ℕ → List ℕ
trim_start [] = []
trim_start (n ∷ ns) = let rest = trim_start ns in if is_space n then rest else n ∷ ns

-- `n` before a text whose end is trimmed
abbrev pub before : ℕ → List ℕ → List ℕ
before n [] = if is_space n then [] else n ∷ []
before n (m ∷ ms) = n ∷ m ∷ ms

abbrev pub trim_end : List ℕ → List ℕ
trim_end [] = []
trim_end (n ∷ ns) = before n (trim_end ns)

abbrev pub trim : List ℕ → List ℕ
trim ns = trim_start (trim_end ns)

-- `split(c)[0]`
abbrev pub until : ℕ → List ℕ → List ℕ
until c [] = []
until c (n ∷ ns) = let rest = until c ns in if n == c then [] else n ∷ rest

abbrev pub lower : ℕ → ℕ
lower n = if is_upper n then n + 32 else n

abbrev pub is_empty : List ℕ → Bool
is_empty [] = true
is_empty (n ∷ ns) = false

-- the first tag of a header, without its weight
abbrev pub primary_tag : List ℕ → List ℕ
primary_tag raw = trim (until 59 (trim (until 44 raw)))

abbrev pub same : List ℕ → List ℕ → Bool
same [] [] = true
same (n ∷ ns) (m ∷ ms) = (n == m) && same ns ms
same _ _ = false

abbrev pub language_codes : ActiveLanguage → List ℕ
language_codes ActiveLanguage.english = 101 ∷ 110 ∷ []
language_codes ActiveLanguage.polish = 112 ∷ 108 ∷ []

abbrev pub language_of : List ℕ → Option ActiveLanguage
language_of ns =
    if same ns (language_codes ActiveLanguage.polish)
    then some ActiveLanguage.polish
    else if same ns (language_codes ActiveLanguage.english)
    then some ActiveLanguage.english
    else none

unfoldable pub detect_from_accept_language : List ℕ → Option ActiveLanguage
detect_from_accept_language raw =
    if is_empty (trim raw)
    then none
    else if is_empty (primary_tag raw)
    then none
    else language_of (until 45 (map lower (primary_tag raw)))

-- `/^[a-z]{2,3}$/`
abbrev pub is_short_tag : List ℕ → Bool
is_short_tag (a ∷ b ∷ []) = is_lower a && is_lower b
is_short_tag (a ∷ b ∷ c ∷ []) = is_lower a && (is_lower b && is_lower c)
is_short_tag _ = false

abbrev pub short_or_english : List ℕ → List ℕ
short_or_english tag = if is_short_tag tag then tag else language_codes ActiveLanguage.english

-- the server's
unfoldable pub get_lang : Option (List ℕ) → List ℕ
get_lang none = language_codes ActiveLanguage.english
get_lang (some raw) =
    if is_empty (trim raw)
    then language_codes ActiveLanguage.english
    else short_or_english (map lower (until 45 (primary_tag (trim raw))))

-- The service: what Transloco has active, and the entry `language` of the local storage.
pub record LanguageService : Type 0 where
  pub is_browser : Bool
  pub active : String
  pub saved : Option String

abbrev pub language_text : ActiveLanguage → String
language_text ActiveLanguage.english = "en"
language_text ActiveLanguage.polish = "pl"

abbrev pub available : String → Option ActiveLanguage
available t =
    if str_eq t "en"
    then some ActiveLanguage.english
    else if str_eq t "pl"
    then some ActiveLanguage.polish
    else none

abbrev or_else : Option ActiveLanguage → ActiveLanguage → ActiveLanguage
or_else none l = l
or_else (some l) other = l

unfoldable pub get_active_lang : LanguageService → ActiveLanguage
get_active_lang s = or_else (available s.active) ActiveLanguage.english

unfoldable pub set_language : ActiveLanguage → LanguageService → LanguageService
set_language lang s =
    if s.is_browser
    then record s { active = language_text lang; saved = some (language_text lang) }
    else record s { active = language_text lang }

abbrev pub detect_from_navigator : List (List ℕ) → ActiveLanguage
detect_from_navigator [] = ActiveLanguage.english
detect_from_navigator (tag ∷ tags) =
    let rest = detect_from_navigator tags in or_else (detect_from_accept_language tag) rest

abbrev first_of : Option ActiveLanguage → Option ActiveLanguage → Option ActiveLanguage
first_of none o = o
first_of (some l) o = some l

abbrev read_saved : Option String → Option ActiveLanguage
read_saved none = none
read_saved (some t) = available t

abbrev read_header : Option (List ℕ) → Option ActiveLanguage
read_header none = none
read_header (some raw) = detect_from_accept_language raw

unfoldable pub resolve_initial_language :
    Option (List ℕ) → List (List ℕ) → LanguageService → ActiveLanguage
resolve_initial_language header tags s =
    or_else (first_of (read_saved s.saved) (read_header header))
      (if s.is_browser then detect_from_navigator tags else ActiveLanguage.english)

unfoldable pub init : Option (List ℕ) → List (List ℕ) → LanguageService → LanguageService
init header tags s = set_language (resolve_initial_language header tags s) s
