-- ===== src/Client/Page/Theme.antt =====
-- client/src/app/core/services/theme.service.ts. `saved` is the entry of the local storage, `attribute`
-- the `data-theme` of the document, and `following` whether the listener on the setting of the system
-- is registered.
use bid_battle.Client.Session.{has_text}
use bid_battle.Prelude.{
  inr, inl, Bool-cases, [], ◌∷◌, ◌&&◌, ◌≡◌, arith, delete_where, false, none, not, some, true, Bool,
  List, Option, String, if◌then◌else◌, refl,
}
use text.Mathlib.Text.{◌==◌ as str_eq}

pub record ThemeService : Type 0 where
  pub is_browser : Bool
  pub saved : Option String
  pub current : String
  pub attribute : Option String
  pub following : Bool

unfoldable pub apply_theme : String → ThemeService → ThemeService
apply_theme theme s =
    if s.is_browser
    then record s { attribute = some theme; saved = some theme; current = theme }
    else record s { current = theme }

abbrev preferred : Bool → String
preferred prefers_dark = if prefers_dark then "dark" else "light"

abbrev or_else : Option String → String → String
or_else none theme = theme
or_else (some t) theme = t

-- the constructor: on the server nothing is read
unfoldable pub construct : Bool → Option String → Bool → ThemeService
construct is_browser saved prefers_dark =
    let s : ThemeService = record {
      is_browser = is_browser;
      saved = saved;
      current = "dark";
      attribute = none;
      following = false;
    } in
    if not is_browser
    then s
    else let t = apply_theme (or_else saved (preferred prefers_dark)) s in
      record t { following = not (has_text saved) }

unfoldable pub toggle : ThemeService → ThemeService
toggle s =
    apply_theme (if str_eq s.current "dark" then "light" else "dark")
      (record s { following = false })

-- the listener, when the setting of the system changes
unfoldable pub os_change : Bool → ThemeService → ThemeService
os_change dark s =
    if s.following && not (has_text s.saved) then apply_theme (preferred dark) s else s

pub data ThemeEvent : Type 0 where
  toggled : ThemeEvent
  os_changed : Bool → ThemeEvent

abbrev pub occur_theme : ThemeEvent → ThemeService → ThemeService
occur_theme ThemeEvent.toggled s = toggle s
occur_theme (ThemeEvent.os_changed dark) s = os_change dark s

unfoldable pub occur_themes : List ThemeEvent → ThemeService → ThemeService
occur_themes [] s = s
occur_themes (e ∷ es) s = occur_themes es (occur_theme e s)

abbrev pub is_os_change : ThemeEvent → Bool
is_os_change (ThemeEvent.os_changed dark) = true
is_os_change ThemeEvent.toggled = false

os_change-saved : (dark : Bool) (s : ThemeService) → has_text s.saved ≡ true → os_change dark s ≡ s
unfolding os_change
os_change-saved dark s kept = simp kept (ground arith)

toggle-saved : (s : ThemeService) → has_text s.saved ≡ true → has_text (toggle s).saved ≡ true
unfolding toggle apply_theme
toggle-saved s kept = elim (Bool-cases s.is_browser) [
  | inl browser ↦ elim (Bool-cases (str_eq s.current "dark")) [
    | inl dark ↦ simp (browser, dark) refl
    | inr light ↦ simp (browser, light) refl
  ]
  | inr server ↦ simp server kept
]

themes_toggles :
    (es : List ThemeEvent) (s : ThemeService)
    → has_text s.saved ≡ true
    → occur_themes es s ≡ occur_themes (delete_where is_os_change es) s
unfolding occur_themes
themes_toggles [] s kept = refl
themes_toggles (ThemeEvent.toggled ∷ es) s kept = themes_toggles es (toggle s) (toggle-saved s kept)
themes_toggles (ThemeEvent.os_changed dark ∷ es) s kept =
    rw (os_change-saved dark s kept) (themes_toggles es s kept)

-- an empty text, which counts as none only for the listener
abbrev is_blank : Option String → Bool
is_blank none = false
is_blank (some t) = str_eq t ""

construct-saved :
    (saved : Option String) (prefers_dark : Bool)
    → is_blank saved ≡ false
    → has_text (construct true saved prefers_dark).saved ≡ true
unfolding construct apply_theme
construct-saved none true filled = refl
construct-saved none false filled = refl
construct-saved (some t) prefers_dark filled = ground (arith, filled)

-- In the browser, unless an empty theme was saved, no change of the system's setting ever changes the
-- theme: after any toggles and changes the service is what the toggles alone make it.
pub os_changes_ignored :
    (saved : Option String) (prefers_dark : Bool) (es : List ThemeEvent)
    → is_blank saved ≡ false
    → let s = construct true saved prefers_dark in
      occur_themes es s ≡ occur_themes (delete_where is_os_change es) s
os_changes_ignored saved prefers_dark es filled =
    themes_toggles es (construct true saved prefers_dark)
      (construct-saved saved prefers_dark filled)
