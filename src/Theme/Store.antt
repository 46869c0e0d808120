-- ===== src/Theme/Store.antt =====
-- The choice of the theme (admin-web/src/lib/theme.ts) in a browser: what is stored, what the system
-- prefers, and the class of the document. `listeners` counts the renders that `emit` asks for.
use hr_profi_uz.Common.{String, Option, ◌+◌, Bool, some, ℕ, if◌then◌else◌, true, false, ◌===◌, none}

pub data ThemeMode : Type 0 where
  system light dark : ThemeMode

pub record Page : Type 0 where
  pub stored : Option String
  pub prefers_dark : Bool
  pub dark_class : Bool
  pub emitted : ℕ

abbrev pub name_of : ThemeMode → String
name_of system = "system"
name_of light = "light"
name_of dark = "dark"

-- `v === "system" || v === "light" || v === "dark"`
abbrev pub mode_of : Option String → ThemeMode
mode_of none = system
mode_of (some v) =
    if v === "system"
    then system
    else (if v === "light" then light else (if v === "dark" then dark else system))

unfoldable pub read_mode : Page → ThemeMode
read_mode p = mode_of p.stored

-- `resolve(mode) === "dark"`
abbrev pub resolves_dark : ThemeMode → Bool → Bool
resolves_dark light prefers = false
resolves_dark dark prefers = true
resolves_dark system prefers = prefers

unfoldable pub apply_to_document : ThemeMode → Page → Page
apply_to_document mode p = record p { dark_class = resolves_dark mode p.prefers_dark }

unfoldable pub emit : Page → Page
emit p = record p { emitted = p.emitted + 1 }

unfoldable pub set_theme_mode : ThemeMode → Page → Page
unfolding apply_to_document emit
set_theme_mode mode p = emit (apply_to_document mode (record p { stored = some (name_of mode) }))

abbrev pub is_system : ThemeMode → Bool
is_system system = true
is_system _ = false

-- The listener of `initTheme` on the preference of the system.
unfoldable pub on_change : Bool → Page → Page
unfolding apply_to_document read_mode
on_change prefers p =
    let p' : Page = record p { prefers_dark = prefers } in
    if is_system (read_mode p') then apply_to_document system p' else p'

-- `initTheme`
unfoldable pub init_theme : Page → Page
unfolding apply_to_document read_mode
init_theme p = apply_to_document (read_mode p) p
