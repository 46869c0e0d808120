-- ===== src/Theme/Tests.antt =====
-- The theme at a concrete page, and the sidebar.
use hr_profi_uz.Common.{List, false, ◌≡◌, some, true, ◌∷◌, [], refl}
use hr_profi_uz.Theme.Store.{
  Page, ThemeMode, init_theme, set_theme_mode, on_change, apply_to_document, read_mode, emit,
}
use hr_profi_uz.Theme.Following.{Event, chosen, changed, run}
use hr_profi_uz.Theme.Sidebar.{
  initial, toggle_sidebar, toggle_mobile_sidebar, reload, set_mobile_sidebar, set_sidebar_collapsed,
}

-- A page with a stored value that is no mode.
abbrev page : Page
page = record { stored = some "blue"; prefers_dark = false; dark_class = true; emitted = 0 }

abbrev events : List Event
events = changed true ∷ chosen ThemeMode.light ∷ changed false ∷ chosen ThemeMode.system ∷ []

blue_page_light : (run events (init_theme page)).dark_class ≡ false
unfolding set_theme_mode on_change init_theme apply_to_document read_mode emit
blue_page_light = refl

-- The drawer is closed after a reload, and the choice for the desktop stays.
reload_run :
    reload (toggle_mobile_sidebar (toggle_sidebar initial)) ≡ set_sidebar_collapsed true initial
unfolding reload toggle_mobile_sidebar toggle_sidebar set_sidebar_collapsed
reload_run = refl

route_change_run : set_mobile_sidebar false (toggle_mobile_sidebar initial) ≡ initial
unfolding set_mobile_sidebar toggle_mobile_sidebar
route_change_run = refl
