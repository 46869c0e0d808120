-- ===== src/Theme/Sidebar.antt =====
-- The sidebar (admin-web/src/stores/ui.ts) and what a reload keeps of it.
use hr_profi_uz.Common.{Bool, false, not, ◌&&◌}

pub record UiState : Type 0 where
  pub sidebar_collapsed : Bool
  pub mobile_sidebar_open : Bool

abbrev pub initial : UiState
initial = record { sidebar_collapsed = false; mobile_sidebar_open = false }

unfoldable pub toggle_sidebar : UiState → UiState
toggle_sidebar s = record s { sidebar_collapsed = not s.sidebar_collapsed }

unfoldable pub set_sidebar_collapsed : Bool → UiState → UiState
set_sidebar_collapsed v s = record s { sidebar_collapsed = v }

unfoldable pub toggle_mobile_sidebar : UiState → UiState
toggle_mobile_sidebar s = record s { mobile_sidebar_open = not s.mobile_sidebar_open }

unfoldable pub set_mobile_sidebar : Bool → UiState → UiState
set_mobile_sidebar v s = record s { mobile_sidebar_open = v }

-- `partialize`, what is stored; a reload merges it into the initial state.
abbrev pub partialize : UiState → Bool
partialize s = s.sidebar_collapsed

unfoldable pub reload : UiState → UiState
reload s = record initial { sidebar_collapsed = partialize s }

-- `collapsed` of the layout: the drawer always shows its labels.
abbrev pub shows_collapsed : UiState → Bool
shows_collapsed s = s.sidebar_collapsed && not s.mobile_sidebar_open
