-- ===== src/Theme/Following.antt =====
-- The document follows the chosen theme (admin-web/src/lib/theme.ts).
use hr_profi_uz.Common.{
  List, ◌≡◌, Bool, some, false, ◌∷◌, true, arith, [], refl, Bool-cases, inl, ap, sym, inr, ◌∙◌,
}
use hr_profi_uz.Theme.Store.{
  ThemeMode, Page, read_mode, resolves_dark, set_theme_mode, on_change, init_theme, is_system,
  mode_of, apply_to_document, emit, name_of, system, light, dark,
}

-- What happens in the page's own tab.
pub data Event : Type 0 where
  chosen : ThemeMode → Event
  changed : Bool → Event
  booted : Event

abbrev pub happens : Event → Page → Page
happens (chosen mode) p = set_theme_mode mode p
happens (changed prefers) p = on_change prefers p
happens booted p = init_theme p

abbrev pub run : List Event → Page → Page
run [] p = p
run (e ∷ es) p = run es (happens e p)

-- The class of the document is that of the stored mode under the system's preference.
abbrev IsFollowed : Page → Type 0
IsFollowed p = p.dark_class ≡ resolves_dark (read_mode p) p.prefers_dark

mode_of-name_of : (mode : ThemeMode) → mode_of (some (name_of mode)) ≡ mode
mode_of-name_of system = refl
mode_of-name_of light = refl
mode_of-name_of dark = refl

not_system :
    (mode : ThemeMode) (a b : Bool)
    → is_system mode ≡ false
    → resolves_dark mode a ≡ resolves_dark mode b
not_system system a b h = ground (arith, h)
not_system light a b h = refl
not_system dark a b h = refl

is_system-eq : (mode : ThemeMode) → is_system mode ≡ true → mode ≡ system
is_system-eq system h = refl
is_system-eq light h = ground (arith, h)
is_system-eq dark h = ground (arith, h)

happens-IsFollowed : (e : Event) (p : Page) → IsFollowed p → IsFollowed (happens e p)
unfolding set_theme_mode on_change init_theme read_mode apply_to_document emit
happens-IsFollowed (chosen mode) p h = rw (mode_of-name_of mode) refl
happens-IsFollowed (changed prefers) p h = elim (Bool-cases (is_system (mode_of p.stored))) [
  | inl e ↦ rw e (ap (λ m. resolves_dark m prefers) (sym (is_system-eq (mode_of p.stored) e)))
  | inr e ↦ rw e (h ∙ not_system (mode_of p.stored) p.prefers_dark prefers e)
]
happens-IsFollowed booted p h = refl

run_kept : (es : List Event) (p : Page) → IsFollowed p → IsFollowed (run es p)
run_kept [] p h = h
run_kept (e ∷ es) p h = run_kept es (happens e p) (happens-IsFollowed e p h)

-- After the page was started, whatever is chosen in it and however the system's preference changes,
-- the class of the document is that of the stored mode under the preference.
run-IsFollowed : (es : List Event) (p : Page) → IsFollowed (run es (init_theme p))
unfolding init_theme apply_to_document read_mode
run-IsFollowed es p = run_kept es (init_theme p) refl
