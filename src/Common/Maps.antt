-- ===== src/Common/Maps.antt =====
-- A `Map` or a plain object with text keys, as an association list in insertion order.
use Prim.Native.String.{String}
use mathlib.Core.Path.{◌≡◌, refl}
use mathlib.Core.List.{List, [], ◌∷◌}
use mathlib.Core.Option.{Option, none, some}
use native.Mathlib.Omega.{arith}
use text.Mathlib.TextEquality.{eq_iff}
use hr_profi_uz.Common.Tests.{if◌then◌else◌, ◌===◌}

-- The entries of a map.
abbrev pub Entries {ℓ} : Type ℓ → Type ℓ
Entries V = List (String × V)

module _ {ℓ} {V : Type ℓ} where
  unfoldable pub lookup : String → Entries V → Option V
  lookup key ((other, value) ∷ entries) = if other === key then some value else lookup key entries
  lookup key [] = none

  unfoldable pub insert : String → V → Entries V → Entries V
  insert key value ((other, old) ∷ entries) =
      if other === key then (other, value) ∷ entries else (other, old) ∷ insert key value entries
  insert key value [] = (key, value) ∷ []

  pub lookup-insert :
      (written asked : String) (value : V) (entries : Entries V)
      → lookup asked (insert written value entries)
        ≡ (if written === asked then some value else lookup asked entries)
  unfolding lookup insert
  lookup-insert written asked value ((other, old) ∷ entries) =
      let rest = lookup-insert written asked value entries in
      ground (arith, rest, eq_iff other asked, eq_iff other written, eq_iff written asked)
  lookup-insert written asked value [] = refl
