-- ===== src/Settings/Keys.antt =====
-- Reading a `settings` object after some of its keys were written.
use hr_profi_uz.Common.{
  ◌∷◌, [], Option, String, Bool, Entries, some, none, if◌then◌else◌, lookup, ◌≡◌, true, false, refl,
  List, not, every, is_some, arith, All, All_mono, ◌∙◌, ap, every-All, ◌===◌, insert, lookup-insert,
}
use hr_profi_uz.Settings.Tabs.{Value, spread}

-- `a ?? b`
abbrev pub or_else {ℓ} : {A : Type ℓ} → Option A → Option A → Option A
or_else none b = b
or_else (some a) b = some a

module _ {N : Type 0} where
  -- The last value that the fields give to a key.
  abbrev pub last_of : String → Entries (Value N) → Option (Value N)
  last_of key [] = none
  last_of key ((other, value) ∷ fields) =
      or_else (last_of key fields) (if other === key then some value else none)

  or_else_assoc :
      (a : Option (Value N)) (b : Bool) (v : Value N) (c : Option (Value N))
      → or_else a (if b then some v else c) ≡ or_else (or_else a (if b then some v else none)) c
  or_else_assoc (some a) b v c = refl
  or_else_assoc none true v c = refl
  or_else_assoc none false v c = refl

  blank_lem : (o : Option (Value N)) → not (is_some o) ≡ true → o ≡ none
  blank_lem none h = refl
  blank_lem (some v) h = ground (arith, h)

  -- A key has the last value that was written, or else the old one.
  pub lookup-spread :
      (key : String) (s fields : Entries (Value N))
      → lookup key (spread s fields) ≡ or_else (last_of key fields) (lookup key s)
  lookup-spread key s [] = refl
  lookup-spread key s ((other, value) ∷ fields) =
      lookup-spread key (insert other value s) fields
      ∙ ap (or_else (last_of key fields)) (lookup-insert other key value s)
      ∙ or_else_assoc (last_of key fields) (other === key) value (lookup key s)

  -- Keys that are not written keep their values.
  pub spread-keeps :
      (keys : List String) (s fields : Entries (Value N))
      → every (λ key. not (is_some (last_of key fields))) keys ≡ true
      → All (λ key. lookup key (spread s fields) ≡ lookup key s) keys
  spread-keeps keys s fields h =
      All_mono (λ key. not (is_some (last_of key fields)) ≡ true)
        (λ key. lookup key (spread s fields) ≡ lookup key s) keys
        (λ key e.
          lookup-spread key s fields
          ∙ ap (λ o. or_else o (lookup key s)) (blank_lem (last_of key fields) e))
        (every-All (λ key. not (is_some (last_of key fields))) keys h)
