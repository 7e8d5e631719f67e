-- ===== src/Base/Dict.antt =====
-- A JavaScript object or Map with text keys, as an association list in insertion order.
pub mod Checked
use Prim.Native.String.{String}
use mathlib.Core.Path.{◌≡◌, refl}
use mathlib.Core.Option.{Option, none, some}
use mathlib.Core.List.{List, [], ◌∷◌}
use native.Mathlib.Omega.{arith}
use text.Mathlib.Text.{◌==◌ as str_eq}
use text.Mathlib.TextEquality.{eq_iff}
use wgtemporary_email.Base.Tests.{if◌then◌else◌}

abbrev pub Dict {ℓ} : Type ℓ → Type ℓ
Dict V = List (String × V)

module _ {ℓ} {V : Type ℓ} where
  -- `d[k]`, `none` for undefined
  abbrev pub lookup : String → Dict V → Option V
  lookup k [] = none
  lookup k ((j, v) ∷ d) = if str_eq j k then some v else lookup k d

  -- `d[k] = v`
  abbrev pub insert : String → V → Dict V → Dict V
  insert k v [] = (k, v) ∷ []
  insert k v ((j, w) ∷ d) = if str_eq j k then (j, v) ∷ d else (j, w) ∷ insert k v d

  -- `{ ...base, ...extra }`
  abbrev pub spread : Dict V → Dict V → Dict V
  spread base [] = base
  spread base ((k, v) ∷ extra) = spread (insert k v base) extra

  -- The last entry with the key: what an object literal with repeated keys holds.
  abbrev pub lookup_last : String → Dict V → Option V
  lookup_last k [] = none
  lookup_last k ((j, v) ∷ d) = elim (lookup_last k d) [
    | some w ↦ some w
    | none ↦ if str_eq j k then some v else none
  ]

  pub lookup-insert :
      (k j : String) (v : V) (d : Dict V)
      → lookup j (insert k v d) ≡ (if str_eq k j then some v else lookup j d)
  lookup-insert k j v [] = refl
  lookup-insert k j v ((i, w) ∷ d) =
      ground (arith, eq_iff k j, eq_iff i k, eq_iff i j, lookup-insert k j v d)

  abbrev pub or_else : Option V → Option V → Option V
  or_else (some v) _ = some v
  or_else none o = o

  -- A spread reads the last entry of the right object, and the left object where there is none.
  pub lookup-spread :
      (j : String) (base extra : Dict V)
      → lookup j (spread base extra) ≡ or_else (lookup_last j extra) (lookup j base)
  lookup-spread j base [] = refl
  lookup-spread j base ((k, v) ∷ extra) =
      ground (arith, lookup-spread j (insert k v base) extra, lookup-insert k j v base)
