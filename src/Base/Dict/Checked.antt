-- ===== src/Base/Dict/Checked.antt =====
-- A test that holds of all entries of an object holds of what a key reads.
use Prim.Native.String.{String}
use mathlib.Core.Path.{◌≡◌, sym}
use mathlib.Core.Logic.{inl, inr}
use mathlib.Core.Bool.{Bool, true}
use mathlib.Core.Option.{some, some-injective}
use mathlib.Core.List.{[], ◌∷◌}
use text.Mathlib.Text.{◌==◌ as str_eq}
use text.Mathlib.TextEquality.{eq_iff}
use wgtemporary_email.Base.Tests.{Bool-cases}
use wgtemporary_email.Base.Facts.{not-none, and_left, and_right}
use wgtemporary_email.Base.Lists.{all}
use wgtemporary_email.Base.Dict.{Dict, lookup}

pub all-lookup :
    {V : Type 0} (f : String → V → Bool) (d : Dict V) (k : String) (v : V)
    → all (λ e. f e.0 e.1) d ≡ true
    → lookup k d ≡ some v
    → f k v ≡ true
all-lookup f [] k v h e = absurd (not-none v e)
all-lookup f ((j, w) ∷ d) k v h e = elim (Bool-cases (str_eq j k)) [
  | inl same ↦
      rw (sym ((eq_iff j k).0 same), sym (some-injective w v (rw same at e)))
        (and_left (f j w) (all (λ e. f e.0 e.1) d) h)
  | inr other ↦ all-lookup f d k v (and_right (f j w) (all (λ e. f e.0 e.1) d) h) (rw other at e)
]
