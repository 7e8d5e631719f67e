-- ===== src/Base/Facts.antt =====
-- Facts on Boolean tests and options that the components share.
use Prim.Native.Nat.{ℕ, ◌≤◌}
use mathlib.Core.Path.{◌≡◌}
use mathlib.Core.Logic.{◌≢◌}
use mathlib.Core.Bool.{Bool, true, false, ◌&&◌}
use mathlib.Core.Option.{none, some}
use native.Mathlib.Omega.{arith}
use wgtemporary_email.Base.Tests.{ltb, ◌==◌}

pub false_of : false ≡ true → ⊥
false_of h = ground arith

pub not-none {ℓ} : {A : Type ℓ} (a : A) → ¬ (none ≡ some a)
not-none a h = ground arith

pub and_left : (a b : Bool) → (a && b) ≡ true → a ≡ true
and_left a b h = ground arith

pub and_right : (a b : Bool) → (a && b) ≡ true → b ≡ true
and_right a b h = ground arith

pub eq_of_same : (k n : ℕ) → k == n ≡ true → k ≡ n
eq_of_same k n h = ground arith

pub not-same : (k n : ℕ) → k ≢ n → k == n ≡ false
not-same k n h = ground arith

pub not-ltb : (n m : ℕ) → m ≤ n → ltb n m ≡ false
not-ltb n m h = ground arith
