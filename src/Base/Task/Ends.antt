-- ===== src/Base/Task/Ends.antt =====
-- A task that comes to its end, whatever its requests are answered with.
use Prim.Native.Nat.{ℕ, zero, suc}
use mathlib.Core.Bool.{Bool, true, false}
use wgtemporary_email.Base.Tests.{if◌then◌else◌}
use wgtemporary_email.Base.Task.{Task, done, update, inspect, call, spawn, run}

module _ {S Q : Type 0} {R : Q → Type 0} where
  -- Run from `s`, the task waits for at most `n` answers one after the other, and ends at a state with
  -- `P`, whatever the answers are and whatever else writes the state while it waits. A task that it
  -- spawns is not waited for.
  abbrev pub Ends : ℕ → (S → Type 0) → Task S Q R → S → Type 0
  Ends n P done s = P s
  Ends n P (update f t) s = Ends n P t (f s)
  Ends n P (inspect f) s = Ends n P (f s) s
  Ends zero P (call q k) s = ⊥
  Ends (suc n) P (call q k) s = (r : R q) (s' : S) → Ends n P (k r) s'
  Ends n P (spawn t u) s = Ends n P u (run t s).0

  pub if-Ends :
      (b : Bool) (n : ℕ) (P : S → Type 0) (t u : Task S Q R) (s : S)
      → Ends n P t s
      → Ends n P u s
      → Ends n P (if b then t else u) s
  if-Ends true n P t u s h k = h
  if-Ends false n P t u s h k = k
