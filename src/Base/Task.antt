-- ===== src/Base/Task.antt =====
-- Asynchronous code of one page. A task writes the page's state, reads it, starts another task, and
-- waits for the answer to a request; `R q` is what a request `q` can be answered with. JavaScript
-- runs a task without interruption until it waits, so `run` stops at each `call`; what waits is
-- resumed in any order (Task/Schedule).
pub mod Schedule
pub mod Ends
use mathlib.Core.List.{List, [], ◌∷◌, ◌++◌}

pub data Task (S Q : Type 0) (R : Q → Type 0) : Type 0 where
  done : Task S Q R
  -- a synchronous write
  update : (S → S) → Task S Q R → Task S Q R
  -- a synchronous read
  inspect : (S → Task S Q R) → Task S Q R
  -- `await` of a request
  call : (q : Q) → (R q → Task S Q R) → Task S Q R
  -- an asynchronous function called without `await`
  spawn : Task S Q R → Task S Q R → Task S Q R

-- A continuation that waits for the answer to its request.
abbrev pub Waiting : (S Q : Type 0) → (Q → Type 0) → Type 0
Waiting S Q R = (q : Q) × (R q → Task S Q R)

module _ {S Q : Type 0} {R : Q → Type 0} where
  -- A task up to the points where it waits.
  abbrev pub run : Task S Q R → S → S × List (Waiting S Q R)
  run done s = (s, [])
  run (update f t) s = run t (f s)
  run (inspect f) s = run (f s) s
  run (call q k) s = (s, (q, k) ∷ [])
  run (spawn t u) s = let (s', ws) = run t s in let (s'', vs) = run u s' in (s'', ws ++ vs)

  -- The requests that wait.
  abbrev pub asks : List (Waiting S Q R) → List Q
  asks [] = []
  asks (w ∷ ws) = w.0 ∷ asks ws
