-- ===== src/Base/Task/Schedule.antt =====
-- Every interleaving of a page's tasks, and the rule that proves an invariant of all of them.
use mathlib.Core.Path.{◌≡◌, refl}
use mathlib.Core.Bool.{Bool, true, false}
use mathlib.Core.List.{List, [], ◌∷◌, ◌++◌}
use wgtemporary_email.Base.Lists.{All, All-append}
use wgtemporary_email.Base.Tests.{if◌then◌else◌}
use wgtemporary_email.Base.Task.{Task, done, update, inspect, call, spawn, Waiting, run}

module _ {S Q : Type 0} {R : Q → Type 0} where
  -- Run from `s`, the task stands at a state with `P` wherever it waits or ends, whatever its requests
  -- are answered with, if it is resumed at states with `P`.
  abbrev pub Keeps : (S → Type 0) → Task S Q R → S → Type 0
  Keeps P done s = P s
  Keeps P (update f t) s = Keeps P t (f s)
  Keeps P (inspect f) s = Keeps P (f s) s
  Keeps P (call q k) s = P s × ((r : R q) (s' : S) → P s' → Keeps P (k r) s')
  Keeps P (spawn t u) s = Keeps P t s × Keeps P u (run t s).0

  abbrev pub KeepsOn : (S → Type 0) → Waiting S Q R → Type 0
  KeepsOn P w = (r : R w.0) (s : S) → P s → Keeps P (w.1 r) s

  pub if-Keeps :
      (P : S → Type 0) (b : Bool) (t u : Task S Q R) (s : S)
      → Keeps P t s
      → Keeps P u s
      → Keeps P (if b then t else u) s
  if-Keeps P true t u s h k = h
  if-Keeps P false t u s h k = k

  -- The branches may use the test that leads to them.
  pub branch-Keeps :
      (P : S → Type 0) (b : Bool) (t u : Task S Q R) (s : S)
      → (b ≡ true → Keeps P t s)
      → (b ≡ false → Keeps P u s)
      → Keeps P (if b then t else u) s
  branch-Keeps P true t u s h k = h refl
  branch-Keeps P false t u s h k = k refl

  pub run-Keeps :
      (P : S → Type 0) (t : Task S Q R) (s : S)
      → Keeps P t s
      → P (run t s).0 × All (KeepsOn P) (run t s).1
  run-Keeps P done s k = (k, tt)
  run-Keeps P (update f t) s k = run-Keeps P t (f s) k
  run-Keeps P (inspect f) s k = run-Keeps P (f s) s k
  run-Keeps P (call q c) s k = (k.0, (k.1, tt))
  run-Keeps P (spawn t u) s k =
      let (p, ws) = run-Keeps P t s k.0 in
      let (p', vs) = run-Keeps P u (run t s).0 k.1 in
      (p', All-append (KeepsOn P) (run t s).1 (run u (run t s).0).1 ws vs)

  All-remove :
      (P : S → Type 0) (before : List (Waiting S Q R)) (w : Waiting S Q R)
      (after : List (Waiting S Q R))
      → All (KeepsOn P) (before ++ w ∷ after)
      → KeepsOn P w × All (KeepsOn P) (before ++ after)
  All-remove P [] w after h = (h.0, h.1)
  All-remove P (v ∷ before) w after h =
      let (here, rest) = All-remove P before w after h.1 in (here, (h.0, rest))

-- What a page can come to from `first`, where `pending` waits: an event starts a task (`Starts s t`:
-- the page at `s` can start `t`), or an answer resumes one that waits. `commit` is what React does
-- after each uninterrupted stretch: it renders, and runs the effects whose dependencies changed.
pub data Reach {S Q : Type 0} {R : Q → Type 0} (Starts : S → Task S Q R → Type 0) (commit : S → S)
    (first : S) (pending : List (Waiting S Q R)) : S → List (Waiting S Q R) → Type 0 where
  opened : Reach Starts commit first pending first pending
  start :
      {s : S} {ws : List (Waiting S Q R)} (t : Task S Q R)
      → Reach Starts commit first pending s ws
      → Starts s t
      → Reach Starts commit first pending (commit (run t s).0) (ws ++ (run t s).1)
  resume :
      {s : S} (before : List (Waiting S Q R)) (w : Waiting S Q R) (after : List (Waiting S Q R))
      (r : R w.0)
      → Reach Starts commit first pending s (before ++ w ∷ after)
      → Reach Starts commit first pending
          (commit (run (w.1 r) s).0)
          ((before ++ after) ++ (run (w.1 r) s).1)

module _ {S Q : Type 0} {R : Q → Type 0} {Starts : S → Task S Q R → Type 0} {commit : S → S}
    {first : S} {pending : List (Waiting S Q R)} (P : S → Type 0)
    (on_commit : (s : S) → P s → P (commit s))
    (on_start : (s : S) (t : Task S Q R) → P s → Starts s t → Keeps P t s) (at_first : P first)
    (at_pending : All (KeepsOn P) pending) where
  -- What holds at first, and is kept by each task that can start or that waits at first, holds in
  -- every reachable state.
  pub Reach-Keeps :
      {s : S} {ws : List (Waiting S Q R)}
      → Reach Starts commit first pending s ws
      → P s × All (KeepsOn P) ws
  Reach-Keeps opened = (at_first, at_pending)
  Reach-Keeps (start {s} {ws} t reached can) =
      let (p, waiting) = Reach-Keeps reached in
      let (p', more) = run-Keeps P t s (on_start s t p can) in
      (on_commit _ p', All-append (KeepsOn P) ws (run t s).1 waiting more)
  Reach-Keeps (resume {s} before w after r reached) =
      let (p, waiting) = Reach-Keeps reached in
      let (here, rest) = All-remove P before w after waiting in
      let (p', more) = run-Keeps P (w.1 r) s (here r s p) in
      (on_commit _ p', All-append (KeepsOn P) (before ++ after) (run (w.1 r) s).1 rest more)
