-- ===== src/Admin/Panel/Session.antt =====
-- What every page of the panel keeps of the admin's session: the stored token stays, or is removed.
use wgtemporary_email.Base.{◌≡◌, refl, ◌⊎◌, inl, inr, Bool-cases, none, ◌==◌}
use wgtemporary_email.Base.Task.Schedule.{Keeps}
use wgtemporary_email.Api.{Exchange, rejected, answer, is_ok}
use wgtemporary_email.Admin.Client.{Stored, Outcome, receive}
use wgtemporary_email.Admin.Requests.{AdminRequest, AdminSuccess}
use wgtemporary_email.Admin.Panel.{Panel, PanelJob, ask}

-- Nothing signs in: the token is the first one still, or it is gone.
abbrev pub StaysOr : Stored → Stored → Type 0
StaysOr first stored = (stored ≡ first) ⊎ (stored ≡ none)

receive-StaysOr :
    {B : Type 0} (e : Exchange B) (first stored : Stored)
    → StaysOr first stored
    → StaysOr first (receive e stored).0
unfolding receive
receive-StaysOr rejected first stored h = h
receive-StaysOr (answer status body) first stored h = elim (Bool-cases (status == 401)) [
  | inl expired ↦ rw expired (inr refl)
  | inr other ↦
      rw other (elim (Bool-cases (is_ok status)) [ inl ok ↦ rw ok h | inr failed ↦ rw failed h ])
]

module _ {V : Type 0} (Q : V → Type 0) (first : Stored) where
  -- The page's own invariant, and the session's.
  abbrev pub IsKept : Panel V → Type 0
  IsKept s = Q s.view × StaysOr first s.stored

  -- Whatever `request` does to the session is kept; what follows it keeps the invariant where it does so
  -- from every state that has it.
  pub ask-Keeps :
      (q : AdminRequest) (k : Outcome (AdminSuccess q) → PanelJob V) (s : Panel V)
      → IsKept s
      → ((o : Outcome (AdminSuccess q)) (s' : Panel V) → IsKept s' → Keeps IsKept (k o) s')
      → Keeps IsKept (ask q k) s
  ask-Keeps q k s p h = (
    p,
    λ e s' p'.
        h (receive e none).1 (record s' { stored = (receive e s'.stored).0 })
          (p'.0, receive-StaysOr e first s'.stored p'.1),
  )
