-- ===== src/Bridge/Status/Lifecycle.antt =====
-- The lifecycle of a task as a walk through the transition rules.
use server_fs_mcp.Prelude.{◌≡◌, refl, true, false, arith, Bool-cases, inl, inr}
use server_fs_mcp.Bridge.Status.{TaskStatus, cancelled, interrupted, is_terminal, can_transition}

-- a walk of accepted transitions
pub data Walk : TaskStatus → TaskStatus → Type 0 where
  here : {s : TaskStatus} → Walk s s
  step : {s t u : TaskStatus} → can_transition s t ≡ true → Walk t u → Walk s u

-- A status accepts no transition at all exactly when it is terminal; every other one can always be
-- cancelled and interrupted.
pub terminal_iff_final :
    (s : TaskStatus)
    → (is_terminal s ≡ true → (t : TaskStatus) → can_transition s t ≡ false)
      × (is_terminal s ≡ false
          → (can_transition s cancelled ≡ true) × (can_transition s interrupted ≡ true))
unfolding is_terminal can_transition
terminal_iff_final s = (λ h t. ground arith, λ h. ground arith)

pub can_transition-live : (s t : TaskStatus) → can_transition s t ≡ true → is_terminal s ≡ false
can_transition-live s t ok = elim (Bool-cases (is_terminal s)) [
  | inl final ↦ cc ((terminal_iff_final s).0 final t)
  | inr live ↦ live
]

-- No walk leaves a terminal status.
pub Walk-terminal : {s t : TaskStatus} → Walk s t → is_terminal s ≡ true → t ≡ s
Walk-terminal here h = refl
Walk-terminal (step {s = s} {t = t} e w) h = ground (arith, (terminal_iff_final s).0 h t)
