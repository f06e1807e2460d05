-- ===== src/Bridge/Errors.antt =====
-- errors.py: `BridgeError` by its code; the messages are left out. `not_a_bridge_error` is every
-- other exception, which `except BridgeError` lets pass.
-- An action reads and writes a state and may raise; what it wrote before raising stays written.
use server_fs_mcp.Prelude.{Bool, false, true, ◌≡◌, ◌⊎◌, inl, inr, refl, ap}

pub data Code : Type 0 where
  task_not_found task_exists task_limit_reached idempotency_conflict : Code
  invalid_transition event_limit_reached : Code
  request_pending request_exists request_not_found request_already_resolved request_stale : Code
  workdir_not_found agent_disabled runtime_not_allowed profile_not_allowed : Code
  invalid_workdir_path workdir_path_not_found : Code
  workdir_recovery_required workdir_busy lock_path_unsafe : Code
  session_not_resumable runtime_unavailable model_override_unsupported : Code
  bridge_closed invalid_request prompt_too_large : Code
  repo_ops_disabled workdir_read_only : Code
  invalid_question_answer invalid_approval_decision permission_outside_policy : Code
  interaction_too_large interaction_timed_out provider_error : Code
  not_a_bridge_error : Code

pub data Result {ℓ} (A : Type ℓ) : Type ℓ where
  ok : A → Result A
  err : Code → Result A

abbrev pub Action {ℓ} : Type ℓ → Type ℓ → Type ℓ
Action S A = S → Result A × S

module _ {ℓ} {S A : Type ℓ} where
  abbrev pub pure : A → Action S A
  pure a s = (ok a, s)

  abbrev pub raise : Code → Action S A
  raise c s = (err c, s)

module _ {ℓ} {S A B : Type ℓ} where
  abbrev continue : Result A → (A → Action S B) → Action S B
  continue (ok a) f s = f a s
  continue (err c) f s = (err c, s)

  infixl 5 ◌>>=◌ ◌>>◌
  abbrev pub ◌>>=◌ : Action S A → (A → Action S B) → Action S B
  ◌>>=◌ m f s = continue (m s).0 f (m s).1

  abbrev pub ◌>>◌ : Action S A → Action S B → Action S B
  m >> k = m >>= λ _. k

-- a computation without state goes on after a result
abbrev pub bind {ℓ} : {A B : Type ℓ} → Result A → (A → Result B) → Result B
bind (ok a) f = f a
bind (err c) f = err c

-- `except BridgeError`
abbrev pub is_bridge_error : Code → Bool
is_bridge_error not_a_bridge_error = false
is_bridge_error _ = true

pub Result-cases {ℓ} :
    {A : Type ℓ} (r : Result A) → ((a : A) × (r ≡ ok a)) ⊎ ((c : Code) × (r ≡ err c))
Result-cases (ok a) = inl (a, refl)
Result-cases (err c) = inr (c, refl)

-- an action that gives a result has gone on from the result of its first part
pub >>=-eq-ok {ℓ} :
    {S A B : Type ℓ} (m : Action S A) (f : A → Action S B) (s t : S) (b : B)
    → (m >>= f) s ≡ (ok b, t)
    → (a : A) × (mid : S) × (m s ≡ (ok a, mid)) × (f a mid ≡ (ok b, t))
>>=-eq-ok m f s t b h = elim (Result-cases (m s).0) [
  | inl (a, e) ↦ (a, (m s).1, ap (λ r. (r, (m s).1)) e, rw e at h)
  | inr (c, e) ↦ cc (rw e at h)
]

-- an action without state that gives a result has not failed
pub bind-eq-ok {ℓ} :
    {A B : Type ℓ} (r : Result A) (f : A → Result B) (b : B)
    → bind r f ≡ ok b
    → (a : A) × (r ≡ ok a) × (f a ≡ ok b)
bind-eq-ok (ok a) f b h = (a, refl, h)
bind-eq-ok (err c) f b h = cc

pub ok-injective {ℓ} : {A : Type ℓ} (a b : A) → ok a ≡ ok b → a ≡ b
ok-injective a b h = cc
