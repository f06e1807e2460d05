-- ===== src/Bridge/Submission/Taken.antt =====
-- What the lease of a submission does to the service.
use server_fs_mcp.Bridge.Errors
use server_fs_mcp.Prelude.{
  Option, String, none, some, ◌==◌, ◌≡◌, refl, inl, inr, Bool-cases, ◌∷◌, false, true, ◌⊎◌, any,
  Option-cases,
}
use server_fs_mcp.Bridge.Errors.{ok, err, Result, Result-cases, Code}
use server_fs_mcp.Bridge.Lease.{lease_id}
use server_fs_mcp.Bridge.Policy.{WorkdirAgentPolicy, AgentProfile, writes}
use server_fs_mcp.Bridge.Submission.{
  SubmissionHost, ServiceState, granted, held_elsewhere, unavailable, LockAnswer, Moment,
}
use server_fs_mcp.Bridge.Submission.Lease.{
  take_lock, make_way, way_for, lease_for, acquire_exclusive,
}
use server_fs_mcp.Bridge.Lease.Artifacts.{validate_lease_id}

LockAnswer-cases : (a : LockAnswer) → (a ≡ granted) ⊎ (a ≡ held_elsewhere) ⊎ (a ≡ unavailable)
LockAnswer-cases granted = inl refl
LockAnswer-cases held_elsewhere = inr (inl refl)
LockAnswer-cases unavailable = inr (inr refl)

module _ (host : SubmissionHost) where
  open host use {recovery, lock}

  -- the service as a submission finds it when it asks for its lease
  abbrev pub met : AgentProfile → WorkdirAgentPolicy → Moment → ServiceState → ServiceState
  met profile policy moment st = (way_for host profile policy moment st).1

  -- what stands after a try for a lease, which was asked for in the state `before`
  pub record IsTaken (profile : AgentProfile) (policy : WorkdirAgentPolicy)
      (before after : ServiceState) (answer : Result (Option String)) : Type 0 where
    pub outcome :
        ((c : Code) × (answer ≡ err c) × (after ≡ before))
        ⊎ ((answer ≡ ok none) × (after ≡ before) × (writes profile ≡ false))
        ⊎ ((lease : String) × (answer ≡ ok (some lease))
            × (writes profile ≡ true)
            × (lease_id policy.slot policy.alias ≡ some lease)
            × (any (λ l. l == lease) before.locked ≡ false)
            × (lock lease ≡ granted)
            × (after ≡ record before { locked = lease ∷ before.locked }))

  acquire_exclusive-cases :
      (lease : String) (st : ServiceState)
      → ((c : Code) × (acquire_exclusive host lease st ≡ (err c, st)))
        ⊎ ((any (λ l. l == lease) st.locked ≡ false)
            × (lock lease ≡ granted)
            × (acquire_exclusive host lease st ≡ (ok tt, record st { locked = lease ∷ st.locked })))
  unfolding acquire_exclusive take_lock
  acquire_exclusive-cases lease st = elim (Option-cases (validate_lease_id lease)) [
    | inl e ↦ inl (Errors.not_a_bridge_error, simp e)
    | inr (v, e) ↦ elim (Bool-cases (any (λ l. l == lease) st.locked)) [
      | inl f ↦ inl (Errors.workdir_busy, simp (e, f))
      | inr f ↦ elim (LockAnswer-cases (lock lease)) [
        | inl g ↦ inr (f, g, simp (e, f, g))
        | inr (inl g) ↦ inl (Errors.workdir_busy, simp (e, f, g))
        | inr (inr g) ↦ inl (Errors.lock_path_unsafe, simp (e, f, g))
      ]
    ]
  ]

  pub met_reader :
      (profile : AgentProfile) (policy : WorkdirAgentPolicy) (moment : Moment) (st : ServiceState)
      → writes profile ≡ false
      → way_for host profile policy moment st ≡ (ok none, st)
  unfolding way_for
  met_reader profile policy moment st reads = rw reads refl

  -- a writer that has its way asks for the lease of its workdir
  way_for-cases :
      (profile : AgentProfile) (policy : WorkdirAgentPolicy) (moment : Moment) (st : ServiceState)
      → ((c : Code) × ((way_for host profile policy moment st).0 ≡ err c))
        ⊎ (((way_for host profile policy moment st).0 ≡ ok none) × (writes profile ≡ false))
        ⊎ ((lease : String) × ((way_for host profile policy moment st).0 ≡ ok (some lease))
            × (writes profile ≡ true)
            × (lease_id policy.slot policy.alias ≡ some lease))
  unfolding way_for
  way_for-cases profile policy moment st = elim (Bool-cases (writes profile)) [
    | inr reads ↦ inr (inl (rw reads refl, reads))
    | inl w ↦ elim (Option-cases (lease_id policy.slot policy.alias)) [
      | inl e ↦ inl (Errors.not_a_bridge_error, rw (w, e) refl)
      | inr (lease, e) ↦ elim (Result-cases (make_way host lease moment st).0) [
        | inr (c, f) ↦ inl (c, rw (w, e, f) refl)
        | inl (u, f) ↦ inr (inr (lease, rw (w, e, f) refl, w, e))
      ]
    ]
  ]

  pub lease_for-IsTaken :
      (profile : AgentProfile) (policy : WorkdirAgentPolicy) (moment : Moment) (st : ServiceState)
      → let r = lease_for host profile policy moment st in
        IsTaken profile policy (met profile policy moment st) r.1 r.0
  unfolding lease_for
  lease_for-IsTaken profile policy moment st =
      let mid = met profile policy moment st in
      elim (way_for-cases profile policy moment st) [
        | inl (c, e) ↦ rw e (record { outcome = inl (c, refl, refl) })
        | inr (inl (e, reads)) ↦ rw e (record { outcome = inr (inl (refl, refl, reads)) })
        | inr (inr (lease, e, w, named)) ↦ elim (acquire_exclusive-cases lease mid) [
          | inl (c, k) ↦ rw (e, k) (record { outcome = inl (c, refl, refl) })
          | inr (free, given, k) ↦
              rw (e, k) (record { outcome = inr (inr (lease, refl, w, named, free, given, refl)) })
        ]
      ]
