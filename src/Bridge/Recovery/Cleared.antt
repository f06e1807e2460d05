-- ===== src/Bridge/Recovery/Cleared.antt =====
-- When recovery clears a guard: only for a provider that is proven inactive.
use server_fs_mcp.Bridge.Errors
use server_fs_mcp.Prelude.{true, false, none, some, ap, Option, Bool-cases, sym, ◌∙◌}
use mathlib.Core.Option.{some-injective}
use server_fs_mcp.Bridge.Errors.{Result, ok, err, Result-cases, Code}
use server_fs_mcp.Bridge.Recovery.{
  RecoveryHost, probe_reconciliation, reconcile_task_of, World, asked, effective_provider_active,
  reconcile_guard, ReconcileResult,
}
use server_fs_mcp.Prelude.{String, Bool, ◌≡◌, ◌⊎◌, refl, some, false, inr, inl, Option-cases}
use server_fs_mcp.Bridge.Store.Tasks.{get_task}
use server_fs_mcp.Bridge.Store.Tables.{Timestamp, Db, TaskRecord, of_id, task_from_row}
use server_fs_mcp.Bridge.Guards.Files.{ActiveGuard, Dir, read, value, Field, null, malformed}
use server_fs_mcp.Sql.{select_one}

pub Field-cases : (f : Field String) → (f ≡ null) ⊎ (f ≡ malformed) ⊎ ((s : String) × (f ≡ value s))
Field-cases null = inl refl
Field-cases malformed = inr (inl refl)
Field-cases (value s) = inr (inr (s, refl))

pub get_task-cases :
    (id : String) (db : Db)
    → (get_task id db ≡ (err Errors.task_not_found, db))
      ⊎ ((task : TaskRecord) × (get_task id db ≡ (ok task, db)))
unfolding get_task
get_task-cases id db = elim (Option-cases (select_one (of_id id) db.tasks)) [
  | inl e ↦ inl (rw e refl)
  | inr (row, e) ↦ inr (task_from_row row, rw e refl)
]

module _ (provider : RecoveryHost) where
  open provider use {host, adapters}

  -- the adapter of a task's runtime says that the agent is not active, or no adapter says what it is
  -- and the earlier bridge is proven to have stopped
  abbrev pub IsStopped : TaskRecord → Bool → Type 0
  IsStopped task stopped =
      ((reconcile_task : TaskRecord → Option ReconcileResult) × (result : ReconcileResult)
        × (adapters task.runtime ≡ some reconcile_task)
        × (reconcile_task task ≡ some result)
        × (result.provider_active ≡ some false))
      ⊎ ((stopped ≡ true)
          × ((reconcile_task : TaskRecord → Option ReconcileResult) (result : ReconcileResult)
              → adapters task.runtime ≡ some reconcile_task
              → reconcile_task task ≡ some result
              → result.provider_active ≡ none))

  -- the guard of a lease names a task whose agent is known to run no more
  abbrev pub IsInactive : String → Bool → World → Type 0
  IsInactive lease_id stopped w =
      (g : ActiveGuard) × (id : String) × (task : TaskRecord) × (read host lease_id w.guards
        ≡ ok (some g))
      × (g.payload.task_id ≡ value id)
      × ((get_task id w.db).0 ≡ ok task)
      × IsStopped task stopped

  effective-cases :
      (result : ReconcileResult) (stopped : Bool)
      → effective_provider_active result stopped ≡ some false
      → (result.provider_active ≡ some false) ⊎ ((stopped ≡ true) × (result.provider_active ≡ none))
  unfolding effective_provider_active
  effective-cases result stopped h = elim (Option-cases result.provider_active) [
    | inr (active, e) ↦ inl (e ∙ rw (e, effective_provider_active) at h)
    | inl e ↦ elim (Bool-cases stopped) [
      | inl proven ↦ inr (proven, e)
      | inr unproven ↦ cc (rw (e, unproven, effective_provider_active) at h)
    ]
  ]

  effective-IsStopped :
      (task : TaskRecord) (stopped : Bool)
      → effective_provider_active (asked provider task) stopped ≡ some false
      → IsStopped task stopped
  unfolding asked
  effective-IsStopped task stopped h =
      let told = effective-cases (asked provider task) stopped h in
      elim (Option-cases (adapters task.runtime)) [
        | inl e ↦ elim told [
          | inl said ↦ cc (rw (e, asked) at said)
          | inr (proven, _) ↦ inr (proven, λ reconcile_task result there _. cc (e, there))
        ]
        | inr (reconcile_task, e) ↦ elim (Option-cases (reconcile_task task)) [
          | inl f ↦ elim told [
            | inl said ↦ cc (rw (e, f, asked) at said)
            | inr (proven, _) ↦ inr (
              proven,
              λ other result there given.
                  let same : reconcile_task ≡ other =
                    some-injective reconcile_task other (sym e ∙ there) in
                  cc (sym f ∙ ap (λ r. r task) same ∙ given),
            )
          ]
          | inr (answer, f) ↦
              let is : asked provider task ≡ answer = rw (e, f, asked) in
              elim told [
                | inl said ↦ inl (
                  reconcile_task,
                  answer,
                  e,
                  f,
                  ap ReconcileResult.provider_active (sym is) ∙ said,
                )
                | inr (proven, unsaid) ↦ inr (
                  proven,
                  λ other result there given.
                      let same : reconcile_task ≡ other =
                        some-injective reconcile_task other (sym e ∙ there) in
                      let one : answer ≡ result =
                        some-injective answer result (sym f ∙ ap (λ r. r task) same ∙ given) in
                      ap ReconcileResult.provider_active (sym one ∙ sym is) ∙ unsaid,
                )
              ]
        ]
      ]

  pub probe_reconciliation-asked :
      (meanwhile : Db → Db) (id : String) (now : Timestamp) (db : Db) (task : TaskRecord)
      → get_task id db ≡ (ok task, db)
      → (probe_reconciliation provider meanwhile id now db).0 ≡ ok (asked provider task)
  unfolding probe_reconciliation
  probe_reconciliation-asked meanwhile id now db task h = rw h refl

  -- what a reconciliation that raises leaves of the guards
  abbrev AreLeft : (Dir → Dir) → World → Result (Option ReconcileResult) × World → Type 0
  AreLeft guards_meanwhile w r =
      ((r.1.guards ≡ w.guards) ⊎ (r.1.guards ≡ guards_meanwhile w.guards))
      × ((c : Code) × (r.0 ≡ err c))

  reconcile_task_of-cases :
      (meanwhile : Db → Db) (guards_meanwhile : Dir → Dir) (lease_id id : String) (stopped : Bool)
      (now : Timestamp) (w : World)
      → AreLeft guards_meanwhile w
          (reconcile_task_of provider meanwhile guards_meanwhile lease_id id stopped now w)
        ⊎ ((task : TaskRecord) × ((get_task id w.db).0 ≡ ok task) × IsStopped task stopped)
  unfolding reconcile_task_of
  reconcile_task_of-cases meanwhile guards_meanwhile lease_id id stopped now w =
      elim (get_task-cases id w.db) [
        | inl e ↦ inl (rw e (inl refl, (_, refl)))
        | inr (task, e) ↦
            let p = probe_reconciliation-asked meanwhile id now w.db task e in
            elim (Option-cases (effective_provider_active (asked provider task) stopped)) [
              | inl e2 ↦ inl (rw (e, p, e2) (inr refl, (_, refl)))
              | inr (true, e2) ↦ inl (rw (e, p, e2) (inr refl, (_, refl)))
              | inr (false, e2) ↦ inr (task, ap (λ r. r.0) e, effective-IsStopped task stopped e2)
            ]
      ]

  -- what a reconciliation of the guard of a lease may leave and answer
  pub record IsReconciled (guards_meanwhile : Dir → Dir) (lease_id : String) (stopped : Bool)
      (w : World) (r : Result (Option ReconcileResult) × World) : Type 0 where
    pub guards :
        (r.1.guards ≡ w.guards)
        ⊎ (r.1.guards ≡ guards_meanwhile w.guards)
        ⊎ IsInactive lease_id stopped w
    pub passed :
        (answer : Option ReconcileResult)
        → r.0 ≡ ok answer
        → (read host lease_id w.guards ≡ ok none) ⊎ IsInactive lease_id stopped w

  left-IsReconciled :
      (guards_meanwhile : Dir → Dir) (lease_id : String) (stopped : Bool) (w : World)
      (r : Result (Option ReconcileResult) × World)
      → AreLeft guards_meanwhile w r
      → IsReconciled guards_meanwhile lease_id stopped w r
  left-IsReconciled guards_meanwhile lease_id stopped w r (left, (c, raised)) = record {
    guards = elim left [ inl same ↦ inl same | inr others ↦ inr (inl others) ];
    passed = λ answer h. cc (raised, h);
  }

  inactive-IsReconciled :
      (guards_meanwhile : Dir → Dir) (lease_id : String) (stopped : Bool) (w : World)
      (r : Result (Option ReconcileResult) × World)
      → IsInactive lease_id stopped w
      → IsReconciled guards_meanwhile lease_id stopped w r
  inactive-IsReconciled guards_meanwhile lease_id stopped w r idle = record {
    guards = inr (inr idle);
    passed = λ answer h. inr idle;
  }

  -- Reconciling the guard of a lease passes only where no guard stands, or where the adapter says that
  -- the agent of the task that the guard names is not active, or no adapter says what it is while the
  -- earlier bridge is proven to have stopped; only there the guards change, but for what other tasks do
  -- to them while the adapter is asked.
  pub reconcile_guard-IsInactive :
      (meanwhile : Db → Db) (guards_meanwhile : Dir → Dir) (lease_id : String) (stopped : Bool)
      (now : Timestamp) (w : World)
      → IsReconciled guards_meanwhile lease_id stopped w
          (reconcile_guard provider meanwhile guards_meanwhile lease_id stopped now w)
  unfolding reconcile_guard
  reconcile_guard-IsInactive meanwhile guards_meanwhile lease_id stopped now w =
      let left = left-IsReconciled guards_meanwhile lease_id stopped w in
      elim (Result-cases (read host lease_id w.guards)) [
        | inr (c, e) ↦ rw e (left (err c, w) (inl refl, (c, refl)))
        | inl (none, e) ↦ rw e (record { guards = inl refl; passed = λ answer h. inl e })
        | inl (some g, e) ↦ elim (Field-cases g.payload.task_id) [
          | inl f ↦ rw (e, f) (left (err Errors.workdir_recovery_required, w) (inl refl, (_, refl)))
          | inr (inl f) ↦
              rw (e, f) (left (err Errors.workdir_recovery_required, w) (inl refl, (_, refl)))
          | inr (inr (id, f)) ↦
              let r =
                reconcile_task_of provider meanwhile guards_meanwhile lease_id id stopped now w in
              elim (reconcile_task_of-cases meanwhile guards_meanwhile lease_id id stopped now w) [
                | inl same ↦ rw (e, f) (left r same)
                | inr (task, found, inactive) ↦
                    rw (e, f)
                      (inactive-IsReconciled guards_meanwhile lease_id stopped w r
                        (g, id, task, e, f, found, inactive))
              ]
        ]
      ]
