-- ===== src/Bridge/Submission/Repeated.antt =====
-- A submission that repeats an idempotency key is answered with the task that has it.
use mathlib.Core.Option.{some-injective}
use server_fs_mcp.Prelude.{
  Option, String, Bool, ℕ, List, none, some, ◌≡◌, refl, true, false, inl, inr, arith, Bool-cases,
  [], ◌∷◌, map, ◌+◌, Option-cases, eq_refl, eq_iff,
}
use server_fs_mcp.Bridge.Errors.{Result, ok, err, Result-cases}
use server_fs_mcp.Sql.{select_one}
use server_fs_mcp.Sql.Keys.{AreDistinct, AreDistinct-delete, matches, taken}
use server_fs_mcp.Bridge.Status.{is_terminal}
use server_fs_mcp.Bridge.Store.Tables.{TaskRow, TaskRecord, Db, of_id, task_from_row, holds}
use server_fs_mcp.Bridge.Store.Tasks.{of_key, get_task_by_idempotency_key, delete_tasks, in_ids}
use server_fs_mcp.Bridge.Store.Consistent.{IsConsistent, idempotency}
use server_fs_mcp.Bridge.Lease.Artifacts.{Host}
use server_fs_mcp.Bridge.Guards.Files.{ActiveGuard, read}
use server_fs_mcp.Bridge.Recovery.{World, task_lease_id}
use server_fs_mcp.Bridge.Recovery.Retention.{gc_retained, gc_from, gc_task, gc_read}
use server_fs_mcp.Bridge.Store.Restart.{list_terminal_before}
use server_fs_mcp.Bridge.Policy.{PolicyRegistry}
use server_fs_mcp.Bridge.Submission.{
  Submission, Submitted, Request, Moment, SubmissionHost, ServiceState, check_arguments,
  check_request,
}
use server_fs_mcp.Bridge.Submission.Prepare.{
  answered, existing_task, idempotent_submission_result, prepare_open,
}
use server_fs_mcp.Bridge.Recovery.Kept.{gc_retained-keeps_active}

taken-selected :
    (key : TaskRow → Option String) (p : TaskRow → Bool) (k : Option String) (ts : List TaskRow)
    (row : TaskRow)
    → select_one p ts ≡ some row
    → matches k (key row) ≡ true
    → taken k (map key ts) ≡ true
unfolding select_one
taken-selected key p k [] row e m = cc
taken-selected key p k (t ∷ ts) row e m = ground (arith, taken-selected key p k ts row)

holds-matches :
    (o : Option String) (key : String) → holds o key ≡ true → matches o (some key) ≡ true
holds-matches none key h = cc
holds-matches (some u) key h = ground (arith, eq_iff u key, eq_iff key u)

-- a selected row is the one with its key
pub found_by_key :
    (key_of : TaskRow → Option String) (p : TaskRow → Bool) (key : String) (ts : List TaskRow)
    (row : TaskRow)
    → AreDistinct (map key_of ts)
    → select_one p ts ≡ some row
    → key_of row ≡ some key
    → select_one (λ t. holds (key_of t) key) ts ≡ some row
unfolding select_one
found_by_key key_of p key [] row d e k = cc
found_by_key key_of p key (t ∷ ts) row d e k = elim (Bool-cases (p t)) [
  | inl hit ↦
      let same : t ≡ row = some-injective t row (rw hit at e) in rw (same, k, eq_refl key) refl
  | inr miss ↦
      let later : select_one p ts ≡ some row = rw miss at e in
      elim (Bool-cases (holds (key_of t) key)) [
        | inr other ↦ rw other (found_by_key key_of p key ts row d.1 later k)
        | inl taken_here ↦
            let full =
              taken-selected key_of p (key_of t) ts row later
                (rw k (holds-matches (key_of t) key taken_here)) in
            absurd (ground (arith, full, d.0))
      ]
]

module _ (host : Host) (spool_deletes : String → Bool) where
  abbrev KeysDistinct : World → Type 0
  KeysDistinct w = AreDistinct (map idempotency w.db.tasks)

  gc_read-keys :
      (task : TaskRecord) (r : Result (Option ActiveGuard)) (w : World)
      → KeysDistinct w
      → KeysDistinct (gc_read host spool_deletes task r w).1
  unfolding gc_read delete_tasks
  gc_read-keys task (err c) w d = ground arith
  gc_read-keys task (ok guard) w d = ground (
    arith,
    AreDistinct-delete idempotency (λ t. in_ids (task.task_id ∷ []) t.task_id) w.db.tasks d,
  )

  gc_task-keys :
      (task : TaskRecord) (w : World)
      → KeysDistinct w
      → KeysDistinct (gc_task host spool_deletes task w).1
  unfolding gc_task
  gc_task-keys task w d = elim (Option-cases (task_lease_id task)) [
    | inl e ↦ rw (e, gc_task) d
    | inr (lease_id, e) ↦ rw (e, gc_task) (gc_read-keys task (read host lease_id w.guards) w d)
  ]

  gc_from-keys :
      (deleted : ℕ) (ts : List TaskRecord) (w : World)
      → KeysDistinct w
      → KeysDistinct (gc_from host spool_deletes deleted ts w).1
  unfolding gc_from
  gc_from-keys deleted [] w d = d
  gc_from-keys deleted (t ∷ ts) w d =
      let next = gc_task-keys t w d in
      elim (Result-cases (gc_task host spool_deletes t w).0) [
        | inr (c, e) ↦ rw e next
        | inl (n, e) ↦ rw e (gc_from-keys (deleted + n) ts (gc_task host spool_deletes t w).1 next)
      ]

  pub gc_retained-keys :
      (cutoff : String) (w : World)
      → KeysDistinct w
      → KeysDistinct (gc_retained host spool_deletes cutoff w).1
  unfolding gc_retained list_terminal_before
  gc_retained-keys cutoff w d = gc_from-keys 0 (list_terminal_before cutoff w.db) w d

-- a stored task that has not ended, with the key and the fingerprint of a submission
pub record Stands (key fingerprint : String) (row : TaskRow) (db : Db) : Type 0 where
  pub found : select_one (of_id row.task_id) db.tasks ≡ some row
  pub active : is_terminal row.status ≡ false
  pub keyed : row.idempotency_key ≡ some key
  pub printed : row.request_fingerprint ≡ some fingerprint

-- what a repeated submission is answered
abbrev pub answer : TaskRow → Submitted
answer row = record {
  task_id = row.task_id;
  status = row.status;
  correlation_id = row.correlation_id;
  idempotency_key = row.idempotency_key;
  preflight = none;
  routing_advice = none;
}

module _ (host : SubmissionHost) (policies : PolicyRegistry) where
  existing_found :
      (key : String) (row : TaskRow) (st : ServiceState)
      → select_one (of_key key) st.world.db.tasks ≡ some row
      → existing_task (some key) st ≡ some (task_from_row row)
  unfolding existing_task get_task_by_idempotency_key
  existing_found key row st e = rw (e, get_task_by_idempotency_key) refl

  same_print :
      (row : TaskRow) (fingerprint : String)
      → row.request_fingerprint ≡ some fingerprint
      → idempotent_submission_result (task_from_row row) fingerprint ≡ ok (answer row)
  unfolding idempotent_submission_result task_from_row
  same_print row fingerprint e = rw (e, eq_refl fingerprint) refl

  -- the state of the service after old tasks are deleted
  abbrev pub swept : Moment → ServiceState → ServiceState
  swept moment st = record st {
    world = (gc_retained host.recovery.host host.spool_deletes moment.cutoff st.world).1;
  }

  pub prepare_open-answers :
      (s : Submission) (moment : Moment) (st : ServiceState) (row : TaskRow) (key : String)
      (model : Option String) (request : Request) (deleted : ℕ)
      → IsConsistent st.world.db
      → s.idempotency_key ≡ some key
      → check_arguments host s ≡ ok model
      → check_request host s model ≡ ok request
      → (gc_retained host.recovery.host host.spool_deletes moment.cutoff st.world).0 ≡ ok deleted
      → Stands key request.fingerprint row st.world.db
      → prepare_open host policies s moment st ≡ (ok (answered (answer row)), swept moment st)
  unfolding prepare_open
  prepare_open-answers s moment st row key model request deleted c k arguments checked gc stands =
      let kept =
        gc_retained-keeps_active host.recovery.host host.spool_deletes moment.cutoff row.task_id row
          st.world c stands.found stands.active in
      let distinct =
        gc_retained-keys host.recovery.host host.spool_deletes moment.cutoff st.world c.keys in
      let found =
        found_by_key idempotency (of_id row.task_id) key (swept moment st).world.db.tasks row
          distinct kept stands.keyed in
      let existing : existing_task s.idempotency_key (swept moment st) ≡ some (task_from_row row) =
        rw k (existing_found key row (swept moment st) found) in
      rw (arguments, gc, checked, existing, same_print row request.fingerprint stands.printed) refl
