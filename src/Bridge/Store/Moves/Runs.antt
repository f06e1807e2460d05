-- ===== src/Bridge/Store/Moves/Runs.antt =====
-- Through any calls a task only moves along the transition rules.
use server_fs_mcp.Bridge.Status.{is_terminal, running, TaskStatus, can_transition}
use server_fs_mcp.Prelude.{
  String, ◌≡◌, true, some, inl, Bool, refl, if◌then◌else◌, eq_iff, ap, inr, sym, ◌∙◌, false, List,
  ◌∷◌, [], none, All, ◌⊎◌,
}
use server_fs_mcp.Bridge.Store.Tables.{TaskRow, Db, of_id, Timestamp}
use server_fs_mcp.Sql.{select_one}
use server_fs_mcp.Bridge.Store.Consistent.{IsConsistent}
use server_fs_mcp.Sql.Rows.{
  select_one-update, select_one-holds, select_one-append, select_one-delete,
}
use server_fs_mcp.Bridge.Store.Calls.{
  Call, remove, perform, create, transition, set_ids, append, ask, answer, abandon, unask,
  interrupt_all, run, IsProper,
}
use server_fs_mcp.Bridge.Store.Tasks.{delete_tasks, in_ids, new_row, moved, named}
use server_fs_mcp.Bridge.Store.Restart.{
  interrupt_ids, interrupt_nonterminal_tasks, active_ids, interrupt,
}
use server_fs_mcp.Bridge.Status.Lifecycle.{Walk, Walk-terminal, here, step}
use server_fs_mcp.Bridge.Store.Consistent.Tasks.{
  create_task-effect, transition_task-effect, moved-KeepsKeys,
}
use server_fs_mcp.Bridge.Store.Consistent.Names.{set_native_ids-effect, named-KeepsKeys}
use server_fs_mcp.Bridge.Store.Consistent.Events.{append_event-effect}
use server_fs_mcp.Bridge.Store.Consistent.Requests.{
  create_pending_request-effect, set_waiting-KeepsKeys,
}
use server_fs_mcp.Bridge.Store.Requests.{set_waiting, waits_for, unwait}
use server_fs_mcp.Bridge.Store.Consistent.Answers.{
  resolve_request-effect, waits_for-of_id, abandon_pending_request-effect,
  stale_task_request-effect, unwait-KeepsKeys,
}
use server_fs_mcp.Sql.Keys.{only_row}
use server_fs_mcp.Bridge.Store.Events.{counted_up}
use server_fs_mcp.Bridge.Store.Consistent.Runs.{perform-IsConsistent}
use server_fs_mcp.Bridge.Store.Moves.{
  Continues, unchanged, updated, updated_row, interrupt-KeepsKeys, status_kept, interrupted-Moves,
  is_active-live, active_in,
}

abbrev pub removes : String → Call → Bool
removes id (remove ids) = in_ids ids id
removes id _ = false

module _ (id : String) (t : TaskRow) (db : Db) (found : select_one (of_id id) db.tasks ≡ some t)
    (c : IsConsistent db) where
  id_is : t.task_id ≡ id
  id_is = (eq_iff t.task_id id).0 (select_one-holds (of_id id) db.tasks t found)

  interrupt-Continues :
      (ids : List String) (now : Timestamp)
      → (in_ids ids t.task_id ≡ true → is_terminal t.status ≡ false)
      → Continues id t (interrupt_ids ids now db)
  interrupt-Continues [] now live = unchanged id t db found db refl
  interrupt-Continues (i ∷ ids) now live =
      updated id t db found (λ u. in_ids (i ∷ ids) u.task_id) (interrupt now) _ refl
        (interrupt-KeepsKeys now) (λ hit. interrupted-Moves t.status (live hit))

  delete-Continues :
      (ids : List String) → in_ids ids id ≡ false → Continues id t (delete_tasks ids db).1
  unfolding delete_tasks
  delete-Continues [] kept = unchanged id t db found db refl
  delete-Continues (i ∷ ids) kept = record {
    row = t;
    found =
        select_one-delete (of_id id) (λ u. in_ids (i ∷ ids) u.task_id) db.tasks t found
          (ap (in_ids (i ∷ ids)) id_is ∙ kept);
    moves = inl refl;
  }

  -- A call that does not delete a task leaves it where it is or moves it along one rule.
  perform-Continues : (call : Call) → removes id call ≡ false → Continues id t (perform call db)
  unfolding perform interrupt_nonterminal_tasks moved named
  perform-Continues (create n limit now) r = elim (create_task-effect n limit now db) [
    | inl e ↦ unchanged id t db found _ e
    | inr (_, _, _, e) ↦ rw e (record {
      row = t;
      found = select_one-append (of_id id) db.tasks (new_row n now ∷ []) t found;
      moves = inl refl;
    })
  ]
  perform-Continues (transition target s o now) r =
      elim (transition_task-effect target s o now db) [
        | inl e ↦ unchanged id t db found _ e
        | inr (row, selected, ok, e) ↦
            updated_row id t db found target row (of_id target) (moved s o now) _ selected
              (λ x h. h) (ap (λ (d : Db). d.tasks) e) (moved-KeepsKeys s o now) (inr ok)
      ]
  perform-Continues (set_ids target session turn now) r =
      elim (set_native_ids-effect target session turn now db) [
        | inl e ↦ unchanged id t db found _ e
        | inr (row, selected, e) ↦
            updated_row id t db found target row (of_id target) (named session turn now) _ selected
              (λ x h. h) (ap (λ (d : Db). d.tasks) e) (named-KeepsKeys session turn now) (inl refl)
      ]
  perform-Continues (append target event_type payload max now) r =
      elim (append_event-effect target event_type payload max now db c) [
        | inl e ↦ unchanged id t db found _ e
        | inr (row, selected, _, e) ↦ rw e (record {
          row = if of_id target t then counted_up t else t;
          found =
              select_one-update (of_id id) (of_id target) counted_up (λ x. refl) db.tasks t found;
          moves = status_kept (of_id target t) t;
        })
      ]
  perform-Continues (ask n now) r = elim (create_pending_request-effect n now db) [
    | inl e ↦ unchanged id t db found _ e
    | inr (row, selected, _, ok, _, e) ↦
        updated_row id t db found n.task_id row (of_id n.task_id)
          (set_waiting n.waiting_status (some n.request_id) now) _ selected (λ x h. h)
          (ap (λ (d : Db). d.tasks) e)
          (set_waiting-KeepsKeys n.waiting_status (some n.request_id) now) (inr ok)
  ]
  perform-Continues (answer request resolution now) r =
      elim (resolve_request-effect request resolution now db) [
        | inl e ↦ unchanged id t db found _ e
        | inr (req, row, _, _, selected, _, ok, e) ↦
            updated_row id t db found req.task_id row (waits_for req.task_id request)
              (set_waiting running none now) _ selected (waits_for-of_id req.task_id request)
              (ap (λ (d : Db). d.tasks) e) (set_waiting-KeepsKeys running none now) (inr ok)
      ]
  perform-Continues (abandon target now) r = elim (abandon_pending_request-effect target now db) [
    | inl e ↦ unchanged id t db found _ e
    | inr (row, request, selected, _, ok, e) ↦
        updated_row id t db found target row (waits_for target request)
          (set_waiting running none now) _ selected (waits_for-of_id target request)
          (ap (λ (d : Db). d.tasks) e) (set_waiting-KeepsKeys running none now) (inr ok)
  ]
  perform-Continues (unask target now) r = elim (stale_task_request-effect target now db) [
    | inl e ↦ unchanged id t db found _ e
    | inr (row, request, selected, _, e) ↦
        updated_row id t db found target row (waits_for target request) (unwait now) _ selected
          (waits_for-of_id target request) (ap (λ (d : Db). d.tasks) e) (unwait-KeepsKeys now)
          (inl refl)
  ]
  perform-Continues (interrupt_all now) r = interrupt-Continues (active_ids db) now (λ hit.
      is_active-live t (
        active_in id t db.tasks (only_row (λ u. u.task_id) id db.tasks t c.ids found)
          (sym (ap (in_ids (active_ids db)) id_is) ∙ hit)))
  perform-Continues (remove ids) r = delete-Continues ids r

-- the task is there after each of the calls, in the status that it had before the call, or in one to
-- which `can_transition` accepts the move
abbrev pub MovesAlong : String → TaskStatus → List Call → Db → Type 0
MovesAlong id s [] db = Unit
MovesAlong id s (call ∷ calls) db =
    (row : TaskRow) × (select_one (of_id id) (perform call db).tasks ≡ some row)
    × ((row.status ≡ s) ⊎ (can_transition s row.status ≡ true))
    × MovesAlong id row.status calls (perform call db)

-- A task that stands in consistent tables, and that no call deletes, is there after each of any calls,
-- failing or not, and each call leaves its status as it was or moves it along one accepted transition.
pub run_moves :
    (id : String) (calls : List Call) (db : Db) (t : TaskRow)
    → All IsProper calls
    → All (λ call. removes id call ≡ false) calls
    → IsConsistent db
    → select_one (of_id id) db.tasks ≡ some t
    → MovesAlong id t.status calls db
run_moves id [] db t p r c found = tt
run_moves id (call ∷ calls) db t p r c found =
    let next : Continues id t (perform call db) = perform-Continues id t db found c call r.0 in
    (
      next.row,
      next.found,
      next.moves,
      run_moves id calls (perform call db) next.row p.1 r.1 (perform-IsConsistent call db p.0 c)
          next.found,
    )

-- the task of the end of a run, reached by a walk
run_walks :
    (id : String) (calls : List Call) (db : Db) (t : TaskRow)
    → All IsProper calls
    → All (λ call. removes id call ≡ false) calls
    → IsConsistent db
    → select_one (of_id id) db.tasks ≡ some t
    → (row : TaskRow) × (select_one (of_id id) (run calls db).tasks ≡ some row)
      × Walk t.status row.status
unfolding run
run_walks id [] db t p r c found = (t, found, here)
run_walks id (call ∷ calls) db t p r c found =
    let next : Continues id t (perform call db) = perform-Continues id t db found c call r.0 in
    let (row, last, walk) =
      run_walks id calls (perform call db) next.row p.1 r.1 (perform-IsConsistent call db p.0 c)
        next.found in
    (row, last, elim next.moves [ inl same ↦ rw same at walk | inr ok ↦ step ok walk ])

-- A finished task that no call deletes keeps its status through any calls, failing or not.
pub run_keeps_finished :
    (id : String) (calls : List Call) (db : Db) (t : TaskRow)
    → All IsProper calls
    → All (λ call. removes id call ≡ false) calls
    → IsConsistent db
    → select_one (of_id id) db.tasks ≡ some t
    → is_terminal t.status ≡ true
    → (row : TaskRow) × (select_one (of_id id) (run calls db).tasks ≡ some row)
      × (row.status ≡ t.status)
run_keeps_finished id calls db t p r c found final =
    let (row, last, walk) = run_walks id calls db t p r c found in
    (row, last, Walk-terminal walk final)
