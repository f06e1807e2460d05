-- ===== src/Bridge/Store/Moves.antt =====
-- The tables implement the state machine of state.py: a task only moves along the transition rules.
pub mod Runs
use mathlib.Core.Option.{some-injective}
use server_fs_mcp.Bridge.Status.{TaskStatus, can_transition, is_terminal, interrupted, running}
use server_fs_mcp.Prelude.{
  String, ◌≡◌, ◌⊎◌, true, some, inl, Bool, refl, if◌then◌else◌, eq_iff, ap, ◌==◌, Bool-cases, inr,
  sym, ◌∙◌, false, List, ◌∷◌, [], none, arith, All, map,
}
use server_fs_mcp.Bridge.Store.Tables.{TaskRow, Db, of_id, Timestamp}
use server_fs_mcp.Sql.{select_one, update, select_all}
use server_fs_mcp.Bridge.Store.Consistent.{KeepsKeys, IsConsistent}
use server_fs_mcp.Sql.Rows.{
  select_one-update, select_one-holds, select_one-append, select_one-delete,
}
use server_fs_mcp.Bridge.Store.Calls.{
  Call, remove, perform, create, transition, set_ids, append, ask, answer, abandon, unask,
  interrupt_all, run, IsProper,
}
use server_fs_mcp.Bridge.Store.Tasks.{delete_tasks, in_ids, new_row, moved, is_active, named}
use server_fs_mcp.Bridge.Store.Restart.{
  interrupt_ids, interrupt_nonterminal_tasks, active_ids, interrupt,
}
use server_fs_mcp.Bridge.Status.Lifecycle.{terminal_iff_final, Walk, Walk-terminal, here, step}
use server_fs_mcp.Bridge.Store.Consistent.Tasks.{
  create_task-effect, transition_task-effect, moved-KeepsKeys,
}
use server_fs_mcp.Bridge.Store.Consistent.Names.{set_native_ids-effect, named-KeepsKeys}
use server_fs_mcp.Bridge.Store.Consistent.Events.{append_event-effect}
use server_fs_mcp.Bridge.Store.Consistent.Requests.{
  create_pending_request-effect, set_waiting-KeepsKeys,
}
use server_fs_mcp.Bridge.Store.Requests.{set_waiting, waits_for, unwait}
use server_fs_mcp.Bridge.Store.Consistent.Answers.{
  resolve_request-effect, waits_for-of_id, abandon_pending_request-effect,
  stale_task_request-effect, unwait-KeepsKeys,
}
use server_fs_mcp.Sql.Keys.{only_row}
use server_fs_mcp.Bridge.Store.Events.{counted_up}
use server_fs_mcp.Bridge.Store.Consistent.Runs.{perform-IsConsistent}

-- a status stays, or moves along one rule
abbrev pub Moves : TaskStatus → TaskStatus → Type 0
Moves s t = (t ≡ s) ⊎ (can_transition s t ≡ true)

-- the task stands in the tables, in a status that the old one could move to
pub record Continues (id : String) (t : TaskRow) (db : Db) : Type 0 where
  pub row : TaskRow
  pub found : select_one (of_id id) db.tasks ≡ some row
  pub moves : Moves t.status row.status

module _ (id : String) (t : TaskRow) (db : Db)
    (found : select_one (of_id id) db.tasks ≡ some t) where
  unchanged : (after : Db) → after ≡ db → Continues id t after
  unchanged after e = record { row = t; found = rw e found; moves = inl refl }

  -- an update whose effect on the row itself is known
  updated :
      (p : TaskRow → Bool) (f : TaskRow → TaskRow) (after : Db)
      → after.tasks ≡ update p f db.tasks
      → KeepsKeys f
      → (p t ≡ true → Moves t.status (f t).status)
      → Continues id t after
  updated p f after e k m = record {
    row = if p t then f t else t;
    found = rw e (
        select_one-update (of_id id) p f (λ x. ap (λ (u : String). u == id) (k.same_id x)) db.tasks
          t found);
    moves = elim (Bool-cases (p t)) [ inl hit ↦ rw hit (m hit) | inr miss ↦ rw miss (inl refl) ];
  }

  -- an update of the row that was selected by its id
  updated_row :
      (target : String) (row : TaskRow) (p : TaskRow → Bool) (f : TaskRow → TaskRow) (after : Db)
      → select_one (of_id target) db.tasks ≡ some row
      → ((x : TaskRow) → p x ≡ true → of_id target x ≡ true)
      → after.tasks ≡ update p f db.tasks
      → KeepsKeys f
      → Moves row.status (f row).status
      → Continues id t after
  updated_row target row p f after selected narrow e k m = updated p f after e k (λ hit.
      let here : t.task_id ≡ id =
        (eq_iff t.task_id id).0 (select_one-holds (of_id id) db.tasks t found) in
      let there : t.task_id ≡ target = (eq_iff t.task_id target).0 (narrow t hit) in
      let same : row ≡ t = some-injective row t (
        sym selected
        ∙ ap (λ (u : String). select_one (of_id u) db.tasks) (sym there ∙ here)
        ∙ found) in
      rw same at m)

pub interrupted-Moves : (s : TaskStatus) → is_terminal s ≡ false → Moves s interrupted
interrupted-Moves s live = inr (((terminal_iff_final s).1 live).1)

pub is_active-live : (t : TaskRow) → is_active t ≡ true → is_terminal t.status ≡ false
is_active-live t h = ground arith

-- what is listed as active is active, where an id names one row
pub active_in :
    (id : String) (t : TaskRow) (ts : List TaskRow)
    → All (λ u. of_id id u ≡ true → u ≡ t) ts
    → in_ids (map (λ (u : TaskRow). u.task_id) (select_all is_active ts)) id ≡ true
    → is_active t ≡ true
unfolding select_all
active_in id t [] only h = cc
active_in id t (u ∷ us) only h = elim (Bool-cases (is_active u)) [
  | inr idle ↦ active_in id t us only.1 (rw idle at h)
  | inl busy ↦ elim (Bool-cases (id == u.task_id)) [
    | inl hit ↦
        ap is_active (sym (only.0 (ground (arith, eq_iff id u.task_id, eq_iff u.task_id id))))
        ∙ busy
    | inr miss ↦ active_in id t us only.1 (rw miss at (rw busy at h))
  ]
]

pub interrupt-KeepsKeys : (now : Timestamp) → KeepsKeys (interrupt now)
interrupt-KeepsKeys now = record {
  same_id = λ t. refl;
  same_key = λ t. refl;
  same_count = λ t. refl;
}

pub status_kept : (b : Bool) (t : TaskRow) → Moves t.status (if b then counted_up t else t).status
status_kept true t = inl refl
status_kept false t = inl refl
