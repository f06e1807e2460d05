-- ===== src/Bridge/Recovery/StartupEnds.antt =====
-- The loop of a start over the unfinished tasks reaches each of them.
use mathlib.Core.Option.{some-injective}
use server_fs_mcp.Bridge.Guards.Manager.{list}
use server_fs_mcp.Prelude.{
  refl, true, some, [], ◌∷◌, String, ◌≡◌, Bool, List, ap, ◌==◌, any, map, ◌||◌, arith, Bool-cases,
  inl, inr, ℕ, All, false, ◌+◌, ◌∙◌, sym, eq_iff, All-map,
}
use server_fs_mcp.Bridge.Store.Tables.{task_from_row, TaskRow, TaskRecord, Timestamp, of_id}
use server_fs_mcp.Bridge.Store.Restart.{insert_by, order_by, list_nonterminal_tasks}
use server_fs_mcp.Sql.{select_one, select_all}
use server_fs_mcp.Bridge.Recovery.{RecoveryHost, World}
use server_fs_mcp.Bridge.Recovery.Startup.{
  startup_tasks, startup_task, reconcile_startup, startup_guards,
}
use server_fs_mcp.Bridge.Recovery.Interrupts.{is_resumed, startup_task-HasEnded, bind-HasEnded}
use server_fs_mcp.Bridge.Recovery.Ended.{HasEnded, HasEnded-IsKept, IsKept-refl}
use server_fs_mcp.Bridge.Errors.{Action, ◌>>◌, ok, pure, Result-cases}
use server_fs_mcp.Bridge.Recovery.Started.{
  startup_tasks-WorldCarries, startup_task-WorldCarries, startup_guards-WorldCarries,
}
use server_fs_mcp.Bridge.Store.Consistent.{IsConsistent}
use server_fs_mcp.Bridge.Status.{is_terminal}
use server_fs_mcp.Bridge.Store.Tasks.{is_active}
use server_fs_mcp.Bridge.Recovery.Kept.{All-records, All-order_by, All-select_all, same_row}
use server_fs_mcp.Bridge.Recovery.Carried.{bind-WorldCarries}

task_from_row-same :
    (row kept : TaskRow) → kept.columns ≡ row.columns → task_from_row kept ≡ task_from_row row
unfolding task_from_row
task_from_row-same row kept e = ap (λ c. task_from_row (record row { columns = c })) e

abbrev has_id : String → TaskRecord → Bool
has_id id t = t.task_id == id

module _ (p : TaskRow → Bool) where
  any-insert_by :
      (key : TaskRow → Timestamp) (t : TaskRow) (ts : List TaskRow)
      → any p (insert_by key t ts) ≡ (p t || any p ts)
  unfolding insert_by
  any-insert_by key t [] = refl
  any-insert_by key t (u ∷ us) = ground (arith, any-insert_by key t us)

  any-order_by :
      (key : TaskRow → Timestamp) (ts : List TaskRow) → any p (order_by key ts) ≡ any p ts
  unfolding order_by
  any-order_by key [] = refl
  any-order_by key (t ∷ ts) =
      ground (arith, any-insert_by key t (order_by key ts), any-order_by key ts)

  any-select_all :
      (q : TaskRow → Bool) (ts : List TaskRow) (row : TaskRow)
      → select_one p ts ≡ some row
      → q row ≡ true
      → any p (select_all q ts) ≡ true
  unfolding select_one select_all
  any-select_all q [] row e h = cc
  any-select_all q (t ∷ ts) row e h = elim (Bool-cases (p t)) [
    | inl hit ↦
        let same : t ≡ row = some-injective t row (rw hit at e) in ground (arith, hit, h, ap q same)
    | inr miss ↦ ground (arith, any-select_all q ts row (rw miss at e) h)
  ]

any-records :
    (id : String) (ts : List TaskRow) → any (has_id id) (map task_from_row ts) ≡ any (of_id id) ts
unfolding task_from_row
any-records id [] = refl
any-records id (t ∷ ts) = ap (λ b. of_id id t || b) (any-records id ts)

module _ (id : String) (provider : RecoveryHost) (row : TaskRow) where
  -- an entry of the list with the id is the record of the row
  abbrev IsRecord : TaskRecord → Type 0
  IsRecord t = t.task_id == id ≡ true → t ≡ task_from_row row

  loop-HasEnded :
      (stopped : Bool) (now : Timestamp) (reconciled n : ℕ) (ts : List TaskRecord) (w : World)
      (current : TaskRow)
      → select_one (of_id id) w.db.tasks ≡ some current
      → current.columns ≡ row.columns
      → All IsRecord ts
      → any (has_id id) ts ≡ true
      → is_resumed provider (task_from_row row) ≡ false
      → (startup_tasks provider stopped now reconciled ts w).0 ≡ ok n
      → HasEnded id (startup_tasks provider stopped now reconciled ts w).1.db
  unfolding startup_tasks
  loop-HasEnded stopped now reconciled n [] w current e same records there lost h = cc
  loop-HasEnded stopped now reconciled n (t ∷ ts) w current e same records there lost h =
      let after : World = (startup_task provider stopped now t w).1 in
      elim (Result-cases (startup_task provider stopped now t w).0) [
        | inr (c, e2) ↦ cc (rw e2 at h)
        | inl (m, e2) ↦
            let rest_ends : HasEnded id after.db
                → HasEnded id (startup_tasks provider stopped now (reconciled + m) ts after).1.db =
              λ ended.
                HasEnded-IsKept id after.db
                  (startup_tasks provider stopped now (reconciled + m) ts after).1.db ended
                  (startup_tasks-WorldCarries id provider stopped now (reconciled + m) ts after) in
            elim (Bool-cases (t.task_id == id)) [
              | inl hit ↦
                  let record_of : t ≡ task_from_row current =
                    records.0 hit ∙ sym (task_from_row-same row current same) in
                  rw e2 (
                    rest_ends (
                      startup_task-HasEnded id provider stopped now w t current record_of
                        ((eq_iff t.task_id id).0 hit) e (rw (records.0 hit) lost)))
              | inr miss ↦
                  let (kept, e3, how) =
                    startup_task-WorldCarries id provider stopped now t w current e in
                  rw e2 (elim how [
                    | inr ended ↦ rest_ends (kept, e3, ended)
                    | inl unchanged ↦
                        loop-HasEnded stopped now (reconciled + m) n ts after kept e3
                          (unchanged ∙ same) records.1 (ground (arith)) lost (rw e2 at h)
                  ])
            ]
      ]

-- A start that runs through over consistent tables ends every unfinished task that it does not find
-- attached again before its deadline.
pub reconcile_startup_ended :
    (provider : RecoveryHost) (stopped : Bool) (now : Timestamp) (id : String) (row : TaskRow)
    (w : World) (n : ℕ)
    → IsConsistent w.db
    → select_one (of_id id) w.db.tasks ≡ some row
    → is_terminal row.status ≡ false
    → is_resumed provider (task_from_row row) ≡ false
    → (reconcile_startup provider stopped now w).0 ≡ ok n
    → HasEnded id (reconcile_startup provider stopped now w).1.db
unfolding reconcile_startup list_nonterminal_tasks
reconcile_startup_ended provider stopped now id row w n c e live lost h =
    let active : List TaskRow = select_all is_active w.db.tasks in
    let tasks : List TaskRecord = list_nonterminal_tasks w.db in
    let first : Action World ℕ = startup_tasks provider stopped now 0 tasks in
    let records : All (IsRecord id provider row) tasks =
      All-records (IsRecord id provider row) (order_by (λ t. t.created_at) active) (
        All-order_by (λ t. IsRecord id provider row (task_from_row t)) (λ t. t.created_at) active
          (All-map _ _ (λ t k hit. ap task_from_row (k.0 hit)) active
            (All-select_all _ is_active w.db.tasks (same_row id row w c e)))) in
    let there : any (has_id id) tasks ≡ true =
      any-records id (order_by (λ t. t.created_at) active)
      ∙ any-order_by (of_id id) (λ t. t.created_at) active
      ∙ any-select_all (of_id id) is_active w.db.tasks row e (rw live refl) in
    elim (Result-cases (first w).0) [
      | inr (x, e2) ↦ cc (rw e2 at h)
      | inl (m, e2) ↦
          let ended =
            loop-HasEnded id provider row stopped now 0 m tasks w row e refl records there lost
              e2 in
          bind-HasEnded id first _ w ended λ r.
            bind-WorldCarries id {B = ℕ} (λ v. (list provider.host v.guards, v))
              (λ gs. startup_guards provider stopped now tasks gs >> pure r)
              (λ v. IsKept-refl id v.db)
              (λ gs.
                bind-WorldCarries id {B = ℕ} (startup_guards provider stopped now tasks gs)
                  (λ u. pure r) (startup_guards-WorldCarries id provider stopped now tasks gs)
                  (λ u v. IsKept-refl id v.db))
    ]
