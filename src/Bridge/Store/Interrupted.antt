-- ===== src/Bridge/Store/Interrupted.antt =====
-- What `interrupt_nonterminal_tasks` leaves (store.py).
use server_fs_mcp.Bridge.Status.{is_terminal}
use server_fs_mcp.Sql.{select_all, count, update}
use server_fs_mcp.Prelude.{
  List, String, length, All, map, ◌≡◌, ◌∷◌, true, Bool-cases, inl, inr, [], refl, eq_refl, All-map,
  arith, sym, ◌∙◌, ap, subst,
}
use server_fs_mcp.Bridge.Store.Tables.{TaskRow, Timestamp, Db}
use server_fs_mcp.Bridge.Store.Tasks.{is_active, in_ids, count_nonterminal_tasks}
use server_fs_mcp.Bridge.Store.Restart.{
  interrupt, interrupt_nonterminal_tasks, active_ids, interrupt_ids,
}

length-active :
    (ts : List TaskRow)
    → length (map (λ (t : TaskRow). t.task_id) (select_all is_active ts)) ≡ count is_active ts
unfolding select_all count
length-active [] = refl
length-active (t ∷ ts) = elim (Bool-cases (is_active t)) [
  | inl active ↦ rw (active, length-active ts) refl
  | inr done ↦ rw (done, length-active ts) refl
]

abbrev CoveredBy : List String → TaskRow → Type 0
CoveredBy ids t = is_active t ≡ true → in_ids ids t.task_id ≡ true

covers :
    (ts : List TaskRow)
    → All (CoveredBy (map (λ (t : TaskRow). t.task_id) (select_all is_active ts))) ts
unfolding select_all
covers [] = tt
covers (t ∷ ts) = elim (Bool-cases (is_active t)) [
  | inl active ↦
      let found : t ∷ select_all is_active ts ≡ select_all is_active (t ∷ ts) = rw active refl in
      subst (λ l. All (CoveredBy (map (λ (u : TaskRow). u.task_id) l)) (t ∷ ts)) found
        (
          (λ _. rw (eq_refl t.task_id) refl),
          All-map (CoveredBy rest) (CoveredBy (t.task_id ∷ rest)) (λ u g a. ground (arith, g a)) ts
              (covers ts),
        )
  | inr done ↦
      let left : select_all is_active ts ≡ select_all is_active (t ∷ ts) = rw done refl in
      subst (λ l. All (CoveredBy (map (λ (u : TaskRow). u.task_id) l)) (t ∷ ts)) left
        ((λ h. cc (h, done)), covers ts)
]
  where
    rest : List String
    rest = map (λ (u : TaskRow). u.task_id) (select_all is_active ts)

count_after :
    (ids : List String) (now : Timestamp) (ts : List TaskRow)
    → All (CoveredBy ids) ts
    → count is_active (update (λ t. in_ids ids t.task_id) (interrupt now) ts) ≡ 0
unfolding count update is_terminal
count_after ids now [] h = refl
count_after ids now (t ∷ ts) (h, hs) = elim (Bool-cases (in_ids ids t.task_id)) [
  | inl inside ↦ rw (inside, count_after ids now ts hs) refl
  | inr outside ↦ elim (Bool-cases (is_active t)) [
    | inl active ↦ cc (h active, outside)
    | inr done ↦ rw (outside, done, count_after ids now ts hs) refl
  ]
]

interrupt_ids-active :
    (ids : List String) (now : Timestamp) (db : Db)
    → ids ≡ active_ids db
    → count is_active (interrupt_ids ids now db).tasks ≡ 0
interrupt_ids-active [] now db e = sym (length-active db.tasks) ∙ ap length (sym e)
interrupt_ids-active (i ∷ ids) now db e =
    count_after (i ∷ ids) now db.tasks
      (subst (λ l. All (CoveredBy l) db.tasks) (sym e) (covers db.tasks))

-- `interrupt_nonterminal_tasks` answers how many tasks were active and leaves none active.
pub interrupt_nonterminal_tasks-active :
    (now : Timestamp) (db : Db)
    → ((interrupt_nonterminal_tasks now db).0 ≡ count_nonterminal_tasks db)
      × (count_nonterminal_tasks (interrupt_nonterminal_tasks now db).1 ≡ 0)
unfolding interrupt_nonterminal_tasks count_nonterminal_tasks
interrupt_nonterminal_tasks-active now db =
    (length-active db.tasks, interrupt_ids-active (active_ids db) now db refl)
