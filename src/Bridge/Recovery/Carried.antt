-- ===== src/Bridge/Recovery/Carried.antt =====
-- The methods of recovery keep or end each stored task, whatever their outcome.
use server_fs_mcp.Bridge.Errors.{Action, ◌>>=◌, Result-cases}
use server_fs_mcp.Prelude.{
  false, true, some, String, Bool, if◌then◌else◌, inr, inl, Option-cases, ◌≡◌,
}
use server_fs_mcp.Bridge.Store.Tables.{Db, Timestamp}
use server_fs_mcp.Bridge.Recovery.{
  World, transition_terminal, RecoveryHost, try_append_event, probe_reconciliation, Report,
  reconcile_started, reconcile_finished, event_type, asked, ended_with,
}
use server_fs_mcp.Bridge.Store.Tasks.{get_task, transition_task}
use server_fs_mcp.Bridge.Status.{TaskStatus, is_terminal}
use server_fs_mcp.Bridge.Recovery.Ended.{
  IsKept, IsKept-trans, IsKept-refl, append_event-IsKept, transition_task-IsKept,
}
use server_fs_mcp.Bridge.Recovery.Cleared.{get_task-cases}

module _ (id : String) where
  -- an action keeps or ends the task, from every state
  abbrev pub Carries : {A : Type 0} → Action Db A → Type 0
  Carries m = (db : Db) → IsKept id db (m db).1

  abbrev pub WorldCarries : {A : Type 0} → Action World A → Type 0
  WorldCarries m = (w : World) → IsKept id w.db (m w).1.db

  pub bind-Carries :
      {A B : Type 0} (m : Action Db A) (f : A → Action Db B)
      → Carries m
      → ((a : A) → Carries (f a))
      → Carries (m >>= f)
  bind-Carries m f first second db = elim (Result-cases (m db).0) [
    | inr (c, e) ↦ rw e (first db)
    | inl (a, e) ↦
        rw e (IsKept-trans id db (m db).1 (f a (m db).1).1 (first db) (second a (m db).1))
  ]

  pub bind-WorldCarries :
      {A B : Type 0} (m : Action World A) (f : A → Action World B)
      → WorldCarries m
      → ((a : A) → WorldCarries (f a))
      → WorldCarries (m >>= f)
  bind-WorldCarries m f first second w = elim (Result-cases (m w).0) [
    | inr (c, e) ↦ rw e (first w)
    | inl (a, e) ↦
        rw e (IsKept-trans id w.db (m w).1.db (f a (m w).1).1.db (first w) (second a (m w).1))
  ]

  pub if-WorldCarries :
      {A : Type 0} (b : Bool) (x y : Action World A)
      → WorldCarries x
      → WorldCarries y
      → WorldCarries (if b then x else y)
  if-WorldCarries true x y hx hy = hx
  if-WorldCarries false x y hx hy = hy

  if-Carries :
      {A : Type 0} (b : Bool) (x y : Action Db A)
      → Carries x
      → Carries y
      → Carries (if b then x else y)
  if-Carries true x y hx hy = hx
  if-Carries false x y hx hy = hy

  pub get_task-Carries : (other : String) → Carries (get_task other)
  get_task-Carries other db = elim (get_task-cases other db) [
    | inl e ↦ rw e (IsKept-refl id db)
    | inr (task, e) ↦ rw e (IsKept-refl id db)
  ]

  pub transition_terminal-Carries :
      (other : String) (status : TaskStatus) (code message : String) (now : Timestamp)
      → is_terminal status ≡ true
      → Carries (transition_terminal other status code message now)
  unfolding transition_terminal
  transition_terminal-Carries other status code message now ends =
      bind-Carries (get_task other) _ (get_task-Carries other) λ current.
        if-Carries (is_terminal current.status) _ _ (IsKept-refl id) (
          bind-Carries (transition_task other status (ended_with code message) now) _
            (λ db. transition_task-IsKept id other status (ended_with code message) now db ends)
            (λ a. IsKept-refl id))

module _ (id : String) (provider : RecoveryHost) where
  pub try_append_event-IsKept :
      (other : String) (r : Report) (now : Timestamp) (db : Db)
      → IsKept id db (try_append_event provider other r now db)
  unfolding try_append_event
  try_append_event-IsKept other r now db = elim (Option-cases (provider.encode other r)) [
    | inl e ↦ rw (e, try_append_event) (IsKept-refl id db)
    | inr (text, e) ↦
        rw (e, try_append_event)
          (append_event-IsKept id other (event_type r) text (some provider.max_events_per_task) now
            db)
  ]

  pub probe_reconciliation-Carries :
      (other : String) (now : Timestamp)
      → Carries id (probe_reconciliation provider (λ db. db) other now)
  unfolding probe_reconciliation
  probe_reconciliation-Carries other now =
      bind-Carries id (get_task other) _ (get_task-Carries id other) λ task db.
        let started = try_append_event provider other (reconcile_started task.runtime) now db in
        IsKept-trans id db started
          (try_append_event provider other (reconcile_finished task.runtime (asked provider task))
            now started)
          (try_append_event-IsKept other (reconcile_started task.runtime) now db)
          (try_append_event-IsKept other (reconcile_finished task.runtime (asked provider task)) now
            started)
