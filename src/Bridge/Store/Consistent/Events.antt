-- ===== src/Bridge/Store/Consistent/Events.antt =====
-- `append_event` keeps the tables consistent: the counter of a task counts its events, and event
-- ids ascend.
use server_fs_mcp.Prelude.{
  Option, String, ℕ, Bool, List, true, All, some, ltb, ◌≡◌, ◌⊎◌, false, none, All-map, Bool-cases,
  ◌++◌, arith, refl, ◌+◌, ◌∷◌, [], Option-cases, ◌≤◌, ◌<◌, eq_iff, eq_refl, All-append, map, ap,
}
use server_fs_mcp.Bridge.Store.Events.{
  append_event, has_room, counted_up, inserted_event, no_row_counted,
}
use server_fs_mcp.Bridge.Store.Tables.{TaskRow, Timestamp, Db, of_id, EventRow, of_task}
use server_fs_mcp.Bridge.Store.Consistent.{
  IsConsistent, false, All-map, Bool-cases, update, inr, inl, arith, [], EventRow, HasTask,
  exists-update, count, map-update, CountedBy, id_key, Ascend, count-append, idempotency, of_task,
  All-update, eq_iff, IsSettled, All-append, map, owner, ap,
}
use server_fs_mcp.Sql.{select_one, update, count}
use server_fs_mcp.Sql.Keys.{only_row}
use server_fs_mcp.Sql.Rows.{
  count_of_misses, update_agree, exists-update, map-update, count-append, All-update,
}
use server_fs_mcp.Bridge.Store.Consistent.Requests.{HasTask-found}

abbrev pub below : Option ℕ → ℕ → Bool
below none n = true
below (some max) n = ltb n max

module _ (id : String) (row : TaskRow) (ts : List TaskRow)
    (only : All (λ t. of_id id t ≡ true → t ≡ row) ts) where
  full_misses :
      (max : ℕ)
      → below (some max) row.event_count ≡ false
      → All (λ t. has_room id (some max) t ≡ false) ts
  full_misses max full =
      All-map (λ t. of_id id t ≡ true → t ≡ row) (λ t. has_room id (some max) t ≡ false)
        (λ t same. elim (Bool-cases (of_id id t)) [
          | inr other ↦ rw other
          | inl hit ↦ rw (same hit) (ground (arith))
        ])
        ts only

  room_agrees :
      (max : Option ℕ)
      → below max row.event_count ≡ true
      → All (λ t. has_room id max t ≡ of_id id t) ts
  room_agrees none room =
      All-map (λ t. of_id id t ≡ true → t ≡ row) (λ t. has_room id none t ≡ of_id id t)
        (λ t same. refl) ts only
  room_agrees (some max) room =
      All-map (λ t. of_id id t ≡ true → t ≡ row) (λ t. has_room id (some max) t ≡ of_id id t)
        (λ t same. elim (Bool-cases (of_id id t)) [
          | inr other ↦ rw other
          | inl hit ↦ rw (hit, same hit, room)
        ])
        ts only

-- In consistent tables `append_event` does nothing, or counts an event of a task that has room.
pub append_event-effect :
    (id event_type payload : String) (max : Option ℕ) (now : Timestamp) (db : Db)
    → IsConsistent db
    → let after = (append_event id event_type payload max now db).1 in
      (after ≡ db)
      ⊎ ((row : TaskRow) × (select_one (of_id id) db.tasks ≡ some row)
          × (below max row.event_count ≡ true)
          × (after ≡ record db {
            tasks = update (of_id id) counted_up db.tasks;
            events =
                db.events ++ inserted_event id event_type payload now (db.last_event_id + 1) ∷ [];
            last_event_id = db.last_event_id + 1;
          }))
unfolding append_event
append_event-effect id event_type payload none now db c =
    elim (Option-cases (select_one (of_id id) db.tasks)) [
      | inl e ↦ inl (simp e)
      | inr (row, e) ↦ inr (row, e, refl, simp e)
    ]
append_event-effect id event_type payload (some max) now db c =
    elim (Option-cases (select_one (of_id id) db.tasks)) [
      | inl e ↦ inl (simp e)
      | inr (row, e) ↦
          let only : All (λ t. of_id id t ≡ true → t ≡ row) db.tasks =
            only_row (λ t. t.task_id) id db.tasks row c.ids e in
          elim (Bool-cases (below (some max) row.event_count)) [
            | inr full ↦ inl (
                simp (
                  e,
                  count_of_misses (has_room id (some max)) db.tasks
                      (full_misses id row db.tasks only max full),
                ))
            | inl room ↦ elim (Bool-cases (no_row_counted id (some max) db.tasks)) [
              | inl lost ↦ inl (simp (e, lost))
              | inr kept ↦ inr (
                row,
                e,
                room,
                simp (
                  e,
                  kept,
                  update_agree (has_room id (some max)) (of_id id) counted_up db.tasks
                      (room_agrees id row db.tasks only (some max) room),
                ),
              )
            ]
          ]
    ]

Ascend-append :
    (n last : ℕ) (es : List EventRow) (e : EventRow)
    → n ≤ last
    → last < e.event_id
    → Ascend n es
    → All (λ x. x.event_id ≤ last) es
    → Ascend n (es ++ e ∷ [])
Ascend-append n last [] e low new a b = (omega arith, tt)
Ascend-append n last (x ∷ es) e low new a b =
    (a.0, Ascend-append x.event_id last es e b.0 new a.1 b.1)

counted_up-KeepsId :
    (id : String) (ts : List TaskRow) (u : String)
    → HasTask ts u
    → HasTask (update (of_id id) counted_up ts) u
counted_up-KeepsId id ts u h = rw (exists-update (of_id u) (of_id id) counted_up (λ t. refl) ts) h

module _ (id : String) (e : EventRow) (es : List EventRow) (mine : e.task_id ≡ id) where
  -- the counter of a task and the number of its events go up together
  counted_hit :
      (t : TaskRow) → CountedBy es t → of_id id t ≡ true → CountedBy (es ++ e ∷ []) (counted_up t)
  unfolding count
  counted_hit t h hit =
      rw (count-append (of_task t.task_id) es (e ∷ []), mine, (eq_iff t.task_id id).0 hit, eq_refl)
        (omega (arith, h, ap (λ (u : String). count (of_task u) es) ((eq_iff t.task_id id).0 hit)))

  counted_miss : (t : TaskRow) → CountedBy es t → of_id id t ≡ false → CountedBy (es ++ e ∷ []) t
  unfolding count
  counted_miss t h miss =
      rw (count-append (of_task t.task_id) es (e ∷ []), mine)
        (ground (arith, eq_iff id t.task_id, eq_iff t.task_id id))

-- Appending an event, whatever the outcome, keeps the tables consistent.
pub append_event-IsConsistent :
    (id event_type payload : String) (max : Option ℕ) (now : Timestamp) (db : Db)
    → IsConsistent db
    → IsConsistent (append_event id event_type payload max now db).1
append_event-IsConsistent id event_type payload max now db c =
    elim (append_event-effect id event_type payload max now db c) [
      | inl e ↦ rw e c
      | inr (row, found, _, e) ↦ rw e (record {
        ids = rw (map-update id_key (of_id id) counted_up (λ t. refl) db.tasks) c.ids;
        keys = rw (map-update idempotency (of_id id) counted_up (λ t. refl) db.tasks) c.keys;
        request_ids = c.request_ids;
        settled =
            All-update IsSettled IsSettled (of_id id) counted_up
              (λ t s _. record { done = s.done; live = s.live }) (λ t s _. s) db.tasks c.settled;
        counted =
            All-update (CountedBy db.events) (CountedBy (db.events ++ new ∷ [])) (of_id id)
              counted_up (counted_hit id new db.events refl) (counted_miss id new db.events refl)
              db.tasks c.counted;
        events_owned =
            All-map (λ x. HasTask db.tasks x.task_id)
              (λ x. HasTask (update (of_id id) counted_up db.tasks) x.task_id)
              (λ x h. counted_up-KeepsId id db.tasks x.task_id h) (db.events ++ new ∷ [])
              (All-append (λ x. HasTask db.tasks x.task_id) db.events (new ∷ []) c.events_owned
                (HasTask-found id db.tasks row found, tt));
        requests_owned =
            All-map (HasTask db.tasks) (HasTask (update (of_id id) counted_up db.tasks))
              (counted_up-KeepsId id db.tasks) (map owner db.requests) c.requests_owned;
        ascending =
            Ascend-append 0 db.last_event_id db.events new (omega arith) (omega arith) c.ascending
              c.last_id;
        last_id =
            All-append (λ x. x.event_id ≤ db.last_event_id + 1) db.events (new ∷ [])
              (All-map (λ x. x.event_id ≤ db.last_event_id) (λ x. x.event_id ≤ db.last_event_id + 1)
                (λ x h. omega arith) db.events c.last_id)
              (omega arith, tt);
      })
    ]
  where
    new : EventRow
    new = inserted_event id event_type payload now (db.last_event_id + 1)
