-- ===== src/Worker/Handler/Guarantees.antt =====
-- The guarantees of one delivery (`process_schedule_changed` of services/worker/src/handler.py).
use Prim.Native.String.{String}
use workfront_system.Base.{
  ℕ, ◌≡◌, ◌≢◌, refl, sym, ap, ◌∙◌, subst, false, ◌⊎◌, inl, inr, Option, some, none, List, [], ◌++◌,
  Memᴰ, is_some, Bool-cases, Option-cases, Outcome-cases, Error, Outcome, ok, err, integrity_error,
  dbapi_error, stale_data_error, overflow_error, dependency_cycle, ◌>>=◌, >>=-eq-ok, ok-injective,
}
use mathlib.Core.List.Memᴰ
use workfront_system.Cascade.Types.{ScheduleChange, SetOrder, Nodes}
use workfront_system.Cascade.Run.{cascade}
use workfront_system.Cascade.Run.Raises.{cascade_outcomes}
use workfront_system.Store.Models.{Task, ChangePayload, ProcessedEvent, Predecessor}
use workfront_system.Store.Database.{Database, Dirty}
use workfront_system.Worker.Subgraph.{by_id, nodes_of, edges_of, assign}
use workfront_system.Worker.Subgraph.Known.{edges_of-IsKnown, cascade-found, assign-returns}
use workfront_system.Worker.Handler.{
  process_schedule_changed, compute, flush_changes, write_changes,
}
use workfront_system.Worker.Handler.Once.{emitted, process-cases}
use workfront_system.Worker.Handler.Writes.{Saved, write_changes-Wrote}

module _ (db : Database) (order : SetOrder) (s : db.State) (others : db.State → db.State)
    (new_id event_id task_id : ℕ) (group : String) where
  open db use {State, get_task, get_processed, outbox, flush, add_processed, tasks_of_project}

  module _ {s' : State} {changes : List ChangePayload}
      (returned : process_schedule_changed db order s others new_id event_id task_id group
        ≡ ok (s', changes))
      (new : get_processed s group event_id ≡ false) where
    -- When a first delivery succeeds, nobody else recorded the event meanwhile, and the outbox has
    -- gained exactly one row, with the returned changes under the origin's project, if there are any
    -- changes, and none if there are none or the task is gone.
    pub process-outbox :
        (get_processed (others s) group event_id ≡ false)
        × (((get_task s task_id ≡ none) × (changes ≡ []) × (outbox s' ≡ outbox (others s)))
            ⊎ ((origin : Task) × (get_task s task_id ≡ some origin)
                × (outbox s' ≡ outbox (others s) ++ emitted db new_id origin changes)))
    process-outbox = elim (process-cases db order s others new_id event_id task_id group returned) [
      | inl (seen, _, _) ↦ cc
      | inr (inl (gone, m, empty)) ↦ (m.fresh, inl (gone, empty, m.same_outbox))
      | inr (inr (origin, ran)) ↦
          let w = write_changes-Wrote db order s (others s) origin ran.wrote in
          (
            sym (w.same_processed group event_id) ∙ ran.marks.fresh,
            inr (
              origin,
              ran.task,
              ran.emits.rows
                  ∙ ap (λ o. o ++ emitted db new_id origin changes)
                      (ran.marks.same_outbox ∙ w.same_outbox),
            ),
          )
    ]

    -- When a first delivery succeeds, each returned change is of a task that was loaded from the
    -- origin's project and whose row still had the loaded version when it was written, so no edit
    -- committed meanwhile is lost; its row now is the loaded task with the change's dates and the
    -- next version, which the change reports; and the rows of all other tasks are as the others
    -- left them.
    pub process-Saved :
        ((c : ChangePayload)
          → Memᴰ c changes
          → (origin : Task) × (loaded : Task) × (get_task s task_id ≡ some origin)
            × (by_id (tasks_of_project s origin.project_id) c.task_id ≡ some loaded)
            × Saved db (others s) s' loaded c)
        × ((a : ℕ)
            → ((c : ChangePayload) → Memᴰ c changes → c.task_id ≢ a)
            → get_task s' a ≡ get_task (others s) a)
    process-Saved = elim (process-cases db order s others new_id event_id task_id group returned) [
      | inl (seen, _, _) ↦ cc
      | inr (inl (gone, m, empty)) ↦ (
        λ c listed. absurd (Memᴰ.not-nil (subst (Memᴰ c) empty listed)),
        λ a apart. m.same_tasks a,
      )
      | inr (inr (origin, ran)) ↦
          let w = write_changes-Wrote db order s (others s) origin ran.wrote in
          let kept = λ (a : ℕ). ran.emits.tasks a ∙ ran.marks.same_tasks a in
          (
            λ c listed.
                let (loaded, found, saved) = w.saved c listed in
                (
                  origin,
                  loaded,
                  ran.task,
                  found,
                  record {
                    row = saved.row;
                    was = saved.was;
                    same_version = saved.same_version;
                    next_version = saved.next_version;
                    is = kept c.task_id ∙ saved.is;
                  },
                ),
            λ a apart. kept a ∙ w.others a apart,
          )
    ]

  -- The exceptions that end a delivery.
  abbrev pub MayRaise : Error → Type 0
  MayRaise x =
      (x ≡ stale_data_error)
      ⊎ (x ≡ integrity_error)
      ⊎ (x ≡ dbapi_error)
      ⊎ (x ≡ overflow_error)
      ⊎ (x ≡ dependency_cycle)

  abbrev Safe : {A : Type 0} → Outcome A → Type 0
  Safe (ok a) = Unit
  Safe (err x) = MayRaise x

  >>=-Safe :
      {A B : Type 0} (m : Outcome A) (f : A → Outcome B)
      → Safe m
      → ((a : A) → m ≡ ok a → Safe (f a))
      → Safe (m >>= f)
  >>=-Safe (ok a) f h k = k a refl
  >>=-Safe (err x) f h k = h

  add_processed-Safe : (now : State) (p : ProcessedEvent) → Safe (add_processed now p)
  add_processed-Safe now p = elim (Bool-cases (get_processed now p.consumer_group p.event_id)) [
    | inl old ↦ rw (db.processed_unique now p old) (inr (inl refl))
    | inr fresh ↦ let (t, added, _, _, _) = db.processed_added now p fresh in rw added tt
  ]

  flush-Safe : (now : State) (ds : List Dirty) → Safe (flush now ds)
  flush-Safe now ds = elim (Outcome-cases (flush now ds)) [
    | inl (r, e) ↦ rw e tt
    | inr (x, e) ↦ rw e (elim (db.flush_fails now ds x e) [
      | inl stale ↦ inl stale
      | inr (inl broken) ↦ inr (inl broken)
      | inr (inr down) ↦ inr (inr (inl down))
    ])
  ]

  cascade-Safe :
      (root_id : ℕ) (nodes : Nodes) (rows : List Predecessor)
      → Safe (cascade order root_id nodes (edges_of nodes rows))
  cascade-Safe root_id nodes rows =
      elim (cascade_outcomes order root_id nodes (edges_of nodes rows)
        (edges_of-IsKnown nodes rows)) [
          | inl (_, inl (r, e)) ↦ rw e tt
          | inl (_, inr e) ↦ rw e (inr (inr (inr (inl refl))))
          | inr (_, e) ↦ rw e (inr (inr (inr (inr refl))))
        ]

  compute-Safe : (origin : Task) (tasks : ℕ → Option Task) → Safe (compute db order s origin tasks)
  unfolding compute
  compute-Safe origin tasks =
      >>=-Safe (cascade order origin.id (nodes_of tasks) (edges_of (nodes_of tasks) _)) _
        (cascade-Safe origin.id (nodes_of tasks) _) (λ r e. tt)

  compute-found :
      (origin : Task) (tasks : ℕ → Option Task) (result : List ScheduleChange)
      → compute db order s origin tasks ≡ ok result
      → (ch : ScheduleChange) → Memᴰ ch result
      → tasks ch.task_id ≢ none
  unfolding compute
  compute-found origin tasks result h ch m =
      let ((final, changes), e, done) =
        >>=-eq-ok (cascade order origin.id (nodes_of tasks) (edges_of (nodes_of tasks) _)) _ h in
      cascade-found order origin.id tasks (edges_of (nodes_of tasks) _) e ch
        (subst (Memᴰ ch) (sym (ok-injective done)) m)

  flush_changes-Safe :
      (now : State) (tasks : ℕ → Option Task) (result : List ScheduleChange)
      → ((ch : ScheduleChange) → Memᴰ ch result → tasks ch.task_id ≢ none)
      → Safe (flush_changes db order now tasks result)
  unfolding flush_changes
  flush_changes-Safe now tasks result found =
      let (ds, assigned) = assign-returns tasks result found in
      >>=-Safe (assign tasks result) _ (rw assigned tt)
        (λ dirty _. >>=-Safe (flush now dirty) _ (flush-Safe now dirty) (λ r _. tt))

  write-Safe : (origin : Task) → Safe (write_changes db order s (others s) origin)
  unfolding write_changes
  write-Safe origin =
      let tasks = by_id (tasks_of_project s origin.project_id) in
      elim (Bool-cases (is_some (nodes_of tasks origin.id))) [
        | inl planned ↦ rw planned (
            >>=-Safe (compute db order s origin tasks) _ (compute-Safe origin tasks) (λ result e.
              flush_changes-Safe (others s) tasks result (compute-found origin tasks result e)))
        | inr undated ↦ rw undated tt
      ]

  process-Safe : Safe (process_schedule_changed db order s others new_id event_id task_id group)
  unfolding process_schedule_changed
  process-Safe = elim (Bool-cases (get_processed s group event_id)) [
    | inl seen ↦ rw seen tt
    | inr new ↦ elim (Option-cases (get_task s task_id)) [
      | inl gone ↦
          rw (new, gone)
            (>>=-Safe (add_processed (others s) _) _ (add_processed-Safe (others s) _) (λ m _. tt))
      | inr (origin, found) ↦
          rw (new, found)
            (>>=-Safe (write_changes db order s (others s) origin) _ (write-Safe origin)
              (λ w _. >>=-Safe (add_processed w.0 _) _ (add_processed-Safe w.0 _) (λ m _. tt)))
    ]
  ]

  -- Where the queries of a delivery return, what it raises is an error of its writes
  -- (StaleDataError, IntegrityError or another error of the database), OverflowError or
  -- DependencyCycleError: it never meets a missing key, in the nodes or in the loaded tasks, and its
  -- loops end.
  pub process-MayRaise :
      (x : Error)
      → process_schedule_changed db order s others new_id event_id task_id group ≡ err x
      → MayRaise x
  process-MayRaise x h = subst Safe h process-Safe
