-- ===== src/History/Steps.antt =====
-- What any number of transactions do to one row of the task table.
use Prim.Native.String.{String}
use workfront_system.Base.{
  true≢false, ℕ, ◌≡◌, refl, sym, ap, ◌∙◌, subst, true, false, inl, inr, Option, List, ok,
}
use workfront_system.Cascade.Types.{SetOrder}
use workfront_system.Store.Models.{Task, ChangePayload}
use workfront_system.Store.Database.{Database}
use workfront_system.Ws.Manager.{ConnectionManager}
use workfront_system.Worker.Handler.{process_schedule_changed}
use workfront_system.Worker.Handler.Once.{process-cases}
use workfront_system.Worker.Handler.Writes.{write_changes-Wrote}
use workfront_system.Api.Schemas.{TaskScheduleUpdate, TaskOut}
use workfront_system.Api.Guards.{Surroundings, Reply}
use workfront_system.Api.Schedule.{move_task, schedule_event, reschedule_task}
use workfront_system.Pipeline.Agreement.{Steps, reschedule-Steps, inline-Steps}
use workfront_system.History.{
  History, moves, moves_inline, updates, deletes, creates, links, creates_project, creates_customer,
  delivers, none_yet, followed_by,
}
use workfront_system.History.Rows.{Later, unchanged, Later-trans}
use workfront_system.History.Requests.{
  flush_task-Later, Wrote-Later, delete-Later, update-Later, create-same_tasks, link-same_tasks,
  project-same_tasks, customer-same_tasks,
}

module _ (db : Database) (order : SetOrder) where
  open db use {State, get_task}

  -- A move, up to its outbox row.
  Steps-Later :
      (around : Surroundings State) (s : State) (m : ConnectionManager) (task_id : ℕ)
      (body : TaskScheduleUpdate) (if_match : Option ℕ) (customer_id : ℕ) (queued : State)
      (moved : Task) (a : ℕ)
      → Steps db order around s m task_id body if_match customer_id queued moved
      → Later (get_task (around.others s) a) (get_task queued a)
  Steps-Later around s m task_id body if_match customer_id queued moved a steps =
      let event = schedule_event around.new_id customer_id around.trace moved body in
      subst (Later (get_task (around.others s) a))
        (sym ((db.outbox_added steps.written event).1 a) ∙ ap (λ x. get_task x a) steps.queues)
        (flush_task-Later db (around.others s) steps.t (move_task steps.t body) a steps.flushes)

  move-Later :
      (around : Surroundings State) (s : State) (m : ConnectionManager) (task_id : ℕ)
      (body : TaskScheduleUpdate) (if_match : Option ℕ) (customer_id : ℕ) {r : Reply State TaskOut}
      (a : ℕ)
      → reschedule_task db order false around s m task_id body if_match customer_id ≡ ok r
      → Later (get_task (around.others s) a) (get_task r.state a)
  move-Later around s m task_id body if_match customer_id {r} a h =
      let (moved, steps, _) =
        reschedule-Steps db order around s m task_id body if_match customer_id h in
      Steps-Later around s m task_id body if_match customer_id r.state moved a steps

  -- A delivery that has been processed before leaves the state that its session reads, which others
  -- may have moved on since.
  deliver-Later :
      (s : State) (others : State → State) (new_id event_id task_id : ℕ) (group : String)
      {s' : State} {changes : List ChangePayload} (a : ℕ)
      → process_schedule_changed db order s others new_id event_id task_id group ≡ ok (s', changes)
      → db.get_processed s group event_id ≡ false
      → Later (get_task (others s) a) (get_task s' a)
  deliver-Later s others new_id event_id task_id group {s'} {changes} a h new =
      elim (process-cases db order s others new_id event_id task_id group h) [
        | inl (seen, _, _) ↦ absurd (true≢false (sym seen ∙ new))
        | inr (inl (absent, marks, _)) ↦ unchanged (marks.same_tasks a)
        | inr (inr (origin, ran)) ↦
            subst (Later (get_task (others s) a)) (sym (ran.emits.tasks a ∙ ran.marks.same_tasks a))
              (Wrote-Later db _ (others s) ran.written changes a
                (write_changes-Wrote db order s (others s) origin ran.wrote))
      ]

  inline-Later :
      (around : Surroundings State) (s : State) (m : ConnectionManager) (task_id : ℕ)
      (body : TaskScheduleUpdate) (if_match : Option ℕ) (customer_id : ℕ) {r : Reply State TaskOut}
      (a : ℕ)
      → ((queued : State) → Later (get_task queued a) (get_task (around.later queued) a))
      → reschedule_task db order true around s m task_id body if_match customer_id ≡ ok r
      → Later (get_task (around.others s) a) (get_task r.state a)
  inline-Later around s m task_id body if_match customer_id {r} a between h =
      let (queued, moved, changes, steps, wrote) =
        inline-Steps db order around s m task_id body if_match customer_id h in
      let cascaded =
        Wrote-Later db _ (around.later queued) r.state changes a
          (write_changes-Wrote db order queued (around.later queued) moved wrote) in
      Later-trans (Steps-Later around s m task_id body if_match customer_id queued moved a steps)
        (Later-trans (between queued) cascaded)

  pub History-Later :
      (a : ℕ) {s s' : State} → History db order a s s' → Later (get_task s a) (get_task s' a)
  History-Later a (moves around s m task_id body if_match customer_id h) =
      move-Later around s m task_id body if_match customer_id a h
  History-Later a (moves_inline around s m task_id body if_match customer_id between h) =
      inline-Later around s m task_id body if_match customer_id a
        (λ queued. History-Later a (between queued)) h
  History-Later a (updates around s m task_id body if_match customer_id h) =
      update-Later db around s m task_id body if_match customer_id a h
  History-Later a (deletes around s m task_id if_match customer_id h) =
      delete-Later db around s m task_id if_match customer_id a h
  History-Later a (creates around s m project_id body customer_id apart h) =
      unchanged (create-same_tasks db around s m project_id body customer_id a apart h)
  History-Later a (links around s m body customer_id h) =
      unchanged (link-same_tasks db around s m body customer_id a h)
  History-Later a (creates_project s new_id customer_id body h) =
      unchanged (project-same_tasks db s new_id customer_id body a h)
  History-Later a (creates_customer s new_id body h) =
      unchanged (customer-same_tasks db s new_id body a h)
  History-Later a (delivers s others new_id event_id task_id group new h) =
      deliver-Later s others new_id event_id task_id group a h new
  History-Later a none_yet = unchanged refl
  History-Later a (followed_by run rest) = Later-trans (History-Later a run) (History-Later a rest)
