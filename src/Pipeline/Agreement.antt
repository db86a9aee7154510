-- ===== src/Pipeline/Agreement.antt =====
-- The two settings of the inline cascade (services/api/src/main.py, `reschedule_task`): the request
-- with the delivery to the worker that follows it, against the request that does both.
use Prim.Native.String.{String}
use workfront_system.Base.{
  none≢some, some-injective, true≢false, ℕ, suc, ◌≡◌, refl, sym, ap, ◌∙◌, subst, true, false, inl,
  inr, Option, some, List, [], ◌∷◌, ok, >>=-eq-ok, ok-injective,
}
use workfront_system.Cascade.Types.{SetOrder}
use workfront_system.Store.Models.{Task, ChangePayload}
use workfront_system.Store.Database.{Database}
use workfront_system.Ws.Manager.{
  ConnectionManager, schedule_cascade, broadcast, make_event, next_seq,
}
use workfront_system.Worker.Handler.{process_schedule_changed, write_changes}
use workfront_system.Worker.Handler.Once.{process-cases}
use workfront_system.Api.Schemas.{TaskScheduleUpdate, TaskOut, task_out, cascade_data}
use workfront_system.Api.Guards.{
  Surroundings, Reply, is_same, require_match, load_task, flush_task, announce,
}
use workfront_system.Api.Guards.Cases.{load_task-ok, flush_task-Flushed}
use workfront_system.Api.Schedule.{run_cascade, move_task, schedule_event, reschedule_task}
use workfront_system.Api.Schedule.Inline.{run_cascade-write_changes}

module _ (db : Database) (order : SetOrder) (around : Surroundings db.State) (s : db.State)
    (m : ConnectionManager) (task_id : ℕ) (body : TaskScheduleUpdate) (if_match : Option ℕ)
    (customer_id : ℕ) where
  open db use {State, get_task, get_processed, add_outbox}

  -- The steps of a move that succeeds, up to the outbox row.
  pub record Steps (queued : State) (moved : Task) : Type 0 where
    pub t : Task
    pub loads : load_task db s task_id customer_id ≡ ok t
    pub matches : require_match t.version if_match ≡ ok tt
    pub written : State
    pub flushes : flush_task db (around.others s) t (move_task t body) ≡ ok (written, moved)
    pub queues :
        add_outbox written (schedule_event around.new_id customer_id around.trace moved body)
        ≡ queued

  pub reschedule-Steps :
      {r : Reply State TaskOut}
      → reschedule_task db order false around s m task_id body if_match customer_id ≡ ok r
      → (moved : Task) × Steps r.state moved × (r.body ≡ task_out moved)
  unfolding reschedule_task
  reschedule-Steps {r} h =
      let (t, found, checks) = >>=-eq-ok (load_task db s task_id customer_id) _ h in
      let (u, checked, flushes) = >>=-eq-ok (require_match t.version if_match) _ checks in
      let ((written, moved), wrote, done) =
        >>=-eq-ok (flush_task db (around.others s) t (move_task t body)) _ flushes in
      let same = ok-injective done in
      (
        moved,
        record {
          t = t;
          loads = found;
          matches = checked;
          written = written;
          flushes = wrote;
          queues = ap (λ x. x.state) same;
        },
        sym (ap (λ x. x.body) same),
      )

  pub inline-Steps :
      {r : Reply State TaskOut}
      → reschedule_task db order true around s m task_id body if_match customer_id ≡ ok r
      → (queued : State) × (moved : Task) × (changes : List ChangePayload) × Steps queued moved
        × (write_changes db order queued (around.later queued) moved ≡ ok (r.state, changes))
  unfolding reschedule_task announce
  inline-Steps {r} h =
      let (t, found, checks) = >>=-eq-ok (load_task db s task_id customer_id) _ h in
      let (u, checked, flushes) = >>=-eq-ok (require_match t.version if_match) _ checks in
      let ((written, moved), wrote, rest) =
        >>=-eq-ok (flush_task db (around.others s) t (move_task t body)) _ flushes in
      let queued =
        add_outbox written (schedule_event around.new_id customer_id around.trace moved body) in
      let ((after, changes), cascaded, done) =
        >>=-eq-ok (run_cascade db order queued around.later moved) _ rest in
      (
        queued,
        moved,
        changes,
        record {
          t = t;
          loads = found;
          matches = checked;
          written = written;
          flushes = wrote;
          queues = refl;
        },
        sym (run_cascade-write_changes db order queued around.later moved)
            ∙ cascaded
            ∙ ap (λ x. ok (x.state, changes)) (ok-injective done),
      )

  -- The request that computes the cascade itself, from the same steps.
  inline_reply : State → Task → List ChangePayload → Reply State TaskOut
  inline_reply written moved changes =
      announce db around written m moved.project_id schedule_cascade (cascade_data moved.id changes)
        (task_out moved)

  Steps-inline :
      (queued : State) (moved : Task) (written : State) (changes : List ChangePayload)
      → Steps queued moved
      → write_changes db order queued (around.later queued) moved ≡ ok (written, changes)
      → reschedule_task db order true around s m task_id body if_match customer_id
        ≡ ok (inline_reply written moved changes)
  unfolding reschedule_task inline_reply
  Steps-inline queued moved written changes steps wrote =
      let ran = run_cascade-write_changes db order queued around.later moved ∙ wrote in
      rw (reschedule_task, steps.loads, steps.matches, steps.flushes, steps.queues, ran) refl

  -- The row that the worker will read.
  Steps-saved :
      (queued : State) (moved : Task) (steps : Steps queued moved)
      → steps.t.id ≡ task_id
      → is_same steps.t (move_task steps.t body) ≡ false
      → get_task queued task_id ≡ some moved
  Steps-saved queued moved steps id changed =
      let (f, _) =
        flush_task-Flushed db (around.others s) steps.t (move_task steps.t body) changed
          steps.flushes in
      let (_, tasks, _) =
        db.outbox_added steps.written
          (schedule_event around.new_id customer_id around.trace moved body) in
      ap (λ x. get_task x task_id) (sym steps.queues)
      ∙ tasks task_id
      ∙ ap (get_task steps.written) (sym id)
      ∙ f.saved

-- What the request that computes the cascade itself gives, against the answer of the other request
-- and what the worker made of its event.
pub record Agrees (db : Database) (m : ConnectionManager) (now : ℕ)
    (direct : Reply db.State TaskOut) (body : TaskOut) (worked : db.State)
    (changes : List ChangePayload) : Type 0 where
  pub same_tasks : (a : ℕ) → db.get_task direct.state a ≡ db.get_task worked a
  pub same_answer : direct.body ≡ body
  pub pushed :
      direct.events
      ≡ record {
        type = schedule_cascade;
        project_id = body.project_id;
        seq = suc (m.seq body.project_id);
        ts = now;
        payload = cascade_data body.id changes;
      }
        ∷ []

-- Take a schedule move whose dates carry a time zone, which succeeds in the pipeline and changes the
-- dates, and the first delivery of its event to the worker, which reads the database as the move has
-- left it and succeeds. With the inline cascade, if the others commit between its reads and its writes
-- what they commit between those of the delivery, the same request succeeds too: it leaves every task
-- as the worker does, answers the same, and pushes one event with exactly the worker's changes.
pub pipeline-Agrees :
    (db : Database) (order : SetOrder) (around : Surroundings db.State) (s : db.State)
    (m : ConnectionManager) (task_id : ℕ) (body : TaskScheduleUpdate) (if_match : Option ℕ)
    (customer_id new_id event_id : ℕ) (group : String) {r : Reply db.State TaskOut}
    {worked : db.State} {changes : List ChangePayload}
    → reschedule_task db order false around s m task_id body if_match customer_id ≡ ok r
    → ((t : Task) → db.get_task s task_id ≡ some t → is_same t (move_task t body) ≡ false)
    → db.get_processed r.state group event_id ≡ false
    → process_schedule_changed db order r.state around.later new_id event_id task_id group
      ≡ ok (worked, changes)
    → (direct : Reply db.State TaskOut) × (reschedule_task db order true around s m task_id body
          if_match customer_id
        ≡ ok direct)
      × Agrees db m around.now direct r.body worked changes
unfolding inline_reply announce broadcast make_event next_seq
pipeline-Agrees db order around s m task_id body if_match customer_id new_id event_id group {r}
      {worked} {changes} h row new delivered =
    let (moved, steps, answered) =
      reschedule-Steps db order around s m task_id body if_match customer_id h in
    let (loaded, _) = load_task-ok db s task_id customer_id steps.loads in
    let changed = row steps.t loaded in
    let id = db.get_task_id s task_id loaded in
    let saved =
      Steps-saved db order around s m task_id body if_match customer_id r.state moved steps id
        changed in
    elim (process-cases db order r.state around.later new_id event_id task_id group delivered) [
      | inl (seen, _, _) ↦ absurd (true≢false (sym seen ∙ new))
      | inr (inl (gone, _, _)) ↦ absurd (none≢some (sym gone ∙ saved))
      | inr (inr (origin, ran)) ↦
          let same : origin ≡ moved = some-injective (sym ran.task ∙ saved) in
          let wrote =
            subst
              (λ x.
                write_changes db order r.state (around.later r.state) x ≡ ok (ran.written, changes))
              same ran.wrote in
          (
            inline_reply db order around s m task_id body if_match customer_id ran.written moved
                changes,
            Steps-inline db order around s m task_id body if_match customer_id r.state moved
                ran.written changes steps wrote,
            record {
              same_tasks = λ a. sym (ran.emits.tasks a ∙ ran.marks.same_tasks a);
              same_answer = sym answered;
              pushed = rw answered;
            },
          )
    ]
