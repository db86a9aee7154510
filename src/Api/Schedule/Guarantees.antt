-- ===== src/Api/Schedule/Guarantees.antt =====
-- What the schedule move of services/api/src/main.py guarantees in the pipeline, where the worker
-- computes the cascade.
use workfront_system.Base.{
  some-injective, ℕ, suc, ◌≡◌, ◌≢◌, refl, sym, ap, ◌∙◌, subst, false, Option, some, [], ◌∷◌, ◌++◌,
  arith, ok, err, stale_data_error, http_exception, >>=-eq-ok, ok-injective,
}
use workfront_system.Cascade.Types.{SetOrder}
use workfront_system.Store.Models.{Task}
use workfront_system.Store.Database.{Database}
use workfront_system.Ws.Manager.{ConnectionManager}
use workfront_system.Api.Schemas.{TaskScheduleUpdate, TaskOut, task_out}
use workfront_system.Api.Guards.{Surroundings, Reply, require_match, is_same, load_task, flush_task}
use workfront_system.Api.Guards.Cases.{
  require_match-ok, require_match-pass, require_match-stale, load_task-ok, load_task-pass, Flushed,
  flush_task-Flushed, flush_task-stale,
}
use workfront_system.Api.Schedule.{move_task, schedule_event, reschedule_task}

module _ (db : Database) (order : SetOrder) where
  open db use {State, get_task, outbox}

  -- A move that came through: the client knew the version of the row and owns it, the row is
  -- written, and the outbox has one more row.
  pub record Moved (around : Surroundings State) (s : State) (task_id : ℕ)
      (body : TaskScheduleUpdate) (if_match : Option ℕ) (customer_id : ℕ) (t : Task)
      (r : Reply State TaskOut) : Type 0 where
    pub loaded : get_task s task_id ≡ some t
    pub owned : t.customer_id ≡ customer_id
    pub matched : if_match ≡ some t.version
    pub moved : Task
    pub written : State
    pub flushed : Flushed db (around.others s) t (move_task t body) written moved
    pub saved : get_task r.state t.id ≡ some moved
    pub others : (a : ℕ) → t.id ≢ a → get_task r.state a ≡ get_task (around.others s) a
    pub queued :
        outbox r.state
        ≡ outbox (around.others s)
          ++ schedule_event around.new_id customer_id around.trace moved body ∷ []
    pub answer : r.body ≡ task_out moved

  pub reschedule-Moved :
      (around : Surroundings State) (s : State) (m : ConnectionManager) (task_id : ℕ)
      (body : TaskScheduleUpdate) (if_match : Option ℕ) (customer_id : ℕ) {r : Reply State TaskOut}
      → reschedule_task db order false around s m task_id body if_match customer_id ≡ ok r
      → ((t : Task) → get_task s task_id ≡ some t → is_same t (move_task t body) ≡ false)
      → (t : Task) × Moved around s task_id body if_match customer_id t r
  unfolding reschedule_task
  reschedule-Moved around s m task_id body if_match customer_id {r} h changes =
      let (t, found, checks) = >>=-eq-ok (load_task db s task_id customer_id) _ h in
      let (u, checked, flushes) = >>=-eq-ok (require_match t.version if_match) _ checks in
      let ((written, moved), wrote, done) =
        >>=-eq-ok (flush_task db (around.others s) t (move_task t body)) _ flushes in
      let (loaded, owned) = load_task-ok db s task_id customer_id found in
      let (f, kept) =
        flush_task-Flushed db (around.others s) t (move_task t body) (changes t loaded) wrote in
      let (rows, tasks, _) =
        db.outbox_added written
          (schedule_event around.new_id customer_id around.trace moved body) in
      (
        t,
        subst (Moved around s task_id body if_match customer_id t) (ok-injective done) (record {
          loaded = loaded;
          owned = owned;
          matched = require_match-ok t.version if_match checked;
          moved = moved;
          written = written;
          flushed = f;
          saved = tasks t.id ∙ f.saved;
          others = λ a apart. tasks a ∙ f.others a apart;
          queued =
              rows
              ∙ ap (λ l. l ++ schedule_event around.new_id customer_id around.trace moved body ∷ [])
                  kept;
          answer = refl;
        }),
      )

  -- Two clients that hold the same version of a task: once the move of one has succeeded, that of
  -- the other fails with a conflict, whether it had read the task before (its flush then meets
  -- StaleDataError) or reads it afterwards (its If-Match is refused with 409). Each move changes the
  -- task's dates.
  pub reschedule-conflict :
      (around around' : Surroundings State) (s : State) (m m' : ConnectionManager) (task_id : ℕ)
      (body body' : TaskScheduleUpdate) (if_match : Option ℕ) (customer_id : ℕ)
      {r : Reply State TaskOut} (t : Task)
      → get_task s task_id ≡ some t
      → is_same t (move_task t body) ≡ false
      → is_same t (move_task t body') ≡ false
      → reschedule_task db order false around s m task_id body if_match customer_id ≡ ok r
      → around'.others s ≡ r.state
      → (reschedule_task db order false around' s m' task_id body' if_match customer_id
          ≡ err stale_data_error)
        × (reschedule_task db order false around' r.state m' task_id body' if_match customer_id
            ≡ err (http_exception 409))
  unfolding reschedule_task
  reschedule-conflict around around' s m m' task_id body body' if_match customer_id {r} t here
        changes changes' first then =
      let (t1, w1) = reschedule-Moved around s m task_id body if_match customer_id first (λ x e.
        subst (λ y. is_same y (move_task y body) ≡ false) (some-injective (sym here ∙ e))
          changes) in
      let w : Moved around s task_id body if_match customer_id t r =
        subst (λ y. Moved around s task_id body if_match customer_id y r)
          (some-injective (sym w1.loaded ∙ here)) w1 in
      let next : w.moved.version ≡ suc t.version = ap (λ x. x.version) w.flushed.next in
      let owned : w.moved.customer_id ≡ customer_id =
        ap (λ x. x.customer_id) w.flushed.next ∙ w.owned in
      let id = db.get_task_id s task_id here in
      let loads = load_task-pass db s task_id t here in
      let reloads =
        load_task-pass db r.state task_id w.moved (ap (get_task r.state) (sym id) ∙ w.saved) in
      let stale =
        flush_task-stale db (around'.others s) t (move_task t body') w.moved changes'
          (ap (λ x. get_task x t.id) then ∙ w.saved) (λ e. omega (arith, e, next)) in
      (
        rw (w.matched) (
            rw (
              subst (λ c. load_task db s task_id c ≡ ok t) w.owned loads,
              require_match-pass t.version,
              stale,
            )),
        rw (w.matched) (
            rw (
              subst (λ c. load_task db r.state task_id c ≡ ok w.moved) owned reloads,
              require_match-stale w.moved.version t.version (λ e. omega (arith, e, next)),
            )),
      )
