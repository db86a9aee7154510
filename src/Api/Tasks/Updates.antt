-- ===== src/Api/Tasks/Updates.antt =====
-- What an update of a task's name and status guarantees (services/api/src/main.py, `update_task`).
use workfront_system.Base.{
  ℕ, suc, ◌≡◌, refl, subst, false, Option, some, [], ◌∷◌, ok, >>=-eq-ok, ok-injective,
}
use workfront_system.Store.Models.{Task}
use workfront_system.Store.Database.{Database}
use workfront_system.Ws.Manager.{ConnectionManager, task_updated, make_event, next_seq, broadcast}
use workfront_system.Api.Schemas.{TaskUpdate, TaskOut, task_out, updated_data}
use workfront_system.Api.Guards.{
  Surroundings, Reply, require_match, is_same, load_task, flush_task, announce,
}
use workfront_system.Api.Guards.Cases.{require_match-ok, load_task-ok, Flushed, flush_task-Flushed}
use workfront_system.Api.Tasks.{edit_task, update_task}

module _ (db : Database) where
  open db use {State, get_task, outbox}

  pub record Updated (around : Surroundings State) (s : State) (m : ConnectionManager) (task_id : ℕ)
      (body : TaskUpdate) (if_match : Option ℕ) (customer_id : ℕ) (t : Task)
      (r : Reply State TaskOut) : Type 0 where
    pub loaded : get_task s task_id ≡ some t
    pub owned : t.customer_id ≡ customer_id
    pub matched : if_match ≡ some t.version
    pub now : Task
    pub flushed : Flushed db (around.others s) t (edit_task t body) r.state now
    pub same_outbox : outbox r.state ≡ outbox (around.others s)
    pub answer : r.body ≡ task_out now
    pub event :
        r.events
        ≡ record {
          type = task_updated;
          project_id = t.project_id;
          seq = suc (m.seq t.project_id);
          ts = around.now;
          payload = updated_data t.id body now.version;
        }
          ∷ []

  -- An update that succeeds and changes the name or the status was allowed to: the customer owns the
  -- task, and If-Match is the version that was loaded and that the row still has when it is written.
  -- Then the row has the fields that were given, the other fields as loaded, and the next version;
  -- no other task and no outbox row is touched; and one event with the project's next number tells
  -- the subscribers the new version.
  pub update-Updated :
      (around : Surroundings State) (s : State) (m : ConnectionManager) (task_id : ℕ)
      (body : TaskUpdate) (if_match : Option ℕ) (customer_id : ℕ) {r : Reply State TaskOut}
      → update_task db around s m task_id body if_match customer_id ≡ ok r
      → ((t : Task) → get_task s task_id ≡ some t → is_same t (edit_task t body) ≡ false)
      → (t : Task) × Updated around s m task_id body if_match customer_id t r
  unfolding update_task announce broadcast make_event next_seq
  update-Updated around s m task_id body if_match customer_id {r} h changes =
      let (t, found, checks) = >>=-eq-ok (load_task db s task_id customer_id) _ h in
      let (u, checked, flushes) = >>=-eq-ok (require_match t.version if_match) _ checks in
      let ((written, now), wrote, done) =
        >>=-eq-ok (flush_task db (around.others s) t (edit_task t body)) _ flushes in
      let (loaded, owned) = load_task-ok db s task_id customer_id found in
      let (f, kept) =
        flush_task-Flushed db (around.others s) t (edit_task t body) (changes t loaded) wrote in
      (
        t,
        subst (Updated around s m task_id body if_match customer_id t) (ok-injective done) (record {
          loaded = loaded;
          owned = owned;
          matched = require_match-ok t.version if_match checked;
          now = now;
          flushed = f;
          same_outbox = kept;
          answer = refl;
          event = refl;
        }),
      )
