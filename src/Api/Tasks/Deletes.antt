-- ===== src/Api/Tasks/Deletes.antt =====
-- What the deletion of a task does (services/api/src/main.py, `delete_task`).
use workfront_system.Base.{
  ℕ, suc, ◌≡◌, refl, subst, Option, none, some, [], ◌∷◌, ok, >>=-eq-ok, ok-injective,
}
use workfront_system.Store.Models.{Task}
use workfront_system.Store.Database.{Database, IsBelow}
use workfront_system.Ws.Manager.{ConnectionManager, task_deleted, make_event, next_seq, broadcast}
use workfront_system.Api.Schemas.{deleted_data}
use workfront_system.Api.Guards.{Surroundings, Reply, require_match, load_task, announce}
use workfront_system.Api.Guards.Cases.{require_match-ok, load_task-ok}
use workfront_system.Api.Tasks.{delete_task_route}

module _ (db : Database) where
  open db use {State, get_task, outbox}

  pub record Deleted (around : Surroundings State) (s : State) (m : ConnectionManager) (task_id : ℕ)
      (if_match : Option ℕ) (customer_id : ℕ) (t : Task) (r : Reply State (Unit {0})) : Type 0 where
    pub loaded : get_task s task_id ≡ some t
    pub owned : t.customer_id ≡ customer_id
    pub matched : if_match ≡ some t.version
    pub current :
        (row : Task) × (get_task (around.others s) t.id ≡ some row) × (row.version ≡ t.version)
    pub below : (a : ℕ) → IsBelow (get_task (around.others s)) t.id a → get_task r.state a ≡ none
    pub others :
        (a : ℕ)
        → ¬ IsBelow (get_task (around.others s)) t.id a
        → get_task r.state a ≡ get_task (around.others s) a
    pub same_outbox : outbox r.state ≡ outbox (around.others s)
    pub event :
        r.events
        ≡ record {
          type = task_deleted;
          project_id = t.project_id;
          seq = suc (m.seq t.project_id);
          ts = around.now;
          payload = deleted_data task_id;
        }
          ∷ []

  -- A deletion that succeeds was allowed to: the customer owns the task, and If-Match is the version
  -- that was loaded and that the row still has when it is deleted. It takes the whole tree of
  -- subtasks with it and no other task, it adds no outbox row, and it pushes one event, with the
  -- project's next number and the id of the task alone.
  pub delete-Deleted :
      (around : Surroundings State) (s : State) (m : ConnectionManager) (task_id : ℕ)
      (if_match : Option ℕ) (customer_id : ℕ) {r : Reply State (Unit {0})}
      → delete_task_route db around s m task_id if_match customer_id ≡ ok r
      → (t : Task) × Deleted around s m task_id if_match customer_id t r
  unfolding delete_task_route announce broadcast make_event next_seq
  delete-Deleted around s m task_id if_match customer_id {r} h =
      let (t, found, checks) = >>=-eq-ok (load_task db s task_id customer_id) _ h in
      let (u, checked, deletes) = >>=-eq-ok (require_match t.version if_match) _ checks in
      let (after, gone, done) = >>=-eq-ok (db.delete_task (around.others s) t) _ deletes in
      let (loaded, owned) = load_task-ok db s task_id customer_id found in
      (
        t,
        subst (Deleted around s m task_id if_match customer_id t) (ok-injective done) (record {
          loaded = loaded;
          owned = owned;
          matched = require_match-ok t.version if_match checked;
          current = db.delete_guard (around.others s) t after gone;
          below = db.delete_below (around.others s) t after gone;
          others = db.delete_others (around.others s) t after gone;
          same_outbox = db.delete_outbox (around.others s) t after gone;
          event = refl;
        }),
      )
