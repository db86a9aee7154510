-- ===== src/Api/Service/Effects.antt =====
-- What the handlers of the task routes of services/api/src/main.py tell the client, against what
-- they write.
use workfront_system.Base.{
  ℕ, suc, ◌≡◌, refl, sym, ap, ◌∙◌, subst, true, false, ◌⊎◌, inl, inr, Option, some, none,
  Bool-cases, ok, >>=-eq-ok, ok-injective,
}
use workfront_system.Cascade.Types.{SetOrder}
use workfront_system.Store.Models.{Task}
use workfront_system.Store.Database.{Database, IsBelow}
use workfront_system.Ws.Manager.{ConnectionManager}
use workfront_system.Api.Schemas.{TaskCreate, TaskUpdate, TaskScheduleUpdate, TaskOut, task_out}
use workfront_system.Api.Guards.{
  Surroundings, Reply, is_same, require_match, load_task, load_project, flush_task, announce,
}
use workfront_system.Api.Guards.Cases.{
  load_task-ok, require_match-ok, flush_task-Flushed, flush_task-clean,
}
use workfront_system.Api.Guards.Same.{is_same-true}
use workfront_system.Api.Tasks.{
  fresh_task, given, edit_task, create_task, update_task, delete_task_route,
}
use workfront_system.Api.Tasks.Deletes.{delete-Deleted}
use workfront_system.Api.Schedule.{move_task, schedule_event, reschedule_task}
use workfront_system.Pipeline.Agreement.{reschedule-Steps}

module _ (db : Database) (order : SetOrder) (around : Surroundings db.State) (s : db.State) where
  open db use {State, get_task}

  -- The row is in the table, and it is told.
  pub record Stores (row : Task) (after : State) (out : TaskOut) : Type 0 where
    pub told : task_out row ≡ out
    pub saved : get_task after row.id ≡ some row

  -- The row, as the request has read it, is told, and nothing is written.
  pub record Reads (row : Task) (after : State) (out : TaskOut) : Type 0 where
    pub told : task_out row ≡ out
    pub unwritten : (a : ℕ) → get_task after a ≡ get_task (around.others s) a

  -- A row with other values, as the flush writes it.
  abbrev pub rewritten : Task → Task → Task
  rewritten t t' = record t' { version = suc t.version }

  -- The task that the request names, of its customer and in the version of its If-Match, is changed by
  -- `edit`.
  pub record Changes (task_id : ℕ) (if_match : Option ℕ) (customer_id : ℕ) (edit : Task → Task)
      (after : State) (out : TaskOut) : Type 0 where
    pub row : Task
    pub read : get_task s task_id ≡ some row
    pub owned : row.customer_id ≡ customer_id
    pub matched : if_match ≡ some row.version
    pub result :
        Stores (rewritten row (edit row)) after out ⊎ ((edit row ≡ row) × Reads row after out)

  -- The task that the request names, of its customer and in the version of its If-Match, is gone with
  -- those below it.
  pub record Removes (task_id : ℕ) (if_match : Option ℕ) (customer_id : ℕ) (after : State)
      : Type 0 where
    pub row : Task
    pub read : get_task s task_id ≡ some row
    pub owned : row.customer_id ≡ customer_id
    pub matched : if_match ≡ some row.version
    pub absent : (a : ℕ) → IsBelow (get_task (around.others s)) row.id a → get_task after a ≡ none

  flush_task-told :
      (t t' : Task) {written : State} {now : Task}
      → t'.id ≡ t.id
      → (is_same t t' ≡ true → t' ≡ t)
      → flush_task db (around.others s) t t' ≡ ok (written, now)
      → ((now ≡ rewritten t t') × (get_task written now.id ≡ some now))
        ⊎ ((t' ≡ t) × (now ≡ t) × (written ≡ around.others s))
  flush_task-told t t' {written} {now} id clean h = elim (Bool-cases (is_same t t')) [
    | inr changed ↦
        let (f, _) = flush_task-Flushed db (around.others s) t t' changed h in
        let same : t.id ≡ now.id = sym (ap (λ x. x.id) f.next ∙ id) in
        inl (f.next, subst (λ a. get_task written a ≡ some now) same f.saved)
    | inl same ↦
        let (unwritten, told) = flush_task-clean db (around.others s) t t' same h in
        inr (clean same, told ∙ clean same, unwritten)
  ]

  edit_task-same :
      (t : Task) (body : TaskUpdate) → is_same t (edit_task t body) ≡ true → edit_task t body ≡ t
  edit_task-same t body =
      is_same-true t (given body.name t.name) (given body.status t.status) t.planned_start
        t.planned_completion

  move_task-same :
      (t : Task) (body : TaskScheduleUpdate)
      → is_same t (move_task t body) ≡ true
      → move_task t body ≡ t
  move_task-same t body =
      is_same-true t t.name t.status (some body.planned_start) (some body.planned_completion)

  pub create_task-Stores :
      (m : ConnectionManager) (project_id : ℕ) (body : TaskCreate) (customer_id : ℕ)
      {r : Reply State TaskOut}
      → create_task db around s m project_id body customer_id ≡ ok r
      → Stores (fresh_task around.new_id customer_id project_id body) r.state r.body
  unfolding create_task announce
  create_task-Stores m project_id body customer_id {r} h =
      let (p, found, adds) = >>=-eq-ok (load_project db s project_id customer_id) _ h in
      let t = fresh_task around.new_id customer_id project_id body in
      let (added, inserted, done) = >>=-eq-ok (db.add_task (around.others s) t) _ adds in
      subst (λ x. Stores t x.state x.body) (ok-injective done)
        (record { told = refl; saved = db.task_inserted (around.others s) t added inserted })

  pub update_task-Changes :
      (m : ConnectionManager) (task_id : ℕ) (body : TaskUpdate) (if_match : Option ℕ)
      (customer_id : ℕ) {r : Reply State TaskOut}
      → update_task db around s m task_id body if_match customer_id ≡ ok r
      → Changes task_id if_match customer_id (λ t. edit_task t body) r.state r.body
  unfolding update_task announce
  update_task-Changes m task_id body if_match customer_id {r} h =
      let edit : Task → Task = λ t. edit_task t body in
      let (t, found, checks) = >>=-eq-ok (load_task db s task_id customer_id) _ h in
      let (u, checked, flushes) = >>=-eq-ok (require_match t.version if_match) _ checks in
      let ((written, now), wrote, done) =
        >>=-eq-ok (flush_task db (around.others s) t (edit t)) _ flushes in
      let (loaded, own) = load_task-ok db s task_id customer_id found in
      subst (λ x. Changes task_id if_match customer_id edit x.state x.body) (ok-injective done)
        (record {
          row = t;
          read = loaded;
          owned = own;
          matched = require_match-ok t.version if_match checked;
          result = elim (flush_task-told t (edit t) refl (edit_task-same t body) wrote) [
            | inl (next, saved) ↦ inl (record {
              told = ap task_out (sym next);
              saved = subst (λ x. get_task written x.id ≡ some x) next saved;
            })
            | inr (same, told, unwritten) ↦ inr (
              same,
              record {
                told = ap task_out (sym told);
                unwritten = λ a. ap (λ x. get_task x a) unwritten;
              },
            )
          ];
        })

  pub reschedule_task-Changes :
      (m : ConnectionManager) (task_id : ℕ) (body : TaskScheduleUpdate) (if_match : Option ℕ)
      (customer_id : ℕ) {r : Reply State TaskOut}
      → reschedule_task db order false around s m task_id body if_match customer_id ≡ ok r
      → Changes task_id if_match customer_id (λ t. move_task t body) r.state r.body
  reschedule_task-Changes m task_id body if_match customer_id {r} h =
      let (moved, steps, answered) =
        reschedule-Steps db order around s m task_id body if_match customer_id h in
      let event = schedule_event around.new_id customer_id around.trace moved body in
      let queued : (a : ℕ) → get_task r.state a ≡ get_task steps.written a = λ a.
        ap (λ x. get_task x a) (sym steps.queues) ∙ (db.outbox_added steps.written event).1 a in
      let (loaded, own) = load_task-ok db s task_id customer_id steps.loads in
      record {
        row = steps.t;
        read = loaded;
        owned = own;
        matched = require_match-ok steps.t.version if_match steps.matches;
        result =
            elim (flush_task-told steps.t (move_task steps.t body) refl
              (move_task-same steps.t body) steps.flushes) [
                | inl (next, saved) ↦ inl (record {
                  told = ap task_out (sym next) ∙ sym answered;
                  saved =
                      subst (λ x. get_task r.state x.id ≡ some x) next (queued moved.id ∙ saved);
                })
                | inr (same, told, unwritten) ↦ inr (
                  same,
                  record {
                    told = ap task_out (sym told) ∙ sym answered;
                    unwritten = λ a. queued a ∙ ap (λ x. get_task x a) unwritten;
                  },
                )
              ];
      }

  pub delete_task-Removes :
      (m : ConnectionManager) (task_id : ℕ) (if_match : Option ℕ) (customer_id : ℕ)
      {r : Reply State (Unit {0})}
      → delete_task_route db around s m task_id if_match customer_id ≡ ok r
      → Removes task_id if_match customer_id r.state
  delete_task-Removes m task_id if_match customer_id h =
      let (t, d) = delete-Deleted db around s m task_id if_match customer_id h in
      record { row = t; read = d.loaded; owned = d.owned; matched = d.matched; absent = d.below }
