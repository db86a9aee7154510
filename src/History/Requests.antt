-- ===== src/History/Requests.antt =====
-- What each request of services/api/src/main.py but the move does to one row of the task table, and
-- what a flush does.
use workfront_system.Base.{
  none≢some, ℕ, ◌≡◌, ◌≢◌, sym, ap, ◌∙◌, subst, inl, inr, Option, List, arith, Bool-cases,
  Option-cases, ◌==◌, ==_iff, ok, >>=-eq-ok, ok-injective,
}
use workfront_system.Store.Models.{Customer, Task, ChangePayload}
use workfront_system.Store.Database.{Database}
use workfront_system.Ws.Manager.{ConnectionManager}
use workfront_system.Worker.Handler.Writes.{Wrote}
use workfront_system.Api.Schemas.{
  TaskCreate, ProjectCreate, ProjectOut, PredecessorCreate, PredecessorOut, TaskUpdate, TaskOut,
}
use workfront_system.Api.Guards.{
  Surroundings, Reply, require_match, is_same, load_task, load_project, flush_task, announce,
}
use workfront_system.Api.Guards.Cases.{Flushed, flush_task-Flushed, flush_task-clean}
use workfront_system.Api.Projects.{fresh_project, create_customer, create_project}
use workfront_system.Api.Tasks.{fresh_task, edit_task, create_task, update_task, delete_task_route}
use workfront_system.Api.Tasks.Deletes.{delete-Deleted}
use workfront_system.Api.Links.{fresh_edge, add_predecessor_route}
use workfront_system.History.Rows.{Later, unchanged, newer, gone, find_change}

module _ (db : Database) where
  open db use {State, get_task}

  pub Flushed-Later :
      (s : State) (t t' : Task) {s' : State} {written : Task} (a : ℕ)
      → Flushed db s t t' s' written
      → Later (get_task s a) (get_task s' a)
  Flushed-Later s t t' {s'} {written} a f = elim (Bool-cases (t.id == a)) [
    | inl own ↦
        let (row, was, version) = f.current in
        subst (λ b. Later (get_task s b) (get_task s' b)) ((==_iff t.id a).0 own)
          (newer row written was f.saved (omega (arith, version, ap (λ x. x.version) f.next)))
    | inr other ↦ unchanged (f.others a (λ at. absurd (ground (arith, other, at))))
  ]

  pub flush_task-Later :
      (s : State) (t t' : Task) {s' : State} {written : Task} (a : ℕ)
      → flush_task db s t t' ≡ ok (s', written)
      → Later (get_task s a) (get_task s' a)
  flush_task-Later s t t' {s'} {written} a h = elim (Bool-cases (is_same t t')) [
    | inl clean ↦ unchanged (ap (λ x. get_task x a) (flush_task-clean db s t t' clean h).0)
    | inr dirty ↦ Flushed-Later s t t' a (flush_task-Flushed db s t t' dirty h).0
  ]

  pub Wrote-Later :
      (rows : List Task) (before after : State) (changes : List ChangePayload) (a : ℕ)
      → Wrote db rows before after changes
      → Later (get_task before a) (get_task after a)
  Wrote-Later rows before after changes a w = elim (find_change changes a) [
    | inr apart ↦ unchanged (w.others a apart)
    | inl (c, listed, at) ↦
        let (loaded, found, saved) = w.saved c listed in
        subst (λ b. Later (get_task before b) (get_task after b)) at
          (newer saved.row _ saved.was saved.is
            (omega (arith, saved.same_version, saved.next_version)))
  ]

  -- A deletion takes the row, or leaves it.
  pub delete-Later :
      (around : Surroundings State) (s : State) (m : ConnectionManager) (task_id : ℕ)
      (if_match : Option ℕ) (customer_id : ℕ) {r : Reply State (Unit {0})} (a : ℕ)
      → delete_task_route db around s m task_id if_match customer_id ≡ ok r
      → Later (get_task (around.others s) a) (get_task r.state a)
  delete-Later around s m task_id if_match customer_id {r} a h =
      let (t, d) = delete-Deleted db around s m task_id if_match customer_id h in
      elim (Option-cases (get_task r.state a)) [
        | inl absent ↦ gone absent
        | inr (row, found) ↦
            unchanged (d.others a (λ below. none≢some (sym (d.below a below) ∙ found)))
      ]

  pub update-Later :
      (around : Surroundings State) (s : State) (m : ConnectionManager) (task_id : ℕ)
      (body : TaskUpdate) (if_match : Option ℕ) (customer_id : ℕ) {r : Reply State TaskOut} (a : ℕ)
      → update_task db around s m task_id body if_match customer_id ≡ ok r
      → Later (get_task (around.others s) a) (get_task r.state a)
  unfolding update_task announce
  update-Later around s m task_id body if_match customer_id {r} a h =
      let (t, found, checks) = >>=-eq-ok (load_task db s task_id customer_id) _ h in
      let (u, checked, flushes) = >>=-eq-ok (require_match t.version if_match) _ checks in
      let ((written, now), wrote, done) =
        >>=-eq-ok (flush_task db (around.others s) t (edit_task t body)) _ flushes in
      subst (λ x. Later (get_task (around.others s) a) (get_task x a))
        (ap (λ x. x.state) (ok-injective done))
        (flush_task-Later (around.others s) t (edit_task t body) a wrote)

  pub create-same_tasks :
      (around : Surroundings State) (s : State) (m : ConnectionManager) (project_id : ℕ)
      (body : TaskCreate) (customer_id : ℕ) {r : Reply State TaskOut} (a : ℕ)
      → around.new_id ≢ a
      → create_task db around s m project_id body customer_id ≡ ok r
      → get_task r.state a ≡ get_task (around.others s) a
  unfolding create_task announce
  create-same_tasks around s m project_id body customer_id {r} a apart h =
      let (p, found, adds) = >>=-eq-ok (load_project db s project_id customer_id) _ h in
      let t = fresh_task around.new_id customer_id project_id body in
      let (added, inserted, done) = >>=-eq-ok (db.add_task (around.others s) t) _ adds in
      (ap (λ x. get_task x.state a) (sym (ok-injective done))
        ∙ db.task_added (around.others s) t added inserted a apart)

  pub link-same_tasks :
      (around : Surroundings State) (s : State) (m : ConnectionManager) (body : PredecessorCreate)
      (customer_id : ℕ) {r : Reply State PredecessorOut} (a : ℕ)
      → add_predecessor_route db around s m body customer_id ≡ ok r
      → get_task r.state a ≡ get_task (around.others s) a
  unfolding add_predecessor_route announce
  link-same_tasks around s m body customer_id {r} a h =
      let (succ, found, adds) = >>=-eq-ok (load_task db s body.successor_id customer_id) _ h in
      let edge = fresh_edge around.new_id customer_id body in
      let (added, inserted, done) = >>=-eq-ok (db.add_predecessor (around.others s) edge) _ adds in
      (ap (λ x. get_task x.state a) (sym (ok-injective done))
        ∙ db.predecessor_added (around.others s) edge added inserted a)

  pub project-same_tasks :
      (s : State) (new_id customer_id : ℕ) (body : ProjectCreate) {r : State × ProjectOut} (a : ℕ)
      → create_project db s new_id customer_id body ≡ ok r
      → get_task r.0 a ≡ get_task s a
  unfolding create_project
  project-same_tasks s new_id customer_id body {r} a h =
      let p = fresh_project new_id customer_id body.name in
      let (added, inserted, done) = >>=-eq-ok (db.add_project s p) _ h in
      (ap (λ x. get_task x.0 a) (sym (ok-injective done)) ∙ db.project_added s p added inserted a)

  pub customer-same_tasks :
      (s : State) (new_id : ℕ) (body : ProjectCreate) {r : State × Customer} (a : ℕ)
      → create_customer db s new_id body ≡ ok r
      → get_task r.0 a ≡ get_task s a
  unfolding create_customer
  customer-same_tasks s new_id body {r} a h =
      let c : Customer = record { id = new_id; name = body.name } in
      let (added, inserted, done) = >>=-eq-ok (db.add_customer s c) _ h in
      (ap (λ x. get_task x.0 a) (sym (ok-injective done)) ∙ db.customer_added s c added inserted a)
