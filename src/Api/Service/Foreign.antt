-- ===== src/Api/Service/Foreign.antt =====
-- Tenants apart: what a request of services/api/src/main.py does to the tasks of other customers.
use workfront_system.Base.{
  some-injective, ℕ, ◌≡◌, ◌≢◌, Bool, Error, Outcome-cases, sym, ap, ◌∙◌, subst, false, inl, inr,
  Option, some, ok, Bool-cases, Option-cases, >>=-eq-ok, ok-injective,
}
use workfront_system.Cascade.Types.{SetOrder}
use workfront_system.Store.Models.{Task}
use workfront_system.Store.Database.{Database, IsBelow, here, child}
use workfront_system.Ws.Manager.{ConnectionManager}
use workfront_system.Api.Guards.{
  Surroundings, Reply, require_match, load_task, flush_task, is_same, announce,
}
use workfront_system.Api.Guards.Cases.{
  load_task-ok, load_task-own, flush_task-Flushed, flush_task-clean,
}
use workfront_system.Api.Schemas.{TaskUpdate, TaskScheduleUpdate, TaskOut}
use workfront_system.Api.Tasks.{edit_task, create_task, update_task, delete_task_route}
use workfront_system.Api.Tasks.Deletes.{delete-Deleted}
use workfront_system.Api.Schedule.{move_task, schedule_event, reschedule_task}
use workfront_system.Pipeline.Agreement.{reschedule-Steps}
use workfront_system.Api.Service.{
  Request, Body, post_customer, post_project, read_project, read_gantt, post_task, patch_task,
  patch_schedule, remove_task, post_predecessor, task_body, no_body, dispatch, serve,
}
use workfront_system.Api.Service.Done.{answered, dispatch-IsDone}
use workfront_system.Store.Session.{async_session_scope}
use workfront_system.History.{History}
use workfront_system.History.Requests.{create-same_tasks}
use workfront_system.History.Rows.{Later-same_version}
use workfront_system.History.Steps.{History-Later}

below-present :
    (get_task : ℕ → Option Task) (root : ℕ) (r : Task)
    → get_task root ≡ some r
    → {a : ℕ} → IsBelow get_task root a
    → (t : Task) × (get_task a ≡ some t)
below-present get_task root r at here = (r, at)
below-present get_task root r at (child t is up below) = (t, is)

-- Each child is of the customer of its parent.
abbrev pub IsOwnTree : (ℕ → Option Task) → Type 0
IsOwnTree get_task =
    (a p : ℕ) (t u : Task)
    → get_task a ≡ some t
    → t.parent_id ≡ some p
    → get_task p ≡ some u
    → t.customer_id ≡ u.customer_id

-- Then whatever stands in the tree below a row is of the row's customer.
below-customer :
    (get_task : ℕ → Option Task) (root : ℕ) (r : Task)
    → get_task root ≡ some r
    → IsOwnTree get_task
    → {a : ℕ} (row : Task) → IsBelow get_task root a
    → get_task a ≡ some row
    → row.customer_id ≡ r.customer_id
below-customer get_task root r at own row here found =
    ap (λ t. t.customer_id) (some-injective (sym found ∙ at))
below-customer get_task root r at own row (child {a} {p} t is up below) found =
    let (u, parent) = below-present get_task root r at below in
    ap (λ x. x.customer_id) (some-injective (sym found ∙ is))
    ∙ own a p t u is up parent
    ∙ below-customer get_task root r at own u below parent

module _ (db : Database) (order : SetOrder) (around : Surroundings db.State) (s : db.State)
    (m : ConnectionManager) (customer_id : ℕ) where
  open db use {State, get_task}

  -- What others commit before the request writes is commits of the services, none of which creates a
  -- task under an id that is taken.
  abbrev pub IsRegular : Type 0
  IsRegular = (b : ℕ) (t : Task) → get_task s b ≡ some t → History db order b s (around.others s)

  -- A row of the version that a request of the customer has loaded is the customer's.
  loaded-own :
      IsRegular
      → (task_id : ℕ) (t row : Task) → load_task db s task_id customer_id ≡ ok t
      → get_task (around.others s) t.id ≡ some row
      → row.version ≡ t.version
      → row.customer_id ≡ customer_id
  loaded-own regular task_id t row found is version =
      let (loaded, owned) = load_task-ok db s task_id customer_id found in
      let at = db.get_task_id s task_id loaded in
      let now = subst (λ b. get_task (around.others s) b ≡ some row) at is in
      let later = History-Later db order task_id (regular task_id t loaded) in
      let same = Later-same_version later loaded now version in
      ap (λ x. x.customer_id) (some-injective (sym now ∙ same ∙ loaded)) ∙ owned

  module _ (regular : IsRegular) (a : ℕ) (x : Task) (is : get_task (around.others s) a ≡ some x)
      (foreign : x.customer_id ≢ customer_id) where
    flush_task-foreign :
        (task_id : ℕ) (t t' : Task) {written : State} {now : Task}
        → load_task db s task_id customer_id ≡ ok t
        → flush_task db (around.others s) t t' ≡ ok (written, now)
        → get_task written a ≡ some x
    flush_task-foreign task_id t t' {written} {now} found wrote = elim (Bool-cases (is_same t t')) [
      | inl clean ↦
          ap (λ y. get_task y a) (flush_task-clean db (around.others s) t t' clean wrote).0 ∙ is
      | inr changed ↦
          let (f, _) = flush_task-Flushed db (around.others s) t t' changed wrote in
          let (row, was, version) = f.current in
          f.others a (λ at. foreign (
            ap (λ y. y.customer_id)
              (some-injective (sym is ∙ ap (get_task (around.others s)) (sym at) ∙ was))
            ∙ loaded-own regular task_id t row found was version))
          ∙ is
    ]

    delete_task-foreign :
        (task_id : ℕ) (if_match : Option ℕ) {r : Reply State (Unit {0})}
        → IsOwnTree (get_task (around.others s))
        → delete_task_route db around s m task_id if_match customer_id ≡ ok r
        → get_task r.state a ≡ some x
    delete_task-foreign task_id if_match {r} own h =
        let (t, d) = delete-Deleted db around s m task_id if_match customer_id h in
        let (row, was, version) = d.current in
        let found = load_task-own db s task_id t d.loaded d.owned in
        d.others a (λ below. foreign (
          below-customer (get_task (around.others s)) t.id row was own x below is
          ∙ loaded-own regular task_id t row found was version))
        ∙ is

    update_task-foreign :
        (task_id : ℕ) (body : TaskUpdate) (if_match : Option ℕ) {r : Reply State TaskOut}
        → update_task db around s m task_id body if_match customer_id ≡ ok r
        → get_task r.state a ≡ some x
    unfolding update_task announce
    update_task-foreign task_id body if_match {r} h =
        let (t, found, checks) = >>=-eq-ok (load_task db s task_id customer_id) _ h in
        let (u, checked, flushes) = >>=-eq-ok (require_match t.version if_match) _ checks in
        let ((written, now), wrote, done) =
          >>=-eq-ok (flush_task db (around.others s) t (edit_task t body)) _ flushes in
        ap (λ y. get_task y.state a) (sym (ok-injective done))
        ∙ flush_task-foreign task_id t (edit_task t body) found wrote

    reschedule_task-foreign :
        (task_id : ℕ) (body : TaskScheduleUpdate) (if_match : Option ℕ) {r : Reply State TaskOut}
        → reschedule_task db order false around s m task_id body if_match customer_id ≡ ok r
        → get_task r.state a ≡ some x
    reschedule_task-foreign task_id body if_match {r} h =
        let (moved, steps, _) =
          reschedule-Steps db order around s m task_id body if_match customer_id h in
        let event = schedule_event around.new_id customer_id around.trace moved body in
        ap (λ y. get_task y a) (sym steps.queues)
        ∙ (db.outbox_added steps.written event).1 a
        ∙ flush_task-foreign task_id steps.t (move_task steps.t body) steps.loads steps.flushes

    module _ (own : IsOwnTree (get_task (around.others s))) (fresh : around.new_id ≢ a) where
      dispatch-foreign :
          (request : Request) {r : Reply State Body}
          → dispatch db order false around s m (some customer_id) request ≡ ok r
          → get_task r.state a ≡ some x
      unfolding dispatch
      dispatch-foreign (post_task project_id body) h =
          let (reply, ran, state, _, _) =
            answered db order around s m (some customer_id) task_body
              (create_task db around s m project_id body customer_id) h in
          ap (λ y. get_task y a) state
          ∙ create-same_tasks db around s m project_id body customer_id a fresh ran
          ∙ is
      dispatch-foreign (patch_task task_id body if_match) h =
          let (reply, ran, state, _, _) =
            answered db order around s m (some customer_id) task_body
              (update_task db around s m task_id body if_match customer_id) h in
          ap (λ y. get_task y a) state ∙ update_task-foreign task_id body if_match ran
      dispatch-foreign (patch_schedule task_id body if_match) h =
          let (reply, ran, state, _, _) =
            answered db order around s m (some customer_id) task_body
              (reschedule_task db order false around s m task_id body if_match customer_id) h in
          ap (λ y. get_task y a) state ∙ reschedule_task-foreign task_id body if_match ran
      dispatch-foreign (remove_task task_id if_match) h =
          let (reply, ran, state, _, _) =
            answered db order around s m (some customer_id) (λ _. no_body)
              (delete_task_route db around s m task_id if_match customer_id) h in
          ap (λ y. get_task y a) state ∙ delete_task-foreign task_id if_match own ran
      dispatch-foreign (post_customer body) h =
          dispatch-IsDone db order around s m (some customer_id) (post_customer body) h a ∙ is
      dispatch-foreign (post_project body) h =
          dispatch-IsDone db order around s m (some customer_id) (post_project body) h a ∙ is
      dispatch-foreign (read_project project_id) h =
          dispatch-IsDone db order around s m (some customer_id) (read_project project_id) h a ∙ is
      dispatch-foreign (read_gantt project_id) h =
          dispatch-IsDone db order around s m (some customer_id) (read_gantt project_id) h a ∙ is
      dispatch-foreign (post_predecessor body) h =
          dispatch-IsDone db order around s m (some customer_id) (post_predecessor body) h a ∙ is

      -- In the pipeline, no request of a customer touches a task of another: whichever route it
      -- takes and however it ends, the row stands as the others have left it. The row is there, when
      -- the request writes and when it has been rolled back, as of another customer; the others'
      -- commits before the request writes are those of the services and create no task under an id
      -- that is taken; the new task has another id; and each child is of its parent's customer, since
      -- a deletion takes the children along.
      pub serve-foreign :
          (exits_first : Bool) (commit_raises : Option Error) (meanwhile : State → State)
          (request : Request)
          → get_task (meanwhile s) a ≡ some x
          → get_task
              (serve db order false around s m exits_first commit_raises meanwhile
                (some customer_id)
                request).state
              a
            ≡ some x
      unfolding serve async_session_scope
      serve-foreign exits_first commit_raises meanwhile request still =
          elim (Outcome-cases (dispatch db order false around s m (some customer_id) request)) [
            | inr (e, raised) ↦ rw raised still
            | inl (r, returned) ↦ elim (Option-cases commit_raises) [
              | inr (e, fails) ↦ rw (returned, fails) still
              | inl commits ↦ rw (returned, commits) (dispatch-foreign request returned)
            ]
          ]
