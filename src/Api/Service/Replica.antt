-- ===== src/Api/Service/Replica.antt =====
-- The events of services/api/src/main.py keep a client in step with the database.
use workfront_system.Base.{
  ℕ, ◌≡◌, ◌≢◌, refl, sym, ap, ◌∙◌, subst, false, Option, some, none, List, [], Outcome, ok, ◌>>=◌,
  >>=-eq-ok, ok-injective,
}
use workfront_system.Cascade.Types.{SetOrder}
use workfront_system.Store.Models.{Task}
use workfront_system.Store.Database.{Database, IsBelow, here}
use workfront_system.Ws.Manager.{ConnectionManager, WsEvent, make_event, next_seq, broadcast}
use workfront_system.Api.Guards.{Surroundings, Reply, is_same, announce, load_project, load_task}
use workfront_system.Api.Schemas.{
  PredecessorCreate, PredecessorOut, TaskCreate, TaskUpdate, TaskOut, task_out, EventData,
}
use workfront_system.Api.Tasks.{fresh_task, edit_task, create_task, update_task, delete_task_route}
use workfront_system.Api.Tasks.Deletes.{delete-Deleted}
use workfront_system.Api.Tasks.Updates.{update-Updated}
use workfront_system.Api.Links.{fresh_edge, add_predecessor_route}
use workfront_system.Api.Projects.{create_customer, create_project, get_project_route, get_gantt}
use workfront_system.History.Rows.{Later-same_version}
use workfront_system.History.Steps.{History-Later}
use workfront_system.Api.Service.{
  Request, Body, post_customer, post_project, read_project, read_gantt, post_task, patch_task,
  patch_schedule, remove_task, post_predecessor, task_body, edge_body, no_body, dispatch,
}
use workfront_system.Api.Service.Done.{answered, dispatch-IsDone}
use workfront_system.Api.Service.Client.{View, shown, edit, follow_all, updates, leaf-alone}
use workfront_system.Api.Service.Foreign.{IsRegular}

module _ (db : Database) (order : SetOrder) (around : Surroundings db.State) (s : db.State)
    (m : ConnectionManager) (customer_id : ℕ) where
  open db use {State, get_task}

  abbrev pub view : State → View
  view x a = shown (get_task x a)

  at_reply :
      {x y : State} {es fs : List (WsEvent EventData)}
      → x ≡ y
      → es ≡ fs
      → (a : ℕ) → view y a ≡ follow_all (view (around.others s)) fs a
      → view x a ≡ follow_all (view (around.others s)) es a
  at_reply state events a h =
      ap (λ x. view x a) state
      ∙ h
      ∙ ap (λ es. follow_all (view (around.others s)) es a) (sym events)

  -- What the events do not tell: an update must change something, a deleted task must have no
  -- subtasks, and a move tells nobody the new dates of the moved task.
  abbrev pub IsTold : Request → Type 0
  IsTold (patch_task task_id body if_match) =
      (t : Task) → get_task s task_id ≡ some t → is_same t (edit_task t body) ≡ false
  IsTold (remove_task task_id if_match) =
      (a : ℕ) (t : Task) → get_task (around.others s) a ≡ some t → t.parent_id ≢ some task_id
  IsTold (patch_schedule task_id body if_match) = ⊥
  IsTold _ = Unit {0}

  module _ (regular : IsRegular db order around s m customer_id) where
    create-follows :
        (project_id : ℕ) (body : TaskCreate) {r : Reply State TaskOut}
        → create_task db around s m project_id body customer_id ≡ ok r
        → (a : ℕ) → view r.state a ≡ follow_all (view (around.others s)) r.events a
    unfolding create_task announce broadcast make_event next_seq
    create-follows project_id body {r} h a =
        let (p, found, adds) = >>=-eq-ok (load_project db s project_id customer_id) _ h in
        let t = fresh_task around.new_id customer_id project_id body in
        let (added, inserted, done) = >>=-eq-ok (db.add_task (around.others s) t) _ adds in
        subst (λ x. view x.state a ≡ follow_all (view (around.others s)) x.events a)
          (ok-injective done)
          (updates (view (around.others s)) (view added) t.id (some (task_out t))
            (ap shown (db.task_inserted (around.others s) t added inserted))
            (λ b apart. ap shown (db.task_added (around.others s) t added inserted b apart)) a)

    update-follows :
        (task_id : ℕ) (body : TaskUpdate) (if_match : Option ℕ) {r : Reply State TaskOut}
        → ((t : Task) → get_task s task_id ≡ some t → is_same t (edit_task t body) ≡ false)
        → update_task db around s m task_id body if_match customer_id ≡ ok r
        → (a : ℕ) → view r.state a ≡ follow_all (view (around.others s)) r.events a
    update-follows task_id body if_match {r} changes h a =
        let (t, u) = update-Updated db around s m task_id body if_match customer_id h changes in
        let (row, was, version) = u.flushed.current in
        let at = db.get_task_id s task_id u.loaded in
        let later = History-Later db order task_id (regular task_id t u.loaded) in
        let there = subst (λ b. get_task (around.others s) b ≡ some row) at was in
        let stood : get_task (around.others s) t.id ≡ some t =
          ap (get_task (around.others s)) at
          ∙ Later-same_version later u.loaded there version
          ∙ u.loaded in
        let next = edit body u.now.version (view (around.others s) t.id) in
        let told : shown (get_task r.state t.id) ≡ next =
          ap shown u.flushed.saved
          ∙ ap (λ x. some (task_out x)) (u.flushed.next)
          ∙ ap (λ v. edit body v (some (task_out t))) (sym (ap (λ x. x.version) u.flushed.next))
          ∙ ap (λ o. edit body u.now.version (shown o)) (sym stood) in
        subst (λ e. view r.state a ≡ follow_all (view (around.others s)) e a) (sym u.event)
          (updates (view (around.others s)) (view r.state) t.id next told
            (λ b apart. ap shown (u.flushed.others b apart)) a)

    delete-follows :
        (task_id : ℕ) (if_match : Option ℕ) {r : Reply State (Unit {0})}
        → ((a : ℕ) (t : Task) → get_task (around.others s) a ≡ some t → t.parent_id ≢ some task_id)
        → delete_task_route db around s m task_id if_match customer_id ≡ ok r
        → (a : ℕ) → view r.state a ≡ follow_all (view (around.others s)) r.events a
    delete-follows task_id if_match {r} leaf h a =
        let (t, d) = delete-Deleted db around s m task_id if_match customer_id h in
        let at = db.get_task_id s task_id d.loaded in
        let root = subst (λ b. IsBelow (get_task (around.others s)) b task_id) (sym at) here in
        subst (λ e. view r.state a ≡ follow_all (view (around.others s)) e a) (sym d.event)
          (updates (view (around.others s)) (view r.state) task_id none
            (ap shown (d.below task_id root))
            (λ b apart. ap shown (
              d.others b (λ below. apart (
                sym (
                  leaf-alone (get_task (around.others s)) task_id leaf
                    (subst (λ c. IsBelow (get_task (around.others s)) c b) at below))))))
            a)

    link-silent :
        (body : PredecessorCreate) {r : Reply State PredecessorOut}
        → add_predecessor_route db around s m body customer_id ≡ ok r
        → (v : View) → follow_all v r.events ≡ v
    unfolding add_predecessor_route announce broadcast make_event next_seq
    link-silent body {r} h v =
        let (succ, found, adds) = >>=-eq-ok (load_task db s body.successor_id customer_id) _ h in
        let edge = fresh_edge around.new_id customer_id body in
        let (added, inserted, done) =
          >>=-eq-ok (db.add_predecessor (around.others s) edge) _ adds in
        subst (λ x. follow_all v x.events ≡ v) (ok-injective done) refl

    silent :
        {A : Type 0} (ran : Outcome A) (reply : A → Reply State Body) {r : Reply State Body}
        → ((x : A) → (reply x).events ≡ [])
        → (ran >>= λ x. ok (reply x)) ≡ ok r
        → r.events ≡ []
    silent ran reply quiets h =
        let (x, returned, done) = >>=-eq-ok ran _ h in
        ap (λ y. y.events) (sym (ok-injective done)) ∙ quiets x

    -- A handler that broadcasts nothing, and does nothing to the tasks.
    unchanged-follows :
        (r : Reply State Body)
        → ((a : ℕ) → get_task r.state a ≡ get_task (around.others s) a)
        → r.events ≡ []
        → (a : ℕ) → view r.state a ≡ follow_all (view (around.others s)) r.events a
    unchanged-follows r same none_sent a =
        ap shown (same a) ∙ ap (λ es. follow_all (view (around.others s)) es a) (sym none_sent)

    -- A client that has the tasks as they stand when a request writes, and does what the events of
    -- the request tell it, has the tasks as they stand afterwards. That holds for every request that
    -- succeeds but a schedule move, provided that an update changes something, and that a deleted
    -- task has no subtasks. The others' commits before the request writes are those of the services
    -- and create no task under an id that is taken.
    pub dispatch-follows :
        (request : Request) {r : Reply State Body}
        → IsTold request
        → dispatch db order false around s m (some customer_id) request ≡ ok r
        → (a : ℕ) → view r.state a ≡ follow_all (view (around.others s)) r.events a
    unfolding dispatch
    dispatch-follows (post_task project_id body) {r} told h =
        let (reply, ran, state, _, events) =
          answered db order around s m (some customer_id) task_body
            (create_task db around s m project_id body customer_id) h in
        λ a. at_reply state events a (create-follows project_id body ran a)
    dispatch-follows (patch_task task_id body if_match) {r} told h =
        let (reply, ran, state, _, events) =
          answered db order around s m (some customer_id) task_body
            (update_task db around s m task_id body if_match customer_id) h in
        λ a. at_reply state events a (update-follows task_id body if_match told ran a)
    dispatch-follows (remove_task task_id if_match) {r} told h =
        let (reply, ran, state, _, events) =
          answered db order around s m (some customer_id) (λ _. no_body)
            (delete_task_route db around s m task_id if_match customer_id) h in
        λ a. at_reply state events a (delete-follows task_id if_match told ran a)
    dispatch-follows (patch_schedule task_id body if_match) told h = absurd told
    dispatch-follows (post_customer body) {r} told h =
        unchanged-follows r
          (dispatch-IsDone db order around s m (some customer_id) (post_customer body) h)
          (silent (create_customer db (around.others s) around.new_id body) _ (λ x. refl) h)
    dispatch-follows (post_project body) {r} told h =
        unchanged-follows r
          (dispatch-IsDone db order around s m (some customer_id) (post_project body) h)
          (silent (create_project db (around.others s) around.new_id customer_id body) _ (λ x. refl)
            h)
    dispatch-follows (read_project project_id) {r} told h =
        unchanged-follows r
          (dispatch-IsDone db order around s m (some customer_id) (read_project project_id) h)
          (silent (get_project_route db s project_id customer_id) _ (λ x. refl) h)
    dispatch-follows (read_gantt project_id) {r} told h =
        unchanged-follows r
          (dispatch-IsDone db order around s m (some customer_id) (read_gantt project_id) h)
          (silent (get_gantt db s m project_id customer_id) _ (λ x. refl) h)
    dispatch-follows (post_predecessor body) {r} told h =
        let (reply, ran, state, _, events) =
          answered db order around s m (some customer_id) edge_body
            (add_predecessor_route db around s m body customer_id) h in
        let same =
          dispatch-IsDone db order around s m (some customer_id) (post_predecessor body) h in
        λ a.
          ap shown (same a)
          ∙ ap (λ v. v a) (sym (link-silent body ran (view (around.others s))))
          ∙ ap (λ es. follow_all (view (around.others s)) es a) (sym events)
