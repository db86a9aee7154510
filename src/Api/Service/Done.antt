-- ===== src/Api/Service/Done.antt =====
-- What the handlers of services/api/src/main.py do, request by request.
use workfront_system.Base.{
  ℕ, ◌≡◌, sym, ap, ◌∙◌, subst, false, Option, some, none, Outcome, ok, ◌>>=◌, >>=-eq-ok,
  ok-injective,
}
use workfront_system.Cascade.Types.{SetOrder}
use workfront_system.Store.Database.{Database}
use workfront_system.Ws.Manager.{ConnectionManager}
use workfront_system.Api.Schemas.{TaskOut}
use workfront_system.Api.Guards.{Surroundings, Reply}
use workfront_system.Api.Projects.{create_customer, create_project, get_project_route, get_gantt}
use workfront_system.Api.Tasks.{create_task, update_task, delete_task_route, fresh_task, edit_task}
use workfront_system.Api.Schedule.{move_task, reschedule_task}
use workfront_system.Api.Links.{add_predecessor_route}
use workfront_system.History.Requests.{link-same_tasks, project-same_tasks, customer-same_tasks}
use workfront_system.Api.Service.{
  Request, Body, post_customer, post_project, read_project, read_gantt, post_task, patch_task,
  patch_schedule, remove_task, post_predecessor, task_body, no_body, project_body, gantt_body,
  edge_body, answer, quiet, current_customer_id, dispatch,
}
use workfront_system.Api.Service.Effects.{
  Stores, Changes, Removes, create_task-Stores, update_task-Changes, reschedule_task-Changes,
  delete_task-Removes,
}

current_customer_id-ok :
    (header : Option ℕ) {customer_id : ℕ}
    → current_customer_id header ≡ ok customer_id
    → header ≡ some customer_id
current_customer_id-ok none h = cc
current_customer_id-ok (some c) h = ap some (ok-injective h)

module _ (db : Database) (order : SetOrder) (around : Surroundings db.State) (s : db.State) where
  open db use {State, get_task}

  -- What the request was to do to the tasks, and what the client is told of it.
  abbrev pub IsDone : Option ℕ → Request → State → Body → Type 0
  IsDone header (post_task project_id body) after told =
      (customer_id : ℕ) × (header ≡ some customer_id)
      × (out : TaskOut) × (told ≡ task_body out)
      × Stores db order around s (fresh_task around.new_id customer_id project_id body) after out
  IsDone header (patch_task task_id body if_match) after told =
      (customer_id : ℕ) × (header ≡ some customer_id)
      × (out : TaskOut) × (told ≡ task_body out)
      × Changes db order around s task_id if_match customer_id (λ t. edit_task t body) after out
  IsDone header (patch_schedule task_id body if_match) after told =
      (customer_id : ℕ) × (header ≡ some customer_id)
      × (out : TaskOut) × (told ≡ task_body out)
      × Changes db order around s task_id if_match customer_id (λ t. move_task t body) after out
  IsDone header (remove_task task_id if_match) after told =
      (customer_id : ℕ) × (header ≡ some customer_id)
      × (told ≡ no_body)
      × Removes db order around s task_id if_match customer_id after
  IsDone header _ after told = (a : ℕ) → get_task after a ≡ get_task (around.others s) a

  module _ (m : ConnectionManager) (header : Option ℕ) where
    pub answered :
        {A : Type 0} (as_body : A → Body) (ran : Outcome (Reply State A)) {r : Reply State Body}
        → answer db order false around as_body ran ≡ ok r
        → (reply : Reply State A) × (ran ≡ ok reply)
          × (r.state ≡ reply.state)
          × (r.body ≡ as_body reply.body)
          × (r.events ≡ reply.events)
    answered as_body ran h =
        let (reply, returned, done) = >>=-eq-ok ran _ h in
        let same = sym (ok-injective done) in
        (reply, returned, ap (λ x. x.state) same, ap (λ x. x.body) same, ap (λ x. x.events) same)

    -- A handler that ran for the customer of the header, with its reply.
    through :
        {A : Type 0} (as_body : A → Body) (run : ℕ → Outcome (Reply State A)) {r : Reply State Body}
        → (current_customer_id header >>= λ c. answer db order false around as_body (run c)) ≡ ok r
        → (customer_id : ℕ) × (header ≡ some customer_id)
          × (reply : Reply State A) × (run customer_id ≡ ok reply)
          × (r.state ≡ reply.state)
          × (r.body ≡ as_body reply.body)
    through as_body run h =
        let (customer_id, known, runs) = >>=-eq-ok (current_customer_id header) _ h in
        let (reply, ran, state, told, _) = answered as_body (run customer_id) runs in
        (customer_id, current_customer_id-ok header known, reply, ran, state, told)

    created :
        {A : Type 0} (added : ℕ → Outcome (State × A)) (as_body : A → Body) {r : Reply State Body}
        → ((c : ℕ) (x : State × A)
            → added c ≡ ok x
            → (a : ℕ) → get_task x.0 a ≡ get_task (around.others s) a)
        → (current_customer_id header >>= λ c.
            added c >>= λ x. ok (quiet db order false around m x.0 (as_body x.1)))
          ≡ ok r
        → (a : ℕ) → get_task r.state a ≡ get_task (around.others s) a
    created added as_body leaves h a =
        let (customer_id, known, runs) = >>=-eq-ok (current_customer_id header) _ h in
        let (x, ran, done) = >>=-eq-ok (added customer_id) _ runs in
        ap (λ y. get_task y.state a) (sym (ok-injective done)) ∙ leaves customer_id x ran a

    looked_up :
        {A : Type 0} (found : ℕ → Outcome A) (as_body : A → Body) {r : Reply State Body}
        → (current_customer_id header >>= λ c.
            found c >>= λ x. ok (quiet db order false around m (around.others s) (as_body x)))
          ≡ ok r
        → (a : ℕ) → get_task r.state a ≡ get_task (around.others s) a
    looked_up found as_body h a =
        let (customer_id, known, runs) = >>=-eq-ok (current_customer_id header) _ h in
        let (x, ran, done) = >>=-eq-ok (found customer_id) _ runs in
        ap (λ y. get_task y.state a) (sym (ok-injective done))

    pub dispatch-IsDone :
        (request : Request) {r : Reply State Body}
        → dispatch db order false around s m header request ≡ ok r
        → IsDone header request r.state r.body
    unfolding dispatch
    dispatch-IsDone (post_customer body) h =
        let (x, ran, done) =
          >>=-eq-ok (create_customer db (around.others s) around.new_id body) _ h in
        λ a.
          ap (λ y. get_task y.state a) (sym (ok-injective done))
          ∙ customer-same_tasks db (around.others s) around.new_id body a ran
    dispatch-IsDone (post_project body) h =
        created (λ c. create_project db (around.others s) around.new_id c body) project_body
          (λ c x ran b. project-same_tasks db (around.others s) around.new_id c body b ran) h
    dispatch-IsDone (read_project project_id) h =
        looked_up (get_project_route db s project_id) project_body h
    dispatch-IsDone (read_gantt project_id) h = looked_up (get_gantt db s m project_id) gantt_body h
    dispatch-IsDone (post_task project_id body) {r} h =
        let (customer_id, sent, reply, ran, state, told) =
          through task_body (create_task db around s m project_id body) h in
        let stored = create_task-Stores db order around s m project_id body customer_id ran in
        let row = fresh_task around.new_id customer_id project_id body in
        (
          customer_id,
          sent,
          reply.body,
          told,
          subst (λ x. Stores db order around s row x reply.body) (sym state) stored,
        )
    dispatch-IsDone (patch_task task_id body if_match) {r} h =
        let (customer_id, sent, reply, ran, state, told) =
          through task_body (update_task db around s m task_id body if_match) h in
        let stored =
          update_task-Changes db order around s m task_id body if_match customer_id ran in
        (
          customer_id,
          sent,
          reply.body,
          told,
          subst
              (λ x.
                Changes db order around s task_id if_match customer_id (λ t. edit_task t body) x
                  reply.body)
              (sym state) stored,
        )
    dispatch-IsDone (patch_schedule task_id body if_match) {r} h =
        let (customer_id, sent, reply, ran, state, told) =
          through task_body (reschedule_task db order false around s m task_id body if_match) h in
        let stored =
          reschedule_task-Changes db order around s m task_id body if_match customer_id ran in
        (
          customer_id,
          sent,
          reply.body,
          told,
          subst
              (λ x.
                Changes db order around s task_id if_match customer_id (λ t. move_task t body) x
                  reply.body)
              (sym state) stored,
        )
    dispatch-IsDone (remove_task task_id if_match) {r} h =
        let (customer_id, sent, reply, ran, state, told) =
          through (λ _. no_body) (delete_task_route db around s m task_id if_match) h in
        (
          customer_id,
          sent,
          told,
          subst (λ x. Removes db order around s task_id if_match customer_id x) (sym state)
              (delete_task-Removes db order around s m task_id if_match customer_id ran),
        )
    dispatch-IsDone (post_predecessor body) h =
        let (customer_id, sent, reply, ran, state, told) =
          through edge_body (add_predecessor_route db around s m body) h in
        λ a. ap (λ x. get_task x a) state ∙ link-same_tasks db around s m body customer_id a ran
