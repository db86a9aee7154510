-- ===== src/Api/Service.antt =====
-- A request of services/api/src/main.py from its headers to its response: the dependencies
-- `current_customer_id` and `get_session`, the handler that the route names, and the commit.
pub mod Hidden
pub mod Effects
pub mod Done
pub mod Commit
pub mod Foreign
pub mod Client
pub mod Replica
use workfront_system.Base.{
  ℕ, Bool, Option, none, some, List, [], if◌then◌else◌, Error, Outcome, ok, err, http_exception,
  ◌>>=◌,
}
use workfront_system.Cascade.Types.{SetOrder}
use workfront_system.Store.Models.{Customer}
use workfront_system.Store.Database.{Database}
use workfront_system.Store.Session.{async_session_scope}
use workfront_system.Ws.Manager.{ConnectionManager, WsEvent}
use workfront_system.Api.Schemas.{
  ProjectCreate, TaskCreate, TaskUpdate, TaskScheduleUpdate, PredecessorCreate, ProjectOut, TaskOut,
  PredecessorOut, GanttOut, EventData,
}
use workfront_system.Api.Guards.{Surroundings, Reply}
use workfront_system.Api.Projects.{create_customer, create_project, get_project_route, get_gantt}
use workfront_system.Api.Tasks.{create_task, update_task, delete_task_route}
use workfront_system.Api.Schedule.{reschedule_task}
use workfront_system.Api.Links.{add_predecessor_route}

-- A request of one of the routes that use a session, as FastAPI has read its path, its body and its
-- If-Match header. The route of /health reads and writes nothing.
pub data Request : Type 0 where
  post_customer post_project : ProjectCreate → Request
  read_project read_gantt : (project_id : ℕ) → Request
  post_task : (project_id : ℕ) → TaskCreate → Request
  patch_task : (task_id : ℕ) → TaskUpdate → (if_match : Option ℕ) → Request
  patch_schedule : (task_id : ℕ) → TaskScheduleUpdate → (if_match : Option ℕ) → Request
  remove_task : (task_id : ℕ) → (if_match : Option ℕ) → Request
  post_predecessor : PredecessorCreate → Request

-- What a handler returns. The response has status 201 where a POST of a project, a task or a
-- dependency returns, 204 where a task was deleted, and 200 otherwise.
pub data Body : Type 0 where
  customer_body : Customer → Body
  project_body : ProjectOut → Body
  gantt_body : GanttOut → Body
  task_body : TaskOut → Body
  edge_body : PredecessorOut → Body
  no_body : Body

-- The header X-Customer-Id, which is required: FastAPI answers 422 where it is missing.
abbrev pub current_customer_id : Option ℕ → Outcome ℕ
current_customer_id none = err (http_exception 422)
current_customer_id (some x_customer_id) = ok x_customer_id

-- What a request leaves behind: the database as committed, the manager, the events that were
-- broadcast, and what the client gets.
pub record Served (State : Type 0) : Type 0 where
  pub state : State
  pub manager : ConnectionManager
  pub events : List (WsEvent EventData)
  pub response : Outcome Body

module _ (db : Database) (order : SetOrder) (inline_cascade : Bool)
    (around : Surroundings db.State) where
  open db use {State}

  abbrev pub answer :
      {A : Type 0} → (A → Body) → Outcome (Reply State A) → Outcome (Reply State Body)
  answer as_body replied = do
    r ← replied
    ok (record { state = r.state; manager = r.manager; events = r.events; body = as_body r.body })

  -- A handler that broadcasts nothing.
  abbrev pub quiet : ConnectionManager → State → Body → Reply State Body
  quiet m s body = record { state = s; manager = m; events = []; body = body }

  module _ (s : State) (m : ConnectionManager) where
    -- The handler of a request, with its header X-Customer-Id. A handler that only reads leaves what
    -- others have committed.
    unfoldable pub dispatch : Option ℕ → Request → Outcome (Reply State Body)
    dispatch header (post_customer body) = do
      (added, c) ← create_customer db (around.others s) around.new_id body
      ok (quiet m added (customer_body c))
    dispatch header (post_project body) = do
      customer_id ← current_customer_id header
      (added, p) ← create_project db (around.others s) around.new_id customer_id body
      ok (quiet m added (project_body p))
    dispatch header (read_project project_id) = do
      customer_id ← current_customer_id header
      p ← get_project_route db s project_id customer_id
      ok (quiet m (around.others s) (project_body p))
    dispatch header (read_gantt project_id) = do
      customer_id ← current_customer_id header
      g ← get_gantt db s m project_id customer_id
      ok (quiet m (around.others s) (gantt_body g))
    dispatch header (post_task project_id body) = do
      customer_id ← current_customer_id header
      answer task_body (create_task db around s m project_id body customer_id)
    dispatch header (patch_task task_id body if_match) = do
      customer_id ← current_customer_id header
      answer task_body (update_task db around s m task_id body if_match customer_id)
    dispatch header (patch_schedule task_id body if_match) = do
      customer_id ← current_customer_id header
      answer task_body
          (reschedule_task db order inline_cascade around s m task_id body if_match customer_id)
    dispatch header (remove_task task_id if_match) = do
      customer_id ← current_customer_id header
      answer (λ _. no_body) (delete_task_route db around s m task_id if_match customer_id)
    dispatch header (post_predecessor body) = do
      customer_id ← current_customer_id header
      answer edge_body (add_predecessor_route db around s m body customer_id)

    -- Each handler broadcasts when nothing is left that can raise: one that raises has sent nothing.
    abbrev sent : Outcome (Reply State Body) → ConnectionManager × List (WsEvent EventData)
    sent (err e) = (m, [])
    sent (ok r) = (r.manager, r.events)

    -- The whole request. `commit_raises` is the exception of the commit, if it raises, and
    -- `meanwhile` is what others have committed when a transaction has been rolled back. The events
    -- are sent by the handler, before the commit. The response is sent after the commit if
    -- `exits_first`, as FastAPI does before 0.118, and before it otherwise.
    unfoldable pub serve :
        (exits_first : Bool) → Option Error → (State → State) → Option ℕ → Request → Served State
    serve exits_first commit_raises meanwhile header request =
        let handled = dispatch header request in
        let (after, ended) =
          async_session_scope s meanwhile commit_raises (λ _. handled >>= λ r. ok (r.state, r)) in
        let (manager, events) = sent handled in
        record {
          state = after;
          manager = manager;
          events = events;
          response = (if exits_first then ended else handled) >>= λ r. ok r.body;
        }
