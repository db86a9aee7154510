-- ===== src/History.antt =====
-- The database over time: the transactions of services/api/src/main.py and
-- services/worker/src/handler.py, in the order of their commits, and
-- (`Clients`) a client that follows the events of the API.
pub mod Rows
pub mod Requests
pub mod Steps
pub mod Accepted
pub mod Clients
use Prim.Native.String.{String}
use workfront_system.Base.{ℕ, true, false, Option, List, ◌≡◌, ◌≢◌, ok}
use workfront_system.Cascade.Types.{SetOrder}
use workfront_system.Store.Models.{Customer, Project, ChangePayload}
use workfront_system.Store.Database.{Database}
use workfront_system.Ws.Manager.{ConnectionManager}
use workfront_system.Worker.Handler.{process_schedule_changed}
use workfront_system.Api.Schemas.{
  ProjectCreate, ProjectOut, TaskCreate, TaskUpdate, TaskScheduleUpdate, PredecessorCreate, TaskOut,
  PredecessorOut,
}
use workfront_system.Api.Guards.{Surroundings, Reply}
use workfront_system.Api.Projects.{create_customer, create_project}
use workfront_system.Api.Tasks.{create_task, update_task, delete_task_route}
use workfront_system.Api.Schedule.{reschedule_task}
use workfront_system.Api.Links.{add_predecessor_route}

module _ (db : Database) (order : SetOrder) where
  open db use {State}

  -- Transactions in the order of their commits. Each leads from the state before it wrote, with what
  -- others had committed by then, to the state after it. Ids are fresh: no task is created under the
  -- id `a`. A move with the inline cascade writes twice, and others may commit in between. A delivery
  -- that has been processed before writes nothing, and is none.
  pub data History (a : ℕ) : State → State → Type 0 where
    moves :
        (around : Surroundings State) (s : State) (m : ConnectionManager) (task_id : ℕ)
        (body : TaskScheduleUpdate) (if_match : Option ℕ) (customer_id : ℕ)
        {r : Reply State TaskOut}
        → reschedule_task db order false around s m task_id body if_match customer_id ≡ ok r
        → History a (around.others s) r.state
    moves_inline :
        (around : Surroundings State) (s : State) (m : ConnectionManager) (task_id : ℕ)
        (body : TaskScheduleUpdate) (if_match : Option ℕ) (customer_id : ℕ)
        {r : Reply State TaskOut}
        → ((queued : State) → History a queued (around.later queued))
        → reschedule_task db order true around s m task_id body if_match customer_id ≡ ok r
        → History a (around.others s) r.state
    updates :
        (around : Surroundings State) (s : State) (m : ConnectionManager) (task_id : ℕ)
        (body : TaskUpdate) (if_match : Option ℕ) (customer_id : ℕ) {r : Reply State TaskOut}
        → update_task db around s m task_id body if_match customer_id ≡ ok r
        → History a (around.others s) r.state
    deletes :
        (around : Surroundings State) (s : State) (m : ConnectionManager) (task_id : ℕ)
        (if_match : Option ℕ) (customer_id : ℕ) {r : Reply State (Unit {0})}
        → delete_task_route db around s m task_id if_match customer_id ≡ ok r
        → History a (around.others s) r.state
    creates :
        (around : Surroundings State) (s : State) (m : ConnectionManager) (project_id : ℕ)
        (body : TaskCreate) (customer_id : ℕ) {r : Reply State TaskOut}
        → around.new_id ≢ a
        → create_task db around s m project_id body customer_id ≡ ok r
        → History a (around.others s) r.state
    links :
        (around : Surroundings State) (s : State) (m : ConnectionManager) (body : PredecessorCreate)
        (customer_id : ℕ) {r : Reply State PredecessorOut}
        → add_predecessor_route db around s m body customer_id ≡ ok r
        → History a (around.others s) r.state
    creates_project :
        (s : State) (new_id customer_id : ℕ) (body : ProjectCreate) {r : State × ProjectOut}
        → create_project db s new_id customer_id body ≡ ok r
        → History a s r.0
    creates_customer :
        (s : State) (new_id : ℕ) (body : ProjectCreate) {r : State × Customer}
        → create_customer db s new_id body ≡ ok r
        → History a s r.0
    delivers :
        (s : State) (others : State → State) (new_id event_id task_id : ℕ) (group : String)
        {s' : State} {changes : List ChangePayload}
        → db.get_processed s group event_id ≡ false
        → process_schedule_changed db order s others new_id event_id task_id group
          ≡ ok (s', changes)
        → History a (others s) s'
    none_yet : {s : State} → History a s s
    followed_by : {s s' s'' : State} → History a s s' → History a s' s'' → History a s s''
