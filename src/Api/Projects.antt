-- ===== src/Api/Projects.antt =====
-- The customer and project routes of services/api/src/main.py.
pub mod Gantt
use Prim.Native.String.{String}
use workfront_system.Base.{ℕ, none, List, [], ◌∷◌, map, Outcome, ok, ◌>>=◌}
use workfront_system.Store.Models.{Customer, Project, Predecessor}
use workfront_system.Store.Database.{Database}
use workfront_system.Ws.Manager.{ConnectionManager, current_seq}
use workfront_system.Api.Schemas.{
  ProjectOut, project_out, ProjectCreate, GanttOut, task_out, predecessor_out,
}
use workfront_system.Api.Guards.{load_project}

-- models.Project(customer_id=…, name=…), with the defaults of its columns
abbrev pub fresh_project : ℕ → ℕ → String → Project
fresh_project new_id customer_id name = record {
  id = new_id;
  customer_id = customer_id;
  portfolio_id = none;
  program_id = none;
  owner_id = none;
  name = name;
  status = "planning";
  planned_start = none;
  planned_completion = none;
  percent_complete = 0;
  version = 1;
}

module _ (db : Database) where
  open db use {State, get_project, tasks_of_project, predecessors_into, add_customer, add_project}

  unfoldable pub create_customer : State → ℕ → ProjectCreate → Outcome (State × Customer)
  create_customer s new_id body = do
    let c : Customer = record { id = new_id; name = body.name }
    added ← add_customer s c
    ok (added, c)

  unfoldable pub create_project : State → ℕ → ℕ → ProjectCreate → Outcome (State × ProjectOut)
  create_project s new_id customer_id body = do
    let p = fresh_project new_id customer_id body.name
    added ← add_project s p
    ok (added, project_out p)

  unfoldable pub get_project_route : State → ℕ → ℕ → Outcome ProjectOut
  get_project_route s project_id customer_id = do
    p ← load_project db s project_id customer_id
    ok (project_out p)

  -- An empty set of ids selects nothing: `in_({None})` is true of no row.
  abbrev pub dependencies_of : State → List ℕ → List Predecessor
  dependencies_of s [] = []
  dependencies_of s (a ∷ ids) = predecessors_into s (a ∷ ids)

  unfoldable pub get_gantt : State → ConnectionManager → ℕ → ℕ → Outcome GanttOut
  get_gantt s m project_id customer_id = do
    p ← load_project db s project_id customer_id
    let tasks = tasks_of_project s project_id
    ok (record {
      project_id = project_id;
      seq = current_seq m project_id;
      tasks = map task_out tasks;
      dependencies = map predecessor_out (dependencies_of s (map (λ t. t.id) tasks));
    })
