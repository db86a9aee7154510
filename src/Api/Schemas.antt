-- ===== src/Api/Schemas.antt =====
-- The request bodies and responses of services/api/src/schemas.py, as pydantic hands them over, and
-- the payloads of the events that the handlers of services/api/src/main.py broadcast.
use Prim.Native.String.{String}
use workfront_system.Base.{ℕ, Option, List, ℤ}
use workfront_system.Cascade.Types.{DepType}
use workfront_system.Store.Models.{Project, Task, Predecessor, ChangePayload}

pub record ProjectCreate : Type 0 where
  pub name : String

pub record TaskCreate : Type 0 where
  pub name : String
  pub work_required_minutes : ℤ
  pub parent_id : Option ℕ
  pub planned_start : Option ℕ
  pub planned_completion : Option ℕ

pub record TaskUpdate : Type 0 where
  pub name : Option String
  pub status : Option String

-- Two datetimes with a time zone, as instants. Pydantic takes them without one too, which is not
-- modelled.
pub record TaskScheduleUpdate : Type 0 where
  pub planned_start : ℕ
  pub planned_completion : ℕ

pub record PredecessorCreate : Type 0 where
  pub predecessor_id : ℕ
  pub successor_id : ℕ
  pub type : DepType
  pub lag_minutes : ℤ

pub record ProjectOut : Type 0 where
  pub id : ℕ
  pub name : String
  pub status : String
  pub planned_start : Option ℕ
  pub planned_completion : Option ℕ
  pub percent_complete : ℕ
  pub version : ℕ

pub record TaskOut : Type 0 where
  pub id : ℕ
  pub project_id : ℕ
  pub parent_id : Option ℕ
  pub name : String
  pub status : String
  pub planned_start : Option ℕ
  pub planned_completion : Option ℕ
  pub work_required_minutes : ℤ
  pub percent_complete : ℕ
  pub version : ℕ

pub record PredecessorOut : Type 0 where
  pub id : ℕ
  pub predecessor_id : ℕ
  pub successor_id : ℕ
  pub type : DepType
  pub lag_minutes : ℤ

pub record GanttOut : Type 0 where
  pub project_id : ℕ
  pub seq : ℕ
  pub tasks : List TaskOut
  pub dependencies : List PredecessorOut

-- The response_model of the project routes
abbrev pub project_out : Project → ProjectOut
project_out p = record {
  id = p.id;
  name = p.name;
  status = p.status;
  planned_start = p.planned_start;
  planned_completion = p.planned_completion;
  percent_complete = p.percent_complete;
  version = p.version;
}

-- model_validate(t, from_attributes=True)
abbrev pub task_out : Task → TaskOut
task_out t = record {
  id = t.id;
  project_id = t.project_id;
  parent_id = t.parent_id;
  name = t.name;
  status = t.status;
  planned_start = t.planned_start;
  planned_completion = t.planned_completion;
  work_required_minutes = t.work_required_minutes;
  percent_complete = t.percent_complete;
  version = t.version;
}

abbrev pub predecessor_out : Predecessor → PredecessorOut
predecessor_out e = record {
  id = e.id;
  predecessor_id = e.predecessor_id;
  successor_id = e.successor_id;
  type = e.type;
  lag_minutes = e.lag_minutes;
}

pub data Action : Type 0 where
  subscribe unsubscribe : Action

pub record WsClientMessage : Type 0 where
  pub action : Action
  pub project_id : ℕ

-- The `data` of each kind of event.
pub data EventData : Type 0 where
  cascade_data : (origin_task_id : ℕ) (changes : List ChangePayload) → EventData
  created_data : TaskOut → EventData
  updated_data : (task_id : ℕ) (fields : TaskUpdate) (version : ℕ) → EventData
  deleted_data : (task_id : ℕ) → EventData
  dependency_data : (predecessor_id successor_id : ℕ) → EventData
  no_data : EventData
