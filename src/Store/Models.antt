-- ===== src/Store/Models.antt =====
-- The rows of libs/wf_core/wf_core/models.py that the services read and write, and the payloads
-- that they put in the outbox. Ids are UUIDs read as numbers; `created_at`, `updated_at` and
-- `custom_attributes`, which no service reads, are left out.
use Prim.Native.String.{String}
use workfront_system.Base.{ℕ, Option, List, ℤ}
use workfront_system.Telemetry.{Carrier}
use workfront_system.Cascade.Types.{DepType}

pub record Customer : Type 0 where
  pub id : ℕ
  pub name : String

pub record Project : Type 0 where
  pub id : ℕ
  pub customer_id : ℕ
  pub portfolio_id : Option ℕ
  pub program_id : Option ℕ
  pub owner_id : Option ℕ
  pub name : String
  pub status : String
  pub planned_start : Option ℕ
  pub planned_completion : Option ℕ
  pub percent_complete : ℕ
  pub version : ℕ

pub record Task : Type 0 where
  pub id : ℕ
  pub customer_id : ℕ
  pub project_id : ℕ
  pub parent_id : Option ℕ
  pub name : String
  pub status : String
  pub planned_start : Option ℕ
  pub planned_completion : Option ℕ
  pub work_required_minutes : ℤ
  pub calendar_id : Option ℕ
  pub percent_complete : ℕ
  pub version : ℕ

pub record Predecessor : Type 0 where
  pub id : ℕ
  pub customer_id : ℕ
  pub predecessor_id : ℕ
  pub successor_id : ℕ
  pub type : DepType
  pub lag_minutes : ℤ

-- One entry of `changes`: a task with its new dates and version.
pub record ChangePayload : Type 0 where
  pub task_id : ℕ
  pub planned_start : ℕ
  pub planned_completion : ℕ
  pub version : ℕ

-- The JSON of the two kinds of outbox rows; `trace` is `_trace`, the W3C trace
-- context of the request.
pub data Payload : Type 0 where
  schedule_changed :
      (task_id planned_start planned_completion version : ℕ) (trace : Carrier) → Payload
  project_changed : (origin_task_id : ℕ) (changes : List ChangePayload) → Payload

pub record OutboxEvent : Type 0 where
  pub id : ℕ
  pub customer_id : ℕ
  pub aggregate_type : String
  pub aggregate_id : ℕ
  pub event_type : String
  pub partition_key : ℕ
  pub payload : Payload

pub record ProcessedEvent : Type 0 where
  pub consumer_group : String
  pub event_id : ℕ
