-- ===== src/Schema/Spine.antt =====
-- The tables of projects, tasks, time and events as libs/wf_core/wf_core/models.py declares them.
use workfront_system.Base.{[], ◌∷◌}
use workfront_system.Schema.Operations.{
  uuid_type, string, timestamp, date, integer, big_integer, jsonb, dep_type, deletes, sets_null,
  Table, key_column, required, optional, required_fk, optional_fk, with_default,
}
use workfront_system.Schema.People.{declared_tenant_fk}

abbrev pub project_table : Table
project_table = record {
  name = "project";
  columns =
      key_column "id" uuid_type
      ∷ declared_tenant_fk
      ∷ optional_fk "portfolio_id" "portfolio" sets_null
      ∷ optional_fk "program_id" "program" sets_null
      ∷ optional_fk "owner_id" "user" sets_null
      ∷ required "name" (string 512)
      ∷ required "status" (string 32)
      ∷ optional "planned_start" timestamp
      ∷ optional "planned_completion" timestamp
      ∷ required "percent_complete" integer
      ∷ required "version" big_integer
      ∷ required "custom_attributes" jsonb
      ∷ with_default "now()" (required "created_at" timestamp)
      ∷ with_default "now()" (required "updated_at" timestamp)
      ∷ [];
  unique = [];
}

abbrev pub task_table : Table
task_table = record {
  name = "task";
  columns =
      key_column "id" uuid_type
      ∷ declared_tenant_fk
      ∷ required_fk "project_id" "project" deletes
      ∷ optional_fk "parent_id" "task" deletes
      ∷ required "name" (string 512)
      ∷ required "status" (string 32)
      ∷ optional "planned_start" timestamp
      ∷ optional "planned_completion" timestamp
      ∷ required "work_required_minutes" integer
      ∷ optional "calendar_id" uuid_type
      ∷ required "percent_complete" integer
      ∷ required "version" big_integer
      ∷ required "custom_attributes" jsonb
      ∷ with_default "now()" (required "created_at" timestamp)
      ∷ with_default "now()" (required "updated_at" timestamp)
      ∷ [];
  unique = [];
}

abbrev pub issue_table : Table
issue_table = record {
  name = "issue";
  columns =
      key_column "id" uuid_type
      ∷ declared_tenant_fk
      ∷ required_fk "project_id" "project" deletes
      ∷ required "name" (string 512)
      ∷ required "type" (string 32)
      ∷ required "status" (string 32)
      ∷ required "custom_attributes" jsonb
      ∷ with_default "now()" (required "created_at" timestamp)
      ∷ with_default "now()" (required "updated_at" timestamp)
      ∷ [];
  unique = [];
}

abbrev pub predecessor_table : Table
predecessor_table = record {
  name = "predecessor";
  columns =
      key_column "id" uuid_type
      ∷ declared_tenant_fk
      ∷ required_fk "predecessor_id" "task" deletes
      ∷ required_fk "successor_id" "task" deletes
      ∷ required "type" dep_type
      ∷ required "lag_minutes" integer
      ∷ [];
  unique = ("predecessor_id" ∷ "successor_id" ∷ []) ∷ [];
}

abbrev pub assignment_table : Table
assignment_table = record {
  name = "assignment";
  columns =
      key_column "id" uuid_type
      ∷ declared_tenant_fk
      ∷ required_fk "task_id" "task" deletes
      ∷ required_fk "assigned_to_id" "user" deletes
      ∷ optional_fk "role_id" "role" sets_null
      ∷ optional_fk "team_id" "team" sets_null
      ∷ required "assignment_percent" integer
      ∷ [];
  unique = [];
}

abbrev pub hour_table : Table
hour_table = record {
  name = "hour";
  columns =
      key_column "id" uuid_type
      ∷ declared_tenant_fk
      ∷ required_fk "task_id" "task" deletes
      ∷ required_fk "user_id" "user" deletes
      ∷ required "logged_date" date
      ∷ required "minutes" integer
      ∷ optional "description" (string 1024)
      ∷ with_default "now()" (required "created_at" timestamp)
      ∷ [];
  unique = [];
}

abbrev pub timesheet_table : Table
timesheet_table = record {
  name = "timesheet";
  columns =
      key_column "id" uuid_type
      ∷ declared_tenant_fk
      ∷ required_fk "user_id" "user" deletes
      ∷ required "start_date" date
      ∷ required "end_date" date
      ∷ required "status" (string 32)
      ∷ [];
  unique = [];
}

abbrev pub outbox_table : Table
outbox_table = record {
  name = "outbox";
  columns =
      key_column "id" uuid_type
      ∷ declared_tenant_fk
      ∷ required "aggregate_type" (string 64)
      ∷ required "aggregate_id" uuid_type
      ∷ required "event_type" (string 128)
      ∷ required "partition_key" uuid_type
      ∷ required "payload" jsonb
      ∷ with_default "now()" (required "created_at" timestamp)
      ∷ [];
  unique = [];
}

abbrev pub processed_event_table : Table
processed_event_table = record {
  name = "processed_event";
  columns =
      key_column "consumer_group" (string 128)
      ∷ key_column "event_id" uuid_type
      ∷ with_default "now()" (required "processed_at" timestamp)
      ∷ [];
  unique = [];
}
