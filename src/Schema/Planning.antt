-- ===== src/Schema/Planning.antt =====
-- Dependencies, time, the outbox and the dedup inbox: the end of `upgrade` in
-- libs/wf_core/migrations/versions/0001_initial.py, and that of 0002_dedup_inbox.py.
use workfront_system.Base.{List, [], ◌∷◌}
use workfront_system.Schema.Operations.{
  uuid_type, string, timestamp, date, integer, jsonb, dep_type, deletes, sets_null, Operation,
  create_table, create_index, key_column, required, optional, required_fk, optional_fk, tenant_fk,
  with_default,
}

abbrev pub dependencies : List Operation
dependencies =
    create_table (record {
      name = "predecessor";
      columns =
          key_column "id" uuid_type
          ∷ tenant_fk
          ∷ required_fk "predecessor_id" "task" deletes
          ∷ required_fk "successor_id" "task" deletes
          ∷ with_default "FS" (required "type" dep_type)
          ∷ with_default "0" (required "lag_minutes" integer)
          ∷ [];
      unique = ("predecessor_id" ∷ "successor_id" ∷ []) ∷ [];
    })
    ∷ create_index "ix_predecessor_customer_pred" "predecessor"
        ("customer_id" ∷ "predecessor_id" ∷ [])
    ∷ create_index "ix_predecessor_customer_succ" "predecessor"
        ("customer_id" ∷ "successor_id" ∷ [])
    ∷ create_table (record {
      name = "assignment";
      columns =
          key_column "id" uuid_type
          ∷ tenant_fk
          ∷ required_fk "task_id" "task" deletes
          ∷ required_fk "assigned_to_id" "user" deletes
          ∷ optional_fk "role_id" "role" sets_null
          ∷ optional_fk "team_id" "team" sets_null
          ∷ with_default "100" (required "assignment_percent" integer)
          ∷ [];
      unique = [];
    })
    ∷ create_index "ix_assignment_customer_task" "assignment" ("customer_id" ∷ "task_id" ∷ [])
    ∷ create_index "ix_assignment_customer_user" "assignment"
        ("customer_id" ∷ "assigned_to_id" ∷ [])
    ∷ []

abbrev pub time : List Operation
time =
    create_table (record {
      name = "hour";
      columns =
          key_column "id" uuid_type
          ∷ tenant_fk
          ∷ required_fk "task_id" "task" deletes
          ∷ required_fk "user_id" "user" deletes
          ∷ required "logged_date" date
          ∷ required "minutes" integer
          ∷ optional "description" (string 1024)
          ∷ with_default "now()" (optional "created_at" timestamp)
          ∷ [];
      unique = [];
    })
    ∷ create_index "ix_hour_customer_task" "hour" ("customer_id" ∷ "task_id" ∷ [])
    ∷ create_index "ix_hour_customer_user_date" "hour"
        ("customer_id" ∷ "user_id" ∷ "logged_date" ∷ [])
    ∷ create_table (record {
      name = "timesheet";
      columns =
          key_column "id" uuid_type
          ∷ tenant_fk
          ∷ required_fk "user_id" "user" deletes
          ∷ required "start_date" date
          ∷ required "end_date" date
          ∷ with_default "open" (required "status" (string 32))
          ∷ [];
      unique = [];
    })
    ∷ create_index "ix_timesheet_customer_user" "timesheet" ("customer_id" ∷ "user_id" ∷ [])
    ∷ []

abbrev pub outbox_section : List Operation
outbox_section =
    create_table (record {
      name = "outbox";
      columns =
          key_column "id" uuid_type
          ∷ tenant_fk
          ∷ required "aggregate_type" (string 64)
          ∷ required "aggregate_id" uuid_type
          ∷ required "event_type" (string 128)
          ∷ required "partition_key" uuid_type
          ∷ required "payload" jsonb
          ∷ with_default "now()" (optional "created_at" timestamp)
          ∷ [];
      unique = [];
    })
    ∷ create_index "ix_outbox_created_at" "outbox" ("created_at" ∷ [])
    ∷ []

abbrev pub inbox_table : List Operation
inbox_table =
    create_table (record {
      name = "processed_event";
      columns =
          key_column "consumer_group" (string 128)
          ∷ key_column "event_id" uuid_type
          ∷ with_default "now()" (optional "processed_at" timestamp)
          ∷ [];
      unique = [];
    })
    ∷ []
