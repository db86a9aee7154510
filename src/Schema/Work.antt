-- ===== src/Schema/Work.antt =====
-- The work spine of `upgrade` in libs/wf_core/migrations/versions/0001_initial.py.
use workfront_system.Base.{List, [], ◌∷◌}
use workfront_system.Schema.Operations.{
  uuid_type, string, timestamp, integer, big_integer, jsonb, deletes, sets_null, Operation,
  create_table, create_index, key_column, required, optional, required_fk, optional_fk, tenant_fk,
  with_default,
}

abbrev pub work_spine : List Operation
work_spine =
    create_table (record {
      name = "portfolio";
      columns =
          key_column "id" uuid_type
          ∷ tenant_fk
          ∷ required "name" (string 512)
          ∷ with_default "{}" (required "custom_attributes" jsonb)
          ∷ with_default "now()" (optional "created_at" timestamp)
          ∷ with_default "now()" (optional "updated_at" timestamp)
          ∷ [];
      unique = [];
    })
    ∷ create_index "ix_portfolio_customer" "portfolio" ("customer_id" ∷ [])
    ∷ create_table (record {
      name = "program";
      columns =
          key_column "id" uuid_type
          ∷ tenant_fk
          ∷ optional_fk "portfolio_id" "portfolio" sets_null
          ∷ required "name" (string 512)
          ∷ with_default "now()" (optional "created_at" timestamp)
          ∷ with_default "now()" (optional "updated_at" timestamp)
          ∷ [];
      unique = [];
    })
    ∷ create_index "ix_program_customer_portfolio" "program" ("customer_id" ∷ "portfolio_id" ∷ [])
    ∷ create_table (record {
      name = "project";
      columns =
          key_column "id" uuid_type
          ∷ tenant_fk
          ∷ optional_fk "portfolio_id" "portfolio" sets_null
          ∷ optional_fk "program_id" "program" sets_null
          ∷ optional_fk "owner_id" "user" sets_null
          ∷ required "name" (string 512)
          ∷ with_default "planning" (required "status" (string 32))
          ∷ optional "planned_start" timestamp
          ∷ optional "planned_completion" timestamp
          ∷ with_default "0" (required "percent_complete" integer)
          ∷ with_default "1" (required "version" big_integer)
          ∷ with_default "{}" (required "custom_attributes" jsonb)
          ∷ with_default "now()" (optional "created_at" timestamp)
          ∷ with_default "now()" (optional "updated_at" timestamp)
          ∷ [];
      unique = [];
    })
    ∷ create_index "ix_project_customer_program" "project" ("customer_id" ∷ "program_id" ∷ [])
    ∷ create_index "ix_project_customer_status" "project" ("customer_id" ∷ "status" ∷ [])
    ∷ create_table (record {
      name = "task";
      columns =
          key_column "id" uuid_type
          ∷ tenant_fk
          ∷ required_fk "project_id" "project" deletes
          ∷ optional_fk "parent_id" "task" deletes
          ∷ required "name" (string 512)
          ∷ with_default "new" (required "status" (string 32))
          ∷ optional "planned_start" timestamp
          ∷ optional "planned_completion" timestamp
          ∷ with_default "0" (required "work_required_minutes" integer)
          ∷ optional "calendar_id" uuid_type
          ∷ with_default "0" (required "percent_complete" integer)
          ∷ with_default "1" (required "version" big_integer)
          ∷ with_default "{}" (required "custom_attributes" jsonb)
          ∷ with_default "now()" (optional "created_at" timestamp)
          ∷ with_default "now()" (optional "updated_at" timestamp)
          ∷ [];
      unique = [];
    })
    ∷ create_index "ix_task_customer_project" "task" ("customer_id" ∷ "project_id" ∷ [])
    ∷ create_index "ix_task_customer_parent" "task" ("customer_id" ∷ "parent_id" ∷ [])
    ∷ create_index "ix_task_customer_status_due" "task"
        ("customer_id" ∷ "status" ∷ "planned_completion" ∷ [])
    ∷ create_table (record {
      name = "issue";
      columns =
          key_column "id" uuid_type
          ∷ tenant_fk
          ∷ required_fk "project_id" "project" deletes
          ∷ required "name" (string 512)
          ∷ with_default "issue" (required "type" (string 32))
          ∷ with_default "new" (required "status" (string 32))
          ∷ with_default "{}" (required "custom_attributes" jsonb)
          ∷ with_default "now()" (optional "created_at" timestamp)
          ∷ with_default "now()" (optional "updated_at" timestamp)
          ∷ [];
      unique = [];
    })
    ∷ create_index "ix_issue_customer_project_status" "issue"
        ("customer_id" ∷ "project_id" ∷ "status" ∷ [])
    ∷ []
