-- ===== src/Schema/Revisions.antt =====
-- The revisions of libs/wf_core/migrations/versions: what each upgrade and downgrade calls.
pub mod References
pub mod Downgrade
pub mod Tenancy
use Prim.Native.String.{String}
use workfront_system.Base.{List, [], ◌∷◌, ◌++◌, map}
use workfront_system.Schema.Operations.{
  Table, Operation, create_table, create_index, drop_table, drop_dep_type,
}
use workfront_system.Schema.Organisation.{tenancy}
use workfront_system.Schema.Work.{work_spine}
use workfront_system.Schema.Planning.{dependencies, time, outbox_section, inbox_table}

-- 0001_initial
abbrev pub initial_upgrade : List Operation
initial_upgrade = tenancy ++ work_spine ++ dependencies ++ time ++ outbox_section

abbrev pub dropped_tables : List String
dropped_tables =
    "outbox" ∷ "timesheet" ∷ "hour" ∷ "assignment" ∷ "predecessor" ∷ "issue" ∷ "task" ∷ "project"
    ∷ "program" ∷ "portfolio" ∷ "role" ∷ "group" ∷ "team" ∷ "user" ∷ "customer" ∷ []

abbrev pub initial_downgrade : List Operation
initial_downgrade = map (λ t. drop_table t) dropped_tables ++ drop_dep_type ∷ []

-- 0002_dedup_inbox, which revises 0001_initial
abbrev pub inbox_upgrade : List Operation
inbox_upgrade = inbox_table

abbrev pub inbox_downgrade : List Operation
inbox_downgrade = drop_table "processed_event" ∷ []

-- alembic upgrade head, on an empty database
abbrev pub upgrade_head : List Operation
upgrade_head = initial_upgrade ++ inbox_upgrade

-- The tables that operations create, in order.
abbrev pub created : List Operation → List Table
created [] = []
created (create_table t ∷ ops) = t ∷ created ops
created (create_index name table columns ∷ ops) = created ops
created (drop_table name ∷ ops) = created ops
created (drop_dep_type ∷ ops) = created ops

-- alembic downgrade base: the revisions in reverse
abbrev pub downgrade_base : List Operation
downgrade_base = inbox_downgrade ++ initial_downgrade

-- The tables that operations drop, in order.
abbrev pub dropped : List Operation → List String
dropped [] = []
dropped (drop_table name ∷ ops) = name ∷ dropped ops
dropped (create_table t ∷ ops) = dropped ops
dropped (create_index name table columns ∷ ops) = dropped ops
dropped (drop_dep_type ∷ ops) = dropped ops
