-- ===== src/Schema/Declared.antt =====
-- The tables that libs/wf_core/wf_core/models.py declares, against those that the migrations create.
use text.Mathlib.Text.{◌==◌ as str_eq}
use workfront_system.Base.{
  map-mem, mem-map, ◌≡◌, refl, subst, Bool, false, ◌||◌, some, none, List, [], ◌∷◌, map, Memᴰ,
}
use workfront_system.Schema.Operations.{Table, Column}
use workfront_system.Schema.Revisions.{upgrade_head, created}
use workfront_system.Schema.People.{
  customer_table, user_table, team_table, group_table, role_table, portfolio_table, program_table,
}
use workfront_system.Schema.Spine.{
  project_table, task_table, issue_table, predecessor_table, assignment_table, hour_table,
  timesheet_table, outbox_table, processed_event_table,
}

abbrev pub declared : List Table
declared =
    customer_table ∷ user_table ∷ team_table ∷ group_table ∷ role_table ∷ portfolio_table
    ∷ program_table ∷ project_table ∷ task_table ∷ issue_table ∷ predecessor_table
    ∷ assignment_table ∷ hour_table ∷ timesheet_table ∷ outbox_table ∷ processed_event_table ∷ []

-- The server fills in the time of a row.
abbrev pub is_stamp : Column → Bool
is_stamp c = elim c.server_default [ none ↦ false | some value ↦ str_eq value "now()" ]

-- A column without its default, and a stamp as nullable.
abbrev pub column_shape : Column → Column
column_shape c = record c { nullable = c.nullable || is_stamp c; server_default = none }

abbrev pub table_shape : Table → Table
table_shape t = record t { columns = map column_shape t.columns }

same_shapes : map table_shape declared ≡ map table_shape (created upgrade_head)
same_shapes = refl

-- Each table that models.py declares is created by the migrations: under its name, with the same
-- columns in the same order, their types, lengths, keys and references, the same uniqueness, and the
-- same columns required, where stamps that the server fills in may be nullable.
pub declared-created :
    (t : Table)
    → Memᴰ t declared
    → (t' : Table) × Memᴰ t' (created upgrade_head) × (table_shape t' ≡ table_shape t)
declared-created t m =
    map-mem table_shape (created upgrade_head) (table_shape t)
      (subst (λ l. Memᴰ (table_shape t) l) same_shapes (mem-map table_shape declared t m))
