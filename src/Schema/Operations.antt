-- ===== src/Schema/Operations.antt =====
-- What the migrations of libs/wf_core/migrations/versions hand to alembic: tables with their
-- columns, and the operations in the order in which they are called.
use Prim.Native.String.{String}
use workfront_system.Base.{ℕ, Bool, true, false, Option, some, none, List}

pub data ColumnType : Type 0 where
  uuid_type timestamp date boolean integer big_integer jsonb dep_type : ColumnType
  string : (length : ℕ) → ColumnType

pub data OnDelete : Type 0 where
  deletes sets_null : OnDelete

-- A reference to the column `id` of a table.
pub record ForeignKey : Type 0 where
  pub table : String
  pub on_delete : OnDelete

pub record Column : Type 0 where
  pub name : String
  pub type : ColumnType
  pub nullable : Bool
  pub primary_key : Bool
  pub references : Option ForeignKey
  pub server_default : Option String

pub record Table : Type 0 where
  pub name : String
  pub columns : List Column
  pub unique : List (List String)

pub data Operation : Type 0 where
  create_table : Table → Operation
  create_index : (name table : String) (columns : List String) → Operation
  drop_table : (name : String) → Operation
  drop_dep_type : Operation

-- sa.Column(…): nullable unless it says otherwise or is a primary key
abbrev pub optional : String → ColumnType → Column
optional name type = record {
  name = name;
  type = type;
  nullable = true;
  primary_key = false;
  references = none;
  server_default = none;
}

abbrev pub required : String → ColumnType → Column
required name type = record (optional name type) { nullable = false }

abbrev pub key_column : String → ColumnType → Column
key_column name type = record (required name type) { primary_key = true }

abbrev pub optional_fk : String → String → OnDelete → Column
optional_fk name table on_delete = record (optional name uuid_type) {
  references = some (record { table = table; on_delete = on_delete });
}

abbrev pub required_fk : String → String → OnDelete → Column
required_fk name table on_delete = record (optional_fk name table on_delete) { nullable = false }

-- _tenant_fk of 0001_initial.py
abbrev pub tenant_fk : Column
tenant_fk = required_fk "customer_id" "customer" deletes

abbrev pub with_default : String → Column → Column
with_default value column = record column { server_default = some value }
