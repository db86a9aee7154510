-- ===== src/Schema/People.antt =====
-- The tables of customers, people and portfolios as libs/wf_core/wf_core/models.py declares them.
-- Defaults that Python supplies are left out: only the server's are in the schema.
use workfront_system.Base.{[], ◌∷◌}
use workfront_system.Schema.Operations.{
  uuid_type, string, timestamp, boolean, jsonb, sets_null, Table, key_column, required, optional_fk,
  deletes, with_default, Column, required_fk,
}

-- _tenant_fk of models.py
abbrev pub declared_tenant_fk : Column
declared_tenant_fk = required_fk "customer_id" "customer" deletes

abbrev pub customer_table : Table
customer_table = record {
  name = "customer";
  columns =
      key_column "id" uuid_type
      ∷ required "name" (string 512)
      ∷ with_default "now()" (required "created_at" timestamp)
      ∷ [];
  unique = [];
}

abbrev pub user_table : Table
user_table = record {
  name = "user";
  columns =
      key_column "id" uuid_type
      ∷ declared_tenant_fk
      ∷ required "email" (string 320)
      ∷ required "name" (string 512)
      ∷ required "is_active" boolean
      ∷ with_default "now()" (required "created_at" timestamp)
      ∷ [];
  unique = ("customer_id" ∷ "email" ∷ []) ∷ [];
}

abbrev pub team_table : Table
team_table = record {
  name = "team";
  columns =
      key_column "id" uuid_type
      ∷ declared_tenant_fk
      ∷ required "name" (string 512)
      ∷ optional_fk "parent_id" "team" sets_null
      ∷ [];
  unique = [];
}

abbrev pub group_table : Table
group_table = record {
  name = "group";
  columns =
      key_column "id" uuid_type
      ∷ declared_tenant_fk
      ∷ required "name" (string 512)
      ∷ optional_fk "parent_id" "group" sets_null
      ∷ [];
  unique = [];
}

abbrev pub role_table : Table
role_table = record {
  name = "role";
  columns = key_column "id" uuid_type ∷ declared_tenant_fk ∷ required "name" (string 256) ∷ [];
  unique = [];
}

abbrev pub portfolio_table : Table
portfolio_table = record {
  name = "portfolio";
  columns =
      key_column "id" uuid_type
      ∷ declared_tenant_fk
      ∷ required "name" (string 512)
      ∷ required "custom_attributes" jsonb
      ∷ with_default "now()" (required "created_at" timestamp)
      ∷ with_default "now()" (required "updated_at" timestamp)
      ∷ [];
  unique = [];
}

abbrev pub program_table : Table
program_table = record {
  name = "program";
  columns =
      key_column "id" uuid_type
      ∷ declared_tenant_fk
      ∷ optional_fk "portfolio_id" "portfolio" sets_null
      ∷ required "name" (string 512)
      ∷ with_default "now()" (required "created_at" timestamp)
      ∷ with_default "now()" (required "updated_at" timestamp)
      ∷ [];
  unique = [];
}
