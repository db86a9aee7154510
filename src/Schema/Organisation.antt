-- ===== src/Schema/Organisation.antt =====
-- The customers and their people: the first tables of `upgrade` in
-- libs/wf_core/migrations/versions/0001_initial.py.
use workfront_system.Base.{List, [], ◌∷◌}
use workfront_system.Schema.Operations.{
  uuid_type, string, timestamp, boolean, sets_null, Operation, create_table, create_index,
  key_column, required, optional, optional_fk, tenant_fk, with_default,
}

abbrev pub tenancy : List Operation
tenancy =
    create_table (record {
      name = "customer";
      columns =
          key_column "id" uuid_type
          ∷ required "name" (string 512)
          ∷ with_default "now()" (optional "created_at" timestamp)
          ∷ [];
      unique = [];
    })
    ∷ create_table (record {
      name = "user";
      columns =
          key_column "id" uuid_type
          ∷ tenant_fk
          ∷ required "email" (string 320)
          ∷ required "name" (string 512)
          ∷ with_default "true()" (required "is_active" boolean)
          ∷ with_default "now()" (optional "created_at" timestamp)
          ∷ [];
      unique = ("customer_id" ∷ "email" ∷ []) ∷ [];
    })
    ∷ create_table (record {
      name = "team";
      columns =
          key_column "id" uuid_type
          ∷ tenant_fk
          ∷ required "name" (string 512)
          ∷ optional_fk "parent_id" "team" sets_null
          ∷ [];
      unique = [];
    })
    ∷ create_index "ix_team_customer" "team" ("customer_id" ∷ [])
    ∷ create_table (record {
      name = "group";
      columns =
          key_column "id" uuid_type
          ∷ tenant_fk
          ∷ required "name" (string 512)
          ∷ optional_fk "parent_id" "group" sets_null
          ∷ [];
      unique = [];
    })
    ∷ create_index "ix_group_customer" "group" ("customer_id" ∷ [])
    ∷ create_table (record {
      name = "role";
      columns = key_column "id" uuid_type ∷ tenant_fk ∷ required "name" (string 256) ∷ [];
      unique = [];
    })
    ∷ create_index "ix_role_customer" "role" ("customer_id" ∷ [])
    ∷ []
