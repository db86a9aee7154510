-- ===== src/Tests/Migrations.antt =====
-- The theorems on libs/wf_core/migrations/versions at tables of the schema.
use workfront_system.Base.{◌≡◌, refl, true, List, [], ◌∷◌, ◌++◌, Memᴰ}
use workfront_system.Schema.Operations.{
  Table, uuid_type, string, timestamp, boolean, deletes, key_column, required, optional, tenant_fk,
  with_default,
}
use workfront_system.Schema.Spine.{task_table}
use workfront_system.Schema.Declared.{table_shape, declared-created}
use workfront_system.Schema.Revisions.{upgrade_head, created}
use workfront_system.Schema.Revisions.References.{has_table, created-refer}
use workfront_system.Schema.Revisions.Tenancy.{IsOwned, created-IsOwned}

abbrev customers : Table
customers = record {
  name = "customer";
  columns =
      key_column "id" uuid_type
      ∷ required "name" (string 512)
      ∷ with_default "now()" (optional "created_at" timestamp)
      ∷ [];
  unique = [];
}

abbrev users : Table
users = record {
  name = "user";
  columns =
      key_column "id" uuid_type
      ∷ tenant_fk
      ∷ required "email" (string 320)
      ∷ required "name" (string 512)
      ∷ with_default "true()" (required "is_active" boolean)
      ∷ with_default "now()" (optional "created_at" timestamp)
      ∷ [];
  unique = ("customer_id" ∷ "email" ∷ []) ∷ [];
}

abbrev past_two : List Table → List Table
past_two (a ∷ b ∷ rest) = rest
past_two _ = []

created-refer_example : has_table ((customers ∷ []) ++ users ∷ []) "customer" ≡ true
created-refer_example =
    created-refer (customers ∷ []) (past_two (created upgrade_head)) users tenant_fk
      (record { table = "customer"; on_delete = deletes }) refl (Memᴰ.tail (Memᴰ.head refl)) refl

created-IsOwned_example : IsOwned users
created-IsOwned_example = created-IsOwned users (Memᴰ.tail (Memᴰ.head refl))

declared-created_example :
    (t' : Table) × Memᴰ t' (created upgrade_head) × (table_shape t' ≡ table_shape task_table)
declared-created_example = declared-created task_table (
    Memᴰ.tail (
      Memᴰ.tail
        (Memᴰ.tail (Memᴰ.tail (Memᴰ.tail (Memᴰ.tail (Memᴰ.tail (Memᴰ.tail (Memᴰ.head refl)))))))))
