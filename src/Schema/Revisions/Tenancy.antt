-- ===== src/Schema/Revisions/Tenancy.antt =====
-- Every table of libs/wf_core/migrations/versions/0001_initial.py belongs to a customer.
use Prim.Native.String.{String}
use workfront_system.Base.{
  ◌≡◌, refl, ◌⊎◌, inl, inr, List, [], ◌∷◌, Memᴰ, All, All-lookup, false, some,
}
use workfront_system.Schema.Operations.{Table, Column, tenant_fk, deletes}
use workfront_system.Schema.Revisions.{initial_upgrade, created}

-- A required reference to the customer, with whom the row is deleted.
pub record IsTenant (c : Column) : Type 0 where
  pub named : c.name ≡ "customer_id"
  pub required : c.nullable ≡ false
  pub refers : c.references ≡ some (record { table = "customer"; on_delete = deletes })

abbrev pub IsOwned : Table → Type 0
IsOwned t = (t.name ≡ "customer") ⊎ ((c : Column) × Memᴰ c t.columns × IsTenant c)

second-IsOwned :
    (name : String) (key : Column) (columns : List Column) (unique : List (List String))
    → IsOwned (record { name = name; columns = key ∷ tenant_fk ∷ columns; unique = unique })
second-IsOwned name key columns unique =
    inr (
      tenant_fk,
      Memᴰ.tail (Memᴰ.head refl),
      record { named = refl; required = refl; refers = refl },
    )

All-IsOwned : All IsOwned (created initial_upgrade)
All-IsOwned =
    let o = second-IsOwned in
    (
      inl refl,
      (
        o _ _ _ [],
        (
          o _ _ _ [],
          (
            o _ _ _ [],
            (
              o _ _ _ [],
              (
                o _ _ _ [],
                (
                  o _ _ _ [],
                  (
                    o _ _ _ [],
                    (
                      o _ _ _ [],
                      (
                        o _ _ _ [],
                        (o _ _ _ [], (o _ _ _ [], (o _ _ _ [], (o _ _ _ [], (o _ _ _ [], tt))))),
                      ),
                    ),
                  ),
                ),
              ),
            ),
          ),
        ),
      ),
    )

-- Each table that the first revision creates, but that of the customers, has the column customer_id:
-- it is required, refers to the customers, and its rows are deleted with the customer.
pub created-IsOwned : (t : Table) → Memᴰ t (created initial_upgrade) → IsOwned t
created-IsOwned t m = All-lookup IsOwned (created initial_upgrade) t All-IsOwned m
