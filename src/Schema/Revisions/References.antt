-- ===== src/Schema/Revisions/References.antt =====
-- The references between the tables of libs/wf_core/migrations/versions.
use Prim.Native.String.{String}
use text.Mathlib.Text.{◌==◌ as str_eq}
use workfront_system.Base.{
  ◌≡◌, refl, sym, subst, Bool, true, false, ◌&&◌, ◌||◌, some, none, List, [], ◌∷◌, ◌++◌, Memᴰ,
  arith, append-right_assoc, append-right-nil,
}
use workfront_system.Schema.Operations.{Table, Column, ForeignKey}
use workfront_system.Schema.Revisions.{upgrade_head, created}

abbrev pub has_table : List Table → String → Bool
has_table [] name = false
has_table (t ∷ tables) name = str_eq t.name name || has_table tables name

abbrev refers_in : List Table → Column → Bool
refers_in tables c = elim c.references [ none ↦ true | some k ↦ has_table tables k.table ]

abbrev all_refer : List Table → List Column → Bool
all_refer tables [] = true
all_refer tables (c ∷ columns) = refers_in tables c && all_refer tables columns

abbrev is_closed : List Table → List Table → Bool
is_closed before [] = true
is_closed before (t ∷ rest) =
    all_refer (before ++ t ∷ []) t.columns && is_closed (before ++ t ∷ []) rest

all_refer-lookup :
    (tables : List Table) (columns : List Column) (c : Column) (k : ForeignKey)
    → all_refer tables columns ≡ true
    → Memᴰ c columns
    → c.references ≡ some k
    → has_table tables k.table ≡ true
all_refer-lookup tables [] c k h m e = elim m [ ]
all_refer-lookup tables (x ∷ columns) c k h (Memᴰ.head same) e =
    let here : refers_in tables c ≡ true =
      subst (λ y. refers_in tables y ≡ true) (sym same) (ground arith) in
    rw e at here
all_refer-lookup tables (x ∷ columns) c k h (Memᴰ.tail m) e =
    all_refer-lookup tables columns c k (ground arith) m e

is_closed-split :
    (seen before after : List Table) (t : Table)
    → is_closed seen (before ++ t ∷ after) ≡ true
    → all_refer ((seen ++ before) ++ t ∷ []) t.columns ≡ true
is_closed-split seen [] after t h =
    subst (λ l. all_refer (l ++ t ∷ []) t.columns ≡ true) (append-right-nil seen) (ground arith)
is_closed-split seen (b ∷ before) after t h =
    subst (λ l. all_refer (l ++ t ∷ []) t.columns ≡ true) (append-right_assoc seen b before)
      (is_closed-split (seen ++ b ∷ []) before after t (ground arith))

-- Each table that `alembic upgrade head` creates refers only to tables that exist by then: those
-- created before it, and itself.
pub created-refer :
    (before after : List Table) (t : Table) (c : Column) (k : ForeignKey)
    → created upgrade_head ≡ before ++ t ∷ after
    → Memᴰ c t.columns
    → c.references ≡ some k
    → has_table (before ++ t ∷ []) k.table ≡ true
created-refer before after t c k split m e =
    all_refer-lookup (before ++ t ∷ []) t.columns c k
      (is_closed-split [] before after t (subst (λ l. is_closed [] l ≡ true) split refl)) m e
