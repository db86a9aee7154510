-- ===== src/Schema/Revisions/Downgrade.antt =====
-- The downgrades of libs/wf_core/migrations/versions against the upgrades.
use Prim.Native.String.{String}
use text.Mathlib.Text.{◌==◌ as str_eq}
use text.Mathlib.TextPositions.{eq_refl}
use mathlib.Core.List.{reverse-append}
use workfront_system.Base.{
  ◌≡◌, refl, sym, ap, ◌∙◌, subst, Bool, true, false, not, ◌&&◌, ◌||◌, some, none, List, [], ◌∷◌,
  ◌++◌, map, reverse, Memᴰ, arith, append-right_assoc, append-right-nil,
}
use workfront_system.Schema.Operations.{Table, Column, ForeignKey}
use workfront_system.Schema.Revisions.{upgrade_head, downgrade_base, created, dropped}
use workfront_system.Schema.Revisions.References.{has_table}

abbrev pub has_name : List String → String → Bool
has_name [] name = false
has_name (n ∷ names) name = str_eq n name || has_name names name

has_name-append :
    (xs ys : List String) (name : String)
    → has_name (xs ++ ys) name ≡ (has_name xs name || has_name ys name)
has_name-append [] ys name = refl
has_name-append (x ∷ xs) ys name = ground (arith, has_name-append xs ys name)

has_name-reverse :
    (xs : List String) (name : String) → has_name (reverse xs) name ≡ has_name xs name
has_name-reverse [] name = refl
has_name-reverse (x ∷ xs) name =
    rw (reverse-append (x ∷ []) xs)
      (ground (arith, has_name-append (reverse xs) (x ∷ []) name, has_name-reverse xs name))

has_name-map :
    (tables : List Table) (name : String)
    → has_name (map (λ t. t.name) tables) name ≡ has_table tables name
has_name-map [] name = refl
has_name-map (t ∷ tables) name = ground (arith, has_name-map tables name)

reversed : dropped downgrade_base ≡ reverse (map (λ t. t.name) (created upgrade_head))
reversed = refl

-- The downgrade to the base drops a table of some name exactly when the upgrade to the head creates
-- one: nothing is left over, and nothing else is touched.
pub dropped-created :
    (name : String) → has_name (dropped downgrade_base) name ≡ has_table (created upgrade_head) name
dropped-created name =
    ap (λ l. has_name l name) reversed
    ∙ has_name-reverse (map (λ t. t.name) (created upgrade_head)) name
    ∙ has_name-map (created upgrade_head) name

abbrev refers_to : String → Column → Bool
refers_to name c = elim c.references [ none ↦ false | some k ↦ str_eq k.table name ]

abbrev any_refers : String → List Column → Bool
any_refers name [] = false
any_refers name (c ∷ columns) = refers_to name c || any_refers name columns

-- Every table that refers to `name` is in `gone`.
abbrev no_dependents : List String → String → List Table → Bool
no_dependents gone name [] = true
no_dependents gone name (t ∷ tables) =
    (not (any_refers name t.columns) || has_name gone t.name) && no_dependents gone name tables

abbrev is_safe : List String → List String → Bool
is_safe gone [] = true
is_safe gone (n ∷ names) =
    no_dependents (gone ++ n ∷ []) n (created upgrade_head) && is_safe (gone ++ n ∷ []) names

any_refers-mem :
    (columns : List Column) (c : Column) (k : ForeignKey)
    → Memᴰ c columns
    → c.references ≡ some k
    → any_refers k.table columns ≡ true
any_refers-mem [] c k m e = elim m [ ]
any_refers-mem (x ∷ columns) c k (Memᴰ.head same) e =
    let here : refers_to k.table c ≡ true = rw e (eq_refl k.table) in
    ground (arith, subst (λ y. refers_to k.table y ≡ true) same here)
any_refers-mem (x ∷ columns) c k (Memᴰ.tail m) e = ground (arith, any_refers-mem columns c k m e)

no_dependents-lookup :
    (gone : List String) (name : String) (tables : List Table) (t : Table)
    → no_dependents gone name tables ≡ true
    → Memᴰ t tables
    → any_refers name t.columns ≡ true
    → has_name gone t.name ≡ true
no_dependents-lookup gone name [] t h m r = elim m [ ]
no_dependents-lookup gone name (x ∷ tables) t h (Memᴰ.head same) r =
    subst (λ y. has_name gone y.name ≡ true) (sym same)
      (ground (arith, subst (λ y. any_refers name y.columns ≡ true) same r))
no_dependents-lookup gone name (x ∷ tables) t h (Memᴰ.tail m) r =
    no_dependents-lookup gone name tables t (ground arith) m r

is_safe-split :
    (gone before after : List String) (name : String)
    → is_safe gone (before ++ name ∷ after) ≡ true
    → no_dependents ((gone ++ before) ++ name ∷ []) name (created upgrade_head) ≡ true
is_safe-split gone [] after name h =
    subst (λ l. no_dependents (l ++ name ∷ []) name (created upgrade_head) ≡ true)
      (append-right-nil gone) (ground arith)
is_safe-split gone (b ∷ before) after name h =
    subst (λ l. no_dependents (l ++ name ∷ []) name (created upgrade_head) ≡ true)
      (append-right_assoc gone b before)
      (is_safe-split (gone ++ b ∷ []) before after name (ground arith))

-- The downgrade never drops a table that another one still refers to: a table that refers to it has
-- been dropped before, or is the table itself.
pub dropped-refer :
    (before after : List String) (k : ForeignKey) (t : Table) (c : Column)
    → dropped downgrade_base ≡ before ++ k.table ∷ after
    → Memᴰ t (created upgrade_head)
    → Memᴰ c t.columns
    → c.references ≡ some k
    → has_name (before ++ k.table ∷ []) t.name ≡ true
dropped-refer before after k t c split m listed e =
    no_dependents-lookup (before ++ k.table ∷ []) k.table (created upgrade_head) t
      (is_safe-split [] before after k.table (subst (λ l. is_safe [] l ≡ true) split refl)) m
      (any_refers-mem t.columns c k listed e)
