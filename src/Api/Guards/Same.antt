-- ===== src/Api/Guards/Same.antt =====
-- `is_same`: an object of which no column has changed is the object as it was loaded.
use Prim.Native.String.{String}
use text.Mathlib.Text.{◌==◌ as str_eq}
use text.Mathlib.TextEquality.{eq_iff}
use workfront_system.Base.{ℕ, ◌≡◌, refl, ap, true, Option, some, none, arith, ==_iff}
use workfront_system.Store.Models.{Task}
use workfront_system.Api.Guards.{is_same, opt_eq}

opt_eq-true : (a b : Option ℕ) → opt_eq a b ≡ true → a ≡ b
opt_eq-true none none h = refl
opt_eq-true none (some b) h = cc
opt_eq-true (some a) none h = cc
opt_eq-true (some a) (some b) h = ap some ((==_iff a b).0 h)

-- The columns that the handlers set.
pub is_same-true :
    (t : Task) (name status : String) (start completion : Option ℕ)
    → is_same t (record t {
      name = name;
      status = status;
      planned_start = start;
      planned_completion = completion;
    })
      ≡ true
    → record t {
      name = name;
      status = status;
      planned_start = start;
      planned_completion = completion;
    }
      ≡ t
is_same-true t name status start completion h =
    let names : str_eq t.name name ≡ true = ground arith in
    let statuses : str_eq t.status status ≡ true = ground arith in
    let starts : opt_eq t.planned_start start ≡ true = ground arith in
    let ends : opt_eq t.planned_completion completion ≡ true = ground arith in
    rw
      (
        ← (eq_iff t.name name).0 names,
        ← (eq_iff t.status status).0 statuses,
        ← opt_eq-true t.planned_start start starts,
        ← opt_eq-true t.planned_completion completion ends,
      )
      refl
