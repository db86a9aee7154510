-- ===== src/History/Rows.antt =====
-- What time does to one row.
use workfront_system.Base.{
  none≢some, ℕ, ◌<◌, ◌≡◌, ◌≢◌, refl, sym, ap, ◌∙◌, subst, ◌⊎◌, inl, inr, Option, none, some, List,
  [], ◌∷◌, Memᴰ, arith, Bool-cases, ◌==◌, ==_iff,
}
use mathlib.Core.List.Memᴰ
use workfront_system.Store.Models.{Task, ChangePayload}

-- The row is as it was, has a greater version, or is gone.
pub data Later (old new : Option Task) : Type 0 where
  unchanged : new ≡ old → Later old new
  newer : (t t' : Task) → old ≡ some t → new ≡ some t' → t.version < t'.version → Later old new
  gone : new ≡ none → Later old new

version_of : {t t' : Task} → some t ≡ some t' → t.version ≡ t'.version
version_of e = ap (λ o. elim o [ none ↦ 0 | some x ↦ x.version ]) e

pub Later-trans : {a b c : Option Task} → Later a b → Later b c → Later a c
Later-trans {a} {b} {c} (unchanged e) h = subst (λ x. Later x c) e h
Later-trans {a} {b} {c} (gone e) (unchanged e') = gone (e' ∙ e)
Later-trans {a} {b} {c} (gone e) (gone e') = gone e'
Later-trans {a} {b} {c} (gone e) (newer t t' at at' lt) = absurd (none≢some (sym e ∙ at))
Later-trans {a} {b} {c} (newer t t' at at' lt) (unchanged e) = newer t t' at (e ∙ at') lt
Later-trans {a} {b} {c} (newer t t' at at' lt) (gone e) = gone e
Later-trans {a} {b} {c} (newer t t' at at' lt) (newer u u' au au' lu) =
    newer t u' at au' (omega (arith, lt, lu, version_of (sym at' ∙ au)))

-- A row that is there later with the version that it had is the row that was there.
pub Later-same_version :
    {old new : Option Task} {t t' : Task}
    → Later old new
    → old ≡ some t
    → new ≡ some t'
    → t'.version ≡ t.version
    → new ≡ old
Later-same_version (unchanged e) at at' v = e
Later-same_version (gone e) at at' v = absurd (none≢some (sym e ∙ at'))
Later-same_version (newer u u' au au' lt) at at' v =
    absurd (omega (arith, lt, v, version_of (sym au ∙ at), version_of (sym au' ∙ at')))

-- Whether one of the changes is of the task.
pub find_change :
    (changes : List ChangePayload) (a : ℕ)
    → ((c : ChangePayload) × Memᴰ c changes × (c.task_id ≡ a))
      ⊎ ((c : ChangePayload) → Memᴰ c changes → c.task_id ≢ a)
find_change [] a = inr (λ c m. absurd (Memᴰ.not-nil m))
find_change (c ∷ changes) a = elim (Bool-cases (c.task_id == a)) [
  | inl own ↦ inl (c, Memᴰ.head refl, (==_iff c.task_id a).0 own)
  | inr other ↦ elim (find_change changes a) [
    | inl (d, m, at) ↦ inl (d, Memᴰ.tail m, at)
    | inr apart ↦ inr (λ d m at. elim (Memᴰ.cases_cons m) [
      | inl here ↦ ground (arith, other, ap (λ x. x.task_id) here, at)
      | inr later ↦ apart d later at
    ])
  ]
]
