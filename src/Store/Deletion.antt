-- ===== src/Store/Deletion.antt =====
-- The deletion of a task, with the tasks below it, from the database in memory.
use workfront_system.Base.{
  ℕ, zero, suc, ◌≡◌, refl, sym, ap, subst, Bool, true, false, not, ◌&&◌, ◌||◌, inl, inr, Option,
  some, none, List, [], ◌∷◌, arith, if◌then◌else◌, ◌==◌, ==_iff, ==_refl, contains, length,
  Bool-cases, Option-cases, Outcome, ok, err, stale_data_error, ok-injective,
}
use workfront_system.Store.Models.{Task}
use workfront_system.Store.Database.{IsBelow, here, child}
use workfront_system.Store.Tables.{Tables, stored, stored-some, is_current, current_row}

abbrev parent_of : Option Task → Option ℕ
parent_of none = none
parent_of (some t) = t.parent_id

-- Within `depth` steps up from `a` stands `root`.
abbrev is_below : (ℕ → Option Task) → ℕ → ℕ → ℕ → Bool
is_below get root zero a = a == root
is_below get root (suc depth) a =
    a == root || elim (parent_of (get a)) [ none ↦ false | some p ↦ is_below get root depth p ]

-- Whose parent goes, goes too.
abbrev follows : (ℕ → Option Task) → (ℕ → Bool) → ℕ → Bool
follows get gone a = elim (parent_of (get a)) [ none ↦ true | some p ↦ not (gone p) || gone a ]

abbrev all_follow : (ℕ → Option Task) → (ℕ → Bool) → List ℕ → Bool
all_follow get gone [] = true
all_follow get gone (a ∷ ids) = follows get gone a && all_follow get gone ids

abbrev goes : Tables → Task → ℕ → Bool
goes s t = is_below (stored s) t.id (length s.task_ids)

abbrev pub remove : Tables → Task → Tables
remove s t = record s { tasks = λ a. if goes s t a then none else s.tasks a }

-- Refused if the tree is deeper than there are tasks.
abbrev pub delete_task : Tables → Task → Outcome Tables
delete_task s t =
    if is_current (stored s) t && all_follow (stored s) (goes s t) s.task_ids
    then ok (remove s t)
    else err stale_data_error

is_below-root : (get : ℕ → Option Task) (root depth : ℕ) → is_below get root depth root ≡ true
is_below-root get root zero = ==_refl root
is_below-root get root (suc depth) = rw (==_refl root)

IsBelow-root : (get : ℕ → Option Task) (root a : ℕ) → (a == root) ≡ true → IsBelow get root a
IsBelow-root get root a same = subst (IsBelow get root) (sym ((==_iff a root).0 same)) here

is_below-IsBelow :
    (get : ℕ → Option Task) (root depth a : ℕ)
    → is_below get root depth a ≡ true
    → IsBelow get root a
is_below-IsBelow get root zero a h = IsBelow-root get root a h
is_below-IsBelow get root (suc depth) a h = elim (Bool-cases (a == root)) [
  | inl same ↦ IsBelow-root get root a same
  | inr other ↦ elim (Option-cases (get a)) [
    | inl absent ↦ absurd (false≢true (rw (other, absent) at h))
    | inr (t, found) ↦ elim (Option-cases t.parent_id) [
      | inl top ↦ absurd (false≢true (rw (other, found, top) at h))
      | inr (p, up) ↦
          child t found up (is_below-IsBelow get root depth p (rw (other, found, up) at h))
    ]
  ]
]
  where
    false≢true : false ≡ true → ⊥
    false≢true e = cc

follows-up :
    (get : ℕ → Option Task) (gone : ℕ → Bool) (a p : ℕ) (t : Task)
    → follows get gone a ≡ true
    → get a ≡ some t
    → t.parent_id ≡ some p
    → gone p ≡ true
    → gone a ≡ true
follows-up get gone a p t h found up above =
    let known : (not (gone p) || gone a) ≡ true = rw (follows, found, up) at h in ground arith

all_follow-lookup :
    (get : ℕ → Option Task) (gone : ℕ → Bool) (ids : List ℕ) (a : ℕ)
    → all_follow get gone ids ≡ true
    → contains ids a ≡ true
    → follows get gone a ≡ true
all_follow-lookup get gone [] a h listed = ground arith
all_follow-lookup get gone (b ∷ ids) a h listed = elim (Bool-cases (b == a)) [
  | inl same ↦ subst (λ x. follows get gone x ≡ true) ((==_iff b a).0 same) (ground arith)
  | inr other ↦ all_follow-lookup get gone ids a (ground arith) (ground arith)
]

delete_task-ok :
    (s : Tables) (t : Task) (s' : Tables)
    → delete_task s t ≡ ok s'
    → (is_current (stored s) t ≡ true)
      × (all_follow (stored s) (goes s t) s.task_ids ≡ true)
      × (remove s t ≡ s')
delete_task-ok s t s' h =
    elim (Bool-cases (is_current (stored s) t && all_follow (stored s) (goes s t) s.task_ids)) [
      | inl fits ↦ (ground arith, ground arith, ok-injective (rw fits at h))
      | inr refused ↦ absurd (err≢ok (rw refused at h))
    ]
  where
    err≢ok : err stale_data_error ≡ ok s' → ⊥
    err≢ok e = cc

IsBelow-goes :
    (s : Tables) (t : Task)
    → all_follow (stored s) (goes s t) s.task_ids ≡ true
    → (a : ℕ) → IsBelow (stored s) t.id a
    → goes s t a ≡ true
IsBelow-goes s t h _ here = is_below-root (stored s) t.id (length s.task_ids)
IsBelow-goes s t h _ (child {a} {p} row found up below) =
    follows-up (stored s) (goes s t) a p row
      (all_follow-lookup (stored s) (goes s t) s.task_ids a h (stored-some s a found)) found up
      (IsBelow-goes s t h p below)

pub delete_guard_lem :
    (s : Tables) (t : Task) (s' : Tables)
    → delete_task s t ≡ ok s'
    → (row : Task) × (stored s t.id ≡ some row) × (row.version ≡ t.version)
delete_guard_lem s t s' h = current_row (stored s) t (delete_task-ok s t s' h).0

pub delete_below_lem :
    (s : Tables) (t : Task) (s' : Tables)
    → delete_task s t ≡ ok s'
    → (a : ℕ) → IsBelow (stored s) t.id a
    → stored s' a ≡ none
delete_below_lem s t s' h a below =
    let (_, closed, same) = delete_task-ok s t s' h in
    subst (λ x. stored x a ≡ none) same
      (rw (IsBelow-goes s t closed a below) (neither (contains s.task_ids a)))
  where
    neither : (b : Bool) → if◌then◌else◌ {A = Option Task} b none none ≡ none
    neither b = ground arith

pub delete_others_lem :
    (s : Tables) (t : Task) (s' : Tables)
    → delete_task s t ≡ ok s'
    → (a : ℕ) → ¬ IsBelow (stored s) t.id a
    → stored s' a ≡ stored s a
delete_others_lem s t s' h a apart = elim (Bool-cases (goes s t a)) [
  | inl gone ↦ absurd (apart (is_below-IsBelow (stored s) t.id (length s.task_ids) a gone))
  | inr kept ↦ subst (λ x. stored x a ≡ stored s a) (delete_task-ok s t s' h).2 (rw kept refl)
]

pub delete_outbox_lem :
    (s : Tables) (t : Task) (s' : Tables) → delete_task s t ≡ ok s' → s'.outbox ≡ s.outbox
delete_outbox_lem s t s' h = sym (ap (λ x. x.outbox) (delete_task-ok s t s' h).2)
