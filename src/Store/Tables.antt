-- ===== src/Store/Tables.antt =====
-- The tables of the database in memory, and its flush. They are no model of code of the repository.
use Prim.Native.String.{String}
use text.Mathlib.Text.{◌==◌ as str_eq}
use workfront_system.Base.{
  ℕ, ◌≡◌, sym, ap, ◌∙◌, some-injective, none≢some, Bool, true, false, not, ◌&&◌, ◌||◌, inl, inr,
  Option, some, none, List, [], ◌∷◌, ◌++◌, map, arith, if◌then◌else◌, ◌==◌, ==_iff, contains,
  Bool-cases, Option-cases, Outcome, ok, err, stale_data_error, integrity_error,
}
use workfront_system.Cascade.Types.{update}
use workfront_system.Store.Models.{
  Customer, Project, Task, Predecessor, OutboxEvent, ProcessedEvent,
}
use workfront_system.Store.Database.{Dirty, bumped}

pub record Tables : Type 0 where
  pub customers : List Customer
  pub projects : ℕ → Option Project
  pub task_ids : List ℕ
  pub tasks : ℕ → Option Task
  pub predecessors : List Predecessor
  pub outbox : List OutboxEvent
  pub processed : List ProcessedEvent

-- A row is found under its own id only.
abbrev pub own_id : ℕ → Option Task → Option Task
own_id a none = none
own_id a (some t) = if t.id == a then some t else none

-- The rows of the task table are those of the listed ids.
abbrev pub stored : Tables → ℕ → Option Task
stored s a = if contains s.task_ids a then own_id a (s.tasks a) else none

abbrev pub is_current : (ℕ → Option Task) → Task → Bool
is_current tasks t = elim (tasks t.id) [ none ↦ false | some row ↦ row.version == t.version ]

abbrev pub dirty_ids : List Dirty → List ℕ
dirty_ids ds = map (λ d. d.loaded.id) ds

-- Each object is current and keeps its id, and no two are of one row.
abbrev pub can_flush : (ℕ → Option Task) → List Dirty → Bool
can_flush tasks [] = true
can_flush tasks (d ∷ ds) =
    is_current tasks d.loaded
    && d.now.id == d.loaded.id
    && not (contains (dirty_ids ds) d.loaded.id)
    && can_flush tasks ds

abbrev pub write_all : List Dirty → (ℕ → Option Task) → ℕ → Option Task
write_all [] tasks = tasks
write_all (d ∷ ds) tasks = update (write_all ds tasks) d.loaded.id (some (bumped d))

abbrev pub flush : Tables → List Dirty → Outcome (Tables × List Task)
flush s [] = ok (s, [])
flush s (d ∷ ds) =
    if can_flush (stored s) (d ∷ ds)
    then ok (record s { tasks = write_all (d ∷ ds) s.tasks }, map bumped (d ∷ ds))
    else err stale_data_error

abbrev pub get_processed : List ProcessedEvent → String → ℕ → Bool
get_processed [] g e = false
get_processed (p ∷ ps) g e = (str_eq p.consumer_group g && p.event_id == e) || get_processed ps g e

abbrev pub add_processed : Tables → ProcessedEvent → Outcome Tables
add_processed s p =
    if get_processed s.processed p.consumer_group p.event_id
    then err integrity_error
    else ok (record s { processed = p ∷ s.processed })

abbrev pub rows : (ℕ → Option Task) → List ℕ → List Task
rows tasks [] = []
rows tasks (a ∷ ids) = elim (tasks a) [ none ↦ rows tasks ids | some t ↦ t ∷ rows tasks ids ]

pub current_row :
    (tasks : ℕ → Option Task) (t : Task)
    → is_current tasks t ≡ true
    → (row : Task) × (tasks t.id ≡ some row) × (row.version ≡ t.version)
current_row tasks t h = elim (Option-cases (tasks t.id)) [
  | inl absent ↦ ground arith
  | inr (row, found) ↦ (row, found, ground arith)
]

pub stored-some :
    (s : Tables) (a : ℕ) {t : Task} → stored s a ≡ some t → contains s.task_ids a ≡ true
stored-some s a h = elim (Bool-cases (contains s.task_ids a)) [
  | inl listed ↦ listed
  | inr absent ↦ ground arith
]

own_id-some : (a : ℕ) (o : Option Task) {t : Task} → own_id a o ≡ some t → t.id ≡ a
own_id-some a none h = cc
own_id-some a (some row) {t} h = elim (Bool-cases (row.id == a)) [
  | inl own ↦
      let same : row ≡ t = some-injective (rw own at h) in
      sym (ap (λ x. x.id) same) ∙ (==_iff row.id a).0 own
  | inr other ↦ absurd (none≢some (rw other at h))
]

pub stored-id : (s : Tables) (a : ℕ) {t : Task} → stored s a ≡ some t → t.id ≡ a
stored-id s a h = own_id-some a (s.tasks a) (rw (stored-some s a h) at h)

abbrev pub insert_task : Tables → Task → Tables
insert_task s t = record s {
  task_ids = s.task_ids ++ t.id ∷ [];
  tasks = update s.tasks t.id (some t);
}
