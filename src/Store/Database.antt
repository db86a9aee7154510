-- ===== src/Store/Database.antt =====
-- What the services use of SQLAlchemy and Postgres, which are not in the repository: an interface
-- with the documented behaviour of the calls as laws. A state is what one session sees.
use Prim.Native.String.{String}
use workfront_system.Base.{
  ℕ, suc, ◌≡◌, ◌≢◌, Bool, true, false, Option, none, some, List, [], ◌∷◌, ◌++◌, Memᴰ, map, Outcome,
  ok, err, ◌⊎◌, stale_data_error, integrity_error, dbapi_error, Error,
}
use workfront_system.Store.Models.{
  Customer, Project, Task, Predecessor, OutboxEvent, ProcessedEvent,
}

-- A loaded object and what its attributes were set to since.
pub record Dirty : Type 0 where
  pub loaded : Task
  pub now : Task

-- The object after a flush that wrote it: `version_id_col` has moved on by one.
abbrev pub bumped : Dirty → Task
bumped d = record d.now { version = suc d.loaded.version }

-- The tasks that are below a task in the tree of parents, itself included.
pub data IsBelow (get_task : ℕ → Option Task) (root : ℕ) : ℕ → Type 0 where
  here : IsBelow get_task root root
  child :
      {a p : ℕ} (t : Task)
      → get_task a ≡ some t
      → t.parent_id ≡ some p
      → IsBelow get_task root p
      → IsBelow get_task root a

pub record Database : Type 1 where
  pub State : Type 0
  -- s.get(…) and select(…)
  pub get_task : State → ℕ → Option Task
  pub get_project : State → ℕ → Option Project
  pub get_processed : State → String → ℕ → Bool
  pub tasks_of_project : State → ℕ → List Task
  pub predecessors_into : State → List ℕ → List Predecessor
  pub outbox : State → List OutboxEvent
  -- s.flush() with objects whose attributes have changed; it answers with the refreshed objects.
  pub flush : State → List Dirty → Outcome (State × List Task)
  -- s.delete(t), s.flush()
  pub delete_task : State → Task → Outcome State
  -- s.add(…), s.flush()
  pub add_customer : State → Customer → Outcome State
  pub add_project : State → Project → Outcome State
  pub add_task : State → Task → Outcome State
  pub add_predecessor : State → Predecessor → Outcome State
  pub add_outbox : State → OutboxEvent → State
  pub add_processed : State → ProcessedEvent → Outcome State
  -- The primary key of a row is the one that it is found under.
  pub get_task_id : (s : State) (a : ℕ) {t : Task} → get_task s a ≡ some t → t.id ≡ a
  -- SELECT … WHERE project_id = ?
  pub tasks_selected :
      (s : State) (p : ℕ) (t : Task)
      → Memᴰ t (tasks_of_project s p)
      → (get_task s t.id ≡ some t) × (t.project_id ≡ p)
  pub tasks_complete :
      (s : State) (a : ℕ) (t : Task)
      → get_task s a ≡ some t
      → Memᴰ t (tasks_of_project s t.project_id)
  -- SELECT … WHERE successor_id IN …
  pub edges_selected :
      (s : State) (ids : List ℕ) (e : Predecessor)
      → Memᴰ e (predecessors_into s ids)
      → Memᴰ e.successor_id ids
  pub edges_complete :
      (s : State) (ids others : List ℕ) (e : Predecessor)
      → Memᴰ e (predecessors_into s others)
      → Memᴰ e.successor_id ids
      → Memᴰ e (predecessors_into s ids)
  -- UPDATE … WHERE id = ? AND version = ?: a row that is gone or has another version makes the
  -- flush raise.
  pub flush_guard :
      (s : State) (ds : List Dirty) (r : State × List Task)
      → flush s ds ≡ ok r
      → (d : Dirty) → Memᴰ d ds
      → (row : Task) × (get_task s d.loaded.id ≡ some row) × (row.version ≡ d.loaded.version)
  pub flush_rows :
      (s : State) (ds : List Dirty) (r : State × List Task)
      → flush s ds ≡ ok r
      → r.1 ≡ map bumped ds
  pub flush_writes :
      (s : State) (ds : List Dirty) (r : State × List Task)
      → flush s ds ≡ ok r
      → (d : Dirty) → Memᴰ d ds
      → get_task r.0 d.loaded.id ≡ some (bumped d)
  pub flush_others :
      (s : State) (ds : List Dirty) (r : State × List Task)
      → flush s ds ≡ ok r
      → (a : ℕ) → ((d : Dirty) → Memᴰ d ds → d.loaded.id ≢ a)
      → get_task r.0 a ≡ get_task s a
  -- The UPDATE of such a row matches no row, and SQLAlchemy raises StaleDataError.
  pub flush_stale :
      (s : State) (d : Dirty) (row : Task)
      → get_task s d.loaded.id ≡ some row
      → row.version ≢ d.loaded.version
      → flush s (d ∷ []) ≡ err stale_data_error
  -- SQLAlchemy wraps the errors of the driver, IntegrityError among them, in DBAPIError.
  pub flush_fails :
      (s : State) (ds : List Dirty) (x : Error)
      → flush s ds ≡ err x
      → (x ≡ stale_data_error) ⊎ (x ≡ integrity_error) ⊎ (x ≡ dbapi_error)
  pub flush_nothing : (s : State) → flush s [] ≡ ok (s, [])
  pub flush_outbox :
      (s : State) (ds : List Dirty) (r : State × List Task)
      → flush s ds ≡ ok r
      → outbox r.0 ≡ outbox s
  pub flush_processed :
      (s : State) (ds : List Dirty) (r : State × List Task)
      → flush s ds ≡ ok r
      → (g : String) (e : ℕ) → get_processed r.0 g e ≡ get_processed s g e
  -- DELETE … WHERE id = ? AND version = ?, with the ON DELETE CASCADE of task.parent_id.
  pub delete_guard :
      (s : State) (t : Task) (s' : State)
      → delete_task s t ≡ ok s'
      → (row : Task) × (get_task s t.id ≡ some row) × (row.version ≡ t.version)
  pub delete_below :
      (s : State) (t : Task) (s' : State)
      → delete_task s t ≡ ok s'
      → (a : ℕ) → IsBelow (get_task s) t.id a
      → get_task s' a ≡ none
  pub delete_others :
      (s : State) (t : Task) (s' : State)
      → delete_task s t ≡ ok s'
      → (a : ℕ) → ¬ IsBelow (get_task s) t.id a
      → get_task s' a ≡ get_task s a
  pub delete_outbox :
      (s : State) (t : Task) (s' : State) → delete_task s t ≡ ok s' → outbox s' ≡ outbox s
  -- An INSERT leaves the rows that are there.
  pub customer_added :
      (s : State) (c : Customer) (s' : State)
      → add_customer s c ≡ ok s'
      → (a : ℕ) → get_task s' a ≡ get_task s a
  pub project_added :
      (s : State) (p : Project) (s' : State)
      → add_project s p ≡ ok s'
      → (a : ℕ) → get_task s' a ≡ get_task s a
  pub task_added :
      (s : State) (t : Task) (s' : State)
      → add_task s t ≡ ok s'
      → (a : ℕ) → t.id ≢ a
      → get_task s' a ≡ get_task s a
  pub task_inserted :
      (s : State) (t : Task) (s' : State) → add_task s t ≡ ok s' → get_task s' t.id ≡ some t
  pub predecessor_added :
      (s : State) (e : Predecessor) (s' : State)
      → add_predecessor s e ≡ ok s'
      → (a : ℕ) → get_task s' a ≡ get_task s a
  -- The primary key (consumer_group, event_id) is unique.
  pub processed_unique :
      (s : State) (p : ProcessedEvent)
      → get_processed s p.consumer_group p.event_id ≡ true
      → add_processed s p ≡ err integrity_error
  pub processed_added :
      (s : State) (p : ProcessedEvent)
      → get_processed s p.consumer_group p.event_id ≡ false
      → (s' : State) × (add_processed s p ≡ ok s')
        × (get_processed s' p.consumer_group p.event_id ≡ true)
        × (outbox s' ≡ outbox s)
        × ((a : ℕ) → get_task s' a ≡ get_task s a)
  pub processed_kept :
      (s : State) (p : ProcessedEvent) (s' : State)
      → add_processed s p ≡ ok s'
      → (g : String) (e : ℕ) → get_processed s g e ≡ true
      → get_processed s' g e ≡ true
  pub outbox_added :
      (s : State) (o : OutboxEvent)
      → (outbox (add_outbox s o) ≡ outbox s ++ o ∷ [])
        × ((a : ℕ) → get_task (add_outbox s o) a ≡ get_task s a)
        × ((g : String) (e : ℕ) → get_processed (add_outbox s o) g e ≡ get_processed s g e)
