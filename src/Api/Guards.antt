-- ===== src/Api/Guards.antt =====
-- The guards and helpers of the handlers in services/api/src/main.py, and what surrounds a request.
pub mod Cases
pub mod Same
use text.Mathlib.Text.{◌==◌ as str_eq}
use workfront_system.Base.{
  ℕ, Bool, true, false, ◌&&◌, Option, some, none, List, [], ◌∷◌, if◌then◌else◌, ◌==◌, Error,
  Outcome, ok, err, stale_data_error, http_exception, ◌>>=◌,
}
use workfront_system.Store.Models.{Task, Project}
use workfront_system.Store.Database.{Database, Dirty}
use workfront_system.Telemetry.{Carrier}
use workfront_system.Ws.Manager.{ConnectionManager, WsEvent, EventType, broadcast}
use workfront_system.Api.Schemas.{EventData}

-- The status of the response to a request that raises: HTTPException carries its own,
-- `_version_conflict` answers 409 to StaleDataError, and any other exception becomes a 500.
unfoldable pub status_code : Error → ℕ
status_code (http_exception status) = status
status_code stale_data_error = 409
status_code _ = 500

unfoldable pub require_match : ℕ → Option ℕ → Outcome (Unit {0})
require_match current_version none = err (http_exception 428)
require_match current_version (some if_match) =
    if current_version == if_match then ok tt else err (http_exception 409)

abbrev pub opt_eq : Option ℕ → Option ℕ → Bool
opt_eq none none = true
opt_eq (some a) (some b) = a == b
opt_eq _ _ = false

-- The handlers set no other columns. SQLAlchemy writes an object only if some column has changed.
abbrev pub is_same : Task → Task → Bool
is_same t t' =
    str_eq t.name t'.name
    && str_eq t.status t'.status
    && opt_eq t.planned_start t'.planned_start
    && opt_eq t.planned_completion t'.planned_completion

abbrev pub dirty_objects : Task → Task → List Dirty
dirty_objects t t' = if is_same t t' then [] else record { loaded = t; now = t' } ∷ []

-- The object after the flush: refreshed if it was written.
abbrev pub refreshed : Task → List Task → Task
refreshed t [] = t
refreshed t (row ∷ _) = row

-- What a request meets in its surroundings: fresh ids, the clock, what `inject_trace({})`
-- gives, which sends succeed, and what others do: to the database between its reads and its writes
-- (`others`, and `later` in the inline cascade), and to the manager while it sends (`during`).
pub record Surroundings (State : Type 0) : Type 0 where
  pub new_id : ℕ
  pub now : ℕ
  pub trace : Carrier
  pub sends : ℕ → Bool
  pub others : State → State
  pub later : State → State
  pub during : ConnectionManager → ConnectionManager

-- What a handler that returns leaves behind: the state to commit, the manager, the events that it
-- broadcast, and the response.
pub record Reply (State A : Type 0) : Type 0 where
  pub state : State
  pub manager : ConnectionManager
  pub events : List (WsEvent EventData)
  pub body : A

module _ (db : Database) where
  open db use {State, get_task, get_project, flush}

  -- _load_task
  unfoldable pub load_task : State → ℕ → ℕ → Outcome Task
  load_task s task_id customer_id = elim (get_task s task_id) [
    | none ↦ err (http_exception 404)
    | some t ↦ if t.customer_id == customer_id then ok t else err (http_exception 404)
  ]

  -- The same three lines in each handler of a project.
  unfoldable pub load_project : State → ℕ → ℕ → Outcome Project
  load_project s project_id customer_id = elim (get_project s project_id) [
    | none ↦ err (http_exception 404)
    | some p ↦ if p.customer_id == customer_id then ok p else err (http_exception 404)
  ]

  -- Set attributes of a loaded task, and flush.
  unfoldable pub flush_task : State → Task → Task → Outcome (State × Task)
  flush_task s t t' = do
    (written, rows) ← flush s (dirty_objects t t')
    ok (written, refreshed t' rows)

  -- A handler's last step: broadcast, and return.
  unfoldable pub announce :
      {A : Type 0}
      → Surroundings State
      → State
      → ConnectionManager
      → ℕ
      → EventType
      → EventData
      → A
      → Reply State A
  announce around s m project_id type payload body =
      let (after, event) =
        broadcast m around.during around.sends project_id type around.now payload in
      record { state = s; manager = after; events = event ∷ []; body = body }
