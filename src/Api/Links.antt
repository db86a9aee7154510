-- ===== src/Api/Links.antt =====
-- The dependency route of services/api/src/main.py, `add_predecessor`.
use workfront_system.Base.{ℕ, Outcome, ok, ◌>>=◌}
use workfront_system.Store.Models.{Predecessor}
use workfront_system.Store.Database.{Database}
use workfront_system.Ws.Manager.{ConnectionManager, dependency_changed}
use workfront_system.Api.Schemas.{
  PredecessorCreate, PredecessorOut, predecessor_out, dependency_data,
}
use workfront_system.Api.Guards.{Surroundings, Reply, load_task, announce}

abbrev pub fresh_edge : ℕ → ℕ → PredecessorCreate → Predecessor
fresh_edge new_id customer_id body = record {
  id = new_id;
  customer_id = customer_id;
  predecessor_id = body.predecessor_id;
  successor_id = body.successor_id;
  type = body.type;
  lag_minutes = body.lag_minutes;
}

module _ (db : Database) where
  open db use {State, add_predecessor}

  unfoldable pub add_predecessor_route :
      Surroundings State
      → State
      → ConnectionManager
      → PredecessorCreate
      → ℕ
      → Outcome (Reply State PredecessorOut)
  add_predecessor_route around s m body customer_id = do
    succ ← load_task db s body.successor_id customer_id
    let edge = fresh_edge around.new_id customer_id body
    added ← add_predecessor (around.others s) edge
    ok (
        announce db around added m succ.project_id dependency_changed
          (dependency_data body.predecessor_id body.successor_id) (predecessor_out edge))
