-- ===== src/Api/Service/Commit.antt =====
-- A request of services/api/src/main.py is all or nothing, and its client is told which.
use workfront_system.Base.{ℕ, ◌≡◌, Option, Error, ok, err}
use workfront_system.Cascade.Types.{SetOrder}
use workfront_system.Store.Database.{Database}
use workfront_system.Api.Guards.{Surroundings}
use workfront_system.Api.Service.Done.{IsDone}
use workfront_system.Api.Service.{Request, Body, Served}

module _ (db : Database) (order : SetOrder) (around : Surroundings db.State) (s : db.State) where
  open db use {State}

  -- The request has written nothing, and its client is told of an error.
  pub record RolledBack (others : State) (served : Served State) : Type 0 where
    pub refused : (x : Error) × (served.response ≡ err x)
    pub state : served.state ≡ others

  -- The request has done what it was to do, and its client is told so.
  pub record Committed (header : Option ℕ) (request : Request) (served : Served State)
      : Type 0 where
    pub told : Body
    pub answered : served.response ≡ ok told
    pub done : IsDone db order around s header request served.state told
