-- ===== src/Api.antt =====
-- services/api/src/main.py: `Schemas` has the request bodies, `Guards` what every handler checks,
-- `Projects`, `Tasks`, `Schedule` and `Links` the handlers of the REST routes, `Socket` the
-- WebSocket route, `Isolation` how the routes treat another organisation's rows, and `Service` a
-- request from its body to its commit.
pub mod Schemas
pub mod Guards
pub mod Projects
pub mod Tasks
pub mod Schedule
pub mod Links
pub mod Socket
pub mod Isolation
pub mod Service
