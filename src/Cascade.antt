-- ===== src/Cascade.antt =====
-- services/worker/src/cascade.py, the pure constraint propagation. `Types` has its data classes,
-- `Affected`, `Kahn` and `Recompute` its three numbered steps, and `Run` the function itself; the
-- modules below these have the lemmas on each step.
pub mod Types
pub mod Affected
pub mod Kahn
pub mod Recompute
pub mod Run
