-- ===== src/Store.antt =====
-- libs/wf_core/wf_core: the rows of models.py (`Models`), the database behind a SQLAlchemy
-- session (`Database`), which the services are written against, one in memory (`Tables`, `Memory`),
-- and the sessions and engines of db.py (`Session`, `Engines`).
pub mod Models
pub mod Database
pub mod Tables
pub mod Flushing
pub mod Deletion
pub mod Selection
pub mod Memory
pub mod Session
pub mod Engines
