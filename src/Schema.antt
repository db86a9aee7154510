-- ===== src/Schema.antt =====
-- libs/wf_core/migrations/versions: the two revisions as the operations that they call,
-- the tables that libs/wf_core/wf_core/models.py declares (`Declared`), and
-- libs/wf_core/migrations/env.py (`Environment`).
pub mod Operations
pub mod Organisation
pub mod Work
pub mod Planning
pub mod Revisions
pub mod People
pub mod Spine
pub mod Declared
pub mod Environment
