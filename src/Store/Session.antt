-- ===== src/Store/Session.antt =====
-- The transactional scopes of libs/wf_core/wf_core/db.py: `session_scope`, of which each message of
-- the worker has one, and `async_session_scope`, of which each request of the API has one.
use workfront_system.Base.{Option, none, some, Error, Outcome, ok, err}

-- The body runs in one transaction: what it wrote is committed if it returns, and rolled back if it
-- or the commit raises, which leaves what others have committed meanwhile. The exception goes on to
-- the caller.
unfoldable pub session_scope :
    {State A : Type 0}
    → State
    → (State → State)
    → Option Error
    → (State → Outcome (State × A))
    → State × Outcome A
session_scope s others commit_raises body = elim (body s) [
  | err e ↦ (others s, err e)
  | ok (written, a) ↦ elim commit_raises [ some e ↦ (others s, err e) | none ↦ (written, ok a) ]
]

-- The same with await.
unfoldable pub async_session_scope :
    {State A : Type 0}
    → State
    → (State → State)
    → Option Error
    → (State → Outcome (State × A))
    → State × Outcome A
async_session_scope s others commit_raises body = elim (body s) [
  | err e ↦ (others s, err e)
  | ok (written, a) ↦ elim commit_raises [ some e ↦ (others s, err e) | none ↦ (written, ok a) ]
]
