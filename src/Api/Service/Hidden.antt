-- ===== src/Api/Service/Hidden.antt =====
-- Tenants apart: requests of services/api/src/main.py for a row that is not the caller's.
use workfront_system.Base.{
  ℕ, ◌≡◌, ◌≢◌, Bool, true, false, Option, some, [], Error, err, http_exception,
}
use workfront_system.Cascade.Types.{SetOrder}
use workfront_system.Store.Models.{Task, Project}
use workfront_system.Store.Database.{Database}
use workfront_system.Store.Session.{async_session_scope}
use workfront_system.Ws.Manager.{ConnectionManager}
use workfront_system.Api.Guards.{Surroundings}
use workfront_system.Api.Isolation.{
  update-hidden, move-hidden, delete-hidden, link-hidden, project-hidden, gantt-hidden,
  create-hidden,
}
use workfront_system.Api.Service.{
  Request, post_customer, post_project, read_project, read_gantt, post_task, patch_task,
  patch_schedule, remove_task, post_predecessor, dispatch, serve,
}

-- The row that a request names and that must be the caller's.
pub data Target : Type 0 where
  the_task the_project : ℕ → Target
  nothing : Target

abbrev pub target : Request → Target
target (post_customer body) = nothing
target (post_project body) = nothing
target (read_project project_id) = the_project project_id
target (read_gantt project_id) = the_project project_id
target (post_task project_id body) = the_project project_id
target (patch_task task_id body if_match) = the_task task_id
target (patch_schedule task_id body if_match) = the_task task_id
target (remove_task task_id if_match) = the_task task_id
target (post_predecessor body) = the_task body.successor_id

module _ (db : Database) where
  open db use {State, get_task, get_project}

  -- It is not there, or another customer's.
  abbrev pub IsHidden : State → ℕ → Target → Type 0
  IsHidden s customer_id (the_task a) =
      (t : Task) → get_task s a ≡ some t → t.customer_id ≢ customer_id
  IsHidden s customer_id (the_project a) =
      (p : Project) → get_project s a ≡ some p → p.customer_id ≢ customer_id
  IsHidden s customer_id nothing = ⊥

  module _ (order : SetOrder) (inline_cascade : Bool) (around : Surroundings State) (s : State)
      (m : ConnectionManager) (customer_id : ℕ) where
    dispatch-hidden :
        (request : Request)
        → IsHidden s customer_id (target request)
        → dispatch db order inline_cascade around s m (some customer_id) request
          ≡ err (http_exception 404)
    unfolding dispatch
    dispatch-hidden (post_customer body) hidden = absurd hidden
    dispatch-hidden (post_project body) hidden = absurd hidden
    dispatch-hidden (read_project project_id) hidden =
        rw (project-hidden db around s m customer_id project_id hidden)
    dispatch-hidden (read_gantt project_id) hidden =
        rw (gantt-hidden db around s m customer_id project_id hidden)
    dispatch-hidden (post_task project_id body) hidden =
        rw (create-hidden db around s m customer_id project_id hidden body)
    dispatch-hidden (patch_task task_id body if_match) hidden =
        rw (update-hidden db around s m customer_id task_id hidden body if_match)
    dispatch-hidden (patch_schedule task_id body if_match) hidden =
        rw (move-hidden db around s m customer_id task_id hidden order inline_cascade body if_match)
    dispatch-hidden (remove_task task_id if_match) hidden =
        rw (delete-hidden db around s m customer_id task_id hidden if_match)
    dispatch-hidden (post_predecessor body) hidden =
        rw (link-hidden db around s m customer_id body hidden)

    -- A request for a task or a project that is not the caller's, or not there, gets 404, whichever
    -- of the seven routes it takes, with either setting of the inline cascade, and whatever its body
    -- and its If-Match: nothing is written, nothing is broadcast, and no sequence number is used.
    pub serve-hidden :
        (exits_first : Bool) (commit_raises : Option Error) (meanwhile : State → State)
        (request : Request)
        → IsHidden s customer_id (target request)
        → serve db order inline_cascade around s m exits_first commit_raises meanwhile
            (some customer_id)
            request
          ≡ record {
            state = meanwhile s;
            manager = m;
            events = [];
            response = err (http_exception 404);
          }
    unfolding serve async_session_scope
    serve-hidden true commit_raises meanwhile request hidden = rw (dispatch-hidden request hidden)
    serve-hidden false commit_raises meanwhile request hidden = rw (dispatch-hidden request hidden)
