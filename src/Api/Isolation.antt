-- ===== src/Api/Isolation.antt =====
-- Tenants apart: what the routes of services/api/src/main.py do with a row that is not the caller's.
use workfront_system.Base.{
  ℕ, ◌≡◌, ◌≢◌, refl, Bool, inl, inr, Option, some, ◌==◌, ==_iff, Bool-cases, Option-cases, err,
  http_exception,
}
use workfront_system.Cascade.Types.{SetOrder}
use workfront_system.Store.Models.{Task, Project}
use workfront_system.Store.Database.{Database}
use workfront_system.Ws.Manager.{ConnectionManager}
use workfront_system.Api.Schemas.{TaskCreate, TaskUpdate, TaskScheduleUpdate, PredecessorCreate}
use workfront_system.Api.Guards.{Surroundings, load_task, load_project}
use workfront_system.Api.Projects.{get_project_route, get_gantt}
use workfront_system.Api.Tasks.{create_task, update_task, delete_task_route}
use workfront_system.Api.Schedule.{reschedule_task}
use workfront_system.Api.Links.{add_predecessor_route}

module _ (db : Database) where
  open db use {State, get_task, get_project}

  load_task-hidden :
      (s : State) (task_id customer_id : ℕ)
      → ((t : Task) → get_task s task_id ≡ some t → t.customer_id ≢ customer_id)
      → load_task db s task_id customer_id ≡ err (http_exception 404)
  unfolding load_task
  load_task-hidden s task_id customer_id hidden = elim (Option-cases (get_task s task_id)) [
    | inl gone ↦ rw (load_task, gone) refl
    | inr (t, found) ↦ elim (Bool-cases (t.customer_id == customer_id)) [
      | inl own ↦ absurd (hidden t found ((==_iff t.customer_id customer_id).0 own))
      | inr other ↦ rw (load_task, found, other) refl
    ]
  ]

  load_project-hidden :
      (s : State) (project_id customer_id : ℕ)
      → ((p : Project) → get_project s project_id ≡ some p → p.customer_id ≢ customer_id)
      → load_project db s project_id customer_id ≡ err (http_exception 404)
  unfolding load_project
  load_project-hidden s project_id customer_id hidden =
      elim (Option-cases (get_project s project_id)) [
        | inl gone ↦ rw (load_project, gone) refl
        | inr (p, found) ↦ elim (Bool-cases (p.customer_id == customer_id)) [
          | inl own ↦ absurd (hidden p found ((==_iff p.customer_id customer_id).0 own))
          | inr other ↦ rw (load_project, found, other) refl
        ]
      ]

  module _ (around : Surroundings State) (s : State) (m : ConnectionManager) (customer_id : ℕ) where
    module _ (task_id : ℕ)
        (hidden : (t : Task) → get_task s task_id ≡ some t → t.customer_id ≢ customer_id) where
      pub update-hidden :
          (body : TaskUpdate) (if_match : Option ℕ)
          → update_task db around s m task_id body if_match customer_id ≡ err (http_exception 404)
      unfolding update_task
      update-hidden body if_match =
          rw (update_task, load_task-hidden s task_id customer_id hidden) refl

      pub move-hidden :
          (order : SetOrder) (inline_cascade : Bool) (body : TaskScheduleUpdate)
          (if_match : Option ℕ)
          → reschedule_task db order inline_cascade around s m task_id body if_match customer_id
            ≡ err (http_exception 404)
      unfolding reschedule_task
      move-hidden order inline_cascade body if_match =
          rw (reschedule_task, load_task-hidden s task_id customer_id hidden) refl

      pub delete-hidden :
          (if_match : Option ℕ)
          → delete_task_route db around s m task_id if_match customer_id ≡ err (http_exception 404)
      unfolding delete_task_route
      delete-hidden if_match =
          rw (delete_task_route, load_task-hidden s task_id customer_id hidden) refl

    pub link-hidden :
        (body : PredecessorCreate)
        → ((t : Task) → get_task s body.successor_id ≡ some t → t.customer_id ≢ customer_id)
        → add_predecessor_route db around s m body customer_id ≡ err (http_exception 404)
    unfolding add_predecessor_route
    link-hidden body hidden =
        rw (add_predecessor_route, load_task-hidden s body.successor_id customer_id hidden) refl

    module _ (project_id : ℕ)
        (hidden : (p : Project)
          → get_project s project_id ≡ some p
          → p.customer_id ≢ customer_id) where
      pub project-hidden : get_project_route db s project_id customer_id ≡ err (http_exception 404)
      unfolding get_project_route
      project-hidden =
          rw (get_project_route, load_project-hidden s project_id customer_id hidden) refl

      pub gantt-hidden : get_gantt db s m project_id customer_id ≡ err (http_exception 404)
      unfolding get_gantt
      gantt-hidden = rw (get_gantt, load_project-hidden s project_id customer_id hidden) refl

      pub create-hidden :
          (body : TaskCreate)
          → create_task db around s m project_id body customer_id ≡ err (http_exception 404)
      unfolding create_task
      create-hidden body =
          rw (create_task, load_project-hidden s project_id customer_id hidden) refl
