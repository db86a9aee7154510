-- ===== src/Api/Schedule/Refusals.antt =====
-- How the schedule move of services/api/src/main.py can fail in the pipeline.
use workfront_system.Base.{
  true≢false, ℕ, ◌≡◌, ◌≢◌, refl, sym, ap, ◌∙◌, subst, false, inl, inr, Option, some, none, ◌==◌,
  ◌⊎◌, stale_data_error, integrity_error, dbapi_error, ==_iff, Bool-cases, Option-cases,
  Outcome-cases, Error, ok, err, err-injective,
}
use workfront_system.Cascade.Types.{SetOrder}
use workfront_system.Store.Models.{Task}
use workfront_system.Store.Database.{Database}
use workfront_system.Ws.Manager.{ConnectionManager}
use workfront_system.Api.Schemas.{TaskScheduleUpdate, TaskOut}
use workfront_system.Api.Guards.{
  Surroundings, Reply, status_code, require_match, load_task, flush_task,
}
use workfront_system.Api.Guards.Cases.{load_task-ok, require_match-ok, flush_task-fails}
use workfront_system.Api.Schedule.{move_task, reschedule_task}

module _ (db : Database) (order : SetOrder) where
  open db use {State, get_task}

  -- Why a move is refused, with the status of the response.
  pub data Refused (others : State → State) (s : State) (task_id : ℕ) (body : TaskScheduleUpdate)
      (if_match : Option ℕ) (customer_id : ℕ) : ℕ → Type 0 where
    unknown : get_task s task_id ≡ none → Refused others s task_id body if_match customer_id 404
    foreign :
        (t : Task)
        → get_task s task_id ≡ some t
        → t.customer_id ≢ customer_id
        → Refused others s task_id body if_match customer_id 404
    unmatched :
        (t : Task)
        → get_task s task_id ≡ some t
        → t.customer_id ≡ customer_id
        → if_match ≡ none
        → Refused others s task_id body if_match customer_id 428
    mismatched :
        (t : Task) (v : ℕ)
        → get_task s task_id ≡ some t
        → t.customer_id ≡ customer_id
        → if_match ≡ some v
        → t.version ≢ v
        → Refused others s task_id body if_match customer_id 409
    overtaken :
        (t : Task)
        → get_task s task_id ≡ some t
        → t.customer_id ≡ customer_id
        → if_match ≡ some t.version
        → flush_task db (others s) t (move_task t body) ≡ err stale_data_error
        → Refused others s task_id body if_match customer_id 409
    failed :
        (t : Task) (x : Error)
        → get_task s task_id ≡ some t
        → t.customer_id ≡ customer_id
        → if_match ≡ some t.version
        → flush_task db (others s) t (move_task t body) ≡ err x
        → (x ≡ integrity_error) ⊎ (x ≡ dbapi_error)
        → Refused others s task_id body if_match customer_id 500

  load_task-err :
      (others : State → State) (s : State) (task_id customer_id : ℕ) (body : TaskScheduleUpdate)
      (if_match : Option ℕ) {x : Error}
      → load_task db s task_id customer_id ≡ err x
      → Refused others s task_id body if_match customer_id (status_code x)
  unfolding load_task status_code
  load_task-err others s task_id customer_id body if_match {x} h =
      elim (Option-cases (get_task s task_id)) [
        | inl gone ↦
            subst (λ y. Refused others s task_id body if_match customer_id (status_code y))
              (err-injective (rw (load_task, gone) at h)) (unknown gone)
        | inr (t, found) ↦ elim (Bool-cases (t.customer_id == customer_id)) [
          | inl own ↦ absurd (ok≢err (rw (load_task, found, own) at h))
          | inr other ↦
              subst (λ y. Refused others s task_id body if_match customer_id (status_code y))
                (err-injective (rw (load_task, found, other) at h))
                (foreign t found
                  (λ e. true≢false (sym ((==_iff t.customer_id customer_id).1 e) ∙ other)))
        ]
      ]
    where
      ok≢err : {t : Task} → ok t ≡ err x → ⊥
      ok≢err e = cc

  require_match-err :
      (others : State → State) (s : State) (task_id customer_id : ℕ) (body : TaskScheduleUpdate)
      (if_match : Option ℕ) (t : Task) {x : Error}
      → get_task s task_id ≡ some t
      → t.customer_id ≡ customer_id
      → require_match t.version if_match ≡ err x
      → Refused others s task_id body if_match customer_id (status_code x)
  unfolding require_match status_code
  require_match-err others s task_id customer_id body none t {x} found own h =
      subst (λ y. Refused others s task_id body none customer_id (status_code y)) (err-injective h)
        (unmatched t found own refl)
  require_match-err others s task_id customer_id body (some v) t {x} found own h =
      elim (Bool-cases (t.version == v)) [
        | inl same ↦ absurd (ok≢err (rw (require_match, same) at h))
        | inr other ↦
            subst (λ y. Refused others s task_id body (some v) customer_id (status_code y))
              (err-injective (rw (require_match, other) at h))
              (mismatched t v found own refl
                (λ e. true≢false (sym ((==_iff t.version v).1 e) ∙ other)))
      ]
    where
      ok≢err : {u : Unit {0}} → ok u ≡ err x → ⊥
      ok≢err e = cc

  flush_task-err :
      (others : State → State) (s : State) (task_id customer_id : ℕ) (body : TaskScheduleUpdate)
      (if_match : Option ℕ) (t : Task) {x : Error}
      → get_task s task_id ≡ some t
      → t.customer_id ≡ customer_id
      → if_match ≡ some t.version
      → flush_task db (others s) t (move_task t body) ≡ err x
      → Refused others s task_id body if_match customer_id (status_code x)
  unfolding status_code
  flush_task-err others s task_id customer_id body if_match t {x} found own matches raised =
      let flushes = λ (y : Error). flush_task db (others s) t (move_task t body) ≡ err y in
      elim (flush_task-fails db (others s) t (move_task t body) raised) [
        | inl stale ↦
            subst (λ y. Refused others s task_id body if_match customer_id (status_code y))
              (sym stale) (overtaken t found own matches (subst flushes stale raised))
        | inr (inl broken) ↦
            subst (λ y. Refused others s task_id body if_match customer_id (status_code y))
              (sym broken)
              (failed t integrity_error found own matches (subst flushes broken raised) (inl refl))
        | inr (inr down) ↦
            subst (λ y. Refused others s task_id body if_match customer_id (status_code y))
              (sym down)
              (failed t dbapi_error found own matches (subst flushes down raised) (inr refl))
      ]

  -- In the pipeline, a schedule move that fails is refused for one of these reasons, with the status
  -- that it asks for: 404 for a task that is not there or another customer's; of an own task, 428
  -- for a missing If-Match and 409 for an If-Match other than the version; with the right If-Match,
  -- 409 if the flush met StaleDataError, and 500 if it met any other error of the database.
  pub reschedule-Refused :
      (around : Surroundings State) (s : State) (m : ConnectionManager) (task_id : ℕ)
      (body : TaskScheduleUpdate) (if_match : Option ℕ) (customer_id : ℕ) (x : Error)
      → reschedule_task db order false around s m task_id body if_match customer_id ≡ err x
      → Refused around.others s task_id body if_match customer_id (status_code x)
  unfolding reschedule_task
  reschedule-Refused around s m task_id body if_match customer_id x h =
      elim (Outcome-cases (load_task db s task_id customer_id)) [
        | inr (y, missing) ↦
            load_task-err around.others s task_id customer_id body if_match
              (missing ∙ ap err (err-injective (rw (reschedule_task, missing) at h)))
        | inl (t, loaded) ↦
            let (found, own) = load_task-ok db s task_id customer_id loaded in
            elim (Outcome-cases (require_match t.version if_match)) [
              | inr (y, refused) ↦
                  require_match-err around.others s task_id customer_id body if_match t found own
                    (refused ∙ ap err (err-injective (rw (reschedule_task, loaded, refused) at h)))
              | inl (u, matches) ↦
                  elim (Outcome-cases (flush_task db (around.others s) t (move_task t body))) [
                    | inr (y, raised) ↦
                        flush_task-err around.others s task_id customer_id body if_match t found own
                          (require_match-ok t.version if_match matches)
                          (raised
                            ∙ ap err (
                                err-injective (rw (reschedule_task, loaded, matches, raised) at h)))
                    | inl ((written, moved), flushed) ↦
                        absurd (ok≢err (rw (reschedule_task, loaded, matches, flushed) at h))
                  ]
            ]
      ]
    where
      ok≢err : {r : Reply State TaskOut} → ok r ≡ err x → ⊥
      ok≢err e = cc
