-- ===== src/History/Accepted.antt =====
-- Optimistic locking over time: a client reads a task, others commit, and the client sends its move
-- with If-Match (services/api/src/main.py).
use workfront_system.Base.{some-injective, ℕ, suc, ◌≡◌, refl, sym, ap, ◌∙◌, subst, false, some, ok}
use workfront_system.Cascade.Types.{SetOrder}
use workfront_system.Store.Models.{Task}
use workfront_system.Store.Database.{Database}
use workfront_system.Ws.Manager.{ConnectionManager}
use workfront_system.Api.Schemas.{TaskScheduleUpdate, TaskOut}
use workfront_system.Api.Guards.{Surroundings, Reply, is_same, flush_task}
use workfront_system.Api.Guards.Cases.{require_match-ok, load_task-ok, flush_task-Flushed}
use workfront_system.Api.Schedule.{move_task, schedule_event, reschedule_task}
use workfront_system.Pipeline.Agreement.{reschedule-Steps}
use workfront_system.History.{History, followed_by}
use workfront_system.History.Rows.{Later-same_version}
use workfront_system.History.Steps.{History-Later}

module _ (db : Database) (order : SetOrder) where
  open db use {State, get_task}

  versions : {v w : ℕ} → some v ≡ some w → v ≡ w
  versions e = cc

  loads-seen :
      {a : ℕ} {s s' : State} {t t' : Task}
      → History db order a s s'
      → get_task s a ≡ some t
      → get_task s' a ≡ some t'
      → t'.version ≡ t.version
      → t' ≡ t
  loads-seen {a} run seen loaded version =
      some-injective
        (sym loaded ∙ Later-same_version (History-Later db order a run) seen loaded version ∙ seen)

  -- What a move writes, once it is known which task it has loaded.
  writes-seen :
      {a : ℕ} {s₀ s s' : State} {t seen written : Task} (body : TaskScheduleUpdate)
      → History db order a s₀ s
      → get_task s₀ a ≡ some seen
      → t ≡ seen
      → seen.id ≡ a
      → is_same seen (move_task seen body) ≡ false
      → flush_task db s t (move_task t body) ≡ ok (s', written)
      → (get_task s a ≡ some seen)
        × (get_task s' a ≡ some (record (move_task seen body) { version = suc seen.version }))
  writes-seen {a} {s₀} {s} {s'} {t} {seen} {written} body run read same at changed h =
      let flushes = subst (λ x. flush_task db s x (move_task x body) ≡ ok (s', written)) same h in
      let (f, _) = flush_task-Flushed db s seen (move_task seen body) changed flushes in
      let (row, was, version) = f.current in
      let here : get_task s a ≡ some row = subst (λ b. get_task s b ≡ some row) at was in
      (
        here ∙ ap some (loads-seen run read here version),
        subst (λ b. get_task s' b ≡ some written) at f.saved ∙ ap some f.next,
      )

  -- Take a client that has read a task, any number of commits of others (moves with and without the
  -- inline cascade, updates, deletions, new tasks, links, projects and customers, and deliveries to
  -- the worker) before its move is handled, and any number before it is written, none of which
  -- creates a task under the same id. If the move, with the version that was read as its If-Match,
  -- succeeds in the pipeline and changes the dates, then the task stands as the client has read it
  -- when it is written, and stands as read but with the new dates and the next version afterwards.
  pub accepted_move :
      (around : Surroundings State) (s₀ s : State) (m : ConnectionManager)
      (body : TaskScheduleUpdate) (customer_id : ℕ) (seen : Task) {r : Reply State TaskOut}
      → get_task s₀ seen.id ≡ some seen
      → History db order seen.id s₀ s
      → History db order seen.id s (around.others s)
      → is_same seen (move_task seen body) ≡ false
      → reschedule_task db order false around s m seen.id body (some seen.version) customer_id
        ≡ ok r
      → (get_task (around.others s) seen.id ≡ some seen)
        × (get_task r.state seen.id
            ≡ some (record (move_task seen body) { version = suc seen.version }))
  accepted_move around s₀ s m body customer_id seen {r} read run run' changed h =
      let (moved, steps, _) =
        reschedule-Steps db order around s m seen.id body (some seen.version) customer_id h in
      let (loaded, _) = load_task-ok db s seen.id customer_id steps.loads in
      let version = versions (require_match-ok steps.t.version (some seen.version) steps.matches) in
      let (was, is) =
        writes-seen body (followed_by run run') read (loads-seen run read loaded (sym version)) refl
          changed steps.flushes in
      let event = schedule_event around.new_id customer_id around.trace moved body in
      let queued =
        sym (ap (λ x. get_task x seen.id) steps.queues)
        ∙ (db.outbox_added steps.written event).1 seen.id in
      (was, queued ∙ is)
