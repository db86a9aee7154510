-- ===== src/Worker/Consumer/Marks.antt =====
-- What one try of a message does to the dedup inbox (services/worker/src/consumer.py).
use Prim.Native.String.{String}
use workfront_system.Base.{
  ℕ, ◌≡◌, sym, ◌∙◌, subst, true, inl, inr, List, Option-cases, Outcome-cases, Error, ok, err,
}
use workfront_system.Cascade.Types.{SetOrder}
use workfront_system.Store.Models.{ChangePayload}
use workfront_system.Store.Database.{Database}
use workfront_system.Store.Session.{session_scope}
use workfront_system.Worker.Handler.{process_schedule_changed, worker_group}
use workfront_system.Worker.Handler.Once.{marked_after, process-cases}
use workfront_system.Worker.Handler.Writes.{write_changes-Wrote}
use workfront_system.Worker.Consumer.{Message, Around, parse, attempt}

module _ (db : Database) where
  open db use {State, get_processed}

  -- The marks of the dedup inbox are not taken back.
  abbrev pub Keeps : State → State → Type 0
  Keeps s s' = (g : String) (e : ℕ) → get_processed s g e ≡ true → get_processed s' g e ≡ true

  module _ (order : SetOrder) (others : State → State)
      (kept : (s : State) → Keeps s (others s)) where
    process-Keeps :
        (s : State) (new_id event_id task_id : ℕ) {s' : State} {changes : List ChangePayload}
        → process_schedule_changed db order s others new_id event_id task_id worker_group
          ≡ ok (s', changes)
        → Keeps s s'
    process-Keeps s new_id event_id task_id {s'} {changes} h g e old =
        elim (process-cases db order s others new_id event_id task_id worker_group h) [
          | inl (_, same, _) ↦ subst (λ x. get_processed x g e ≡ true) (sym same) (kept s g e old)
          | inr (inl (_, marks, _)) ↦ marks.kept g e (kept s g e old)
          | inr (inr (origin, ran)) ↦
              let w = write_changes-Wrote db order s (others s) origin ran.wrote in
              ran.emits.processed g e ∙ ran.marks.kept g e (w.same_processed g e ∙ kept s g e old)
        ]

  pub attempt-Keeps :
      (order : SetOrder) (s : State) (around : Around State) (msg : Message)
      → ((x : State) → Keeps x (around.others x))
      → Keeps s (attempt db order s around msg).0
  unfolding attempt session_scope
  attempt-Keeps order s around msg kept g e old = elim (Outcome-cases (parse msg)) [
    | inr (x, refused) ↦ rw (attempt, refused) old
    | inl ((event_id, task_id), read) ↦
        elim (Outcome-cases (
          process_schedule_changed db order s around.others around.new_id event_id task_id
            worker_group)) [
              | inr (x, raised) ↦ rw (attempt, read, session_scope, raised) (kept s g e old)
              | inl ((written, changes), returned) ↦ elim (Option-cases around.commit_raises) [
                | inr (x, fails) ↦
                    rw (attempt, read, session_scope, returned, fails) (kept s g e old)
                | inl commits ↦
                    rw (attempt, read, session_scope, returned, commits)
                      (process-Keeps order around.others kept s around.new_id event_id task_id
                        returned g e old)
              ]
            ]
  ]

  pub attempt-marks :
      (order : SetOrder) (s : State) (around : Around State) (msg : Message)
      {changes : List ChangePayload}
      → ((x : State) → Keeps x (around.others x))
      → (attempt db order s around msg).1 ≡ ok changes
      → (event_id : ℕ) × (task_id : ℕ) × (parse msg ≡ ok (event_id, task_id))
        × (get_processed (attempt db order s around msg).0 worker_group event_id ≡ true)
  unfolding attempt session_scope
  attempt-marks order s around msg {changes} kept h = elim (Outcome-cases (parse msg)) [
    | inr (x, refused) ↦ absurd (err≢ok x (rw (attempt, refused) at h))
    | inl ((event_id, task_id), read) ↦
        elim (Outcome-cases (
          process_schedule_changed db order s around.others around.new_id event_id task_id
            worker_group)) [
              | inr (x, raised) ↦ absurd (err≢ok x (rw (attempt, read, session_scope, raised) at h))
              | inl ((written, cs), returned) ↦ elim (Option-cases around.commit_raises) [
                | inr (x, fails) ↦
                    absurd (err≢ok x (rw (attempt, read, session_scope, returned, fails) at h))
                | inl commits ↦ (
                  event_id,
                  task_id,
                  read,
                  rw (attempt, read, session_scope, returned, commits)
                      (marked_after db order s around.others around.new_id event_id task_id
                        worker_group (kept s worker_group event_id) returned),
                )
              ]
            ]
  ]
    where
      err≢ok : (x : Error) → err x ≡ ok changes → ⊥
      err≢ok x e = cc
