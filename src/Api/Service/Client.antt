-- ===== src/Api/Service/Client.antt =====
-- What a client does with the events that services/api/src/main.py broadcasts, as
-- docs/api-contract.md describes them. The client is not in the repository.
use workfront_system.Base.{
  ℕ, ◌≡◌, ◌≢◌, refl, sym, ap, ◌∙◌, inl, inr, Option, some, none, List, [], ◌∷◌, foldl, Bool-cases,
  ◌==◌, ==_iff, arith,
}
use workfront_system.Cascade.Types.{update}
use workfront_system.Store.Models.{Task, ChangePayload}
use workfront_system.Store.Database.{IsBelow, here, child}
use workfront_system.Ws.Manager.{WsEvent}
use workfront_system.Api.Schemas.{
  TaskUpdate, TaskOut, task_out, EventData, cascade_data, created_data, updated_data, deleted_data,
  dependency_data, no_data,
}
use workfront_system.Api.Tasks.{given}

-- The tasks that a client shows.
abbrev pub View : Type 0
View = ℕ → Option TaskOut

abbrev pub shown : Option Task → Option TaskOut
shown none = none
shown (some t) = some (task_out t)

abbrev pub edit : TaskUpdate → ℕ → Option TaskOut → Option TaskOut
edit fields version none = none
edit fields version (some out) = some (record out {
  name = given fields.name out.name;
  status = given fields.status out.status;
  version = version;
})

abbrev pub set_dates : ChangePayload → Option TaskOut → Option TaskOut
set_dates c none = none
set_dates c (some out) = some (record out {
  planned_start = some c.planned_start;
  planned_completion = some c.planned_completion;
  version = c.version;
})

abbrev pub apply_change : View → ChangePayload → View
apply_change v c = update v c.task_id (set_dates c (v c.task_id))

-- What the client does on an event.
abbrev pub follow : View → EventData → View
follow v (cascade_data origin_task_id changes) = foldl apply_change v changes
follow v (created_data out) = update v out.id (some out)
follow v (updated_data task_id fields version) = update v task_id (edit fields version (v task_id))
follow v (deleted_data task_id) = update v task_id none
follow v (dependency_data predecessor_id successor_id) = v
follow v no_data = v

abbrev pub follow_all : View → List (WsEvent EventData) → View
follow_all v [] = v
follow_all v (e ∷ events) = follow_all (follow v e.payload) events

-- A view that differs at one task.
pub updates :
    (old new : View) (k : ℕ) (out : Option TaskOut)
    → new k ≡ out
    → ((a : ℕ) → k ≢ a → new a ≡ old a)
    → (a : ℕ) → new a ≡ update old k out a
updates old new k out there others a = elim (Bool-cases (k == a)) [
  | inl own ↦ rw own (ap new (sym ((==_iff k a).0 own)) ∙ there)
  | inr other ↦ rw other (others a (λ at. absurd (ground (arith, other, at))))
]

-- A task that is nobody's parent is alone in its tree.
pub leaf-alone :
    (get_task : ℕ → Option Task) (root : ℕ)
    → ((a : ℕ) (t : Task) → get_task a ≡ some t → t.parent_id ≢ some root)
    → {a : ℕ} → IsBelow get_task root a
    → a ≡ root
leaf-alone get_task root leaf here = refl
leaf-alone get_task root leaf (child {a} {p} t is up below) =
    absurd (leaf a t is (up ∙ ap some (leaf-alone get_task root leaf below)))
