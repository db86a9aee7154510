-- ===== src/Tests/Serving.antt =====
-- Whole requests (services/api/src/main.py) over the database in memory, and the theorems at them.
use workfront_system.Base.{
  none≢some, some-injective, ℕ, ◌≡◌, ◌≢◌, refl, sym, ap, ◌∙◌, arith, true, false, ◌==◌, ==_iff,
  Option, if◌then◌else◌, some, none, [], ◌∷◌, ok, err, integrity_error, http_exception, inl, inr,
  Bool-cases,
}
use workfront_system.Cascade.Types.{inserted, update}
use workfront_system.Store.Models.{Task}
use workfront_system.Store.Tables.{Tables}
use workfront_system.Store.Memory.{memory}
use workfront_system.Ws.Manager.{new_manager}
use workfront_system.Api.Service.{patch_schedule, remove_task, task_body, dispatch, serve}
use workfront_system.Api.Service.Hidden.{serve-hidden}
use workfront_system.Api.Service.Foreign.{IsOwnTree, serve-foreign}
use workfront_system.History.{none_yet}
use workfront_system.Store.Session.{async_session_scope}
use workfront_system.Tests.Requests
use workfront_system.Tests.Deliveries.{task, before}
use workfront_system.Tests.Requests.{around, body, reply}

-- Task 2 is below task 1, and task 3 is of customer 8.
abbrev shared : Tables
shared = record before {
  task_ids = 1 ∷ 2 ∷ 3 ∷ [];
  tasks =
      update (update before.tasks 2 (some (record (task 2 50 58 1) { parent_id = some 1 }))) 3
        (some (record (task 3 10 20 1) { customer_id = 8 }));
}

abbrev parent_of : Option Task → Option ℕ
parent_of none = none
parent_of (some t) = t.parent_id

abbrev customer_of : Option Task → ℕ
customer_of none = 0
customer_of (some t) = t.customer_id

parents : (a : ℕ) → parent_of (memory.get_task shared a) ≡ (if a == 2 then some 1 else none)
parents a = ground arith

shared-own : IsOwnTree (memory.get_task shared)
shared-own a p t u is up parent =
    let at = sym (parents a) ∙ ap parent_of is ∙ up in
    elim (Bool-cases (a == 2)) [
      | inl two ↦
          let below = ap customer_of (sym is ∙ ap (memory.get_task shared) ((==_iff a 2).0 two)) in
          let above =
            ap customer_of (ap (memory.get_task shared) (some-injective (rw two at at)) ∙ parent) in
          below ∙ above
      | inr other ↦ absurd (none≢some (rw other at at))
    ]

-- Customer 8 asks for task 1.
not_of_8 : (t : Task) → memory.get_task before 1 ≡ some t → t.customer_id ≢ 8
not_of_8 t e own = omega (arith, own, ap customer_of e)

serve-hidden_example :
    serve memory inserted true around before new_manager true none
      (λ s. s)
      (some 8)
      (patch_schedule 1 body none)
    ≡ record {
      state = before;
      manager = new_manager;
      events = [];
      response = err (http_exception 404);
    }
serve-hidden_example =
    serve-hidden memory inserted true around before new_manager 8 true none (λ s. s)
      (patch_schedule 1 body none) not_of_8

-- Customer 9 deletes task 1, with task 2 below it.
serve-foreign_example :
    memory.get_task
      (serve memory inserted false around shared new_manager true none
        (λ s. s)
        (some 9)
        (remove_task 1 (some 2))).state
      3
    ≡ some (record (task 3 10 20 1) { customer_id = 8 })
serve-foreign_example =
    serve-foreign memory inserted around shared new_manager 9 (λ b t e. none_yet) 3
      (record (task 3 10 20 1) { customer_id = 8 }) refl (λ e. omega (arith, e)) shared-own
      (λ e. omega (arith, e)) true none (λ s. s) (remove_task 1 (some 2)) refl

-- Where the response does not wait for the commit, the client is told of a move that is lost.
lost :
    let served =
      serve memory inserted false around before new_manager false
        (some integrity_error)
        (λ s. s)
        (some 9)
        (patch_schedule 1 body (some 2)) in
    (served.state ≡ before) × (served.response ≡ ok (task_body reply.body))
unfolding Requests.program serve async_session_scope dispatch
lost = (refl, refl)
