-- ===== src/Pipeline/InStep.antt =====
-- The ripple of a move (services/worker/src/handler.py) keeps the clients in step with the database.
use Prim.Native.String.{String}
use workfront_system.Base.{
  ℕ, ◌≡◌, ◌≢◌, refl, sym, ap, ◌∙◌, subst, false, inl, inr, Option, some, List, [], ◌∷◌, foldl, Memᴰ,
  arith, Bool-cases, ◌==◌, ==_iff, true≢false, ok,
}
use mathlib.Core.List.Memᴰ
use workfront_system.Cascade.Types.{SetOrder}
use workfront_system.Store.Models.{Task, ChangePayload}
use workfront_system.Store.Database.{Database}
use workfront_system.Worker.Subgraph.Known.{by_id-id, by_id-mem}
use workfront_system.Worker.Handler.{process_schedule_changed}
use workfront_system.Worker.Handler.Once.{process-cases}
use workfront_system.Worker.Handler.Writes.{Wrote, write_changes-Wrote}
use workfront_system.Api.Schemas.{TaskOut, cascade_data}
use workfront_system.Api.Service.Client.{View, shown, set_dates, apply_change, follow}
use workfront_system.History.{History}
use workfront_system.History.Rows.{Later-same_version}
use workfront_system.History.Steps.{History-Later}

-- The changes one by one, at one task.
fold-follows :
    (changes : List ChangePayload) (v : View) (a : ℕ) (new : Option TaskOut)
    → ((c : ChangePayload)
        → Memᴰ c changes
        → c.task_id ≡ a
        → (set_dates c (v a) ≡ new) × (set_dates c new ≡ new))
    → (((c : ChangePayload) → Memᴰ c changes → c.task_id ≢ a) → v a ≡ new)
    → foldl apply_change v changes a ≡ new
fold-follows [] v a new told untold = untold (λ c m. absurd (Memᴰ.not-nil m))
fold-follows (c ∷ changes) v a new told untold = elim (Bool-cases (c.task_id == a)) [
  | inl own ↦
      let at = (==_iff c.task_id a).0 own in
      let now : apply_change v c a ≡ new =
        rw own (ap (λ b. set_dates c (v b)) at ∙ (told c (Memᴰ.head refl) at).0) in
      fold-follows changes (apply_change v c) a new
        (λ d m e. let (_, again) = told d (Memᴰ.tail m) e in (ap (set_dates d) now ∙ again, again))
        (λ apart. now)
  | inr other ↦
      let kept : apply_change v c a ≡ v a = rw other refl in
      fold-follows changes (apply_change v c) a new
        (λ d m e.
          let (first, again) = told d (Memᴰ.tail m) e in (ap (set_dates d) kept ∙ first, again))
        (λ apart.
          kept
          ∙ untold (λ d m e. elim (Memᴰ.cases_cons m) [
            | inl same ↦ ground (arith, other, ap (λ x. x.task_id) same, e)
            | inr later ↦ apart d later e
          ]))
]

module _ (db : Database) (order : SetOrder) where
  open db use {State, get_task, get_processed}

  Wrote-follows :
      (s before after : State) (project_id origin_task_id : ℕ) (changes : List ChangePayload)
      → ((b : ℕ) (t : Task) → get_task s b ≡ some t → History db order b s before)
      → Wrote db (db.tasks_of_project s project_id) before after changes
      → (a : ℕ)
      → shown (get_task after a)
        ≡ follow (λ b. shown (get_task before b)) (cascade_data origin_task_id changes) a
  Wrote-follows s before after project_id origin_task_id changes regular w a = sym (
      fold-follows changes (λ b. shown (get_task before b)) a (shown (get_task after a)) told
        (λ apart. ap shown (sym (w.others a apart))))
    where
      told :
          (c : ChangePayload)
          → Memᴰ c changes
          → c.task_id ≡ a
          → (set_dates c (shown (get_task before a)) ≡ shown (get_task after a))
            × (set_dates c (shown (get_task after a)) ≡ shown (get_task after a))
      told c m at =
          let (loaded, found, saved) = w.saved c m in
          let rows = db.tasks_of_project s project_id in
          let (read, _) = db.tasks_selected s project_id loaded (by_id-mem rows c.task_id found) in
          let there =
            subst (λ b. get_task s b ≡ some loaded) (by_id-id rows c.task_id found) read in
          let later = History-Later db order c.task_id (regular c.task_id loaded there) in
          let stood = Later-same_version later there saved.was saved.same_version ∙ there in
          let was = subst (λ b. get_task before b ≡ some loaded) at stood in
          let is = ap (get_task after) (sym at) ∙ saved.is in
          (
            ap (λ o. set_dates c (shown o)) was ∙ ap shown (sym is),
            ap (λ o. set_dates c (shown o)) is ∙ ap shown (sym is),
          )

  -- A client that has the tasks as they stand when a first delivery writes, and does what an event
  -- with the changes of the delivery tells it, has the tasks as they stand afterwards. The others'
  -- commits before the delivery writes are those of the services and create no task under an id that
  -- is taken.
  pub deliver-follows :
      (s : State) (others : State → State) (new_id event_id task_id : ℕ) (group : String)
      {s' : State} {changes : List ChangePayload}
      → ((b : ℕ) (t : Task) → get_task s b ≡ some t → History db order b s (others s))
      → get_processed s group event_id ≡ false
      → process_schedule_changed db order s others new_id event_id task_id group ≡ ok (s', changes)
      → (a : ℕ)
      → shown (get_task s' a)
        ≡ follow (λ b. shown (get_task (others s) b)) (cascade_data task_id changes) a
  deliver-follows s others new_id event_id task_id group {s'} {changes} regular new h a =
      elim (process-cases db order s others new_id event_id task_id group h) [
        | inl (seen, _, _) ↦ absurd (true≢false (sym seen ∙ new))
        | inr (inl (absent, marks, none_changed)) ↦
            ap shown (marks.same_tasks a)
            ∙ ap (λ cs. follow (λ b. shown (get_task (others s) b)) (cascade_data task_id cs) a)
                (sym none_changed)
        | inr (inr (origin, ran)) ↦
            ap shown (ran.emits.tasks a ∙ ran.marks.same_tasks a)
            ∙ Wrote-follows s (others s) ran.written origin.project_id task_id changes regular
                (write_changes-Wrote db order s (others s) origin ran.wrote) a
      ]
