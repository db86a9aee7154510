-- ===== src/Worker/Handler/Writes.antt =====
-- What the transaction of services/worker/src/handler.py writes: each change under the version guard,
-- and one outbox row; and which exceptions it lets through.
use Prim.Native.String.{String}
use workfront_system.Base.{
  ℕ, suc, ◌≡◌, ◌≢◌, refl, sym, ap, ◌∙◌, subst, inl, inr, ⊎_elim, Option, some, List, [], ◌∷◌, map,
  Memᴰ, arith, is_some, Bool-cases, Option-cases, ok, >>=-eq-ok, ok-injective,
}
use mathlib.Core.List.Memᴰ
use workfront_system.Cascade.Types.{ScheduleChange, SetOrder}
use workfront_system.Store.Models.{Task, ChangePayload}
use workfront_system.Store.Database.{Database, Dirty, bumped}
use workfront_system.Worker.Subgraph.{by_id, nodes_of, assign, get_by_id, moved}
use workfront_system.Worker.Subgraph.Known.{by_id-id}
use workfront_system.Worker.Handler.{compute, flush_changes, write_changes, payloads}

-- A payload comes from a loaded task and the change that was assigned to it.
record Carried (tasks : ℕ → Option Task) (ds : List Dirty) (c : ChangePayload) : Type 0 where
  loaded : Task
  found : tasks c.task_id ≡ some loaded
  change : ScheduleChange
  written : Memᴰ (moved loaded change) ds
  carries : c ≡ record {
    task_id = c.task_id;
    planned_start = change.new_start;
    planned_completion = change.new_finish;
    version = suc loaded.version;
  }

get_by_id-eq-ok :
    (tasks : ℕ → Option Task) (a : ℕ) {t : Task} → get_by_id tasks a ≡ ok t → tasks a ≡ some t
get_by_id-eq-ok tasks a h = elim (Option-cases (tasks a)) [
  | inl absent ↦ ground arith
  | inr (m, e) ↦ ground arith
]

payloads-Carried :
    (tasks : ℕ → Option Task) (changes : List ScheduleChange) {ds : List Dirty}
    → assign tasks changes ≡ ok ds
    → (c : ChangePayload) → Memᴰ c (payloads changes (map bumped ds))
    → Carried tasks ds c
unfolding assign
payloads-Carried tasks [] h c m = absurd (Memᴰ.not-nil m)
payloads-Carried tasks (ch ∷ changes) h c m =
    let (t, got, h1) = >>=-eq-ok (get_by_id tasks ch.task_id) _ h in
    let (rest, assigned, done) = >>=-eq-ok (assign tasks changes) _ h1 in
    let same = ok-injective done in
    subst (λ ds. Carried tasks ds c) same
      (⊎_elim
        (λ here. record {
          loaded = t;
          found = rw here (get_by_id-eq-ok tasks ch.task_id got);
          change = ch;
          written = Memᴰ.head refl;
          carries = rw here;
        })
        (λ later.
          let k = payloads-Carried tasks changes assigned c later in
          record {
            loaded = k.loaded;
            found = k.found;
            change = k.change;
            written = Memᴰ.tail k.written;
            carries = k.carries;
          })
        (Memᴰ.cases_cons
          (subst (λ ds. Memᴰ c (payloads (ch ∷ changes) (map bumped ds))) (sym same) m)))

-- Each object that was flushed has its payload.
payloads-of_mem :
    (rows : List Task) (changes : List ScheduleChange) {ds : List Dirty}
    → assign (by_id rows) changes ≡ ok ds
    → (d : Dirty) → Memᴰ d ds
    → (c : ChangePayload) × Memᴰ c (payloads changes (map bumped ds)) × (d.loaded.id ≡ c.task_id)
unfolding assign
payloads-of_mem rows [] h d m = absurd (Memᴰ.not-nil (subst (Memᴰ d) (sym (ok-injective h)) m))
payloads-of_mem rows (ch ∷ changes) {ds} h d m =
    let (t, got, h1) = >>=-eq-ok (get_by_id (by_id rows) ch.task_id) _ h in
    let (rest, assigned, done) = >>=-eq-ok (assign (by_id rows) changes) _ h1 in
    let same = ok-injective done in
    let found = get_by_id-eq-ok (by_id rows) ch.task_id got in
    rw (← same) (
      ⊎_elim
        (λ here. (_, Memᴰ.head refl, ap (λ x. x.loaded.id) here ∙ by_id-id rows ch.task_id found))
        (λ later.
          let (c, listed, at) = payloads-of_mem rows changes assigned d later in
          (c, Memᴰ.tail listed, at))
        (Memᴰ.cases_cons (subst (Memᴰ d) (sym same) m)))

module _ (db : Database) where
  open db use {State, get_task, get_processed, outbox, flush, add_processed, tasks_of_project}

  -- The row of a change, before and after: it had the version that was loaded, and now has the new
  -- dates and the next version.
  pub record Saved (before after : State) (loaded : Task) (c : ChangePayload) : Type 0 where
    pub row : Task
    pub was : get_task before c.task_id ≡ some row
    pub same_version : row.version ≡ loaded.version
    pub next_version : c.version ≡ suc loaded.version
    pub is :
        get_task after c.task_id
        ≡ some (record loaded {
          planned_start = some c.planned_start;
          planned_completion = some c.planned_completion;
          version = c.version;
        })

  pub record Wrote (rows : List Task) (before after : State) (changes : List ChangePayload)
      : Type 0 where
    pub same_outbox : outbox after ≡ outbox before
    pub same_processed : (g : String) (e : ℕ) → get_processed after g e ≡ get_processed before g e
    pub saved :
        (c : ChangePayload)
        → Memᴰ c changes
        → (loaded : Task) × (by_id rows c.task_id ≡ some loaded) × Saved before after loaded c
    pub others :
        (a : ℕ)
        → ((c : ChangePayload) → Memᴰ c changes → c.task_id ≢ a)
        → get_task after a ≡ get_task before a

  flush_changes-Wrote :
      (order : SetOrder) (rows : List Task) (before : State) (result : List ScheduleChange)
      {after : State} {changes : List ChangePayload}
      → flush_changes db order before (by_id rows) result ≡ ok (after, changes)
      → Wrote rows before after changes
  unfolding flush_changes
  flush_changes-Wrote order rows before result h =
      let (ds, assigned, h1) = >>=-eq-ok (assign (by_id rows) result) _ h in
      let (r, flushed, done) = >>=-eq-ok (flush before ds) _ h1 in
      let same_rows = db.flush_rows before ds r flushed in
      subst (λ x. Wrote rows before x.0 x.1) (ok-injective done)
        (record {
          same_outbox = db.flush_outbox before ds r flushed;
          same_processed = db.flush_processed before ds r flushed;
          saved = λ c m.
              let k =
                payloads-Carried (by_id rows) result assigned c
                  (subst (λ l. Memᴰ c (payloads result l)) same_rows m) in
              let d = moved k.loaded k.change in
              let at : k.loaded.id ≡ c.task_id = by_id-id rows c.task_id k.found in
              let (row, was, same) = db.flush_guard before ds r flushed d k.written in
              (
                k.loaded,
                k.found,
                record {
                  row = row;
                  was = subst (λ a. get_task before a ≡ some row) at was;
                  same_version = same;
                  next_version = ap (λ x. x.version) k.carries;
                  is =
                      subst (λ a. get_task r.0 a ≡ some (bumped d)) at
                        (db.flush_writes before ds r flushed d k.written)
                      ∙ ap some (restored k.loaded k.change c k.carries);
                },
              );
          others = λ a apart. db.flush_others before ds r flushed a (λ d m at.
              let (c, listed, same) = payloads-of_mem rows result assigned d m in
              apart c (subst (λ l. Memᴰ c (payloads result l)) (sym same_rows) listed)
                (sym same ∙ at));
        })
    where
      restored :
          (t : Task) (ch : ScheduleChange) (c : ChangePayload)
          → c ≡ record {
            task_id = c.task_id;
            planned_start = ch.new_start;
            planned_completion = ch.new_finish;
            version = suc t.version;
          }
          → bumped (moved t ch) ≡ record t {
            planned_start = some c.planned_start;
            planned_completion = some c.planned_completion;
            version = c.version;
          }
      restored t ch c e =
          ap
            (λ x. record t {
              planned_start = some x.planned_start;
              planned_completion = some x.planned_completion;
              version = x.version;
            })
            (sym e)

  pub write_changes-Wrote :
      (order : SetOrder) (s before : State) (origin : Task) {after : State}
      {changes : List ChangePayload}
      → write_changes db order s before origin ≡ ok (after, changes)
      → Wrote (tasks_of_project s origin.project_id) before after changes
  unfolding write_changes
  write_changes-Wrote order s before origin h =
      let rows = tasks_of_project s origin.project_id in
      elim (Bool-cases (is_some (nodes_of (by_id rows) origin.id))) [
        | inl planned ↦
            let (result, computed, h1) =
              >>=-eq-ok (compute db order s origin (by_id rows)) _ (rw planned at h) in
            flush_changes-Wrote order rows before result h1
        | inr undated ↦
            subst (λ x. Wrote rows before x.0 x.1) (ok-injective (rw undated at h))
              (record {
                same_outbox = refl;
                same_processed = λ g e. refl;
                saved = λ c m. absurd (Memᴰ.not-nil m);
                others = λ a apart. refl;
              })
      ]
