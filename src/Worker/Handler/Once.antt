-- ===== src/Worker/Handler/Once.antt =====
-- Effectively-once processing by the dedup inbox (services/worker/src/handler.py): what a delivery
-- that succeeds leaves behind, and that a second one changes nothing.
use Prim.Native.String.{String}
use workfront_system.Base.{
  ℕ, ◌≡◌, refl, sym, ap, ◌∙◌, subst, true, false, ◌⊎◌, inl, inr, some, none, List, [], ◌∷◌, ◌++◌,
  Bool-cases, Option-cases, ok, err, >>=-eq-ok, ok-injective, Error, append-right-nil,
}
use workfront_system.Cascade.Types.{SetOrder}
use workfront_system.Store.Models.{Task, ChangePayload, OutboxEvent, ProcessedEvent}
use workfront_system.Store.Database.{Database}
use workfront_system.Worker.Handler.{
  process_schedule_changed, write_changes, changed_event, emit_changed,
}

module _ (db : Database) where
  open db use {State, get_task, get_processed, outbox, add_outbox, add_processed}

  pub record Marked (s : State) (p : ProcessedEvent) (s' : State) : Type 0 where
    pub fresh : get_processed s p.consumer_group p.event_id ≡ false
    pub found : get_processed s' p.consumer_group p.event_id ≡ true
    pub same_outbox : outbox s' ≡ outbox s
    pub same_tasks : (a : ℕ) → get_task s' a ≡ get_task s a
    pub kept : (g : String) (e : ℕ) → get_processed s g e ≡ true → get_processed s' g e ≡ true

  pub add_processed-Marked :
      (s : State) (p : ProcessedEvent) {s' : State} → add_processed s p ≡ ok s' → Marked s p s'
  add_processed-Marked s p {s'} h =
      elim (Bool-cases (get_processed s p.consumer_group p.event_id)) [
        | inl old ↦ absurd (ok≢err (sym h ∙ db.processed_unique s p old))
        | inr new ↦
            let (t, added, found, same_outbox, same_tasks) = db.processed_added s p new in
            subst (Marked s p) (ok-injective (sym added ∙ h)) (record {
              fresh = new;
              found = found;
              same_outbox = same_outbox;
              same_tasks = same_tasks;
              kept = db.processed_kept s p t added;
            })
      ]
    where
      ok≢err : {a : State} {x : Error} → ok a ≡ err x → ⊥
      ok≢err e = cc

  -- The rows that a delivery with these changes adds to the outbox.
  abbrev pub emitted : ℕ → Task → List ChangePayload → List OutboxEvent
  emitted new_id origin [] = []
  emitted new_id origin (c ∷ cs) = changed_event new_id origin (c ∷ cs) ∷ []

  pub record Emitted (s : State) (new_id : ℕ) (origin : Task) (changes : List ChangePayload)
      (s' : State) : Type 0 where
    pub rows : outbox s' ≡ outbox s ++ emitted new_id origin changes
    pub tasks : (a : ℕ) → get_task s' a ≡ get_task s a
    pub processed : (g : String) (e : ℕ) → get_processed s' g e ≡ get_processed s g e

  pub emit_changed-Emitted :
      (order : SetOrder) (s : State) (new_id : ℕ) (origin : Task) (changes : List ChangePayload)
      → Emitted s new_id origin changes (emit_changed db order s new_id origin changes)
  emit_changed-Emitted order s new_id origin [] = record {
    rows = append-right-nil (outbox s);
    tasks = λ a. refl;
    processed = λ g e. refl;
  }
  emit_changed-Emitted order s new_id origin (c ∷ cs) =
      let (rows, tasks, processed) = db.outbox_added s (changed_event new_id origin (c ∷ cs)) in
      record { rows = rows; tasks = tasks; processed = processed }

module _ (db : Database) (order : SetOrder) (s : db.State) (others : db.State → db.State)
    (new_id event_id task_id : ℕ) (group : String) where
  open db use {State, get_task, get_processed, outbox, add_outbox, add_processed}

  abbrev marker : ProcessedEvent
  marker = record { consumer_group = group; event_id = event_id }

  -- What happened in a delivery that succeeded and was not a repetition.
  pub record Ran (origin : Task) (s' : State) (changes : List ChangePayload) : Type 0 where
    pub task : get_task s task_id ≡ some origin
    pub written : State
    pub wrote : write_changes db order s (others s) origin ≡ ok (written, changes)
    pub marked : State
    pub marks : Marked db written marker marked
    pub emits : Emitted db marked new_id origin changes s'

  pub process-cases :
      {s' : State} {changes : List ChangePayload}
      → process_schedule_changed db order s others new_id event_id task_id group ≡ ok (s', changes)
      → ((get_processed s group event_id ≡ true) × (s' ≡ others s) × (changes ≡ []))
        ⊎ ((get_task s task_id ≡ none) × Marked db (others s) marker s' × (changes ≡ []))
        ⊎ ((origin : Task) × Ran origin s' changes)
  unfolding process_schedule_changed
  process-cases {s'} {changes} h = elim (Bool-cases (get_processed s group event_id)) [
    | inl seen ↦
        let same = ok-injective (rw seen at h) in
        inl (seen, sym (ap (λ r. r.0) same), sym (ap (λ r. r.1) same))
    | inr new ↦ elim (Option-cases (get_task s task_id)) [
      | inl gone ↦
          let (marked, added, done) =
            >>=-eq-ok (add_processed (others s) marker) _ (rw (new, gone) at h) in
          let same = ok-injective done in
          inr (
            inl (
              gone,
              subst (Marked db (others s) marker) (ap (λ r. r.0) same)
                  (add_processed-Marked db (others s) marker added),
              sym (ap (λ r. r.1) same),
            ))
      | inr (origin, found) ↦
          let ((written, cs), wrote, rest) =
            >>=-eq-ok (write_changes db order s (others s) origin) _ (rw (new, found) at h) in
          let (marked, added, done) = >>=-eq-ok (add_processed written marker) _ rest in
          inr (
            inr (
              origin,
              subst (λ r. Ran origin r.0 r.1) (ok-injective done)
                  (record {
                    task = found;
                    written = written;
                    wrote = wrote;
                    marked = marked;
                    marks = add_processed-Marked db written marker added;
                    emits = emit_changed-Emitted db order marked new_id origin cs;
                  }),
            ))
    ]
  ]

  pub marked_after :
      {s' : State} {changes : List ChangePayload}
      → (get_processed s group event_id ≡ true → get_processed (others s) group event_id ≡ true)
      → process_schedule_changed db order s others new_id event_id task_id group ≡ ok (s', changes)
      → get_processed s' group event_id ≡ true
  marked_after kept h = elim (process-cases h) [
    | inl (seen, same, _) ↦ rw same (kept seen)
    | inr (inl (_, marks, _)) ↦ marks.found
    | inr (inr (origin, ran)) ↦ ran.emits.processed group event_id ∙ ran.marks.found
  ]

-- After a delivery that succeeded, each further delivery of the event to the same group returns no
-- changes and leaves the database as the others left it, whatever its task: also when others commit
-- between the two deliveries and during each, provided that none of them takes the event's mark out
-- of the dedup inbox.
pub process-redelivery :
    (db : Database) (order order' : SetOrder) (s : db.State)
    (others between others' : db.State → db.State) (new_id new_id' event_id task_id task_id' : ℕ)
    (group : String) {s' : db.State} {changes : List ChangePayload}
    → (db.get_processed s group event_id ≡ true → db.get_processed (others s) group event_id ≡ true)
    → (db.get_processed s' group event_id ≡ true
        → db.get_processed (between s') group event_id ≡ true)
    → process_schedule_changed db order s others new_id event_id task_id group ≡ ok (s', changes)
    → process_schedule_changed db order' (between s') others' new_id' event_id task_id' group
      ≡ ok (others' (between s'), [])
unfolding process_schedule_changed
process-redelivery db order order' s others between others' new_id new_id' event_id task_id task_id'
      group kept after h =
    rw (after (marked_after db order s others new_id event_id task_id group kept h))
