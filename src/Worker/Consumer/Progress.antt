-- ===== src/Worker/Consumer/Progress.antt =====
-- The offset moves on (services/worker/src/consumer.py): what holds a partition up.
use workfront_system.Base.{
  ℕ, zero, suc, ◌+◌, ◌≤◌, ◌≡◌, ◌≢◌, All, refl, Bool, false, ◌⊎◌, inl, inr, some, none, List, [],
  ◌∷◌, map, length, if◌then◌else◌, arith, Option-cases, Outcome-cases, Outcome, ok, err,
}
use workfront_system.Cascade.Types.{SetOrder}
use workfront_system.Store.Database.{Database}
use workfront_system.Worker.Consumer.{
  Message, Consumer, OffsetCommit, arrives, drops, raises, DeadLetter, delivered, undelivered,
  refused, Around, polls, fetch, commit_offset, dead_letter, attempt, handle, react, run,
}
use workfront_system.Worker.Consumer.Settling.{is_stale, settle-ok, settle-err}

abbrev is_conflict : {A : Type 0} → Outcome A → Bool
is_conflict (ok a) = false
is_conflict (err x) = is_stale x

fetch-none : (log : List Message) (i : ℕ) → fetch log i ≡ none → length log ≤ i
fetch-none [] i h = omega arith
fetch-none (msg ∷ log) zero h = ground arith
fetch-none (msg ∷ log) (suc i) h = omega (arith, fetch-none log i h)

module _ (db : Database) (order : SetOrder) (log : List Message) where
  open db use {State}

  -- Whether a poll now meets a conflict: it gets a message, and StaleDataError comes out.
  abbrev pub conflicts : Consumer State → Around State → ℕ
  conflicts c around = elim (fetch log c.position) [
    | none ↦ 0
    | some msg ↦
        if is_conflict (attempt db order (around.before c.database) around msg).1 then 1 else 0
  ]

  -- The conflicts that a run of polls meets.
  abbrev pub count_conflicts : Consumer State → List (Around State) → ℕ
  count_conflicts c [] = 0
  count_conflicts c (a ∷ arounds) =
      conflicts c a + count_conflicts (react db order log c (polls a)) arounds

  abbrev pub Stays : Around State → Type 0
  Stays around = (around.calls.letter ≢ refused) × (around.calls.last_commit ≢ raises)

  dead_letter-moves :
      (c : Consumer State) (offset : ℕ) (msg : Message) (letter : DeadLetter) (last : OffsetCommit)
      → letter ≢ refused
      → last ≢ raises
      → (dead_letter c offset msg letter last).position ≡ c.position
  dead_letter-moves c offset msg refused last sent stays = absurd (sent refl)
  dead_letter-moves c offset msg undelivered arrives sent stays = refl
  dead_letter-moves c offset msg undelivered drops sent stays = refl
  dead_letter-moves c offset msg undelivered raises sent stays = absurd (stays refl)
  dead_letter-moves c offset msg delivered arrives sent stays = refl
  dead_letter-moves c offset msg delivered drops sent stays = refl
  dead_letter-moves c offset msg delivered raises sent stays = absurd (stays refl)

  commit_offset-moves :
      (c raised : Consumer State) (offset : ℕ) (commit : OffsetCommit)
      → raised.position ≡ c.position
      → (commit_offset c offset commit raised).position ≡ c.position
  commit_offset-moves c raised offset arrives same = refl
  commit_offset-moves c raised offset drops same = refl
  commit_offset-moves c raised offset raises same = same

  handle-moves :
      (c : Consumer State) (around : Around State) (msg : Message)
      → Stays around
      → (handle db order c around c.position msg).position
          + (if is_conflict (attempt db order (around.before c.database) around msg).1
              then 1
              else 0)
        ≡ suc c.position
  unfolding handle
  handle-moves c around msg (sent, stays) =
      let now = around.before c.database in
      let tried : Consumer State = record c {
        database = (attempt db order now around msg).0;
        position = suc c.position;
      } in
      let moved =
        dead_letter-moves tried c.position msg around.calls.letter around.calls.last_commit sent
          stays in
      elim (Outcome-cases (attempt db order now around msg).1) [
        | inl (changes, returned) ↦
            let over =
              commit_offset-moves tried
                (dead_letter tried c.position msg around.calls.letter around.calls.last_commit)
                c.position around.calls.commit moved in
            rw (handle, returned, settle-ok tried c.position msg around.calls changes)
              (omega (arith, over))
        | inr (x, raised) ↦ elim (settle-err {State = State} x) [
          | inl (stale, settles) ↦
              rw (handle, raised, settles tried c.position msg around.calls)
                (rw stale (omega (arith)))
          | inr (other, settles) ↦
              rw (handle, raised, settles tried c.position msg around.calls)
                (rw other (omega (arith, moved)))
        ]
      ]

  run-idle :
      (c : Consumer State) (arounds : List (Around State))
      → fetch log c.position ≡ none
      → run db order log c (map polls arounds) ≡ c
  unfolding run react
  run-idle c [] h = refl
  run-idle c (a ∷ arounds) h = rw (run, react, h) (run-idle c arounds h)

  -- Each poll conflicts or moves the offset of the next poll on by one, as long as no call of Kafka's
  -- client ends the loop: where `dlq.produce` takes each dead letter and the commit after it does not
  -- raise, after any number of polls either the next poll is at the end of the partition or beyond,
  -- or its offset has moved on by the number of the polls less that of the conflicts.
  pub run-progress :
      (c : Consumer State) (arounds : List (Around State))
      → All Stays arounds
      → (length log ≤ (run db order log c (map polls arounds)).position)
        ⊎ ((run db order log c (map polls arounds)).position + count_conflicts c arounds
            ≡ c.position + length arounds)
  unfolding run react
  run-progress c [] stays = inr (omega arith)
  run-progress c (a ∷ arounds) (here, stays) = elim (Option-cases (fetch log c.position)) [
    | inl none_left ↦
        inl (rw (run-idle c (a ∷ arounds) none_left) (fetch-none log c.position none_left))
    | inr (msg, found) ↦
        let moved = handle-moves c a msg here in
        let met : conflicts c a
            ≡ (if is_conflict (attempt db order (a.before c.database) a msg).1 then 1 else 0) =
          rw (conflicts, found) in
        rw (run, react, found)
          (elim (run-progress (handle db order c a c.position msg) arounds stays) [
            | inl end ↦ inl end
            | inr rest ↦ inr (omega (arith, rest, moved, met))
          ])
  ]
