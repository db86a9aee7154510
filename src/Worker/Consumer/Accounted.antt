-- ===== src/Worker/Consumer/Accounted.antt =====
-- No message is lost between the partition and the database (services/worker/src/consumer.py).
use workfront_system.Base.{
  some-injective, ℕ, suc, ◌<◌, ◌≤◌, ◌≢◌, ◌≡◌, refl, sym, ap, ◌∙◌, subst, true, inl, inr, some, List,
  [], ◌∷◌, All, Memᴰ, arith, ◌==◌, ==_iff, Bool-cases, Option-cases, Outcome-cases, ok,
}
use mathlib.Core.List.Memᴰ
use workfront_system.Cascade.Types.{SetOrder}
use workfront_system.Store.Database.{Database}
use workfront_system.Worker.Handler.{worker_group}
use workfront_system.Worker.Consumer.Settling.{settle-ok, settle-err}
use workfront_system.Worker.Consumer.Marks.{Keeps, attempt-Keeps, attempt-marks}
use workfront_system.Worker.Consumer.{
  Message, Consumer, OffsetCommit, arrives, drops, raises, DeadLetter, delivered, undelivered,
  refused, Around, Event, polls_nothing, polls, dies, parse, fetch, commit_offset, dead_letter,
  attempt, handle, crash, react, run,
}

module _ (db : Database) where
  open db use {State, get_processed}

  -- Others do not delete from the dedup inbox, and no dead letter gets lost.
  abbrev pub KeepsMarks : Event State → Type 0
  KeepsMarks polls_nothing = Unit
  KeepsMarks (polls around) =
      ((s : State) → Keeps db s (around.before s))
      × ((s : State) → Keeps db s (around.others s))
      × (around.calls.letter ≢ undelivered)
  KeepsMarks (dies around) =
      ((s : State) → Keeps db s (around.before s)) × ((s : State) → Keeps db s (around.others s))

  -- The message's event is in the dedup inbox, or the message is in the dead-letter topic.
  pub data Handled (c : Consumer State) (msg : Message) : Type 0 where
    processed :
        (event_id task_id : ℕ)
        → parse msg ≡ ok (event_id, task_id)
        → get_processed c.database worker_group event_id ≡ true
        → Handled c msg
    dead : Memᴰ msg c.dead_letters → Handled c msg

  pub record Accounted (log : List Message) (c : Consumer State) : Type 0 where
    pub behind : c.committed ≤ c.position
    pub handled : (i : ℕ) (msg : Message) → fetch log i ≡ some msg → i < c.position → Handled c msg

  Handled-mono :
      {c c' : Consumer State} {msg : Message}
      → Keeps db c.database c'.database
      → (Memᴰ msg c.dead_letters → Memᴰ msg c'.dead_letters)
      → Handled c msg
      → Handled c' msg
  Handled-mono keeps letters (processed e t p m) = processed e t p (keeps worker_group e m)
  Handled-mono keeps letters (dead m) = dead (letters m)

  -- The position has moved on over a message that is handled now.
  advance-Accounted :
      (log : List Message) (c c' : Consumer State) (msg : Message)
      → Accounted log c
      → fetch log c.position ≡ some msg
      → c'.position ≡ suc c.position
      → c'.committed ≤ suc c.position
      → Keeps db c.database c'.database
      → ((m : Message) → Memᴰ m c.dead_letters → Memᴰ m c'.dead_letters)
      → Handled c' msg
      → Accounted log c'
  advance-Accounted log c c' msg inv found position committed keeps letters done = record {
    behind = omega (arith, position, committed);
    handled = λ i m at below. elim (Bool-cases (i == c.position)) [
      | inl here ↦
          subst (Handled c')
            (some-injective (sym found ∙ ap (fetch log) (sym ((==_iff i c.position).0 here)) ∙ at))
            done
      | inr other ↦ Handled-mono keeps (letters m) (inv.handled i m at (ground (arith, position)))
    ];
  }

  -- The position is where it was, or further back.
  stay-Accounted :
      (log : List Message) (c c' : Consumer State)
      → Accounted log c
      → c'.position ≤ c.position
      → c'.committed ≤ c'.position
      → Keeps db c.database c'.database
      → ((m : Message) → Memᴰ m c.dead_letters → Memᴰ m c'.dead_letters)
      → Accounted log c'
  stay-Accounted log c c' inv position committed keeps letters = record {
    behind = committed;
    handled = λ i m at below.
        Handled-mono keeps (letters m) (inv.handled i m at (omega (arith, position)));
  }

  -- The rows that a try leaves, with the position past the message.
  abbrev tried : Consumer State → State → Consumer State
  tried c database = record c { database = database; position = suc c.position }

  module _ (log : List Message) (c : Consumer State) (database : State) (msg : Message)
      (inv : Accounted log c) (found : fetch log c.position ≡ some msg)
      (keeps : Keeps db c.database database) where
    dead_letter-Accounted :
        (letter : DeadLetter) (last : OffsetCommit)
        → letter ≢ undelivered
        → Accounted log (dead_letter (tried c database) c.position msg letter last)
    dead_letter-Accounted refused last sent =
        stay-Accounted log c _ inv inv.behind (omega arith) keeps (λ m old. old)
    dead_letter-Accounted undelivered last sent = absurd (sent refl)
    dead_letter-Accounted delivered arrives sent =
        advance-Accounted log c _ msg inv found refl (omega arith) keeps
          (λ m old. Memᴰ.append_left (msg ∷ []) old)
          (dead (Memᴰ.append_right c.dead_letters (Memᴰ.head refl)))
    dead_letter-Accounted delivered drops sent =
        advance-Accounted log c _ msg inv found refl (omega (arith, inv.behind)) keeps
          (λ m old. Memᴰ.append_left (msg ∷ []) old)
          (dead (Memᴰ.append_right c.dead_letters (Memᴰ.head refl)))
    dead_letter-Accounted delivered raises sent =
        stay-Accounted log c _ inv inv.behind (omega arith) keeps
          (λ m old. Memᴰ.append_left (msg ∷ []) old)

    commit_offset-Accounted :
        (commit last : OffsetCommit) (letter : DeadLetter)
        → letter ≢ undelivered
        → Handled (tried c database) msg
        → Accounted log (
            commit_offset
              (tried c database)
              c.position
              commit
              (dead_letter (tried c database) c.position msg letter last))
    commit_offset-Accounted arrives last letter sent done =
        advance-Accounted log c _ msg inv found refl (omega arith) keeps (λ m old. old)
          (Handled-mono (λ g e old. old) (λ old. old) done)
    commit_offset-Accounted drops last letter sent done =
        advance-Accounted log c _ msg inv found refl (omega (arith, inv.behind)) keeps
          (λ m old. old) done
    commit_offset-Accounted raises last letter sent done = dead_letter-Accounted letter last sent

  module _ (order : SetOrder) (log : List Message) where
    handle-Accounted :
        (c : Consumer State) (around : Around State) (msg : Message)
        → Accounted log c
        → fetch log c.position ≡ some msg
        → ((s : State) → Keeps db s (around.before s))
        → ((s : State) → Keeps db s (around.others s))
        → around.calls.letter ≢ undelivered
        → Accounted log (handle db order c around c.position msg)
    unfolding handle
    handle-Accounted c around msg inv found before kept sent =
        let now = around.before c.database in
        let database = (attempt db order now around msg).0 in
        let keeps : Keeps db c.database database =
          λ g e old. attempt-Keeps db order now around msg kept g e (before c.database g e old) in
        elim (Outcome-cases (attempt db order now around msg).1) [
          | inl (changes, returned) ↦
              let (event_id, task_id, read, mark) =
                attempt-marks db order now around msg kept returned in
              rw (handle, returned, settle-ok _ c.position msg around.calls changes)
                (commit_offset-Accounted log c database msg inv found keeps around.calls.commit
                  around.calls.last_commit around.calls.letter sent
                  (processed event_id task_id read mark))
          | inr (x, raised) ↦ elim (settle-err {State = State} x) [
            | inl (_, settles) ↦
                rw (handle, raised, settles _ c.position msg around.calls)
                  (stay-Accounted log c _ inv (omega arith) inv.behind keeps (λ m old. old))
            | inr (_, settles) ↦
                rw (handle, raised, settles _ c.position msg around.calls)
                  (dead_letter-Accounted log c database msg inv found keeps around.calls.letter
                    around.calls.last_commit sent)
          ]
        ]

    react-Accounted :
        (c : Consumer State) (e : Event State)
        → KeepsMarks e
        → Accounted log c
        → Accounted log (react db order log c e)
    unfolding react crash
    react-Accounted c polls_nothing kept inv = inv
    react-Accounted c (polls around) (before, kept, sent) inv =
        elim (Option-cases (fetch log c.position)) [
          | inl none_left ↦ rw (react, none_left) inv
          | inr (msg, found) ↦
              rw (react, found) (handle-Accounted c around msg inv found before kept sent)
        ]
    react-Accounted c (dies around) (before, kept) inv =
        let now = around.before c.database in
        elim (Option-cases (fetch log c.position)) [
          | inl none_left ↦
              rw (react, none_left)
                (stay-Accounted log c _ inv inv.behind (omega arith) (λ g e old. old)
                  (λ m old. old))
          | inr (msg, found) ↦
              rw (react, found)
                (stay-Accounted log c _ inv inv.behind (omega arith)
                  (λ g e old.
                    attempt-Keeps db order now around msg kept g e (before c.database g e old))
                  (λ m old. old))
        ]

-- However often the worker polls, conflicts and dies, whether the commits of its transactions and of
-- its offsets fail or not, and whatever others commit meanwhile: if the messages before the next poll
-- are accounted for at the start, they are at the end, provided that nobody deletes from the dedup
-- inbox, and that each dead letter that `produce` takes is delivered, which the worker does not check.
-- Each is in the dedup inbox or in the dead-letter topic, and the committed offset is not past the
-- next poll.
pub run-Accounted :
    (db : Database) (order : SetOrder) (log : List Message) (c : Consumer db.State)
    (events : List (Event db.State))
    → All (KeepsMarks db) events
    → Accounted db log c
    → Accounted db log (run db order log c events)
unfolding run
run-Accounted db order log c [] kept inv = inv
run-Accounted db order log c (e ∷ events) (here, kept) inv =
    run-Accounted db order log (react db order log c e) events kept
      (react-Accounted db order log c e here inv)
