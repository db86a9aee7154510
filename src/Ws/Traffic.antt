-- ===== src/Ws/Traffic.antt =====
-- Any interleaving of the steps of `ConnectionManager` (services/api/src/ws.py): the numbers that
-- the broadcasts to one project carry.
use workfront_system.Base.{
  ℕ, suc, ◌+◌, ◌≡◌, refl, ap, ◌∙◌, inl, inr, List, [], ◌∷◌, ◌++◌, arith, ◌==◌, ==_iff, Bool-cases,
  filter, map, length, length-append, sym,
}
use workfront_system.Ws.Manager.{
  ConnectionManager, EventType, WsEvent, subscribe, unsubscribe, disconnect, drop_dead, make_event,
  next_seq,
}
use workfront_system.Ws.Manager.Rooms.{drop_dead-seq}

-- One uninterrupted step. `clean_up` is the end of a broadcast or a push, with its dead sockets.
pub data Step (D : Type 0) : Type 0 where
  subscribes unsubscribes : (project_id ws : ℕ) → Step D
  disconnects : (ws : ℕ) → Step D
  starts_broadcast : (project_id : ℕ) (type : EventType) (ts : ℕ) (payload : D) → Step D
  clean_up : (sockets : List ℕ) → Step D

unfoldable pub step :
    {D : Type 0} → ConnectionManager → Step D → ConnectionManager × List (WsEvent D)
step m (subscribes p ws) = (subscribe m p ws, [])
step m (unsubscribes p ws) = (unsubscribe m p ws, [])
step m (disconnects ws) = (disconnect m ws, [])
step m (starts_broadcast p type ts payload) =
    let (after, event) = make_event m p type ts payload in (after, event ∷ [])
step m (clean_up sockets) = (drop_dead m sockets, [])

-- The events that a run of steps sends out, in the order in which they were numbered.
unfoldable pub run :
    {D : Type 0} → ConnectionManager → List (Step D) → ConnectionManager × List (WsEvent D)
run m [] = (m, [])
run m (x ∷ steps) =
    let (after, events) = step m x in
    let (final, later) = run after steps in (final, events ++ later)

-- The numbers on the broadcasts to a project.
abbrev pub seqs : {D : Type 0} → ℕ → List (WsEvent D) → List ℕ
seqs p events = map (λ e. e.seq) (filter (λ e. e.project_id == p) events)

-- n + 1, n + 2, … , as many as there are elements
abbrev pub counting : ℕ → List ℕ → List ℕ
counting n [] = []
counting n (_ ∷ xs) = suc n ∷ counting (suc n) xs

step-seq :
    {D : Type 0} (m : ConnectionManager) (x : Step D) (p : ℕ)
    → (seqs p (step m x).1 ≡ counting (m.seq p) (seqs p (step m x).1))
      × ((step m x).0.seq p ≡ m.seq p + length (seqs p (step m x).1))
unfolding step subscribe unsubscribe disconnect make_event next_seq
step-seq m (subscribes q ws) p = (refl, omega arith)
step-seq m (unsubscribes q ws) p = (refl, omega arith)
step-seq m (disconnects ws) p = (refl, omega arith)
step-seq m (starts_broadcast q type ts payload) p = elim (Bool-cases (q == p)) [
  | inl same ↦ let at = ap m.seq ((==_iff q p).0 same) in (ground (arith, at), ground (arith, at))
  | inr other ↦ (ground arith, ground arith)
]
step-seq m (clean_up sockets) p = (refl, ap (λ f. f p) (drop_dead-seq sockets m) ∙ omega arith)

counting-append :
    (n : ℕ) (xs ys : List ℕ) → counting n (xs ++ ys) ≡ counting n xs ++ counting (n + length xs) ys
counting-append n [] ys = ap (λ k. counting k ys) (omega arith)
counting-append n (x ∷ xs) ys =
    ap (◌∷◌ (suc n))
      (counting-append (suc n) xs ys ∙ ap (λ k. counting (suc n) xs ++ counting k ys) (omega arith))

seqs-append :
    {D : Type 0} (p : ℕ) (xs ys : List (WsEvent D)) → seqs p (xs ++ ys) ≡ seqs p xs ++ seqs p ys
seqs-append p [] ys = refl
seqs-append p (x ∷ xs) ys = elim (Bool-cases (x.project_id == p)) [
  | inl same ↦ rw (same, seqs-append p xs ys)
  | inr other ↦ rw (other, seqs-append p xs ys)
]

-- However the coroutines of one api process interleave, the broadcasts to one project, in the order
-- in which they are numbered, carry consecutive numbers from the one after the project's number at the
-- start, and its number at the end is that of its last broadcast.
pub run-seq :
    {D : Type 0} (m : ConnectionManager) (steps : List (Step D)) (p : ℕ)
    → (seqs p (run m steps).1 ≡ counting (m.seq p) (seqs p (run m steps).1))
      × ((run m steps).0.seq p ≡ m.seq p + length (seqs p (run m steps).1))
unfolding run
run-seq m [] p = (refl, omega arith)
run-seq m (x ∷ steps) p =
    let now = (step m x).1 in
    let later = (run (step m x).0 steps).1 in
    let (here, at) = step-seq m x p in
    let (rest, end) = run-seq (step m x).0 steps p in
    let both = seqs-append p now later in
    let split = counting-append (m.seq p) (seqs p now) (seqs p later) in
    (
      both
          ∙ ap (λ l. l ++ seqs p later) here
          ∙ ap (λ l. counting (m.seq p) (seqs p now) ++ l)
              (rest ∙ ap (λ k. counting k (seqs p later)) at)
          ∙ sym split
          ∙ ap (counting (m.seq p)) (sym both),
      omega (arith, end, at, ap length both, length-append (seqs p now) (seqs p later)),
    )
