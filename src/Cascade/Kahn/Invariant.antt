-- ===== src/Cascade/Kahn/Invariant.antt =====
-- The invariant of Kahn's loop (step 2 of `cascade`), that a round keeps it, and what it gives when
-- the queue is empty.
use workfront_system.Base.{
  ℕ, ◌+◌, ◌≡◌, ap, Bool, true, false, ◌&&◌, inl, inr, List, [], ◌∷◌, ◌++◌, Memᴰ, arith,
  if◌then◌else◌, ◌==◌, ==_iff, contains, contains-append, contains-count, count, count-append,
  IsUnique, filter, Bool-cases, pos, ◌∙◌,
}
use workfront_system.Cascade.Types.{DepEdge, targets, index_edges, SetOrder}
use workfront_system.Cascade.Kahn.{Kahn, is_zero, indegrees, start_kahn, emit}
use workfront_system.Cascade.Kahn.Relax.{
  waiting, waiting-zero, waiting-snoc, indegrees-waiting, is_zero-pos, pass-Passed,
}

-- No edge leads into a task of the list from that task or from one behind it.
abbrev pub IsOrdered : List DepEdge → List ℕ → Type 0
IsOrdered edges [] = Unit
IsOrdered edges (t ∷ ts) =
    ((e : DepEdge) → Memᴰ e edges → e.successor_id ≡ t → contains (t ∷ ts) e.predecessor_id ≡ false)
    × IsOrdered edges ts

IsOrdered-snoc :
    (edges : List DepEdge) (xs : List ℕ) (n : ℕ)
    → IsOrdered edges xs
    → ((e : DepEdge)
        → Memᴰ e edges
        → contains (xs ++ n ∷ []) e.successor_id ≡ true
        → (n == e.predecessor_id) ≡ false)
    → IsOrdered edges (xs ++ n ∷ [])
IsOrdered-snoc edges [] n h new = (λ e m to. ground (arith, new e m), tt)
IsOrdered-snoc edges (x ∷ xs) n h new = (
  λ e m to. ground (arith, new e m, h.0 e m to, contains-append xs (n ∷ []) e.predecessor_id),
  IsOrdered-snoc edges xs n h.1 (λ e m c. new e m (ground arith)),
)

count-filter :
    (p : ℕ → Bool) (xs : List ℕ) (a : ℕ) → count (filter p xs) a ≡ (if p a then count xs a else 0)
count-filter p [] a = ground arith
count-filter p (x ∷ xs) a = elim (Bool-cases (x == a)) [
  | inl e ↦ ground (arith, count-filter p xs a, ap p ((==_iff x a).0 e))
  | inr e ↦ ground (arith, count-filter p xs a)
]

module _ (affected : List ℕ) (edges : List DepEdge) where
  abbrev successors : ℕ → List DepEdge
  successors = index_edges (λ e. e.predecessor_id) edges

  -- The task is affected and no edge into it waits.
  abbrev pub is_free : List ℕ → ℕ → Bool
  is_free topo m = contains affected m && waiting affected topo edges m == 0

  pub record Inv (k : Kahn) : Type 0 where
    pub degree :
        (m : ℕ) → contains affected m ≡ true → k.indegree m ≡ pos (waiting affected k.topo edges m)
    pub placed : (m : ℕ) → count k.topo m + count k.queue m ≡ (if is_free k.topo m then 1 else 0)
    pub ordered : IsOrdered edges k.topo

  pub Inv-start : (order : SetOrder) → IsUnique affected → Inv (start_kahn order affected edges)
  unfolding start_kahn
  Inv-start order unique =
      let d = indegrees affected edges in
      let degree = indegrees-waiting affected edges in
      record {
        degree = degree;
        placed = λ m. elim (Bool-cases (contains affected m)) [
          | inl c ↦ ground (
            arith,
            count-filter (λ n. is_zero (d n)) (order.enumerate affected) m,
            order.same affected m,
            unique m,
            ap is_zero (degree m c),
            is_zero-pos (waiting affected [] edges m),
            contains-count affected m,
          )
          | inr c ↦ ground (
            arith,
            count-filter (λ n. is_zero (d n)) (order.enumerate affected) m,
            order.same affected m,
            contains-count affected m,
          )
        ];
        ordered = tt;
      }

  -- The head of the queue is an affected task with nothing waiting, and not yet in `topo`.
  head_free :
      (k : Kahn) (n : ℕ) (rest : List ℕ)
      → k.queue ≡ n ∷ rest
      → Inv k
      → (contains affected n ≡ true)
        × (waiting affected k.topo edges n ≡ 0)
        × (contains k.topo n ≡ false)
  head_free k n rest e inv =
      ground (arith, inv.placed n, ap (λ q. count q n) e, contains-count k.topo n)

  -- Nothing waits for a task that is in `topo` or about to be.
  settled :
      (k : Kahn) (n : ℕ) (rest : List ℕ)
      → k.queue ≡ n ∷ rest
      → Inv k
      → (s : ℕ) → contains (k.topo ++ n ∷ []) s ≡ true
      → waiting affected k.topo edges s ≡ 0
  settled k n rest q inv s c = elim (Bool-cases (n == s)) [
    | inl same ↦ rw (← (==_iff n s).0 same) (head_free k n rest q inv).1
    | inr other ↦
        ground (arith, inv.placed s, contains-count k.topo s, contains-append k.topo (n ∷ []) s)
  ]

  -- No edge leads from `n` back into `topo` or into `n`.
  no_way_back :
      (k : Kahn) (n : ℕ) (rest : List ℕ)
      → k.queue ≡ n ∷ rest
      → Inv k
      → (e : DepEdge) → Memᴰ e edges
      → contains (k.topo ++ n ∷ []) e.successor_id ≡ true
      → (n == e.predecessor_id) ≡ false
  no_way_back k n rest q inv e m c =
      let (inside, free, out) = head_free k n rest q inv in
      let s = e.successor_id in
      elim (Bool-cases (n == e.predecessor_id)) [
        | inr other ↦ other
        | inl same ↦
            let p = (==_iff n e.predecessor_id).0 same in
            ground (
              arith,
              waiting-zero affected k.topo edges e m (settled k n rest q inv s c),
              ap (contains affected) p,
              ap (contains k.topo) p,
            )
      ]

  pub topo-emit :
      (k : Kahn) (n : ℕ) (rest : List ℕ)
      → k.queue ≡ n ∷ rest
      → Inv k
      → (emit affected successors k n rest).topo ≡ k.topo ++ n ∷ []
  unfolding emit
  topo-emit k n rest e inv =
      let (inside, free, out) = head_free k n rest e inv in
      let topo' = k.topo ++ n ∷ [] in
      (pass-Passed affected (waiting affected topo' edges) (successors n)
        (record k { queue = rest; topo = topo' })
        (λ m c. inv.degree m c ∙ ap pos (waiting-snoc affected k.topo n edges m inside out))).topo

  pub Inv-emit :
      (k : Kahn) (n : ℕ) (rest : List ℕ)
      → k.queue ≡ n ∷ rest
      → Inv k
      → Inv (emit affected successors k n rest)
  unfolding emit
  Inv-emit k n rest e inv =
      let (inside, free, out) = head_free k n rest e inv in
      let topo' = k.topo ++ n ∷ [] in
      let k' : Kahn = record k { queue = rest; topo = topo' } in
      let split = λ (m : ℕ). waiting-snoc affected k.topo n edges m inside out in
      let es = successors n in
      let passed =
        pass-Passed affected (waiting affected topo' edges) es k'
          (λ m c. inv.degree m c ∙ ap pos (split m)) in
      record {
        degree = λ m c. rw passed.topo (passed.degree m c);
        placed = λ m. rw passed.topo (
            ground (
              arith,
              passed.queued m,
              inv.placed m,
              split m,
              count-append k.topo (n ∷ []) m,
              ap (λ q. count q m) e,
              contains-count (targets es) m,
            ));
        ordered =
            rw passed.topo (IsOrdered-snoc edges k.topo n inv.ordered (no_way_back k n rest e inv));
      }
