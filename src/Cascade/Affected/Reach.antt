-- ===== src/Cascade/Affected/Reach.antt =====
-- The walk of `cascade`, step 1, collects exactly the transitive successors of the root, each once.
use workfront_system.Base.{
  ℕ, zero, suc, ◌≡◌, refl, ◌∙◌, ap, subst, true, ◌⊎◌, inl, inr, ⊎_elim, ◌↔◌, List, [], ◌∷◌, ◌||◌,
  ◌&&◌, not, foldl, Memᴰ, arith, ◌==◌, ==_iff, contains, contains-count, IsUnique, List-cases,
  Bool-cases, ok,
}
use workfront_system.Cascade.Types.{
  DepEdge, index_edges, Memᴰ-index_edges, targets, contains-targets, contains-targets_of_mem,
  Downstream, direct, further,
}
use workfront_system.Cascade.Affected.{Walk, offer, expand, walk, start_walk}

affected-offers :
    (w : Walk) (es : List DepEdge) (v : ℕ)
    → contains (foldl offer w es).affected v ≡ (contains w.affected v || contains (targets es) v)
unfolding offer
affected-offers w [] v = ground arith
affected-offers w (e ∷ es) v = ground (arith, affected-offers (offer w e) es v)

stack-offers :
    (w : Walk) (es : List DepEdge) (v : ℕ)
    → contains (foldl offer w es).stack v
      ≡ (contains w.stack v || (contains (targets es) v && not (contains w.affected v)))
unfolding offer
stack-offers w [] v = ground arith
stack-offers w (e ∷ es) v = ground (arith, stack-offers (offer w e) es v)

offers-IsUnique :
    (w : Walk) (es : List DepEdge) → IsUnique w.affected → IsUnique (foldl offer w es).affected
unfolding offer
offers-IsUnique w [] h = h
offers-IsUnique w (e ∷ es) h =
    offers-IsUnique (offer w e) es
      λ a. ground (arith, h a, contains-count w.affected e.successor_id)

module _ (edges : List DepEdge) (root_id : ℕ) where
  abbrev successors : ℕ → List DepEdge
  successors = index_edges (λ e. e.predecessor_id) edges

  -- `u` is the root or was collected.
  abbrev IsSeen : Walk → ℕ → Type 0
  IsSeen w u = (u ≡ root_id) ⊎ (contains w.affected u ≡ true)

  record Inv (w : Walk) : Type 0 where
    sound : (v : ℕ) → contains w.affected v ≡ true → Downstream edges root_id v
    stacked : (v : ℕ) → contains w.stack v ≡ true → IsSeen w v
    closed :
        (e : DepEdge)
        → Memᴰ e edges
        → IsSeen w e.predecessor_id
        → (contains w.stack e.predecessor_id ≡ true) ⊎ (contains w.affected e.successor_id ≡ true)
    unique : IsUnique w.affected

  Inv-start : Inv (start_walk root_id)
  Inv-start = record {
    sound = λ v h. cc;
    stacked = λ v h. ground arith;
    closed = λ e m s. ground arith;
    unique = λ a. omega arith;
  }

  extend :
      {u : ℕ} (e : DepEdge)
      → (u ≡ root_id) ⊎ Downstream edges root_id u
      → Memᴰ e edges
      → e.predecessor_id ≡ u
      → Downstream edges root_id e.successor_id
  extend e (inl r) m p = direct e m (p ∙ r) refl
  extend e (inr d) m p = further d e m p refl

  Inv-expand :
      (w : Walk) (cur : ℕ) (rest : List ℕ)
      → w.stack ≡ cur ∷ rest
      → Inv w
      → Inv (expand successors w cur rest)
  unfolding expand
  Inv-expand w cur rest e inv =
      let w' = record w { stack = rest } in
      let es = successors cur in
      let flags = λ (v : ℕ). affected-offers w' es v in
      let stacks = λ (v : ℕ). stack-offers w' es v in
      let member = λ (x : DepEdge). Memᴰ-index_edges (λ y. y.predecessor_id) edges cur x in
      let on_top : contains w.stack cur ≡ true = rw e (ground arith) in
      let from_cur : (cur ≡ root_id) ⊎ Downstream edges root_id cur =
        ⊎_elim inl (λ c. inr (sound cur c)) (stacked cur on_top) in
      record {
        sound = λ v h. elim (Bool-cases (contains w.affected v)) [
          | inl old ↦ sound v old
          | inr new ↦
              let (x, m, p) = contains-targets es v (ground (arith, flags v)) in
              let (listed, from) = (member x).0 m in
              subst (Downstream edges root_id) p (extend x from_cur listed from)
        ];
        stacked = λ v h. ground (arith, flags v, stacks v, stacked v, ap (λ s. contains s v) e);
        closed = λ x m s.
            let kept = closed x m in
            elim (Bool-cases (x.predecessor_id == cur)) [
              | inl same ↦
                  let out =
                    contains-targets_of_mem es x
                      ((member x).1 (m, (==_iff x.predecessor_id cur).0 same)) in
                  inr (ground (arith, flags x.successor_id, out))
              | inr other ↦ ground (
                arith,
                flags x.successor_id,
                flags x.predecessor_id,
                stacks x.predecessor_id,
                kept,
                ap (λ s. contains s x.predecessor_id) e,
              )
            ];
        unique = offers-IsUnique w' es unique;
      }
    where
      open inv use {sound, stacked, closed, unique}

  walk-Inv :
      (fuel : ℕ) (w : Walk) {affected : List ℕ}
      → Inv w
      → walk successors fuel w ≡ ok affected
      → (t : Walk) × Inv t × (t.stack ≡ []) × (t.affected ≡ affected)
  unfolding walk
  walk-Inv zero w inv h = elim (List-cases w.stack) [
    | inl empty ↦ (w, inv, empty, ground arith)
    | inr (cur, rest, e) ↦ absurd (ground arith)
  ]
  walk-Inv (suc fuel) w inv h = elim (List-cases w.stack) [
    | inl empty ↦ (w, inv, empty, ground arith)
    | inr (cur, rest, e) ↦
        walk-Inv fuel (expand successors w cur rest) (Inv-expand w cur rest e inv)
          (rw (e, walk) at h)
  ]

  complete :
      (t : Walk)
      → Inv t
      → t.stack ≡ []
      → {v : ℕ} → Downstream edges root_id v
      → contains t.affected v ≡ true
  complete t inv empty (direct e m from to) =
      ground (arith, inv.closed e m (inl from), ap (λ s. contains s e.predecessor_id) empty)
  complete t inv empty (further d e m from to) =
      let before = complete t inv empty d in
      ground
        (arith, inv.closed e m (inr (rw from before)), ap (λ s. contains s e.predecessor_id) empty)

  pub walk-Downstream :
      (fuel : ℕ) (affected : List ℕ)
      → walk successors fuel (start_walk root_id) ≡ ok affected
      → IsUnique affected × ((v : ℕ) → (contains affected v ≡ true) ↔ Downstream edges root_id v)
  walk-Downstream fuel affected h =
      let (t, inv, empty, same) = walk-Inv fuel (start_walk root_id) Inv-start h in
      (
        subst IsUnique same inv.unique,
        λ v. (
          λ c. inv.sound v (rw same c),
          λ d. subst (λ xs. contains xs v ≡ true) same (complete t inv empty d),
        ),
      )
