-- ===== src/Cascade/Kahn/Ends.antt =====
-- Kahn's loop (step 2 of `cascade`) ends within one round for each affected task; the list that it
-- returns is ordered, and holds every task for which nothing waits.
use workfront_system.Base.{
  ℕ, zero, suc, ◌+◌, ◌≤◌, ◌≡◌, ap, inl, inr, List, [], ◌∷◌, ◌++◌, arith, contains-count,
  count-append, length, length-append, length-le_of_count, List-cases, ok, IsUnique,
}
use workfront_system.Cascade.Types.{DepEdge, index_edges, SetOrder}
use workfront_system.Cascade.Kahn.{Kahn, start_kahn, emit, sort}
use workfront_system.Cascade.Kahn.Invariant.{Inv, Inv-start, Inv-emit, topo-emit}

module _ (affected : List ℕ) (edges : List DepEdge) where
  abbrev successors : ℕ → List DepEdge
  successors = index_edges (λ e. e.predecessor_id) edges

  -- `topo` and the queue hold affected tasks, each once.
  fits : (k : Kahn) → Inv affected edges k → length k.topo + length k.queue ≤ length affected
  fits k inv = omega (
    arith,
    length-append k.topo k.queue,
    length-le_of_count (k.topo ++ k.queue) affected (λ a.
        ground (arith, inv.placed a, count-append k.topo k.queue a, contains-count affected a)),
  )

  sort_ends :
      (fuel : ℕ) (k : Kahn)
      → Inv affected edges k
      → length affected ≤ length k.topo + fuel
      → (t : Kahn) × Inv affected edges t
        × (t.queue ≡ [])
        × (sort affected successors fuel k ≡ ok t.topo)
  unfolding sort
  sort_ends zero k inv h = elim (List-cases k.queue) [
    | inl empty ↦ (k, inv, empty, rw (empty, sort))
    | inr (n, rest, e) ↦ absurd (omega (arith, fits k inv, ap length e))
  ]
  sort_ends (suc fuel) k inv h = elim (List-cases k.queue) [
    | inl empty ↦ (k, inv, empty, rw (empty, sort))
    | inr (n, rest, e) ↦
        let grown = topo-emit affected edges k n rest e inv in
        let (t, inv', empty, ends) =
          sort_ends fuel (emit affected successors k n rest)
            (Inv-emit affected edges k n rest e inv)
            (omega (arith, ap length grown, length-append k.topo (n ∷ []))) in
        (t, inv', empty, rw (e, sort) ends)
  ]

  pub sort_returns :
      (order : SetOrder)
      → IsUnique affected
      → (t : Kahn) × Inv affected edges t
        × (t.queue ≡ [])
        × (sort affected successors (length affected) (start_kahn order affected edges) ≡ ok t.topo)
  unfolding start_kahn
  sort_returns order unique =
      sort_ends (length affected) (start_kahn order affected edges)
        (Inv-start affected edges order unique) (omega arith)
