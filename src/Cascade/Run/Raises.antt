-- ===== src/Cascade/Run/Raises.antt =====
-- Which exceptions `cascade` (services/worker/src/cascade.py) raises, and when.
use workfront_system.Base.{
  ℕ, ◌≡◌, ◌≢◌, ap, ◌∙◌, subst, ◌⊎◌, inl, inr, List, Memᴰ, none, ok, err, dependency_cycle,
  overflow_error, Outcome-cases,
}
use workfront_system.Cascade.Types.{
  DepEdge, ScheduleChange, Nodes, SetOrder, index_edges, Memᴰ-index_edges,
}
use workfront_system.Cascade.Recompute.{recompute}
use workfront_system.Cascade.Recompute.Raises.{Returns, recompute-Returns}
use workfront_system.Cascade.Run.{cascade}
use workfront_system.Cascade.Run.Plan.{IsAcyclic, plan_decides}
use workfront_system.Cascade.Run.Result.{incoming}

-- Both ends of every edge have a node.
abbrev pub IsKnown : Nodes → List DepEdge → Type 0
IsKnown nodes edges =
    (e : DepEdge) → Memᴰ e edges → (nodes e.predecessor_id ≢ none) × (nodes e.successor_id ≢ none)

-- If both ends of every edge have a node, `cascade` returns or raises OverflowError where the graph
-- below the root has no cycle, and raises DependencyCycleError where it has one; it never raises
-- KeyError, and its loops end.
pub cascade_outcomes :
    (order : SetOrder) (root_id : ℕ) (nodes : Nodes) (edges : List DepEdge)
    → IsKnown nodes edges
    → (IsAcyclic edges root_id
        × (((r : Nodes × List ScheduleChange) × (cascade order root_id nodes edges ≡ ok r))
            ⊎ (cascade order root_id nodes edges ≡ err overflow_error)))
      ⊎ ((¬ IsAcyclic edges root_id) × (cascade order root_id nodes edges ≡ err dependency_cycle))
unfolding cascade
cascade_outcomes order root_id nodes edges known = elim (plan_decides order root_id edges) [
  | inr (raised, cyclic) ↦ inr (cyclic, rw raised)
  | inl (topo, made, p, acyclic) ↦
      let key = λ (x : DepEdge). x.successor_id in
      let preds = index_edges key edges in
      let ends = recompute-Returns preds topo nodes λ t c.
        let (e, m, to) = incoming edges root_id ((p.covers t).0 c) in
        (
          subst (λ a. nodes a ≢ none) to (known e m).1,
          λ x listed. (known x ((Memᴰ-index_edges key edges t x).0 listed).0).0,
        ) in
      inl (
        acyclic,
        elim (Outcome-cases (recompute preds topo nodes)) [
          | inl (r, e) ↦ inl (r, rw made e)
          | inr (x, e) ↦
              let over : x ≡ overflow_error = subst (Returns _) e ends in
              inr (rw made (e ∙ ap err over))
        ],
      )
]
