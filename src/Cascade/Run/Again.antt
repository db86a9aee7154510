-- ===== src/Cascade/Run/Again.antt =====
-- A second run of `cascade` (services/worker/src/cascade.py) on the nodes that the first has left.
use workfront_system.Base.{
  ℕ, ◌≡◌, refl, true, inl, inr, List, [], ◌∷◌, arith, ==_iff, contains, Option, some, none, ok,
}
use workfront_system.Cascade.Types.{DepEdge, ScheduleChange, Nodes, SetOrder, index_edges, get_node}
use workfront_system.Cascade.Recompute.{place, visit, recompute}
use workfront_system.Cascade.Recompute.Step.{IsSettled, Agrees}
use workfront_system.Cascade.Run.{cascade}
use workfront_system.Cascade.Run.Plan.{plan_decides}
use workfront_system.Cascade.Run.Result.{planned}

place_settled :
    (nodes : Nodes) (tid : ℕ) {preds : List DepEdge} (s : IsSettled preds nodes tid)
    → place nodes tid s.node s.target ≡ ok (nodes, none)
unfolding place
place_settled nodes tid s = go s.target s.agrees
  where
    go :
        (target : Option ℕ)
        → Agrees target s.node.start
        → place nodes tid s.node target ≡ ok (nodes, none)
    go none h = refl
    go (some x) h = rw ((==_iff x s.node.start).1 h)

visit_settled :
    (predecessors : ℕ → List DepEdge) (nodes : Nodes) (tid : ℕ)
    → IsSettled (predecessors tid) nodes tid
    → visit predecessors nodes tid ≡ ok (nodes, none)
unfolding visit
visit_settled predecessors nodes tid s =
    let got : get_node nodes tid ≡ ok s.node = rw (get_node, s.found) in
    rw (got, s.computed, place_settled nodes tid s)

-- Where every task is settled already, nothing changes.
recompute_settled :
    (predecessors : ℕ → List DepEdge) (topo : List ℕ) (nodes : Nodes)
    → ((t : ℕ) → contains topo t ≡ true → IsSettled (predecessors t) nodes t)
    → recompute predecessors topo nodes ≡ ok (nodes, [])
unfolding recompute
recompute_settled predecessors [] nodes h = refl
recompute_settled predecessors (t ∷ ts) nodes h =
    let here = visit_settled predecessors nodes t (h t (ground arith)) in
    let rest = recompute_settled predecessors ts nodes (λ a c. h a (ground arith)) in
    rw (here, rest)

-- A second call on the nodes that a first has left, in whatever order Python lists the affected set,
-- returns the same nodes and no changes.
pub cascade_again :
    (order order' : SetOrder) (root_id : ℕ) (nodes : Nodes) (edges : List DepEdge) {final : Nodes}
    {changes : List ScheduleChange}
    → cascade order root_id nodes edges ≡ ok (final, changes)
    → cascade order' root_id final edges ≡ ok (final, [])
unfolding cascade
cascade_again order order' root_id nodes edges {final} h =
    let (topo, p, acyclic, r) = planned order root_id nodes edges h in
    elim (plan_decides order' root_id edges) [
      | inl (topo', made, p', _) ↦ rw (made) (
          recompute_settled (index_edges (λ e. e.successor_id) edges) topo' final
            (λ t c. r.settled t ((p.covers t).1 ((p'.covers t).0 c))))
      | inr (_, cyclic) ↦ absurd (cyclic acyclic)
    ]
