-- ===== src/Cascade/Run/Deterministic.antt =====
-- The order in which Python lists the affected set does not reach the result of `cascade`
-- (services/worker/src/cascade.py).
use workfront_system.Base.{
  ℕ, zero, suc, ◌<◌, ◌≡◌, sym, ap, ◌∙◌, fun_ext, true, false, inl, inr, List, Memᴰ, arith, contains,
  Bool-cases, some, ok,
}
use workfront_system.Cascade.Types.{
  TaskNode, DepEdge, ScheduleChange, Nodes, SetOrder, Downstream, duration, index_edges,
  Memᴰ-index_edges,
}
use workfront_system.Cascade.Recompute.Step.{earliest_start-same}
use workfront_system.Cascade.Recompute.Final.{Recomputed}
use workfront_system.Cascade.Recompute.Constraints.{IsSettled-some}
use workfront_system.Cascade.Run.{cascade}
use workfront_system.Cascade.Run.Plan.{IsPlan, IsAcyclic}
use workfront_system.Cascade.Run.Result.{planned, incoming}

-- Start and duration determine the finish.
node-eq :
    (n n' : TaskNode)
    → n.task_id ≡ n'.task_id
    → n.start ≡ n'.start
    → duration n ≡ duration n'
    → n ≡ n'
node-eq n n' i s d = ground arith

module _ (edges : List DepEdge) (root_id : ℕ) (nodes : Nodes) {topo topo' : List ℕ}
    {final final' : Nodes} {changes changes' : List ScheduleChange} (p : IsPlan edges root_id topo)
    (p' : IsPlan edges root_id topo') (r : Recomputed edges topo nodes final changes)
    (r' : Recomputed edges topo' nodes final' changes') where
  -- A task settled in both results from the same predecessors has the same node in both.
  settled_eq :
      (v : ℕ) (e : DepEdge)
      → Memᴰ e (index_edges (λ x. x.successor_id) edges v)
      → contains topo v ≡ true
      → contains topo' v ≡ true
      → ((x : DepEdge)
          → Memᴰ x (index_edges (λ y. y.successor_id) edges v)
          → final x.predecessor_id ≡ final' x.predecessor_id)
      → final v ≡ final' v
  settled_eq v e m c c' same =
      let preds = index_edges (λ x. x.successor_id) edges v in
      let s = r.settled v c in
      let s' = r'.settled v c' in
      let l = r.slides v c in
      let l' = r'.slides v c' in
      let old : l.old ≡ l'.old = some-eq (sym l.was ∙ l'.was) in
      let new : s.node ≡ l.new = some-eq (sym s.found ∙ l.is) in
      let new' : s'.node ≡ l'.new = some-eq (sym s'.found ∙ l'.is) in
      let d : duration s.node ≡ duration s'.node =
        ap duration new ∙ l.kept ∙ ap duration old ∙ sym l'.kept ∙ ap duration (sym new') in
      let i : s.node.task_id ≡ s'.node.task_id =
        ap (λ n. n.task_id) new
        ∙ l.same_id
        ∙ ap (λ n. n.task_id) old
        ∙ sym l'.same_id
        ∙ ap (λ n. n.task_id) (sym new') in
      let start : ok (some s.node.start) ≡ ok (some s'.node.start) =
        sym (IsSettled-some s e m)
        ∙ earliest_start-same s.node s'.node preds final final' d same
        ∙ IsSettled-some s' e m in
      s.found ∙ ap some (node-eq s.node s'.node i (cc) d) ∙ sym s'.found
    where
      some-eq : {n n' : TaskNode} → some n ≡ some n' → n ≡ n'
      some-eq h = cc

  apart : (v : ℕ) → contains topo v ≡ false → final v ≡ final' v
  apart v far =
      r.others v far
      ∙ sym (
          r'.others v (elim (Bool-cases (contains topo' v)) [
            | inl c' ↦ ground (arith, (p.covers v).1 ((p'.covers v).0 c'))
            | inr c' ↦ c'
          ]))

  -- By induction on the rank: a task is settled after its predecessors.
  final-eq :
      (acyclic : IsAcyclic edges root_id) (bound v : ℕ)
      → (Downstream edges root_id v → acyclic.0 v < bound)
      → final v ≡ final' v
  final-eq acyclic zero v below = elim (Bool-cases (contains topo v)) [
    | inr far ↦ apart v far
    | inl c ↦ absurd (omega (arith, below ((p.covers v).0 c)))
  ]
  final-eq acyclic (suc bound) v below = elim (Bool-cases (contains topo v)) [
    | inr far ↦ apart v far
    | inl c ↦
        let key = λ (x : DepEdge). x.successor_id in
        let d = (p.covers v).0 c in
        let (e, m, to) = incoming edges root_id d in
        settled_eq v e ((Memᴰ-index_edges key edges v e).1 (m, to)) c ((p'.covers v).1 d)
          (λ x listed.
            let (found, at) = (Memᴰ-index_edges key edges v x).0 listed in
            final-eq acyclic bound x.predecessor_id
              (λ dx. omega (arith, acyclic.1 x found dx, ap acyclic.0 at, below d)))
  ]

-- Two calls that return from the same nodes and edges leave the same nodes, in whatever order each
-- listed the affected set.
pub cascade_deterministic :
    (order order' : SetOrder) (root_id : ℕ) (nodes : Nodes) (edges : List DepEdge)
    {final final' : Nodes} {changes changes' : List ScheduleChange}
    → cascade order root_id nodes edges ≡ ok (final, changes)
    → cascade order' root_id nodes edges ≡ ok (final', changes')
    → final ≡ final'
cascade_deterministic order order' root_id nodes edges h h' =
    let (topo, p, acyclic, r) = planned order root_id nodes edges h in
    let (topo', p', acyclic', r') = planned order' root_id nodes edges h' in
    fun_ext
      λ v. final-eq edges root_id nodes p p' r r' acyclic (suc (acyclic.0 v)) v (λ d. omega arith)
