-- ===== src/Cascade/Run/Result.antt =====
-- What `cascade` (services/worker/src/cascade.py) returns: the dependencies hold, the tasks that are
-- not downstream keep their dates, and the changes are the difference.
use workfront_system.Base.{
  ℕ, ◌<◌, ◌≡◌, refl, ap, subst, false, inl, inr, List, Memᴰ, arith, contains, Bool-cases, ok,
  >>=-eq-ok,
}
use workfront_system.Cascade.Types.{
  DepEdge, ScheduleChange, Nodes, SetOrder, Downstream, direct, further, index_edges,
  Memᴰ-index_edges,
}
use workfront_system.Cascade.Recompute.Step.{Slides, IsSettled}
use workfront_system.Cascade.Recompute.Final.{Recomputed, recompute-Recomputed, differences}
use workfront_system.Cascade.Recompute.Constraints.{
  Respects, Binds, Between, IsSettled-Respects, IsSettled-Binds,
}
use workfront_system.Cascade.Run.{plan, cascade}
use workfront_system.Cascade.Run.Plan.{IsPlan, IsAcyclic, plan_decides}

-- The last edge of the walk to a downstream task.
pub incoming :
    (edges : List DepEdge) (root_id : ℕ) {v : ℕ}
    → Downstream edges root_id v
    → (e : DepEdge) × Memᴰ e edges × (e.successor_id ≡ v)
incoming edges root_id (direct e m from to) = (e, m, to)
incoming edges root_id (further d e m from to) = (e, m, to)

module _ (order : SetOrder) (root_id : ℕ) (nodes : Nodes) (edges : List DepEdge) {final : Nodes}
    {changes : List ScheduleChange}
    (returned : cascade order root_id nodes edges ≡ ok (final, changes)) where
  pub planned :
      (topo : List ℕ) × IsPlan edges root_id topo
      × IsAcyclic edges root_id
      × Recomputed edges topo nodes final changes
  unfolding cascade
  planned =
      let (topo, made, rest) = >>=-eq-ok (plan order root_id edges) _ returned in
      elim (plan_decides order root_id edges) [
        | inl (t, e, p, acyclic) ↦
            let same : t ≡ topo = cc in
            let p' = subst (IsPlan edges root_id) same p in
            (topo, p', acyclic, recompute-Recomputed edges topo nodes p'.ordered p'.unique rest)
        | inr (raised, _) ↦ cc
      ]

  Downstream-IsSettled :
      (v : ℕ)
      → Downstream edges root_id v
      → IsSettled (index_edges (λ x. x.successor_id) edges v) final v
  Downstream-IsSettled v d = let (topo, p, acyclic, r) = planned in r.settled v ((p.covers v).1 d)

  -- When `cascade` returns, every edge into a task downstream of the root is respected by the final
  -- dates, for each of the four dependency types and with the edge's lag.
  pub cascade-Respects :
      (e : DepEdge)
      → Memᴰ e edges
      → Downstream edges root_id e.successor_id
      → Between Respects final e e.successor_id
  cascade-Respects e m d =
      IsSettled-Respects (Downstream-IsSettled e.successor_id d) e
        ((Memᴰ-index_edges (λ x. x.successor_id) edges e.successor_id e).1 (m, refl))

  -- When `cascade` returns, each task downstream of the root starts no later than it must: some edge
  -- into it holds with equality.
  pub cascade-Binds :
      (v : ℕ)
      → Downstream edges root_id v
      → (e : DepEdge) × Memᴰ e edges × (e.successor_id ≡ v) × Between Binds final e v
  cascade-Binds v d =
      let key = λ (x : DepEdge). x.successor_id in
      let (a, m, to) = incoming edges root_id d in
      let (e, listed, b) =
        IsSettled-Binds (Downstream-IsSettled v d) a ((Memᴰ-index_edges key edges v a).1 (m, to)) in
      let (m', to') = (Memᴰ-index_edges key edges v e).0 listed in (e, m', to', b)

  -- When `cascade` returns, a task downstream of the root keeps its id and its duration, and any
  -- other task, the root among them, keeps its node.
  pub cascade-Slides :
      ((v : ℕ) → Downstream edges root_id v → Slides (nodes v) (final v))
      × ((v : ℕ) → ¬ Downstream edges root_id v → final v ≡ nodes v)
      × (final root_id ≡ nodes root_id)
  cascade-Slides =
      let (topo, p, acyclic, r) = planned in
      let kept = λ (v : ℕ) (far : ¬ Downstream edges root_id v). r.others v (outside p v far) in
      (λ v d. r.slides v ((p.covers v).1 d), kept, kept root_id (not_below acyclic))
    where
      outside :
          {topo : List ℕ}
          → IsPlan edges root_id topo
          → (v : ℕ) → ¬ Downstream edges root_id v
          → contains topo v ≡ false
      outside {topo} p v far = elim (Bool-cases (contains topo v)) [
        | inl c ↦ absurd (far ((p.covers v).0 c))
        | inr c ↦ c
      ]

      grows :
          (acyclic : IsAcyclic edges root_id)
          → Downstream edges root_id root_id
          → {v : ℕ} → Downstream edges root_id v
          → acyclic.0 root_id < acyclic.0 v
      grows acyclic loop (direct e m from to) =
          omega (arith, acyclic.1 e m (rw from loop), ap acyclic.0 from, ap acyclic.0 to)
      grows acyclic loop (further d e m from to) = omega (
        arith,
        grows acyclic loop d,
        acyclic.1 e m (rw from d),
        ap acyclic.0 from,
        ap acyclic.0 to,
      )

      not_below : IsAcyclic edges root_id → ¬ Downstream edges root_id root_id
      not_below acyclic loop = omega (arith, grows acyclic loop loop)

  -- When `cascade` returns, the list of changes is, in an order that puts each task behind its
  -- predecessors, one entry for each task downstream of the root whose start differs from its start
  -- before, with its final dates, and nothing else.
  pub cascade-differences :
      (topo : List ℕ) × IsPlan edges root_id topo × (changes ≡ differences topo nodes final)
  cascade-differences = let (topo, p, acyclic, r) = planned in (topo, p, r.reported)
