-- ===== src/Cascade/Recompute/Final.antt =====
-- The whole of step 3 of `cascade`: over an ordered list each task ends with the start computed from
-- the final nodes, and what is returned is the difference from the nodes at first.
use workfront_system.Base.{
  ℕ, ◌≡◌, refl, ap, ◌∙◌, subst, true, false, inl, inr, List, [], ◌∷◌, Memᴰ, arith, ◌==◌, ==_iff,
  contains, contains-count, IsUnique, Bool-cases, Option, ok, >>=-eq-ok, ok-injective,
}
use workfront_system.Cascade.Types.{DepEdge, ScheduleChange, Nodes, index_edges, Memᴰ-index_edges}
use workfront_system.Cascade.Kahn.Invariant.{IsOrdered}
use workfront_system.Cascade.Recompute.{visit, recompute, append_change}
use workfront_system.Cascade.Recompute.Step.{
  IsSettled, Slides, Visited, visit-Visited, difference, earliest_start-same,
}

-- The differences between two states of the nodes, over a list of ids.
abbrev pub differences : List ℕ → Nodes → Nodes → List ScheduleChange
differences [] before after = []
differences (t ∷ ts) before after =
    append_change (difference t (before t) (after t)) (differences ts before after)

differences-same :
    (ts : List ℕ) (nodes nodes' after : Nodes)
    → ((a : ℕ) → contains ts a ≡ true → nodes a ≡ nodes' a)
    → differences ts nodes after ≡ differences ts nodes' after
differences-same [] nodes nodes' after h = refl
differences-same (t ∷ ts) nodes nodes' after h =
    rw (h t (ground arith), differences-same ts nodes nodes' after (λ a c. h a (ground arith)))

IsSettled-same :
    (preds : List DepEdge) (nodes nodes' : Nodes) (tid : ℕ)
    → nodes' tid ≡ nodes tid
    → ((e : DepEdge) → Memᴰ e preds → nodes' e.predecessor_id ≡ nodes e.predecessor_id)
    → IsSettled preds nodes tid
    → IsSettled preds nodes' tid
IsSettled-same preds nodes nodes' tid here h s = record {
  node = s.node;
  found = here ∙ s.found;
  target = s.target;
  computed = earliest_start-same s.node s.node preds nodes' nodes refl h ∙ s.computed;
  agrees = s.agrees;
}

module _ (edges : List DepEdge) where
  abbrev predecessors : ℕ → List DepEdge
  predecessors = index_edges (λ e. e.successor_id) edges

  pub record Recomputed (topo : List ℕ) (nodes final : Nodes) (changes : List ScheduleChange)
      : Type 0 where
    pub others : (a : ℕ) → contains topo a ≡ false → final a ≡ nodes a
    pub settled : (t : ℕ) → contains topo t ≡ true → IsSettled (predecessors t) final t
    pub slides : (t : ℕ) → contains topo t ≡ true → Slides (nodes t) (final t)
    pub reported : changes ≡ differences topo nodes final

  module _ (t : ℕ) (ts : List ℕ) (ordered : IsOrdered edges (t ∷ ts))
      (absent : contains ts t ≡ false) where
    -- No predecessor of `t` is `t` or stands behind it.
    behind :
        (e : DepEdge)
        → Memᴰ e (predecessors t)
        → ((t == e.predecessor_id) ≡ false) × (contains ts e.predecessor_id ≡ false)
    behind e m =
        let (listed, to) = (Memᴰ-index_edges (λ x. x.successor_id) edges t e).0 m in
        ground (arith, ordered.0 e listed to)

    Recomputed-cons :
        (nodes after final : Nodes) (change : Option ScheduleChange) (changes : List ScheduleChange)
        → Visited (predecessors t) nodes t after change
        → Recomputed ts after final changes
        → Recomputed (t ∷ ts) nodes final (append_change change changes)
    Recomputed-cons nodes after final change changes v r =
        let at_t : final t ≡ after t = r.others t absent in
        let not_t = λ (a : ℕ) (c : contains ts a ≡ true). other_than a c in
        record {
          others = λ a c. r.others a (ground arith) ∙ v.others a (ground arith);
          settled = λ a c. elim (Bool-cases (t == a)) [
            | inl same ↦
                subst (λ x. IsSettled (predecessors x) final x) ((==_iff t a).0 same)
                  (IsSettled-same (predecessors t) after final t at_t
                    (λ e m. r.others e.predecessor_id (behind e m).1) v.settled)
            | inr other ↦ r.settled a (ground arith)
          ];
          slides = λ a c. elim (Bool-cases (t == a)) [
            | inl same ↦
                subst (λ x. Slides (nodes x) (final x)) ((==_iff t a).0 same) (rw at_t v.slides)
            | inr other ↦ rw (← v.others a other) (r.slides a (ground arith))
          ];
          reported =
              rw (v.reported, r.reported, at_t)
                (ap (append_change _)
                  (differences-same ts after nodes final (λ a c. v.others a (not_t a c))));
        }
      where
        other_than : (a : ℕ) → contains ts a ≡ true → (t == a) ≡ false
        other_than a c = elim (Bool-cases (t == a)) [
          | inl same ↦ ground (arith, ap (contains ts) ((==_iff t a).0 same))
          | inr other ↦ other
        ]

  pub recompute-Recomputed :
      (topo : List ℕ) (nodes : Nodes) {final : Nodes} {changes : List ScheduleChange}
      → IsOrdered edges topo
      → IsUnique topo
      → recompute predecessors topo nodes ≡ ok (final, changes)
      → Recomputed topo nodes final changes
  unfolding recompute
  recompute-Recomputed [] nodes ordered unique h =
      subst (λ r. Recomputed [] nodes r.0 r.1) (ok-injective h)
        (record { others = λ a c. refl; settled = λ t c. cc; slides = λ t c. cc; reported = refl })
  recompute-Recomputed (t ∷ ts) nodes ordered unique h =
      let ((after, change), visited, h') = >>=-eq-ok (visit predecessors nodes t) _ h in
      let ((final, changes), rest, done) = >>=-eq-ok (recompute predecessors ts after) _ h' in
      let absent : contains ts t ≡ false = ground (arith, unique t, contains-count ts t) in
      subst (λ r. Recomputed (t ∷ ts) nodes r.0 r.1) (ok-injective done)
        (Recomputed-cons t ts ordered absent nodes after final change changes
          (visit-Visited predecessors nodes t (λ e m. (behind t ts ordered absent e m).0) visited)
          (recompute-Recomputed ts after ordered.1 (λ a. omega (arith, unique a)) rest))
