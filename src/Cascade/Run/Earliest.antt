-- ===== src/Cascade/Run/Earliest.antt =====
-- What `cascade` (services/worker/src/cascade.py) promises, without a word on how: the earliest
-- schedule that the dependencies allow.
use workfront_system.Base.{
  some-injective, ℕ, zero, suc, ◌≤◌, ◌<◌, ◌≡◌, sym, ap, ◌∙◌, subst, inl, inr, List, Memᴰ, arith,
  contains, Bool-cases, Option, some, ok, ℤ, sub_ℕ_parts, pos_part, neg_part,
}
use workfront_system.Cascade.Types.{
  DepType, fs, ss, ff, sf, TaskNode, DepEdge, ScheduleChange, Nodes, SetOrder, Downstream, duration,
}
use workfront_system.Cascade.Recompute.Step.{Slides}
use workfront_system.Cascade.Recompute.Constraints.{Respects, Binds, Between}
use workfront_system.Cascade.Run.{cascade}
use workfront_system.Cascade.Run.Plan.{IsAcyclic}
use workfront_system.Cascade.Run.Result.{planned, cascade-Respects, cascade-Binds, cascade-Slides}

-- A schedule that moves only what is downstream of the root, keeps durations, and respects every
-- dependency of what it may move.
pub record IsSchedule (edges : List DepEdge) (root_id : ℕ) (nodes after : Nodes) : Type 0 where
  pub kept : (v : ℕ) → ¬ Downstream edges root_id v → after v ≡ nodes v
  pub slides : (v : ℕ) → Downstream edges root_id v → Slides (nodes v) (after v)
  pub respects :
      (e : DepEdge)
      → Memᴰ e edges
      → Downstream edges root_id e.successor_id
      → Between Respects after e e.successor_id

-- The first of two nodes of a task starts no later than the second, and lasts as long.
pub record Before (first second : Option TaskNode) : Type 0 where
  pub early : TaskNode
  pub late : TaskNode
  pub is_first : first ≡ some early
  pub is_second : second ≡ some late
  pub starts : early.start ≤ late.start
  pub finishes : early.finish ≤ late.finish

-- A node with the same duration that starts no later finishes no later.
finishes-le :
    (n n' : TaskNode) → duration n ≡ duration n' → n.start ≤ n'.start → n.finish ≤ n'.finish
finishes-le n n' d h = omega (
  arith,
  sub_ℕ_parts n.finish n.start,
  sub_ℕ_parts n'.finish n'.start,
  ap pos_part d,
  ap neg_part d,
)

-- Where the earlier node is bound by a predecessor that the later one respects no earlier, it starts
-- no later.
starts-le :
    (t : DepType) (lag : ℤ) (p p' n n' : TaskNode)
    → duration n ≡ duration n'
    → p.start ≤ p'.start
    → p.finish ≤ p'.finish
    → Binds t lag p n
    → Respects t lag p' n'
    → n.start ≤ n'.start
starts-le fs lag p p' n n' d s f b r = omega arith
starts-le ss lag p p' n n' d s f b r = omega arith
starts-le ff lag p p' n n' d s f b r = omega (
  arith,
  sub_ℕ_parts n.finish n.start,
  sub_ℕ_parts n'.finish n'.start,
  ap pos_part d,
  ap neg_part d,
)
starts-le sf lag p p' n n' d s f b r = omega (
  arith,
  sub_ℕ_parts n.finish n.start,
  sub_ℕ_parts n'.finish n'.start,
  ap pos_part d,
  ap neg_part d,
)

-- One task, from the predecessor that binds it in the first schedule.
Before-step :
    (nodes first second : Nodes) (e : DepEdge) (v : ℕ)
    → Slides (nodes v) (first v)
    → Slides (nodes v) (second v)
    → Between Binds first e v
    → Between Respects second e v
    → Before (first e.predecessor_id) (second e.predecessor_id)
    → Before (first v) (second v)
Before-step nodes first second e v l l' b r before =
    let p = some-injective (sym before.is_first ∙ b.pred_found) in
    let p' = some-injective (sym before.is_second ∙ r.pred_found) in
    let n = some-injective (sym l.is ∙ b.succ_found) in
    let n' = some-injective (sym l'.is ∙ r.succ_found) in
    let d : duration b.successor ≡ duration r.successor =
      ap duration (sym n)
      ∙ l.kept
      ∙ ap duration (some-injective (sym l.was ∙ l'.was))
      ∙ sym l'.kept
      ∙ ap duration n' in
    let starts =
      starts-le e.type e.lag b.predecessor r.predecessor b.successor r.successor d
        (omega (arith, before.starts, ap (λ x. x.start) p, ap (λ x. x.start) p'))
        (omega (arith, before.finishes, ap (λ x. x.finish) p, ap (λ x. x.finish) p')) b.holds
        r.holds in
    record {
      early = b.successor;
      late = r.successor;
      is_first = b.succ_found;
      is_second = r.succ_found;
      starts = starts;
      finishes = finishes-le b.successor r.successor d starts;
    }

Before-same : (place : Option TaskNode) (n : TaskNode) → place ≡ some n → Before place place
Before-same place n h = record {
  early = n;
  late = n;
  is_first = h;
  is_second = h;
  starts = omega arith;
  finishes = omega arith;
}

module _ (order : SetOrder) (root_id : ℕ) (nodes : Nodes) (edges : List DepEdge) {final : Nodes}
    {changes : List ScheduleChange}
    (returned : cascade order root_id nodes edges ≡ ok (final, changes)) where
  cascade-IsSchedule : IsSchedule edges root_id nodes final
  cascade-IsSchedule =
      let (slides, kept, _) = cascade-Slides order root_id nodes edges returned in
      record {
        kept = kept;
        slides = slides;
        respects = cascade-Respects order root_id nodes edges returned;
      }

  module _ (after : Nodes) (schedule : IsSchedule edges root_id nodes after)
      (acyclic : IsAcyclic edges root_id) where
    -- A predecessor that is not downstream has its first node in both schedules.
    Before-outside :
        (e : DepEdge) {v : ℕ}
        → ¬ Downstream edges root_id e.predecessor_id
        → Between Binds final e v
        → Before (final e.predecessor_id) (after e.predecessor_id)
    Before-outside e far b =
        let same =
          cascade-IsSchedule.kept e.predecessor_id far ∙ sym (schedule.kept e.predecessor_id far) in
        subst (Before (final e.predecessor_id)) same
          (Before-same (final e.predecessor_id) b.predecessor b.pred_found)

    -- By induction on the rank.
    Before-below :
        (bound v : ℕ)
        → Downstream edges root_id v
        → acyclic.0 v < bound
        → Before (final v) (after v)
    Before-below zero v d below = absurd (omega arith)
    Before-below (suc bound) v d below =
        let (e, m, to, b) = cascade-Binds order root_id nodes edges returned v d in
        let r =
          subst (Between Respects after e) to
            (schedule.respects e m (subst (Downstream edges root_id) (sym to) d)) in
        let (topo, p, _, _) = planned order root_id nodes edges returned in
        Before-step nodes final after e v (cascade-IsSchedule.slides v d) (schedule.slides v d) b r
          (elim (Bool-cases (contains topo e.predecessor_id)) [
            | inl c ↦
                let dp = (p.covers e.predecessor_id).0 c in
                Before-below bound e.predecessor_id dp
                  (omega (arith, acyclic.1 e m dp, ap acyclic.0 to))
            | inr far ↦
                Before-outside e
                  (λ dp. absurd (ground (arith, far, (p.covers e.predecessor_id).1 dp))) b
          ])

  -- What `cascade` returns is the earliest schedule that the dependencies allow: it moves only tasks
  -- downstream of the root and keeps their durations, it respects every dependency into them, and
  -- in any other schedule that does so each of them starts and finishes no earlier.
  pub cascade-refines :
      IsSchedule edges root_id nodes final
      × ((after : Nodes)
          → IsSchedule edges root_id nodes after
          → (v : ℕ) → Downstream edges root_id v
          → Before (final v) (after v))
  cascade-refines =
      let (_, _, acyclic, _) = planned order root_id nodes edges returned in
      (
        cascade-IsSchedule,
        λ after schedule v d.
            Before-below after schedule acyclic (suc (acyclic.0 v)) v d (omega arith),
      )
