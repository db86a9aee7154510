-- ===== src/Cascade/Run/Plan.antt =====
-- What steps 1 and 2 of `cascade` give together: an order of exactly the tasks downstream of the
-- root, or DependencyCycleError, each exactly when it should.
use workfront_system.Base.{
  ℕ, zero, suc, ◌≤◌, ◌<◌, ◌≡◌, refl, sym, ap, true, ◌⊎◌, inl, inr, ◌↔◌, List, [], ◌∷◌, Memᴰ, arith,
  if◌then◌else◌, ◌==◌, ==_iff, contains, contains-count, count, IsUnique, length,
  length-le_of_count, count-eq_of_length, Bool-cases, ok, err, dependency_cycle,
}
use workfront_system.Cascade.Types.{DepEdge, SetOrder, Downstream, further}
use workfront_system.Cascade.Affected.Loop.{walk_returns}
use workfront_system.Cascade.Affected.Reach.{walk-Downstream}
use workfront_system.Cascade.Kahn.{Kahn}
use workfront_system.Cascade.Kahn.Relax.{waiting-pos}
use workfront_system.Cascade.Kahn.Invariant.{Inv, IsOrdered, is_free}
use workfront_system.Cascade.Kahn.Ends.{sort_returns}
use workfront_system.Cascade.Run.{plan}

-- The list holds the tasks downstream of the root, each once, and behind its predecessors.
pub record IsPlan (edges : List DepEdge) (root_id : ℕ) (topo : List ℕ) : Type 0 where
  pub covers : (v : ℕ) → (contains topo v ≡ true) ↔ Downstream edges root_id v
  pub unique : IsUnique topo
  pub ordered : IsOrdered edges topo

-- Some ranking of the tasks grows along every edge that leaves a task downstream of the root.
abbrev pub IsAcyclic : List DepEdge → ℕ → Type 0
IsAcyclic edges root_id =
    (rank : ℕ → ℕ) × ((e : DepEdge)
      → Memᴰ e edges
      → Downstream edges root_id e.predecessor_id
      → rank e.predecessor_id < rank e.successor_id)

abbrev position : List ℕ → ℕ → ℕ
position [] a = 0
position (x ∷ xs) a = if x == a then 0 else suc (position xs a)

position-lt :
    (edges : List DepEdge) (topo : List ℕ) (e : DepEdge)
    → IsOrdered edges topo
    → Memᴰ e edges
    → contains topo e.predecessor_id ≡ true
    → contains topo e.successor_id ≡ true
    → position topo e.predecessor_id < position topo e.successor_id
position-lt edges [] e h m p s = cc
position-lt edges (t ∷ ts) e h m p s = elim (Bool-cases (t == e.successor_id)) [
  | inl here ↦ absurd (ground (arith, h.0 e m (sym ((==_iff t e.successor_id).0 here))))
  | inr there ↦ ground (arith, position-lt edges ts e h.1 m)
]

IsPlan-IsAcyclic :
    (edges : List DepEdge) (root_id : ℕ) (topo : List ℕ)
    → IsPlan edges root_id topo
    → IsAcyclic edges root_id
IsPlan-IsAcyclic edges root_id topo p = (
  position topo,
  λ e m d.
      position-lt edges topo e p.ordered m ((p.covers e.predecessor_id).1 d)
        ((p.covers e.successor_id).1 (further d e m refl refl)),
)

module _ (affected : List ℕ) (edges : List DepEdge) (root_id : ℕ)
    (down : (v : ℕ) → (contains affected v ≡ true) ↔ Downstream edges root_id v) (k : Kahn)
    (inv : Inv affected edges k) (empty : k.queue ≡ []) where
  at_end : (m : ℕ) → count k.topo m ≡ (if is_free affected edges k.topo m then 1 else 0)
  at_end m = ground (arith, inv.placed m, ap (λ q. count q m) empty)

  topo-count-le : (m : ℕ) → count k.topo m ≤ count affected m
  topo-count-le m = ground (arith, at_end m, contains-count affected m)

  full-IsPlan : length k.topo ≡ length affected → IsPlan edges root_id k.topo
  full-IsPlan e =
      let same = count-eq_of_length k.topo affected topo-count-le e in
      record {
        covers = λ v. (
          λ c.
              (down v).0
                (ground (arith, same v, contains-count k.topo v, contains-count affected v)),
          λ d.
              ground
                (arith, (down v).1 d, same v, contains-count k.topo v, contains-count affected v),
        );
        unique = λ a. ground (arith, at_end a);
        ordered = inv.ordered;
      }

  -- With a ranking no task is left over: below each would stand another.
  none_left :
      (acyclic : IsAcyclic edges root_id) (bound m : ℕ)
      → contains affected m ≡ true
      → acyclic.0 m < bound
      → contains k.topo m ≡ true
  none_left acyclic zero m c below = absurd (omega arith)
  none_left acyclic (suc bound) m c below = elim (Bool-cases (contains k.topo m)) [
    | inl done ↦ done
    | inr left ↦
        let (e, found, to, inside, out) =
          waiting-pos affected k.topo edges m
            (λ z. ground (arith, at_end m, contains-count k.topo m)) in
        let lower = acyclic.1 e found ((down e.predecessor_id).0 inside) in
        ground (
          arith,
          none_left acyclic bound e.predecessor_id inside (omega (arith, lower, ap acyclic.0 to)),
        )
  ]

  all_placed : IsUnique affected → IsAcyclic edges root_id → length k.topo ≡ length affected
  all_placed unique acyclic = omega (
    arith,
    length-le_of_count k.topo affected topo-count-le,
    length-le_of_count affected k.topo (λ a. ground (
      arith,
      unique a,
      contains-count affected a,
      contains-count k.topo a,
      none_left acyclic (suc (acyclic.0 a)) a,
    )),
  )

-- The planning steps return the tasks downstream of the root, each once and each behind its
-- predecessors, exactly when some ranking grows along the edges that leave those tasks; otherwise
-- they raise DependencyCycleError. They never run on.
pub plan_decides :
    (order : SetOrder) (root_id : ℕ) (edges : List DepEdge)
    → ((topo : List ℕ) × (plan order root_id edges ≡ ok topo)
        × IsPlan edges root_id topo
        × IsAcyclic edges root_id)
      ⊎ ((plan order root_id edges ≡ err dependency_cycle) × (¬ IsAcyclic edges root_id))
unfolding plan
plan_decides order root_id edges =
    let (affected, walked) = walk_returns edges root_id in
    let (unique, down) = walk-Downstream edges root_id _ affected walked in
    let (k, inv, empty, sorted) = sort_returns affected edges order unique in
    elim (Bool-cases (length k.topo == length affected)) [
      | inl full ↦
          let p =
            full-IsPlan affected edges root_id down k inv empty
              ((==_iff (length k.topo) (length affected)).0 full) in
          inl (k.topo, rw (walked, sorted, full), p, IsPlan-IsAcyclic edges root_id k.topo p)
      | inr short ↦ inr (
        rw (walked, sorted, short),
        λ acyclic.
            ground (arith, all_placed affected edges root_id down k inv empty unique acyclic),
      )
    ]
