-- ===== src/Cascade/Affected/Loop.antt =====
-- The walk of `cascade`, step 1, ends within one round for each edge and one for the root.
use workfront_system.Base.{
  ℕ, zero, suc, ◌+◌, ◌≤◌, ◌≡◌, refl, ap, false, inl, inr, List, [], ◌∷◌, foldl, Memᴰ, arith,
  if◌then◌else◌, contains, length, List-cases, ok,
}
use workfront_system.Cascade.Types.{DepEdge, index_edges, Memᴰ-index_edges}
use workfront_system.Cascade.Affected.{Walk, offer, expand, walk, start_walk}

-- The edges whose successor is not yet affected.
abbrev fresh : List ℕ → List DepEdge → ℕ
fresh affected [] = 0
fresh affected (e ∷ es) = (if contains affected e.successor_id then 0 else 1) + fresh affected es

fresh-cons-le :
    (s : ℕ) (affected : List ℕ) (es : List DepEdge) → fresh (s ∷ affected) es ≤ fresh affected es
fresh-cons-le s affected [] = omega arith
fresh-cons-le s affected (e ∷ es) = ground (arith, fresh-cons-le s affected es)

fresh-cons-lt :
    (affected : List ℕ) (es : List DepEdge) (e : DepEdge)
    → Memᴰ e es
    → contains affected e.successor_id ≡ false
    → suc (fresh (e.successor_id ∷ affected) es) ≤ fresh affected es
fresh-cons-lt affected [] e m h = elim m [ ]
fresh-cons-lt affected (x ∷ xs) e (Memᴰ.head p) h =
    rw (← p) (ground (arith, fresh-cons-le e.successor_id affected xs))
fresh-cons-lt affected (x ∷ xs) e (Memᴰ.tail m) h = ground (arith, fresh-cons-lt affected xs e m h)

fresh-nil-le : (es : List DepEdge) → fresh [] es ≤ length es
fresh-nil-le [] = omega arith
fresh-nil-le (e ∷ es) = omega (arith, fresh-nil-le es)

module _ (edges : List DepEdge) where
  abbrev work : Walk → ℕ
  work w = fresh w.affected edges + length w.stack

  offer-work : (w : Walk) (e : DepEdge) → Memᴰ e edges → work (offer w e) ≤ work w
  unfolding offer
  offer-work w e m = ground (arith, fresh-cons-lt w.affected edges e m)

  offers-work :
      (w : Walk) (es : List DepEdge)
      → ((e : DepEdge) → Memᴰ e es → Memᴰ e edges)
      → work (foldl offer w es) ≤ work w
  offers-work w [] h = omega arith
  offers-work w (e ∷ es) h = omega (
    arith,
    offer-work w e (h e (Memᴰ.head refl)),
    offers-work (offer w e) es (λ x m. h x (Memᴰ.tail m)),
  )

  abbrev successors : ℕ → List DepEdge
  successors = index_edges (λ e. e.predecessor_id) edges

  walk_ends :
      (fuel : ℕ) (w : Walk)
      → work w ≤ fuel
      → (affected : List ℕ) × (walk successors fuel w ≡ ok affected)
  unfolding walk expand
  walk_ends zero w h = (w.affected, ground arith)
  walk_ends (suc fuel) w h = elim (List-cases w.stack) [
    | inl empty ↦ (w.affected, rw (empty, walk))
    | inr (cur, rest, e) ↦
        let step =
          offers-work (record w { stack = rest }) (successors cur)
            (λ x m. ((Memᴰ-index_edges (λ y. y.predecessor_id) edges cur x).0 m).0) in
        let (affected, ends) =
          walk_ends fuel (expand successors w cur rest) (omega (arith, step, ap length e)) in
        (affected, rw (e, walk) ends)
  ]

  pub walk_returns :
      (root_id : ℕ)
      → (affected : List ℕ) × (walk successors (suc (length edges)) (start_walk root_id)
          ≡ ok affected)
  walk_returns root_id =
      walk_ends (suc (length edges)) (start_walk root_id) (omega (arith, fresh-nil-le edges))
