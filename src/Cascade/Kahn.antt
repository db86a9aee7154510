-- ===== src/Cascade/Kahn.antt =====
-- Step 2 of `cascade` (services/worker/src/cascade.py): Kahn's topological order of the affected
-- set.
pub mod Relax
pub mod Invariant
pub mod Ends
use workfront_system.Base.{
  ℕ, zero, suc, Bool, true, false, ◌&&◌, List, [], ◌∷◌, ◌++◌, foldl, if◌then◌else◌, contains,
  filter, Outcome, ok, err, out_of_fuel, ℤ, pos, increment, decrement,
}
use workfront_system.Cascade.Types.{DepEdge, update, SetOrder}

abbrev pub is_zero : ℤ → Bool
is_zero (pos zero) = true
is_zero _ = false

-- The variables of the loop.
pub record Kahn : Type 0 where
  pub indegree : ℕ → ℤ
  pub queue : List ℕ
  pub topo : List ℕ

-- The edge lies within `affected`.
abbrev pub is_inner : List ℕ → DepEdge → Bool
is_inner affected e = contains affected e.predecessor_id && contains affected e.successor_id

unfoldable pub count_edge : List ℕ → (ℕ → ℤ) → DepEdge → ℕ → ℤ
count_edge affected d e =
    if is_inner affected e then update d e.successor_id (increment (d e.successor_id)) else d

-- The dictionary `indegree` before the loop; it is read at the affected ids only.
unfoldable pub indegrees : List ℕ → List DepEdge → ℕ → ℤ
indegrees affected edges = foldl (count_edge affected) (λ _. pos 0) edges

unfoldable pub start_kahn : SetOrder → List ℕ → List DepEdge → Kahn
start_kahn order affected edges =
    let d = indegrees affected edges in
    record {
      indegree = d;
      queue = filter (λ n. is_zero (d n)) (order.enumerate affected);
      topo = [];
    }

-- The body of the inner loop.
unfoldable pub relax : List ℕ → Kahn → DepEdge → Kahn
relax affected k e =
    if contains affected e.successor_id
    then (let d = decrement (k.indegree e.successor_id) in
        record k {
          indegree = update k.indegree e.successor_id d;
          queue = if is_zero d then k.queue ++ e.successor_id ∷ [] else k.queue;
        })
    else k

-- One round of `while queue`, with `n` popped and `rest` left.
unfoldable pub emit : List ℕ → (ℕ → List DepEdge) → Kahn → ℕ → List ℕ → Kahn
emit affected successors k n rest =
    foldl (relax affected) (record k { queue = rest; topo = k.topo ++ n ∷ [] }) (successors n)

unfoldable pub sort : List ℕ → (ℕ → List DepEdge) → ℕ → Kahn → Outcome (List ℕ)
sort affected successors zero k = elim k.queue [ [] ↦ ok k.topo | _ ∷ _ ↦ err out_of_fuel ]
sort affected successors (suc fuel) k = elim k.queue [
  | [] ↦ ok k.topo
  | n ∷ rest ↦ sort affected successors fuel (emit affected successors k n rest)
]
