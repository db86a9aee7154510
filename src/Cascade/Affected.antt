-- ===== src/Cascade/Affected.antt =====
-- Step 1 of `cascade` (services/worker/src/cascade.py): the walk that collects the affected set.
pub mod Loop
pub mod Reach
use workfront_system.Base.{
  ℕ, zero, suc, List, [], ◌∷◌, foldl, if◌then◌else◌, contains, Outcome, ok, err, out_of_fuel,
}
use workfront_system.Cascade.Types.{DepEdge}

-- The variables of the loop; the top of `stack` is its head.
pub record Walk : Type 0 where
  pub affected : List ℕ
  pub stack : List ℕ

-- The body of the inner loop.
unfoldable pub offer : Walk → DepEdge → Walk
offer w e =
    if contains w.affected e.successor_id
    then w
    else record { affected = e.successor_id ∷ w.affected; stack = e.successor_id ∷ w.stack }

-- One round of `while stack`, with `cur` popped and `rest` left.
unfoldable pub expand : (ℕ → List DepEdge) → Walk → ℕ → List ℕ → Walk
expand successors w cur rest = foldl offer (record w { stack = rest }) (successors cur)

unfoldable pub walk : (ℕ → List DepEdge) → ℕ → Walk → Outcome (List ℕ)
walk successors zero w = elim w.stack [ [] ↦ ok w.affected | _ ∷ _ ↦ err out_of_fuel ]
walk successors (suc fuel) w = elim w.stack [
  | [] ↦ ok w.affected
  | cur ∷ rest ↦ walk successors fuel (expand successors w cur rest)
]

abbrev pub start_walk : ℕ → Walk
start_walk root_id = record { affected = []; stack = root_id ∷ [] }
