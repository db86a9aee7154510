-- ===== src/Tests/Propagation.antt =====
-- A run of `cascade` (services/worker/src/cascade.py), and its theorems at that run.
use workfront_system.Base.{
  ℕ, ◌≡◌, refl, ◌⊎◌, List, [], ◌∷◌, Memᴰ, some, none, ok, err, dependency_cycle, overflow_error,
  pos, negsuc, add_delta, sub_delta, end_of_time, reverse, count-reverse,
}
use workfront_system.Cascade.Types.{
  fs, ss, ff, TaskNode, DepEdge, ScheduleChange, Nodes, SetOrder, inserted, update, index_edges,
  Downstream,
}
use workfront_system.Cascade.Affected.{offer, expand, walk}
use workfront_system.Cascade.Kahn.{count_edge, indegrees, start_kahn, relax, emit, sort}
use workfront_system.Cascade.Recompute.{
  candidate, candidates, maximum, earliest_start, place, visit, recompute,
}
use workfront_system.Cascade.Recompute.Final.{differences}
use workfront_system.Cascade.Run.{plan, cascade}
use workfront_system.Cascade.Run.Plan.{IsPlan, IsAcyclic, plan_decides}
use workfront_system.Cascade.Run.Result.{cascade-differences}
use workfront_system.Cascade.Run.Earliest.{IsSchedule, Before, cascade-refines}
use workfront_system.Cascade.Run.Again.{cascade_again}
use workfront_system.Cascade.Run.Raises.{IsKnown, cascade_outcomes}

program : Unit {0}
unfolding cascade plan walk expand offer index_edges start_kahn indegrees count_edge sort emit relax
    recompute visit place earliest_start candidates candidate maximum add_delta sub_delta
    end_of_time
program = tt

abbrev edge : ℕ → ℕ → DepEdge
edge a b = record { predecessor_id = a; successor_id = b; type = fs; lag = pos 0 }

abbrev to_second : DepEdge
to_second = edge 0 1

-- 0 → 1 → 2, a lag of -5 on the second edge, and 0 → 2.
abbrev edges : List DepEdge
edges =
    to_second
    ∷ record (edge 1 2) { type = ss; lag = negsuc 4 }
    ∷ record (edge 0 2) { type = ff; lag = pos 3 }
    ∷ []

abbrev node : ℕ → ℕ → ℕ → TaskNode
node t s f = record { task_id = t; start = s; finish = f }

abbrev nodes : Nodes
nodes =
    update (update (update (λ _. none) 0 (some (node 0 100 108))) 1 (some (node 1 50 58))) 2
      (some (node 2 10 20))

abbrev final : Nodes
final = update (update nodes 1 (some (node 1 108 116))) 2 (some (node 2 103 113))

abbrev changes : List ScheduleChange
changes =
    record { task_id = 1; new_start = 108; new_finish = 116 }
    ∷ record { task_id = 2; new_start = 103; new_finish = 113 }
    ∷ []

run : cascade inserted 0 nodes edges ≡ ok (final, changes)
unfolding program
run = refl

run_cyclic : cascade inserted 0 nodes (edge 0 1 ∷ edge 1 2 ∷ edge 2 1 ∷ []) ≡ err dependency_cycle
unfolding program
run_cyclic = refl

run_late :
    cascade inserted 0 nodes (record to_second { lag = pos 315537897600000000 } ∷ [])
    ≡ err overflow_error
unfolding program
run_late = refl

cascade-differences_example :
    (topo : List ℕ) × IsPlan edges 0 topo × (changes ≡ differences topo nodes final)
cascade-differences_example = cascade-differences inserted 0 nodes edges run

plan_decides_example :
    ((topo : List ℕ) × (plan inserted 0 edges ≡ ok topo) × IsPlan edges 0 topo × IsAcyclic edges 0)
    ⊎ ((plan inserted 0 edges ≡ err dependency_cycle) × (¬ IsAcyclic edges 0))
plan_decides_example = plan_decides inserted 0 edges

-- The set listed backwards.
abbrev backwards : SetOrder
backwards = record { enumerate = reverse; same = count-reverse }

run_backwards : cascade backwards 0 nodes edges ≡ ok (final, changes)
unfolding program
run_backwards = refl

known : IsKnown nodes edges
known e (Memᴰ.head p) = rw p (λ h. cc, λ h. cc)
known e (Memᴰ.tail (Memᴰ.head p)) = rw p (λ h. cc, λ h. cc)
known e (Memᴰ.tail (Memᴰ.tail (Memᴰ.head p))) = rw p (λ h. cc, λ h. cc)
known e (Memᴰ.tail (Memᴰ.tail (Memᴰ.tail m))) = elim m [ ]

cascade_outcomes_example :
    (IsAcyclic edges 0
      × (((r : Nodes × List ScheduleChange) × (cascade inserted 0 nodes edges ≡ ok r))
          ⊎ (cascade inserted 0 nodes edges ≡ err overflow_error)))
    ⊎ ((¬ IsAcyclic edges 0) × (cascade inserted 0 nodes edges ≡ err dependency_cycle))
cascade_outcomes_example = cascade_outcomes inserted 0 nodes edges known

cascade-refines_example :
    IsSchedule edges 0 nodes final
    × ((after : Nodes)
        → IsSchedule edges 0 nodes after
        → (v : ℕ) → Downstream edges 0 v
        → Before (final v) (after v))
cascade-refines_example = cascade-refines inserted 0 nodes edges run

cascade_again_example : cascade backwards 0 final edges ≡ ok (final, [])
cascade_again_example = cascade_again inserted backwards 0 nodes edges run
