-- ===== src/Cascade/Types.antt =====
-- The data classes of services/worker/src/cascade.py, its two dictionaries of edges, and the
-- orders in which Python may list a set. A task id is the number of its UUID.
use workfront_system.Base.{
  ℕ, ◌≡◌, refl, Option, some, none, List, [], ◌∷◌, ◌++◌, foldl, arith, ℤ, sub_ℕ, ◌==◌,
  if◌then◌else◌, count, filter, Outcome, ok, err, key_error, append-right-nil, append-right_assoc,
  Memᴰ, Memᴰ-filter, ◌↔◌, ==_iff, true, contains, map, Bool-cases, inl, inr,
}

pub data DepType : Type 0 where
  fs ss ff sf : DepType

pub record TaskNode : Type 0 where
  pub task_id : ℕ
  pub start : ℕ
  pub finish : ℕ

abbrev pub duration : TaskNode → ℤ
duration n = sub_ℕ n.finish n.start

pub record DepEdge : Type 0 where
  pub predecessor_id : ℕ
  pub successor_id : ℕ
  pub type : DepType
  pub lag : ℤ

pub record ScheduleChange : Type 0 where
  pub task_id : ℕ
  pub new_start : ℕ
  pub new_finish : ℕ

-- d[k] = v
abbrev pub update {ℓ} : {V : Type ℓ} → (ℕ → V) → ℕ → V → ℕ → V
update f k v a = if k == a then v else f a

-- dict[str, TaskNode]
abbrev pub Nodes : Type 0
Nodes = ℕ → Option TaskNode

-- nodes[tid]
abbrev pub get_node : Nodes → ℕ → Outcome TaskNode
get_node nodes tid = elim (nodes tid) [ none ↦ err key_error | some n ↦ ok n ]

-- `d[key(e)].append(e)` for each edge, on a defaultdict of lists
abbrev pub index_edge : (DepEdge → ℕ) → (ℕ → List DepEdge) → DepEdge → ℕ → List DepEdge
index_edge key d e = update d (key e) (d (key e) ++ e ∷ [])

unfoldable pub index_edges : (DepEdge → ℕ) → List DepEdge → ℕ → List DepEdge
index_edges key edges = foldl (index_edge key) (λ _. []) edges

index_edges_from :
    (key : DepEdge → ℕ) (edges : List DepEdge) (d : ℕ → List DepEdge) (a : ℕ)
    → foldl (index_edge key) d edges a ≡ d a ++ filter (λ e. key e == a) edges
index_edges_from key [] d a = append-right-nil (d a)
index_edges_from key (e ∷ es) d a = ground (
  arith,
  index_edges_from key es (index_edge key d e) a,
  append-right_assoc (d a) e (filter (λ x. key x == a) es),
)

-- The entry of a key is the edges with that key, in their order.
pub index_edges-filter :
    (key : DepEdge → ℕ) (edges : List DepEdge) (a : ℕ)
    → index_edges key edges a ≡ filter (λ e. key e == a) edges
unfolding index_edges
index_edges-filter key edges a = index_edges_from key edges (λ _. []) a

-- An order in which a set lists its elements: each of them, as often as it was there.
pub record SetOrder : Type 0 where
  pub enumerate : List ℕ → List ℕ
  pub same : (xs : List ℕ) (a : ℕ) → count (enumerate xs) a ≡ count xs a

-- The order of insertion is one.
abbrev pub inserted : SetOrder
inserted = record { enumerate = λ xs. xs; same = λ _ _. refl }

-- The successor ids of some edges.
abbrev pub targets : List DepEdge → List ℕ
targets edges = map (λ e. e.successor_id) edges

-- A transitive successor of the root: it ends a walk of one edge or more.
pub data Downstream (edges : List DepEdge) (root_id : ℕ) : ℕ → Type 0 where
  direct :
      {v : ℕ} (e : DepEdge)
      → Memᴰ e edges
      → e.predecessor_id ≡ root_id
      → e.successor_id ≡ v
      → Downstream edges root_id v
  further :
      {u v : ℕ}
      → Downstream edges root_id u
      → (e : DepEdge) → Memᴰ e edges
      → e.predecessor_id ≡ u
      → e.successor_id ≡ v
      → Downstream edges root_id v

-- What `edges` with one key are, as members.
pub Memᴰ-index_edges :
    (key : DepEdge → ℕ) (edges : List DepEdge) (a : ℕ) (e : DepEdge)
    → Memᴰ e (index_edges key edges a) ↔ (Memᴰ e edges × (key e ≡ a))
Memᴰ-index_edges key edges a e = rw (index_edges-filter key edges a) (
    (
      λ m.
          let (found, test) = (Memᴰ-filter (λ x. key x == a) e edges).0 m in
          (found, (==_iff (key e) a).0 test),
      λ (m, k). (Memᴰ-filter (λ x. key x == a) e edges).1 (m, (==_iff (key e) a).1 k),
    ))

pub contains-targets :
    (edges : List DepEdge) (v : ℕ)
    → contains (targets edges) v ≡ true
    → (e : DepEdge) × Memᴰ e edges × (e.successor_id ≡ v)
contains-targets [] v h = cc
contains-targets (e ∷ es) v h = elim (Bool-cases (e.successor_id == v)) [
  | inl here ↦ (e, Memᴰ.head refl, (==_iff e.successor_id v).0 here)
  | inr there ↦ let (x, m, p) = contains-targets es v (ground arith) in (x, Memᴰ.tail m, p)
]

pub contains-targets_of_mem :
    (edges : List DepEdge) (e : DepEdge)
    → Memᴰ e edges
    → contains (targets edges) e.successor_id ≡ true
contains-targets_of_mem [] e m = elim m [ ]
contains-targets_of_mem (x ∷ xs) e (Memᴰ.head p) = rw p (ground arith)
contains-targets_of_mem (x ∷ xs) e (Memᴰ.tail m) = ground (arith, contains-targets_of_mem xs e m)
