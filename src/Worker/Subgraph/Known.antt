-- ===== src/Worker/Subgraph/Known.antt =====
-- The subgraph that the handler loads is closed: `cascade` finds each node that an edge names, and
-- the handler finds each task that `cascade` reports.
use workfront_system.Base.{
  ℕ, ◌≡◌, ◌≢◌, refl, sym, ap, ◌∙◌, some-injective, none≢some, subst, true, inl, inr, ◌⊎◌, ⊎_elim,
  Option, some, none, List, [], ◌∷◌, foldl, Memᴰ, arith, filter, Memᴰ-filter, is_some, ◌==◌,
  Bool-cases, Option-cases, ok,
}
use mathlib.Core.List.Memᴰ
use workfront_system.Cascade.Types.{DepEdge, TaskNode, ScheduleChange, Nodes, SetOrder, update}
use workfront_system.Cascade.Recompute.{append_change}
use workfront_system.Cascade.Recompute.Step.{difference}
use workfront_system.Cascade.Recompute.Final.{differences}
use workfront_system.Cascade.Run.{cascade}
use workfront_system.Cascade.Run.Raises.{IsKnown}
use workfront_system.Cascade.Run.Result.{cascade-differences}
use workfront_system.Store.Models.{Task, Predecessor}
use workfront_system.Store.Database.{Dirty}
use workfront_system.Worker.Subgraph.{
  by_id, nodes_of, edge_of, has_nodes, edges_of, assign, task_node, moved,
}

by_id_from :
    (tasks : List Task) (d : ℕ → Option Task) (a : ℕ) {t : Task}
    → ((b : ℕ) (u : Task) → d b ≡ some u → u.id ≡ b)
    → foldl (λ d t. update d t.id (some t)) d tasks a ≡ some t
    → t.id ≡ a
by_id_from [] d a h e = h a _ e
by_id_from (x ∷ tasks) d a h e =
    by_id_from tasks (update d x.id (some x)) a (λ b u found. ground (arith, h b u)) e

-- A loaded task stands under its own id.
pub by_id-id : (tasks : List Task) (a : ℕ) {t : Task} → by_id tasks a ≡ some t → t.id ≡ a
unfolding by_id
by_id-id tasks a h = by_id_from tasks (λ _. none) a (λ b u e. cc) h

by_id_from-mem :
    (tasks : List Task) (d : ℕ → Option Task) (a : ℕ) {t : Task}
    → foldl (λ d t. update d t.id (some t)) d tasks a ≡ some t
    → (d a ≡ some t) ⊎ Memᴰ t tasks
by_id_from-mem [] d a e = inl e
by_id_from-mem (x ∷ tasks) d a {t} e = elim (by_id_from-mem tasks (update d x.id (some x)) a e) [
  | inr later ↦ inr (Memᴰ.tail later)
  | inl here ↦ elim (Bool-cases (x.id == a)) [
    | inl own ↦ inr (Memᴰ.head (some-injective (sym here ∙ rw own refl)))
    | inr other ↦ inl (sym (rw other refl) ∙ here)
  ]
]

-- It is one of those that were selected.
pub by_id-mem : (tasks : List Task) (a : ℕ) {t : Task} → by_id tasks a ≡ some t → Memᴰ t tasks
unfolding by_id
by_id-mem tasks a {t} h = elim (by_id_from-mem tasks (λ _. none) a h) [
  | inl absent ↦ absurd (none≢some absent)
  | inr listed ↦ listed
]

some≢none {ℓ} : {A : Type ℓ} (o : Option A) → is_some o ≡ true → o ≢ none
some≢none none h e = cc
some≢none (some a) h e = cc

pub edges_of-IsKnown :
    (nodes : Nodes) (rows : List Predecessor) → IsKnown nodes (edges_of nodes rows)
unfolding edges_of
edges_of-IsKnown nodes rows e m =
    let (row, kept, same) = Memᴰ.of_map edge_of (filter (has_nodes nodes) rows) m in
    let (_, both) = (Memᴰ-filter (has_nodes nodes) row rows).0 kept in
    (
      some≢none (nodes e.predecessor_id) (rw (← same) (ground arith)),
      some≢none (nodes e.successor_id) (rw (← same) (ground arith)),
    )

append_change-cases :
    (o : Option ScheduleChange) (changes : List ScheduleChange) (ch : ScheduleChange)
    → Memᴰ ch (append_change o changes)
    → (o ≡ some ch) ⊎ Memᴰ ch changes
append_change-cases none changes ch m = inr m
append_change-cases (some c) changes ch m =
    ⊎_elim (λ e. inl (ap some (sym e))) inr (Memᴰ.cases_cons m)

difference-found :
    (t : ℕ) (before after : Option TaskNode) (ch : ScheduleChange)
    → difference t before after ≡ some ch
    → (before ≢ none) × (t ≡ ch.task_id)
difference-found t none after ch h = cc
difference-found t (some b) none ch h = cc
difference-found t (some b) (some n) ch h = elim (Bool-cases (n.start == b.start)) [
  | inl same ↦ ground arith
  | inr moved ↦ (λ e. cc, ground arith)
]

differences-found :
    (topo : List ℕ) (before after : Nodes) (ch : ScheduleChange)
    → Memᴰ ch (differences topo before after)
    → before ch.task_id ≢ none
differences-found [] before after ch m = absurd (Memᴰ.not-nil m)
differences-found (t ∷ ts) before after ch m =
    let change = difference t (before t) (after t) in
    ⊎_elim
      (λ here.
        let (found, same) = difference-found t (before t) (after t) ch here in
        subst (λ a. before a ≢ none) same found)
      (differences-found ts before after ch)
      (append_change-cases change (differences ts before after) ch m)

-- Each change that `cascade` reports is of a loaded task.
pub cascade-found :
    (order : SetOrder) (root_id : ℕ) (tasks : ℕ → Option Task) (edges : List DepEdge)
    {final : Nodes} {changes : List ScheduleChange}
    → cascade order root_id (nodes_of tasks) edges ≡ ok (final, changes)
    → (ch : ScheduleChange) → Memᴰ ch changes
    → tasks ch.task_id ≢ none
unfolding nodes_of
cascade-found order root_id tasks edges h ch m absent =
    let (topo, p, same) = cascade-differences order root_id (nodes_of tasks) edges h in
    differences-found topo (nodes_of tasks) _ ch (subst (Memᴰ ch) same m)
      (ap (task_node ch.task_id) absent)

pub assign-returns :
    (tasks : ℕ → Option Task) (changes : List ScheduleChange)
    → ((ch : ScheduleChange) → Memᴰ ch changes → tasks ch.task_id ≢ none)
    → (ds : List Dirty) × (assign tasks changes ≡ ok ds)
unfolding assign
assign-returns tasks [] h = ([], refl)
assign-returns tasks (ch ∷ changes) h = elim (Option-cases (tasks ch.task_id)) [
  | inl absent ↦ absurd (h ch (Memᴰ.head refl) absent)
  | inr (t, found) ↦
      let (ds, rest) = assign-returns tasks changes (λ x m. h x (Memᴰ.tail m)) in
      (moved t ch ∷ ds, ground (arith, found, rest))
]
