-- ===== src/Store/Selection.antt =====
-- The selection of the tasks of a project, and of the dependencies into some tasks, from the database in memory.
use workfront_system.Base.{
  ℕ, ◌≡◌, refl, sym, ap, ◌∙◌, subst, true, inl, inr, Option, some, List, [], ◌∷◌, Memᴰ, filter,
  arith, ◌==◌, ==_iff, ==_refl, contains, Bool-cases, Option-cases, true≢false, Memᴰ-filter,
  contains-Mem, Mem-contains,
}
use mathlib.Core.List.Memᴰ
use workfront_system.Store.Models.{Task, Predecessor}
use workfront_system.Store.Tables.{Tables, stored, rows, stored-id, stored-some}

abbrev pub tasks_of_project : Tables → ℕ → List Task
tasks_of_project s p = filter (λ t. t.project_id == p) (rows (stored s) s.task_ids)

rows-selected :
    (get : ℕ → Option Task) (ids : List ℕ) (t : Task)
    → Memᴰ t (rows get ids)
    → (a : ℕ) × (get a ≡ some t)
rows-selected get [] t m = elim m [ ]
rows-selected get (a ∷ ids) t m = elim (Option-cases (get a)) [
  | inl absent ↦ rows-selected get ids t (subst (Memᴰ t) (rw (rows, absent) refl) m)
  | inr (row, found) ↦ elim (Memᴰ.cases_cons (subst (Memᴰ t) (rw (rows, found) refl) m)) [
    | inl same ↦ (a, found ∙ ap some (sym same))
    | inr later ↦ rows-selected get ids t later
  ]
]

rows-complete :
    (get : ℕ → Option Task) (ids : List ℕ) (a : ℕ) (t : Task)
    → get a ≡ some t
    → contains ids a ≡ true
    → Memᴰ t (rows get ids)
rows-complete get [] a t found listed = absurd (true≢false (sym listed))
rows-complete get (b ∷ ids) a t found listed = elim (Bool-cases (b == a)) [
  | inl own ↦
      let here = ap get ((==_iff b a).0 own) ∙ found in
      subst (Memᴰ t) (rw (rows, here) refl) (Memᴰ.head {xs = rows get ids} refl)
  | inr other ↦
      let rest = rows-complete get ids a t found (ground (arith, listed, other)) in
      elim (Option-cases (get b)) [
        | inl absent ↦ subst (Memᴰ t) (rw (rows, absent) refl) rest
        | inr (row, there) ↦ subst (Memᴰ t) (rw (rows, there) refl) (Memᴰ.tail {x = row} rest)
      ]
]

pub tasks_selected_lem :
    (s : Tables) (p : ℕ) (t : Task)
    → Memᴰ t (tasks_of_project s p)
    → (stored s t.id ≡ some t) × (t.project_id ≡ p)
tasks_selected_lem s p t m =
    let (listed, own) = (Memᴰ-filter (λ x. x.project_id == p) t (rows (stored s) s.task_ids)).0 m in
    let (a, found) = rows-selected (stored s) s.task_ids t listed in
    (
      subst (λ b. stored s b ≡ some t) (sym (stored-id s a found)) found,
      (==_iff t.project_id p).0 own,
    )

pub tasks_complete_lem :
    (s : Tables) (a : ℕ) (t : Task) → stored s a ≡ some t → Memᴰ t (tasks_of_project s t.project_id)
tasks_complete_lem s a t found =
    (Memᴰ-filter (λ x. x.project_id == t.project_id) t (rows (stored s) s.task_ids)).1
      (rows-complete (stored s) s.task_ids a t found (stored-some s a found), ==_refl t.project_id)

abbrev pub predecessors_into : Tables → List ℕ → List Predecessor
predecessors_into s ids = filter (λ e. contains ids e.successor_id) s.predecessors

pub edges_selected_lem :
    (s : Tables) (ids : List ℕ) (e : Predecessor)
    → Memᴰ e (predecessors_into s ids)
    → Memᴰ e.successor_id ids
edges_selected_lem s ids e m =
    contains-Mem ids e.successor_id
      ((Memᴰ-filter (λ x. contains ids x.successor_id) e s.predecessors).0 m).1

pub edges_complete_lem :
    (s : Tables) (ids others : List ℕ) (e : Predecessor)
    → Memᴰ e (predecessors_into s others)
    → Memᴰ e.successor_id ids
    → Memᴰ e (predecessors_into s ids)
edges_complete_lem s ids others e m listed =
    (Memᴰ-filter (λ x. contains ids x.successor_id) e s.predecessors).1 (
      ((Memᴰ-filter (λ x. contains others x.successor_id) e s.predecessors).0 m).0,
      Mem-contains ids e.successor_id listed,
    )
