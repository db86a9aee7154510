-- ===== src/Cascade/Recompute/Step.antt =====
-- One round of step 3 of `cascade`: what `visit` does to its task, and what it leaves alone.
use workfront_system.Base.{
  ℕ, ◌≡◌, refl, ap, ◌∙◌, false, inl, inr, List, [], ◌∷◌, Memᴰ, arith, if◌then◌else◌, ◌==◌, ==_iff,
  ==_refl, Bool-cases, Option-cases, Option, some, none, ok, ◌>>=◌, >>=-eq-ok, ok-injective, subst,
  add_delta, sub_delta, sub_ℕ-add_delta,
}
use workfront_system.Cascade.Types.{
  DepType, fs, ss, ff, sf, TaskNode, DepEdge, ScheduleChange, Nodes, duration, get_node, update,
}
use workfront_system.Cascade.Recompute.{
  candidate, candidates, maximum, earliest_start, place, visit,
}

pub get_node-eq-ok :
    (nodes : Nodes) (a : ℕ) {n : TaskNode} → get_node nodes a ≡ ok n → nodes a ≡ some n
get_node-eq-ok nodes a h = elim (Option-cases (nodes a)) [
  | inl absent ↦ ground arith
  | inr (m, e) ↦ ground arith
]

-- A constraint reads the task's duration only.
candidate-duration :
    (t : DepType) (n n' p : TaskNode) (e : DepEdge)
    → duration n ≡ duration n'
    → candidate t n p e ≡ candidate t n' p e
unfolding candidate
candidate-duration fs n n' p e h = refl
candidate-duration ss n n' p e h = refl
candidate-duration ff n n' p e h = ap (λ d. add_delta p.finish e.lag >>= λ t. sub_delta t d) h
candidate-duration sf n n' p e h = ap (λ d. add_delta p.start e.lag >>= λ t. sub_delta t d) h

candidates-same :
    (n n' : TaskNode) (preds : List DepEdge) (nodes nodes' : Nodes)
    → duration n ≡ duration n'
    → ((e : DepEdge) → Memᴰ e preds → nodes e.predecessor_id ≡ nodes' e.predecessor_id)
    → candidates n preds nodes ≡ candidates n' preds nodes'
unfolding candidates
candidates-same n n' [] nodes nodes' d h = refl
candidates-same n n' (e ∷ preds) nodes nodes' d h =
    let rest = candidates-same n n' preds nodes nodes' d (λ x m. h x (Memᴰ.tail m)) in
    let here = h e (Memᴰ.head refl) in
    elim (Option-cases (nodes' e.predecessor_id)) [
      | inl absent ↦ ground (arith, here)
      | inr (p, found) ↦ ground (arith, here, rest, candidate-duration e.type n n' p e d)
    ]

-- The new start depends on the task's duration and on its predecessors' nodes.
pub earliest_start-same :
    (n n' : TaskNode) (preds : List DepEdge) (nodes nodes' : Nodes)
    → duration n ≡ duration n'
    → ((e : DepEdge) → Memᴰ e preds → nodes e.predecessor_id ≡ nodes' e.predecessor_id)
    → earliest_start n preds nodes ≡ earliest_start n' preds nodes'
unfolding earliest_start
earliest_start-same n n' preds nodes nodes' d h =
    ap (λ r. r >>= λ cs. ok (maximum cs)) (candidates-same n n' preds nodes nodes' d h)

-- The start that was computed, if any, is the one that stands in the node.
abbrev pub Agrees : Option ℕ → ℕ → Type 0
Agrees none s = Unit
Agrees (some x) s = x ≡ s

-- The task's node has the start that `_earliest_start` computes for it.
pub record IsSettled (preds : List DepEdge) (nodes : Nodes) (tid : ℕ) : Type 0 where
  pub node : TaskNode
  pub found : nodes tid ≡ some node
  pub target : Option ℕ
  pub computed : earliest_start node preds nodes ≡ ok target
  pub agrees : Agrees target node.start

-- What the loop reports of a task, from its node before and after.
abbrev pub difference : ℕ → Option TaskNode → Option TaskNode → Option ScheduleChange
difference tid none after = none
difference tid (some b) none = none
difference tid (some b) (some n) =
    if n.start == b.start
    then none
    else some (record { task_id = tid; new_start = n.start; new_finish = n.finish })

-- The node keeps its id and its duration.
pub record Slides (before now : Option TaskNode) : Type 0 where
  pub old : TaskNode
  pub new : TaskNode
  pub was : before ≡ some old
  pub is : now ≡ some new
  pub kept : duration new ≡ duration old
  pub same_id : new.task_id ≡ old.task_id

pub record Visited (preds : List DepEdge) (nodes : Nodes) (tid : ℕ) (after : Nodes)
    (change : Option ScheduleChange) : Type 0 where
  pub others : (a : ℕ) → (tid == a) ≡ false → after a ≡ nodes a
  pub settled : IsSettled preds after tid
  pub slides : Slides (nodes tid) (after tid)
  pub reported : change ≡ difference tid (nodes tid) (after tid)

module _ (preds : List DepEdge) (nodes : Nodes) (tid : ℕ) (node : TaskNode)
    (found : nodes tid ≡ some node)
    (no_loop : (e : DepEdge) → Memᴰ e preds → (tid == e.predecessor_id) ≡ false) where
  stays :
      (target : Option ℕ)
      → earliest_start node preds nodes ≡ ok target
      → Agrees target node.start
      → Visited preds nodes tid nodes none
  stays target computed agrees = record {
    others = λ a h. refl;
    settled = record {
      node = node;
      found = found;
      target = target;
      computed = computed;
      agrees = agrees;
    };
    slides = record {
      old = node;
      new = node;
      was = found;
      is = found;
      kept = refl;
      same_id = refl;
    };
    reported = rw found (ground arith);
  }

  moves :
      (s f : ℕ)
      → earliest_start node preds nodes ≡ ok (some s)
      → (s == node.start) ≡ false
      → add_delta s (duration node) ≡ ok f
      → Visited preds nodes tid
          (update nodes tid (some (record node { start = s; finish = f })))
          (some (record { task_id = tid; new_start = s; new_finish = f }))
  moves s f computed changed added =
      let node' : TaskNode = record node { start = s; finish = f } in
      let after : Nodes = update nodes tid (some node') in
      let kept : duration node' ≡ duration node = sub_ℕ-add_delta s (duration node) added in
      let here : after tid ≡ some node' = rw (==_refl tid) in
      record {
        others = λ a h. rw h;
        settled = record {
          node = node';
          found = here;
          target = some s;
          computed =
              earliest_start-same node' node preds after nodes kept (λ e m. rw (no_loop e m))
              ∙ computed;
          agrees = refl;
        };
        slides = record {
          old = node;
          new = node';
          was = found;
          is = here;
          kept = kept;
          same_id = refl;
        };
        reported = rw (found, ==_refl tid, changed);
      }

  pub place-Visited :
      (target : Option ℕ) {after : Nodes} {change : Option ScheduleChange}
      → earliest_start node preds nodes ≡ ok target
      → place nodes tid node target ≡ ok (after, change)
      → Visited preds nodes tid after change
  unfolding place
  place-Visited none {after} {change} computed h =
      subst (λ r. Visited preds nodes tid r.0 r.1) (ok-injective h) (stays none computed tt)
  place-Visited (some s) {after} {change} computed h = elim (Bool-cases (s == node.start)) [
    | inl same ↦
        subst (λ r. Visited preds nodes tid r.0 r.1) (ok-injective (rw same at h))
          (stays (some s) computed ((==_iff s node.start).0 same))
    | inr changed ↦
        let (f, added, done) = >>=-eq-ok (add_delta s (duration node)) _ (rw changed at h) in
        subst (λ r. Visited preds nodes tid r.0 r.1) (ok-injective done)
          (moves s f computed changed added)
  ]

pub visit-Visited :
    (predecessors : ℕ → List DepEdge) (nodes : Nodes) (tid : ℕ) {after : Nodes}
    {change : Option ScheduleChange}
    → ((e : DepEdge) → Memᴰ e (predecessors tid) → (tid == e.predecessor_id) ≡ false)
    → visit predecessors nodes tid ≡ ok (after, change)
    → Visited (predecessors tid) nodes tid after change
unfolding visit
visit-Visited predecessors nodes tid no_loop h =
    let (node, got, h') = >>=-eq-ok (get_node nodes tid) _ h in
    let (target, computed, h'') = >>=-eq-ok (earliest_start node (predecessors tid) nodes) _ h' in
    place-Visited (predecessors tid) nodes tid node (get_node-eq-ok nodes tid got) no_loop target
      computed h''
