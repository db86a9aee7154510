-- ===== src/Cascade/Recompute/Raises.antt =====
-- Step 3 of `cascade` raises KeyError for an id without a node, and OverflowError for a date out of
-- range, and nothing else.
use workfront_system.Base.{
  ℕ, ◌≡◌, ◌≢◌, refl, sym, subst, true, inl, inr, List, [], ◌∷◌, Memᴰ, arith, ◌==◌, contains,
  Bool-cases, Option-cases, Option, some, none, Outcome, ok, err, overflow_error, ◌>>=◌, add_delta,
  sub_delta, ℤ,
}
use workfront_system.Cascade.Types.{
  DepType, fs, ss, ff, sf, TaskNode, DepEdge, Nodes, duration, get_node,
}
use workfront_system.Cascade.Recompute.{
  candidate, candidates, earliest_start, place, visit, recompute,
}

-- The computation returns a value with `P`, or it raises OverflowError.
abbrev pub Returns {ℓ} : {A : Type ℓ} → (A → Type 0) → Outcome A → Type 0
Returns P (ok a) = P a
Returns P (err x) = x ≡ overflow_error

>>=-Returns {ℓ κ} :
    {A : Type ℓ} {B : Type κ} (P : A → Type 0) (Q : B → Type 0) (m : Outcome A) (f : A → Outcome B)
    → Returns P m
    → ((a : A) → P a → Returns Q (f a))
    → Returns Q (m >>= f)
>>=-Returns P Q (ok a) f h k = k a h
>>=-Returns P Q (err x) f h k = h

abbrev Any {ℓ} : {A : Type ℓ} → A → Type 0
Any a = Unit

add_delta-Returns : (t : ℕ) (d : ℤ) → Returns Any (add_delta t d)
unfolding add_delta
add_delta-Returns t d = ground arith

sub_delta-Returns : (t : ℕ) (d : ℤ) → Returns Any (sub_delta t d)
unfolding sub_delta
sub_delta-Returns t d = ground arith

candidate-Returns : (t : DepType) (n p : TaskNode) (e : DepEdge) → Returns Any (candidate t n p e)
unfolding candidate
candidate-Returns fs n p e = add_delta-Returns p.finish e.lag
candidate-Returns ss n p e = add_delta-Returns p.start e.lag
candidate-Returns ff n p e =
    >>=-Returns Any Any (add_delta p.finish e.lag) _ (add_delta-Returns p.finish e.lag)
      (λ t _. sub_delta-Returns t (duration n))
candidate-Returns sf n p e =
    >>=-Returns Any Any (add_delta p.start e.lag) _ (add_delta-Returns p.start e.lag)
      (λ t _. sub_delta-Returns t (duration n))

get_node-Returns : (nodes : Nodes) (a : ℕ) → nodes a ≢ none → Returns Any (get_node nodes a)
get_node-Returns nodes a h = elim (Option-cases (nodes a)) [
  | inl absent ↦ absurd (h absent)
  | inr (n, e) ↦
      let got : get_node nodes a ≡ ok n = ground (arith, e) in subst (Returns Any) (sym got) tt
]

candidates-Returns :
    (n : TaskNode) (preds : List DepEdge) (nodes : Nodes)
    → ((e : DepEdge) → Memᴰ e preds → nodes e.predecessor_id ≢ none)
    → Returns Any (candidates n preds nodes)
unfolding candidates
candidates-Returns n [] nodes h = tt
candidates-Returns n (e ∷ preds) nodes h =
    >>=-Returns Any Any (get_node nodes e.predecessor_id) _
      (get_node-Returns nodes e.predecessor_id (h e (Memᴰ.head refl)))
      (λ p _.
        >>=-Returns Any Any (candidate e.type n p e) _ (candidate-Returns e.type n p e) (λ c _.
          >>=-Returns Any Any (candidates n preds nodes) _
            (candidates-Returns n preds nodes (λ x m. h x (Memᴰ.tail m))) (λ cs _. tt)))

-- Every id that has a node before has one after.
abbrev pub Extends : Nodes → Nodes → Type 0
Extends before after = (a : ℕ) → before a ≢ none → after a ≢ none

place-Returns :
    (nodes : Nodes) (tid : ℕ) (node : TaskNode) (target : Option ℕ)
    → Returns (λ r. Extends nodes r.0) (place nodes tid node target)
unfolding place
place-Returns nodes tid node none = λ a h. h
place-Returns nodes tid node (some s) = elim (Bool-cases (s == node.start)) [
  | inl same ↦ rw same (λ a h. h)
  | inr changed ↦ rw changed (
      >>=-Returns Any (λ r. Extends nodes r.0) (add_delta s (duration node)) _
        (add_delta-Returns s (duration node)) (λ f _ a h. ground arith))
]

visit-Returns :
    (predecessors : ℕ → List DepEdge) (nodes : Nodes) (tid : ℕ)
    → nodes tid ≢ none
    → ((e : DepEdge) → Memᴰ e (predecessors tid) → nodes e.predecessor_id ≢ none)
    → Returns (λ r. Extends nodes r.0) (visit predecessors nodes tid)
unfolding visit
visit-Returns predecessors nodes tid here h =
    >>=-Returns Any (λ r. Extends nodes r.0) (get_node nodes tid) _
      (get_node-Returns nodes tid here)
      (λ n _.
        >>=-Returns Any (λ r. Extends nodes r.0) (earliest_start n (predecessors tid) nodes) _
          (>>=-Returns Any Any (candidates n (predecessors tid) nodes) _
            (candidates-Returns n (predecessors tid) nodes h) (λ cs _. tt))
          (λ target _. place-Returns nodes tid n target))

pub recompute-Returns :
    (predecessors : ℕ → List DepEdge) (topo : List ℕ) (nodes : Nodes)
    → ((t : ℕ)
        → contains topo t ≡ true
        → (nodes t ≢ none)
          × ((e : DepEdge) → Memᴰ e (predecessors t) → nodes e.predecessor_id ≢ none))
    → Returns Any (recompute predecessors topo nodes)
unfolding recompute
recompute-Returns predecessors [] nodes h = tt
recompute-Returns predecessors (t ∷ ts) nodes h =
    let (here, preds) = h t (ground arith) in
    >>=-Returns (λ r. Extends nodes r.0) Any (visit predecessors nodes t) _
      (visit-Returns predecessors nodes t here preds)
      (λ r keeps.
        >>=-Returns Any Any (recompute predecessors ts r.0) _
          (recompute-Returns predecessors ts r.0 (λ u c.
            let (known, known_preds) = h u (ground arith) in
            (keeps u known, λ e m. keeps e.predecessor_id (known_preds e m))))
          (λ r' _. tt))
