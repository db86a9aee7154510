-- ===== src/Cascade/Recompute/Constraints.antt =====
-- The dependency semantics that the docstring of services/worker/src/cascade.py states, and that a
-- settled task meets it.
use workfront_system.Base.{
  ℕ, ◌+◌, ◌≤◌, ◌≡◌, refl, sym, ap, ◌∙◌, subst, true, false, inl, inr, List, [], ◌∷◌, foldl, Memᴰ,
  arith, if◌then◌else◌, ltb, Option, some, none, ok, >>=-eq-ok, ok-injective, ℤ, pos_part, neg_part,
  add_delta, add_delta_parts, sub_delta_parts, sub_ℕ_parts, ◌⊎◌, ⊎_elim, Bool-cases,
}
use mathlib.Core.List.Memᴰ
use workfront_system.Cascade.Types.{
  DepType, fs, ss, ff, sf, TaskNode, DepEdge, Nodes, duration, get_node,
}
use workfront_system.Cascade.Recompute.{candidate, candidates, maximum, earliest_start}
use workfront_system.Cascade.Recompute.Step.{IsSettled, Agrees, get_node-eq-ok}

-- What a dependency of each type asks of the predecessor `p`, the successor `n` and the lag. A
-- negative lag stands on the other side.
abbrev pub Respects : DepType → ℤ → TaskNode → TaskNode → Type 0
Respects fs lag p n = p.finish + pos_part lag ≤ n.start + neg_part lag
Respects ss lag p n = p.start + pos_part lag ≤ n.start + neg_part lag
Respects ff lag p n = p.finish + pos_part lag ≤ n.finish + neg_part lag
Respects sf lag p n = p.start + pos_part lag ≤ n.finish + neg_part lag

-- The dependency holds with equality: it is the one that binds.
abbrev pub Binds : DepType → ℤ → TaskNode → TaskNode → Type 0
Binds fs lag p n = p.finish + pos_part lag ≡ n.start + neg_part lag
Binds ss lag p n = p.start + pos_part lag ≡ n.start + neg_part lag
Binds ff lag p n = p.finish + pos_part lag ≡ n.finish + neg_part lag
Binds sf lag p n = p.start + pos_part lag ≡ n.finish + neg_part lag

candidate-Respects :
    (t : DepType) (n p : TaskNode) (e : DepEdge) {c : ℕ}
    → candidate t n p e ≡ ok c
    → (c ≤ n.start → Respects t e.lag p n) × (c ≡ n.start → Binds t e.lag p n)
unfolding candidate
candidate-Respects fs n p e h = omega (arith, add_delta_parts p.finish e.lag h)
candidate-Respects ss n p e h = omega (arith, add_delta_parts p.start e.lag h)
candidate-Respects ff n p e h =
    let (t, first, second) = >>=-eq-ok (add_delta p.finish e.lag) _ h in
    omega (
      arith,
      add_delta_parts p.finish e.lag first,
      sub_delta_parts t (duration n) second,
      sub_ℕ_parts n.finish n.start,
    )
candidate-Respects sf n p e h =
    let (t, first, second) = >>=-eq-ok (add_delta p.start e.lag) _ h in
    omega (
      arith,
      add_delta_parts p.start e.lag first,
      sub_delta_parts t (duration n) second,
      sub_ℕ_parts n.finish n.start,
    )

abbrev larger : ℕ → ℕ → ℕ
larger m y = if ltb m y then y else m

foldl-larger-le :
    (xs : List ℕ) (m : ℕ) → (m ≤ foldl larger m xs) × ((c : ℕ) → Memᴰ c xs → c ≤ foldl larger m xs)
foldl-larger-le [] m = (omega arith, λ c h. elim h [ ])
foldl-larger-le (x ∷ xs) m =
    let rest = foldl-larger-le xs (larger m x) in
    (ground (arith, rest.0), λ c h. go c h rest.0 rest.1)
  where
    go :
        (c : ℕ)
        → Memᴰ c (x ∷ xs)
        → larger m x ≤ foldl larger (larger m x) xs
        → ((d : ℕ) → Memᴰ d xs → d ≤ foldl larger (larger m x) xs)
        → c ≤ foldl larger (larger m x) xs
    go c (Memᴰ.head e) low all = ground arith
    go c (Memᴰ.tail h) low all = all c h

foldl-larger-mem : (xs : List ℕ) (m : ℕ) → (foldl larger m xs ≡ m) ⊎ Memᴰ (foldl larger m xs) xs
foldl-larger-mem [] m = inl refl
foldl-larger-mem (x ∷ xs) m = elim (foldl-larger-mem xs (larger m x)) [
  | inr later ↦ inr (Memᴰ.tail later)
  | inl here ↦ pick (Bool-cases (ltb m x)) here
]
  where
    pick :
        (ltb m x ≡ true) ⊎ (ltb m x ≡ false)
        → foldl larger (larger m x) xs ≡ larger m x
        → (foldl larger (larger m x) xs ≡ m) ⊎ Memᴰ (foldl larger (larger m x) xs) (x ∷ xs)
    pick (inl e) h = inr (Memᴰ.head (ground arith))
    pick (inr e) h = inl (ground arith)

-- max() of the candidates is one of them, and none is larger.
maximum_lem :
    (cs : List ℕ) {m : ℕ} → maximum cs ≡ some m → Memᴰ m cs × ((c : ℕ) → Memᴰ c cs → c ≤ m)
unfolding maximum
maximum_lem [] h = cc
maximum_lem (x ∷ xs) {m} h =
    let low = foldl-larger-le xs x in
    let top : foldl larger x xs ≡ m = cc in
    subst (λ k. Memᴰ k (x ∷ xs) × ((c : ℕ) → Memᴰ c (x ∷ xs) → c ≤ k)) top
      (⊎_elim Memᴰ.head Memᴰ.tail (foldl-larger-mem xs x), λ c h. bound c h low.0 low.1)
  where
    bound :
        (c : ℕ)
        → Memᴰ c (x ∷ xs)
        → x ≤ foldl larger x xs
        → ((d : ℕ) → Memᴰ d xs → d ≤ foldl larger x xs)
        → c ≤ foldl larger x xs
    bound c (Memᴰ.head e) low all = omega arith
    bound c (Memᴰ.tail h) low all = all c h

-- Each predecessor edge has its candidate, from the predecessor's node.
pub record Constrains (n : TaskNode) (nodes : Nodes) (e : DepEdge) (c : ℕ) : Type 0 where
  pub node : TaskNode
  pub found : nodes e.predecessor_id ≡ some node
  pub value : candidate e.type n node e ≡ ok c

module _ (n : TaskNode) (nodes : Nodes) where
  candidates-head :
      (e : DepEdge) (preds : List DepEdge) {cs : List ℕ}
      → candidates n (e ∷ preds) nodes ≡ ok cs
      → (c : ℕ) × (rest : List ℕ) × Constrains n nodes e c
        × (candidates n preds nodes ≡ ok rest)
        × (c ∷ rest ≡ cs)
  unfolding candidates
  candidates-head e preds h =
      let (p, got, h1) = >>=-eq-ok (get_node nodes e.predecessor_id) _ h in
      let (c, value, h2) = >>=-eq-ok (candidate e.type n p e) _ h1 in
      let (rest, tail, done) = >>=-eq-ok (candidates n preds nodes) _ h2 in
      (
        c,
        rest,
        record { node = p; found = get_node-eq-ok nodes e.predecessor_id got; value = value },
        tail,
        ok-injective done,
      )

  candidates-mem :
      (preds : List DepEdge) {cs : List ℕ}
      → candidates n preds nodes ≡ ok cs
      → (e : DepEdge) → Memᴰ e preds
      → (c : ℕ) × Memᴰ c cs × Constrains n nodes e c
  candidates-mem [] h e m = elim m [ ]
  candidates-mem (x ∷ preds) h e (Memᴰ.head same) =
      let (c, rest, con, tail, eq) = candidates-head x preds h in
      (c, subst (Memᴰ c) eq (Memᴰ.head refl), subst (λ y. Constrains n nodes y c) (sym same) con)
  candidates-mem (x ∷ preds) h e (Memᴰ.tail m) =
      let (c, rest, con, tail, eq) = candidates-head x preds h in
      let (d, there, con') = candidates-mem preds tail e m in
      (d, subst (Memᴰ d) eq (Memᴰ.tail there), con')

  candidates-of_mem :
      (preds : List DepEdge) (cs : List ℕ)
      → candidates n preds nodes ≡ ok cs
      → (c : ℕ) → Memᴰ c cs
      → (e : DepEdge) × Memᴰ e preds × Constrains n nodes e c
  unfolding candidates
  candidates-of_mem [] cs h c m = absurd (Memᴰ.not-nil (subst (Memᴰ c) (sym (ok-injective h)) m))
  candidates-of_mem (x ∷ preds) cs h c m =
      let (d, rest, con, tail, eq) = candidates-head x preds h in
      ⊎_elim (λ here. (x, Memᴰ.head refl, subst (Constrains n nodes x) (sym here) con))
        (λ later.
          let (e, found, con') = candidates-of_mem preds rest tail c later in
          (e, Memᴰ.tail found, con'))
        (Memᴰ.cases_cons (subst (Memᴰ c) (sym eq) m))

maximum-none : (cs : List ℕ) {c : ℕ} → maximum cs ≡ none → Memᴰ c cs → ⊥
unfolding maximum
maximum-none [] h m = Memᴰ.not-nil m
maximum-none (x ∷ xs) h m = cc

-- The final nodes of an edge's two ends, and what holds of them.
pub record Between (R : DepType → ℤ → TaskNode → TaskNode → Type 0) (nodes : Nodes) (e : DepEdge)
    (tid : ℕ) : Type 0 where
  pub predecessor : TaskNode
  pub successor : TaskNode
  pub pred_found : nodes e.predecessor_id ≡ some predecessor
  pub succ_found : nodes tid ≡ some successor
  pub holds : R e.type e.lag predecessor successor

module _ {preds : List DepEdge} {nodes : Nodes} {tid : ℕ} (s : IsSettled preds nodes tid)
    (e : DepEdge) (m : Memᴰ e preds) where
  -- With a predecessor there is a new start, which stands in the node.
  settled_start :
      (cs : List ℕ) × (candidates s.node preds nodes ≡ ok cs) × (maximum cs ≡ some s.node.start)
  unfolding earliest_start
  settled_start =
      let (cs, cands, done) = >>=-eq-ok (candidates s.node preds nodes) _ s.computed in
      let (c, listed, con) = candidates-mem s.node nodes preds cands e m in
      (cs, cands, from cs s.target (ok-injective done) s.agrees (λ z. maximum-none cs z listed))
    where
      from :
          (cs : List ℕ) (target : Option ℕ)
          → maximum cs ≡ target
          → Agrees target s.node.start
          → (maximum cs ≡ none → ⊥)
          → maximum cs ≡ some s.node.start
      from cs none h agrees empty = absurd (empty h)
      from cs (some x) h agrees empty = h ∙ ap some agrees

  pub IsSettled-some : earliest_start s.node preds nodes ≡ ok (some s.node.start)
  unfolding earliest_start
  IsSettled-some = let (cs, cands, top) = settled_start in rw (cands, top)

  pub IsSettled-Respects : Between Respects nodes e tid
  IsSettled-Respects =
      let (cs, cands, top) = settled_start in
      let (c, listed, con) = candidates-mem s.node nodes preds cands e m in
      record {
        predecessor = con.node;
        successor = s.node;
        pred_found = con.found;
        succ_found = s.found;
        holds =
            (candidate-Respects e.type s.node con.node e con.value).0
              ((maximum_lem cs top).1 c listed);
      }

  pub IsSettled-Binds : (b : DepEdge) × Memᴰ b preds × Between Binds nodes b tid
  IsSettled-Binds =
      let (cs, cands, top) = settled_start in
      let (b, listed, con) =
        candidates-of_mem s.node nodes preds cs cands s.node.start (maximum_lem cs top).0 in
      (
        b,
        listed,
        record {
          predecessor = con.node;
          successor = s.node;
          pred_found = con.found;
          succ_found = s.found;
          holds = (candidate-Respects b.type s.node con.node b con.value).1 refl;
        },
      )
