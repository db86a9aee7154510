-- ===== src/Cascade/Kahn/Relax.antt =====
-- What the counters of Kahn's algorithm hold (step 2 of `cascade`): the number of edges into a task
-- from affected tasks that are not yet in `topo`; and what one pass over a task's edges does.
use workfront_system.Base.{
  ℕ, zero, suc, ◌+◌, ◌≡◌, ◌≢◌, refl, sym, ap, ◌∙◌, Bool, true, false, ◌&&◌, not, List, [], ◌∷◌,
  ◌++◌, foldl, Memᴰ, arith, if◌then◌else◌, ◌==◌, contains, contains-append, contains-count, count,
  count-append, filter, Bool-cases, inl, inr, ℤ, pos, increment,
}
use workfront_system.Cascade.Types.{DepEdge, update, targets, index_edges, index_edges-filter}
use workfront_system.Cascade.Kahn.{Kahn, is_zero, count_edge, indegrees, relax}

abbrev pub is_waiting : List ℕ → List ℕ → ℕ → DepEdge → Bool
is_waiting affected topo m e =
    contains affected e.predecessor_id
    && not (contains topo e.predecessor_id)
    && e.successor_id == m

abbrev pub waiting : List ℕ → List ℕ → List DepEdge → ℕ → ℕ
waiting affected topo [] m = 0
waiting affected topo (e ∷ es) m =
    (if is_waiting affected topo m e then 1 else 0) + waiting affected topo es m

pub is_zero-pos : (n : ℕ) → is_zero (pos n) ≡ (n == 0)
is_zero-pos zero = refl
is_zero-pos (suc n) = ground arith

-- No edge waits: every affected predecessor is in `topo`.
pub waiting-zero :
    (affected topo : List ℕ) (es : List DepEdge) (e : DepEdge)
    → Memᴰ e es
    → waiting affected topo es e.successor_id ≡ 0
    → contains affected e.predecessor_id ≡ true
    → contains topo e.predecessor_id ≡ true
waiting-zero affected topo [] e m h c = elim m [ ]
waiting-zero affected topo (x ∷ xs) e (Memᴰ.head p) h c = ground (
  arith,
  ap (λ y. y.successor_id) p,
  ap (λ y. contains affected y.predecessor_id) p,
  ap (λ y. contains topo y.predecessor_id) p,
)
waiting-zero affected topo (x ∷ xs) e (Memᴰ.tail m) h c =
    ground (arith, waiting-zero affected topo xs e m)

-- Some edge waits: it can be named.
pub waiting-pos :
    (affected topo : List ℕ) (es : List DepEdge) (m : ℕ)
    → waiting affected topo es m ≢ 0
    → (e : DepEdge) × Memᴰ e es
      × (e.successor_id ≡ m)
      × (contains affected e.predecessor_id ≡ true)
      × (contains topo e.predecessor_id ≡ false)
waiting-pos affected topo [] m h = absurd (h refl)
waiting-pos affected topo (x ∷ xs) m h = elim (Bool-cases (is_waiting affected topo m x)) [
  | inl here ↦ (x, Memᴰ.head refl, ground arith, ground arith, ground arith)
  | inr there ↦
      let (e, found, to, inside, left) = waiting-pos affected topo xs m (ground arith) in
      (e, Memᴰ.tail found, to, inside, left)
]

counted :
    (affected : List ℕ) (d : ℕ → ℤ) (es : List DepEdge) (m k : ℕ)
    → contains affected m ≡ true
    → d m ≡ pos k
    → foldl (count_edge affected) d es m ≡ pos (k + waiting affected [] es m)
unfolding count_edge
counted affected d [] m k c h = rw h (ap pos (omega arith))
counted affected d (e ∷ es) m k c h = elim (Bool-cases (is_waiting affected [] m e)) [
  | inl yes' ↦
      ground (arith, counted affected (count_edge affected d e) es m (suc k), ap increment h)
  | inr no' ↦ ground (arith, counted affected (count_edge affected d e) es m k)
]

pub indegrees-waiting :
    (affected : List ℕ) (edges : List DepEdge) (m : ℕ)
    → contains affected m ≡ true
    → indegrees affected edges m ≡ pos (waiting affected [] edges m)
unfolding indegrees
indegrees-waiting affected edges m c =
    counted affected (λ _. pos 0) edges m 0 c refl ∙ ap pos (omega arith)

-- When `n` moves to `topo`, its edges stop waiting.
waiting-filter :
    (affected topo : List ℕ) (n : ℕ) (es : List DepEdge) (m : ℕ)
    → contains affected n ≡ true
    → contains topo n ≡ false
    → waiting affected (topo ++ n ∷ []) es m
        + count (targets (filter (λ e. e.predecessor_id == n) es)) m
      ≡ waiting affected topo es m
waiting-filter affected topo n [] m inside out = omega arith
waiting-filter affected topo n (e ∷ es) m inside out = ground (
  arith,
  waiting-filter affected topo n es m inside out,
  contains-append topo (n ∷ []) e.predecessor_id,
)

pub waiting-snoc :
    (affected topo : List ℕ) (n : ℕ) (edges : List DepEdge) (m : ℕ)
    → contains affected n ≡ true
    → contains topo n ≡ false
    → waiting affected topo edges m
      ≡ waiting affected (topo ++ n ∷ []) edges m
        + count (targets (index_edges (λ e. e.predecessor_id) edges n)) m
waiting-snoc affected topo n edges m inside out =
    rw (index_edges-filter (λ e. e.predecessor_id) edges n)
      (sym (waiting-filter affected topo n edges m inside out))

relax_inner :
    (affected : List ℕ) (k : Kahn) (e : DepEdge) (n : ℕ)
    → contains affected e.successor_id ≡ true
    → k.indegree e.successor_id ≡ pos (suc n)
    → relax affected k e ≡ record k {
      indegree = update k.indegree e.successor_id (pos n);
      queue = if n == 0 then k.queue ++ e.successor_id ∷ [] else k.queue;
    }
unfolding relax
relax_inner affected k e n c h = rw (c, h, is_zero-pos n)

relax_outer :
    (affected : List ℕ) (k : Kahn) (e : DepEdge)
    → contains affected e.successor_id ≡ false
    → relax affected k e ≡ k
unfolding relax
relax_outer affected k e c = rw c

-- A pass over `es` takes their share off each counter, and queues the tasks that it brings to zero.
pub record Passed (affected : List ℕ) (left : ℕ → ℕ) (es : List DepEdge) (k t : Kahn) : Type 0 where
  pub degree : (m : ℕ) → contains affected m ≡ true → t.indegree m ≡ pos (left m)
  pub queued :
      (m : ℕ)
      → count t.queue m
        ≡ count k.queue m
          + (if contains affected m && left m == 0 && contains (targets es) m then 1 else 0)
  pub topo : t.topo ≡ k.topo

pub pass-Passed :
    (affected : List ℕ) (left : ℕ → ℕ) (es : List DepEdge) (k : Kahn)
    → ((m : ℕ) → contains affected m ≡ true → k.indegree m ≡ pos (left m + count (targets es) m))
    → Passed affected left es k (foldl (relax affected) k es)
pass-Passed affected left [] k h = record {
  degree = λ m c. h m c ∙ ap pos (omega arith);
  queued = λ m. ground arith;
  topo = refl;
}
pass-Passed affected left (e ∷ es) k h = elim (Bool-cases (contains affected e.successor_id)) [
  | inl c ↦
      let s = e.successor_id in
      let n = left s + count (targets es) s in
      let at_s : k.indegree s ≡ pos (suc n) = h s c ∙ ap pos (ground arith) in
      let step = relax_inner affected k e n c at_s in
      let k' : Kahn = record k {
        indegree = update k.indegree s (pos n);
        queue = if n == 0 then k.queue ++ s ∷ [] else k.queue;
      } in
      let rest = pass-Passed affected left es k' (λ m inside. ground (arith, h m inside)) in
      rw step (record {
        degree = rest.degree;
        queued = λ m.
            ground (
              arith,
              rest.queued m,
              count-append k.queue (s ∷ []) m,
              contains-count (targets es) m,
            );
        topo = rest.topo;
      })
  | inr c ↦
      let rest = pass-Passed affected left es k (λ m inside. ground (arith, h m inside)) in
      rw (relax_outer affected k e c) (record {
        degree = rest.degree;
        queued = λ m. ground (arith, rest.queued m);
        topo = rest.topo;
      })
]
