-- ===== src/Launcher/Supervision.antt =====
-- When the launcher (main.py, `run`) stops, and what it leaves running.
use workfront_system.Base.{
  some-injective, ℕ, ◌≡◌, refl, sym, subst, ◌∙◌, ap, Bool, true, false, not, ◌&&◌, ◌⊎◌, inl, inr,
  Option, some, none, List, [], ◌∷◌, Memᴰ, ◌||◌, is_some, contains, contains-filter, ◌==◌, arith, ℤ,
  Option-cases,
}
use workfront_system.Launcher.{first_exit, Ending, supervise}

-- The first pass in which one of the processes has exited.
abbrev pub has_exit : List ℕ → (ℕ → Option ℤ) → Bool
has_exit [] poll = false
has_exit (p ∷ procs) poll = elim (poll p) [ some _ ↦ true | none ↦ has_exit procs poll ]

abbrev pub any_exit : List ℕ → List (ℕ → Option ℤ) → Bool
any_exit procs [] = false
any_exit procs (poll ∷ passes) = has_exit procs poll || any_exit procs passes

first_exit-has_exit :
    (procs : List ℕ) (poll : ℕ → Option ℤ) → is_some (first_exit poll procs) ≡ has_exit procs poll
first_exit-has_exit [] poll = refl
first_exit-has_exit (p ∷ procs) poll = elim (Option-cases (poll p)) [
  | inl runs ↦ ground (arith, runs, first_exit-has_exit procs poll)
  | inr (code, exited) ↦ ground (arith, exited)
]

contains-here : (q p : ℕ) (procs : List ℕ) → q ≡ p → contains (q ∷ procs) p ≡ true
contains-here q p procs here = ground arith

first_exit-some :
    (procs : List ℕ) (poll : ℕ → Option ℤ) (p : ℕ) (code : ℤ)
    → first_exit poll procs ≡ some (p, code)
    → (contains procs p ≡ true) × (poll p ≡ some code)
first_exit-some [] poll p code h = cc
first_exit-some (q ∷ procs) poll p code h = elim (Option-cases (poll q)) [
  | inl runs ↦
      let (listed, exited) = first_exit-some procs poll p code (rw (first_exit, runs) at h) in
      (ground arith, exited)
  | inr (c, exited) ↦
      let same : (q, c) ≡ (p, code) = some-injective (rw (first_exit, exited) at h) in
      let here : q ≡ p = ap (λ x. x.0) same in
      (contains-here q p procs here, ap poll (sym here) ∙ exited ∙ ap (λ x. some x.1) same)
]

-- A run that ended: the process whose exit ended it, seen in one of the passes.
pub record Stopped (procs : List ℕ) (passes : List (ℕ → Option ℤ)) (e : Ending) : Type 0 where
  pub exited : ℕ
  pub listed : contains procs exited ≡ true
  pub poll : ℕ → Option ℤ
  pub seen : Memᴰ poll passes
  pub code : poll exited ≡ some e.code
  pub others : (q : ℕ) → contains e.terminated q ≡ (contains procs q && not (q == exited))

supervise-Stopped :
    (procs : List ℕ) (passes : List (ℕ → Option ℤ)) {e : Ending}
    → supervise procs passes ≡ some e
    → Stopped procs passes e
unfolding supervise
supervise-Stopped procs [] h = cc
supervise-Stopped procs (poll ∷ passes) {e} h = elim (Option-cases (first_exit poll procs)) [
  | inl running ↦
      let r = supervise-Stopped procs passes (rw (supervise, running) at h) in
      record {
        exited = r.exited;
        listed = r.listed;
        poll = r.poll;
        seen = Memᴰ.tail r.seen;
        code = r.code;
        others = r.others;
      }
  | inr ((p, code), found) ↦
      let (listed, exited) = first_exit-some procs poll p code found in
      subst (Stopped procs (poll ∷ passes)) (some-injective (rw (supervise, found) at h)) (record {
        exited = p;
        listed = listed;
        poll = poll;
        seen = Memᴰ.head refl;
        code = exited;
        others = λ q. contains-filter (λ x. not (x == p)) procs q;
      })
]

supervise-is_some :
    (procs : List ℕ) (passes : List (ℕ → Option ℤ))
    → is_some (supervise procs passes) ≡ any_exit procs passes
unfolding supervise
supervise-is_some procs [] = refl
supervise-is_some procs (poll ∷ passes) = elim (Option-cases (first_exit poll procs)) [
  | inl running ↦ ground (
    arith,
    running,
    ap is_some running,
    first_exit-has_exit procs poll,
    supervise-is_some procs passes,
  )
  | inr (r, found) ↦ ground (arith, found, ap is_some found, first_exit-has_exit procs poll)
]

-- If none of the processes exits in the passes seen, the launcher's loop still runs. If one does, the
-- loop has stopped: it returns the code of a process that has exited, and terminates every other
-- process and only those.
pub supervise_ends :
    (procs : List ℕ) (passes : List (ℕ → Option ℤ))
    → ((any_exit procs passes ≡ false) × (supervise procs passes ≡ none))
      ⊎ ((any_exit procs passes ≡ true)
          × ((e : Ending) × (supervise procs passes ≡ some e) × Stopped procs passes e))
supervise_ends procs passes = elim (Option-cases (supervise procs passes)) [
  | inl runs ↦ inl (ground (arith, runs, ap is_some runs, supervise-is_some procs passes), runs)
  | inr (e, ended) ↦ inr (
    ground (arith, ended, ap is_some ended, supervise-is_some procs passes),
    (e, ended, supervise-Stopped procs passes ended),
  )
]
