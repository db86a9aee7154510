-- ===== src/Base/Lists.antt =====
-- Lists under native numbers. A Python set of ids is a list without repetition, read by
-- `contains`; repetition is measured by `count`.
use Prim.Native.Nat.{ℕ, zero, suc, ◌+◌, ◌≤◌, ◌<◌}
use mathlib.Core.Path.{◌≡◌, refl, sym, ap, subst}
use mathlib.Core.Logic.{◌↔◌, inl, inr, ⊎_elim}
use mathlib.Core.Bool.{true≢false, Bool, true, false, ◌||◌, ◌&&◌}
use mathlib.Core.Option.{Option, none, some}
use mathlib.Core.List.{List, [], ◌∷◌, ◌++◌, Memᴰ, map, reverse, reverse-append}
use mathlib.Core.List.Memᴰ
use native.Mathlib.Omega.{arith}
use workfront_system.Base.Tests.{◌==◌, ==_iff, if◌then◌else◌, ltb, Bool-cases}

module _ {ℓ} {A : Type ℓ} where
  abbrev pub length : List A → ℕ
  length [] = 0
  length (x ∷ xs) = suc (length xs)

  abbrev pub filter : (A → Bool) → List A → List A
  filter p [] = []
  filter p (x ∷ xs) = if p x then x ∷ filter p xs else filter p xs

  abbrev pub get_elem? : List A → ℕ → Option A
  get_elem? [] i = none
  get_elem? (x ∷ xs) zero = some x
  get_elem? (x ∷ xs) (suc i) = get_elem? xs i

  pub Memᴰ-last : (xs : List A) (x : A) → Memᴰ x (xs ++ x ∷ [])
  Memᴰ-last [] x = Memᴰ.head refl
  Memᴰ-last (y ∷ xs) x = Memᴰ.tail (Memᴰ-last xs x)

  abbrev pub All {κ} : (A → Type κ) → List A → Type κ
  All P [] = Unit
  All P (x ∷ xs) = P x × All P xs

  pub length-append : (xs ys : List A) → length (xs ++ ys) ≡ length xs + length ys
  length-append [] ys = omega arith
  length-append (x ∷ xs) ys = omega (arith, length-append xs ys)

  pub append-right-nil : (xs : List A) → xs ≡ xs ++ []
  append-right-nil [] = refl
  append-right-nil (x ∷ xs) = rw (← append-right-nil xs)

  pub append-right_assoc : (xs : List A) (y : A) (zs : List A) → (xs ++ y ∷ []) ++ zs ≡ xs ++ y ∷ zs
  append-right_assoc [] y zs = refl
  append-right_assoc (x ∷ xs) y zs = rw (append-right_assoc xs y zs)

  pub Memᴰ-filter :
      (p : A → Bool) (a : A) (xs : List A) → Memᴰ a (filter p xs) ↔ (Memᴰ a xs × (p a ≡ true))
  Memᴰ-filter p a xs = (kept xs, λ (m, h). keeps xs m h)
    where
      kept : (ys : List A) → Memᴰ a (filter p ys) → Memᴰ a ys × (p a ≡ true)
      kept [] m = absurd (Memᴰ.not-nil m)
      kept (y ∷ ys) m = elim (Bool-cases (p y)) [
        | inl e ↦
            ⊎_elim (λ here. (Memᴰ.head here, rw here e))
              (λ later. let (old, h) = kept ys later in (Memᴰ.tail old, h))
              (Memᴰ.cases_cons (rw e at m))
        | inr e ↦ let (old, h) = kept ys (rw e at m) in (Memᴰ.tail old, h)
      ]

      keeps : (ys : List A) → Memᴰ a ys → p a ≡ true → Memᴰ a (filter p ys)
      keeps [] m h = elim m [ ]
      keeps (y ∷ ys) (Memᴰ.head e) h = rw (← e, h) (Memᴰ.head refl)
      keeps (y ∷ ys) (Memᴰ.tail m) h = elim (Bool-cases (p y)) [
        | inl e ↦ rw e (Memᴰ.tail (keeps ys m h))
        | inr e ↦ rw e (keeps ys m h)
      ]

  pub All-map {κ μ} :
      {P : A → Type κ} {Q : A → Type μ} (xs : List A) → ((x : A) → P x → Q x) → All P xs → All Q xs
  All-map [] f h = tt
  All-map (x ∷ xs) f h = (f x h.0, All-map xs f h.1)

  pub All-lookup {κ} : (P : A → Type κ) (xs : List A) (a : A) → All P xs → Memᴰ a xs → P a
  All-lookup P [] a h m = elim m [ ]
  All-lookup P (x ∷ xs) a h (Memᴰ.head e) = subst P (sym e) h.0
  All-lookup P (x ∷ xs) a h (Memᴰ.tail m) = All-lookup P xs a h.1 m

-- x in xs
abbrev pub contains : List ℕ → ℕ → Bool
contains [] a = false
contains (x ∷ xs) a = x == a || contains xs a

pub contains-filter :
    (p : ℕ → Bool) (xs : List ℕ) (a : ℕ) → contains (filter p xs) a ≡ (contains xs a && p a)
contains-filter p [] a = refl
contains-filter p (x ∷ xs) a = elim (Bool-cases (x == a)) [
  | inl same ↦ ground (arith, contains-filter p xs a, ap p ((==_iff x a).0 same))
  | inr other ↦ ground (arith, contains-filter p xs a)
]

abbrev pub count : List ℕ → ℕ → ℕ
count [] a = 0
count (x ∷ xs) a = (if x == a then 1 else 0) + count xs a

pub contains-count : (xs : List ℕ) (a : ℕ) → contains xs a ≡ ltb 0 (count xs a)
contains-count [] a = refl
contains-count (x ∷ xs) a = ground (arith, contains-count xs a)

pub count-append : (xs ys : List ℕ) (a : ℕ) → count (xs ++ ys) a ≡ count xs a + count ys a
count-append [] ys a = omega arith
count-append (x ∷ xs) ys a = ground (arith, count-append xs ys a)

pub contains-append :
    (xs ys : List ℕ) (a : ℕ) → contains (xs ++ ys) a ≡ (contains xs a || contains ys a)
contains-append [] ys a = refl
contains-append (x ∷ xs) ys a = ground (arith, contains-append xs ys a)

-- Every id stands in the list once at most.
abbrev pub IsUnique : List ℕ → Type 0
IsUnique xs = (a : ℕ) → count xs a ≤ 1

remove : ℕ → List ℕ → List ℕ
remove a [] = []
remove a (x ∷ xs) = if x == a then xs else x ∷ remove a xs

count-remove :
    (x : ℕ) (xs : List ℕ) (a : ℕ)
    → 0 < count xs x
    → count (remove x xs) a + (if x == a then 1 else 0) ≡ count xs a
unfolding remove
count-remove x [] a h = absurd (omega arith)
count-remove x (y ∷ ys) a h = elim (Bool-cases (y == x)) [
  | inl e ↦ ground arith
  | inr e ↦ ground (arith, count-remove x ys a)
]

length-remove : (x : ℕ) (xs : List ℕ) → 0 < count xs x → suc (length (remove x xs)) ≡ length xs
unfolding remove
length-remove x [] h = absurd (omega arith)
length-remove x (y ∷ ys) h = ground (arith, length-remove x ys)

-- A list that repeats nothing oftener than another is no longer than it.
pub length-le_of_count :
    (xs ys : List ℕ) → ((a : ℕ) → count xs a ≤ count ys a) → length xs ≤ length ys
length-le_of_count [] ys h = omega arith
length-le_of_count (x ∷ xs) ys h =
    let here : 0 < count ys x = ground (arith, h x) in
    let rest =
      length-le_of_count xs (remove x ys) (λ a. ground (arith, h a, count-remove x ys a here)) in
    omega (arith, rest, length-remove x ys here)

-- With the same length, it holds each element as often.
pub count-eq_of_length :
    (xs ys : List ℕ)
    → ((a : ℕ) → count xs a ≤ count ys a)
    → length xs ≡ length ys
    → (a : ℕ) → count xs a ≡ count ys a
count-eq_of_length xs ys h e a = ground (arith, h a, longer)
  where
    longer : count xs a < count ys a → ⊥
    longer lt =
        let p = length-le_of_count (a ∷ xs) ys (λ b. ground (arith, h b)) in omega (arith, p)

pub count-reverse : (xs : List ℕ) (a : ℕ) → count (reverse xs) a ≡ count xs a
count-reverse [] a = refl
count-reverse (x ∷ xs) a =
    rw (reverse-append (x ∷ []) xs)
      (ground (arith, count-append (reverse xs) (x ∷ []) a, count-reverse xs a))

pub map-mem {ℓ κ} :
    {A : Type ℓ} {B : Type κ} (f : A → B) (xs : List A) (b : B)
    → Memᴰ b (map f xs)
    → (x : A) × Memᴰ x xs × (f x ≡ b)
map-mem f [] b m = absurd (Memᴰ.not-nil m)
map-mem f (x ∷ xs) b (Memᴰ.head e) = (x, Memᴰ.head refl, sym e)
map-mem f (x ∷ xs) b (Memᴰ.tail m) = let (y, n, e) = map-mem f xs b m in (y, Memᴰ.tail n, e)

pub mem-map {ℓ κ} :
    {A : Type ℓ} {B : Type κ} (f : A → B) (xs : List A) (a : A) → Memᴰ a xs → Memᴰ (f a) (map f xs)
mem-map f [] a m = absurd (Memᴰ.not-nil m)
mem-map f (x ∷ xs) a (Memᴰ.head e) = Memᴰ.head (ap f e)
mem-map f (x ∷ xs) a (Memᴰ.tail m) = Memᴰ.tail (mem-map f xs a m)

pub contains-Mem : (xs : List ℕ) (a : ℕ) → contains xs a ≡ true → Memᴰ a xs
contains-Mem [] a h = absurd (true≢false (sym h))
contains-Mem (x ∷ xs) a h = elim (Bool-cases (x == a)) [
  | inl own ↦ Memᴰ.head (sym ((==_iff x a).0 own))
  | inr other ↦ Memᴰ.tail (contains-Mem xs a (ground (arith, h, other)))
]

pub Mem-contains : (xs : List ℕ) (a : ℕ) → Memᴰ a xs → contains xs a ≡ true
Mem-contains [] a m = absurd (Memᴰ.not-nil m)
Mem-contains (x ∷ xs) a (Memᴰ.head e) = rw e (ground arith)
Mem-contains (x ∷ xs) a (Memᴰ.tail m) = ground (arith, Mem-contains xs a m)
