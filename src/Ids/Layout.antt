-- ===== src/Ids/Layout.antt =====
-- The layout of the ids (libs/wf_core/wf_core/ids.py) and their order.
use workfront_system.Base.{ℕ, ◌+◌, ◌-◌, ◌*◌, ◌/◌, ◌%◌, ◌^◌, ◌<◌, ◌≡◌, refl, ap, ◌∙◌, arith, ok}
use Prim.Native.Nat.{bit_and, bit_or}
use workfront_system.Base.Bits.{bit_or_sum, bit_and_mask, ◌<<<◌}
use workfront_system.Ids.{stamp, uuid7_value, uuid7}

stamp_lem : (now_ms : ℕ) → stamp now_ms ≡ now_ms % 2 ^ 48
unfolding stamp
stamp_lem now_ms =
    ap (λ t. bit_and t (2 ^ 48 - 1)) split
    ∙ bit_and_mask 48 (now_ms / 2 ^ 48) (now_ms % 2 ^ 48) (2 ^ 48 - 1) (omega arith) refl
  where
    split : now_ms ≡ now_ms / 2 ^ 48 * 2 ^ 48 + now_ms % 2 ^ 48
    split = omega arith

bit_or-add : (k q x y : ℕ) → x ≡ q * 2 ^ k → y < 2 ^ k → bit_or x y ≡ x + y
bit_or-add k q x y e fits = rw e (bit_or_sum k q y fits)

-- The five fields side by side.
uuid7_value_sum :
    (ms a b : ℕ)
    → a < 2 ^ 12
    → b < 2 ^ 62
    → uuid7_value ms a b ≡ ms * 2 ^ 80 + 7 * 2 ^ 76 + a * 2 ^ 64 + 2 * 2 ^ 62 + b
unfolding uuid7_value
uuid7_value_sum ms a b ha hb =
    let x1 = bit_or (ms <<< 80) (0x7 <<< 76) in
    let x2 = bit_or x1 (a <<< 64) in
    let x3 = bit_or x2 (0b10 <<< 62) in
    let e1 = bit_or-add 80 ms (ms <<< 80) (0x7 <<< 76) refl (omega arith) in
    let e2 = bit_or-add 76 (ms * 16 + 7) x1 (a <<< 64) (omega (arith, e1)) (omega arith) in
    let e3 =
      bit_or-add 64 ((ms * 16 + 7) * 4096 + a) x2 (0b10 <<< 62) (omega (arith, e1, e2))
        (omega arith) in
    let e4 =
      bit_or-add 62 (((ms * 16 + 7) * 4096 + a) * 4 + 2) x3 b (omega (arith, e1, e2, e3))
        (omega arith) in
    omega (arith, e1, e2, e3, e4)

-- The fields of a UUIDv7.
pub record Fields (value ms a b : ℕ) : Type 0 where
  pub timestamp : value / 2 ^ 80 ≡ ms
  pub version : value / 2 ^ 76 % 2 ^ 4 ≡ 7
  pub random_a : value / 2 ^ 64 % 2 ^ 12 ≡ a
  pub variant : value / 2 ^ 62 % 2 ^ 2 ≡ 2
  pub random_b : value % 2 ^ 62 ≡ b

uuid7_value-Fields : (ms a b : ℕ) → a < 2 ^ 12 → b < 2 ^ 62 → Fields (uuid7_value ms a b) ms a b
uuid7_value-Fields ms a b ha hb =
    let sum = uuid7_value_sum ms a b ha hb in
    record {
      timestamp = omega (arith, sum);
      version = omega (arith, sum);
      random_a = omega (arith, sum);
      variant = omega (arith, sum);
      random_b = omega (arith, sum);
    }

-- With 12 and 62 random bits, an id is always made, whatever the clock says: it has 128 bits, and
-- its fields read back the low 48 bits of the milliseconds since 1970, the version 7, the variant 2
-- and the random bits.
pub uuid7-Fields :
    (now_ms a b : ℕ)
    → a < 2 ^ 12
    → b < 2 ^ 62
    → (value : ℕ) × (uuid7 now_ms a b ≡ ok value)
      × (value < 2 ^ 128)
      × Fields value (now_ms % 2 ^ 48) a b
unfolding uuid7
uuid7-Fields now_ms a b ha hb =
    let ms = stamp now_ms in
    let sum = uuid7_value_sum ms a b ha hb in
    let below : uuid7_value ms a b < 2 ^ 128 = omega (arith, sum, stamp_lem now_ms) in
    (
      uuid7_value ms a b,
      ground arith,
      below,
      rw (← stamp_lem now_ms) (uuid7_value-Fields ms a b ha hb),
    )

-- Before the 48 bits of milliseconds run out, an id that was made a millisecond later or more is
-- greater, whatever the random bits.
pub uuid7-lt :
    (now_ms later_ms a b a' b' : ℕ) {first second : ℕ}
    → now_ms < later_ms
    → later_ms < 2 ^ 48
    → a < 2 ^ 12
    → b < 2 ^ 62
    → a' < 2 ^ 12
    → b' < 2 ^ 62
    → uuid7 now_ms a b ≡ ok first
    → uuid7 later_ms a' b' ≡ ok second
    → first < second
unfolding uuid7
uuid7-lt now_ms later_ms a b a' b' {first} {second} h bound ha hb ha' hb' e e' = ground (
  arith,
  uuid7_value_sum (stamp now_ms) a b ha hb,
  uuid7_value_sum (stamp later_ms) a' b' ha' hb',
  stamp_lem now_ms,
  stamp_lem later_ms,
)
