-- ===== src/Base/Time.antt =====
-- Python's `datetime` and `timedelta`. An aware datetime is the number of microseconds since
-- 0001-01-01T00:00 UTC, below the end of year 9999; a timedelta is a signed number of
-- microseconds. Adding the two raises OverflowError outside the years 1 to 9999.
use Prim.Native.Nat.{ℕ, zero, suc, ◌+◌, ◌-◌, ◌*◌}
use mathlib.Core.Path.{◌≡◌}
use native.Mathlib.Omega.{arith}
use workfront_system.Base.Tests.{ltb, leb, if◌then◌else◌}
use workfront_system.Base.Errors.{Outcome, ok, err, overflow_error}

-- `negsuc n` is -(n + 1).
pub data ℤ : Type 0 where
  pos : ℕ → ℤ
  negsuc : ℕ → ℤ

abbrev pub pos_part : ℤ → ℕ
pos_part (pos n) = n
pos_part (negsuc n) = 0

abbrev pub neg_part : ℤ → ℕ
neg_part (pos n) = 0
neg_part (negsuc n) = suc n

-- a - b, as an integer: the difference of two datetimes.
abbrev pub sub_ℕ : ℕ → ℕ → ℤ
sub_ℕ a b = if leb b a then pos (a - b) else negsuc (b - a - 1)

-- timedelta(minutes=m), in microseconds
abbrev pub minutes : ℤ → ℤ
minutes (pos m) = pos (m * 60000000)
minutes (negsuc m) = negsuc (suc m * 60000000 - 1)

-- x += 1 and x -= 1
abbrev pub increment : ℤ → ℤ
increment (pos n) = pos (suc n)
increment (negsuc zero) = pos 0
increment (negsuc (suc n)) = negsuc n

abbrev pub decrement : ℤ → ℤ
decrement (pos zero) = negsuc 0
decrement (pos (suc n)) = pos n
decrement (negsuc n) = negsuc (suc n)

-- The microseconds from year 1 to the end of year 9999: 3652059 days.
unfoldable pub end_of_time : ℕ
end_of_time = 315537897600000000

-- datetime(…) for the instant a - b, if the years 1 to 9999 have it.
abbrev checked : ℕ → ℕ → Outcome ℕ
checked a b =
    if ltb a b
    then err overflow_error
    else (if ltb (a - b) end_of_time then ok (a - b) else err overflow_error)

-- datetime + timedelta
unfoldable pub add_delta : ℕ → ℤ → Outcome ℕ
add_delta t d = checked (t + pos_part d) (neg_part d)

-- datetime - timedelta
unfoldable pub sub_delta : ℕ → ℤ → Outcome ℕ
sub_delta t d = checked (t + neg_part d) (pos_part d)

pub add_delta_parts :
    (t : ℕ) (d : ℤ) {r : ℕ} → add_delta t d ≡ ok r → r + neg_part d ≡ t + pos_part d
unfolding add_delta
add_delta_parts t d h = ground arith

pub sub_delta_parts :
    (t : ℕ) (d : ℤ) {r : ℕ} → sub_delta t d ≡ ok r → r + pos_part d ≡ t + neg_part d
unfolding sub_delta
sub_delta_parts t d h = ground arith

pub sub_ℕ_parts : (a b : ℕ) → pos_part (sub_ℕ a b) + b ≡ neg_part (sub_ℕ a b) + a
sub_ℕ_parts a b = ground arith

-- The difference is the one integer whose parts balance.
pub sub_ℕ-add_delta : (t : ℕ) (d : ℤ) {r : ℕ} → add_delta t d ≡ ok r → sub_ℕ r t ≡ d
unfolding add_delta
sub_ℕ-add_delta t d h = ground arith
