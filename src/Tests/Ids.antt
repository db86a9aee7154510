-- ===== src/Tests/Ids.antt =====
-- Ids of libs/wf_core/wf_core/ids.py, and the theorems at them.
use workfront_system.Base.{ℕ, ◌+◌, ◌*◌, ◌^◌, ◌%◌, ◌<◌, ◌≡◌, refl, arith, ok}
use workfront_system.Ids.{uuid7}
use workfront_system.Ids.Layout.{Fields, uuid7-Fields, uuid7-lt}

uuid7-Fields_example :
    (value : ℕ) × (uuid7 1700000000000 5 9 ≡ ok value)
    × (value < 2 ^ 128)
    × Fields value (1700000000000 % 2 ^ 48) 5 9
uuid7-Fields_example = uuid7-Fields 1700000000000 5 9 (omega arith) (omega arith)

-- The later id has the smaller random bits.
abbrev first : ℕ
first = 1700000000000 * 2 ^ 80 + 7 * 2 ^ 76 + 5 * 2 ^ 64 + 2 * 2 ^ 62 + 9

abbrev second : ℕ
second = 1700000000001 * 2 ^ 80 + 7 * 2 ^ 76 + 2 * 2 ^ 62

uuid7-first : uuid7 1700000000000 5 9 ≡ ok first
unfolding uuid7
uuid7-first = refl

uuid7-second : uuid7 1700000000001 0 0 ≡ ok second
unfolding uuid7
uuid7-second = refl

uuid7-lt_example : first < second
uuid7-lt_example =
    uuid7-lt 1700000000000 1700000000001 5 9 0 0 (omega arith) (omega arith) (omega arith)
      (omega arith) (omega arith) (omega arith) uuid7-first uuid7-second
