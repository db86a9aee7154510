-- ===== src/Ids.antt =====
-- `uuid7` of libs/wf_core/wf_core/ids.py: the ids of the rows. The clock and the random bits are
-- arguments.
pub mod Layout
use Prim.Native.Nat.{bit_and, bit_or}
use workfront_system.Base.{ℕ, ◌-◌, ◌^◌, ltb, if◌then◌else◌, Outcome, ok, err, value_error}
use workfront_system.Base.Bits.{◌<<<◌}

-- int(time.time() * 1000) & ((1 << 48) - 1)
unfoldable pub stamp : ℕ → ℕ
stamp now_ms = bit_and now_ms ((1 <<< 48) - 1)

unfoldable pub uuid7_value : ℕ → ℕ → ℕ → ℕ
uuid7_value ms rand_a rand_b =
    bit_or (bit_or (bit_or (bit_or (ms <<< 80) (0x7 <<< 76)) (rand_a <<< 64)) (0b10 <<< 62)) rand_b

-- uuid.UUID(int=value)
abbrev pub uuid_of_int : ℕ → Outcome ℕ
uuid_of_int value = if ltb value (2 ^ 128) then ok value else err value_error

unfoldable pub uuid7 : ℕ → ℕ → ℕ → Outcome ℕ
unfolding stamp uuid7_value
uuid7 now_ms rand_a rand_b = uuid_of_int (uuid7_value (stamp now_ms) rand_a rand_b)
