-- ===== src/Daemon/Storage/Convert.antt =====
-- The integer conversions of crates/kesharon-daemon/src/storage.rs, between u64, u16 and the i64 that
-- a column holds.
use kesharon.Prelude.{ℕ, ◌^◌, ◌-◌, ◌≤◌, ◌≡◌, arith, leb, if◌then◌else◌, Result, ok, err}
use kesharon.Application.Error.{ApplicationError, storage}

pub data ℤ : Type 0 where
  pos negsuc : ℕ → ℤ

abbrev pub i64_max : ℕ
i64_max = 2 ^ 63 - 1

abbrev pub u16_max : ℕ
u16_max = 2 ^ 16 - 1

-- The text of the standard library's `TryFromIntError`.
abbrev pub out_of_range : ApplicationError
out_of_range = storage "out of range integral type conversion attempted"

unfoldable pub i64_from_u64 : ℕ → Result ℤ ApplicationError
i64_from_u64 val = if leb val i64_max then ok (pos val) else err out_of_range

unfoldable pub u64_from_i64 : ℤ → Result ℕ ApplicationError
u64_from_i64 (pos n) = ok n
u64_from_i64 (negsuc n) = err out_of_range

unfoldable pub u16_from_i64 : ℤ → Result ℕ ApplicationError
u16_from_i64 (pos n) = if leb n u16_max then ok n else err out_of_range
u16_from_i64 (negsuc n) = err out_of_range

-- Only a value that fits a column is converted, to itself.
pub i64_from_u64-ok : (val : ℕ) {i : ℤ} → i64_from_u64 val ≡ ok i → (i ≡ pos val) × (val ≤ i64_max)
unfolding i64_from_u64
i64_from_u64-ok val h = ground arith
