-- ===== src/Replica/Loads.antt =====
-- The loads that the getters of MP2/src/replica/replica_handler.cpp return as `int16_t`.
use ece.Prelude.{ℕ, ◌%◌, ◌≡◌, true, arith, ltb, Bool-cases, inl, inr}
use ece.Int32.{slt}
use ece.Replica.{to_int16}

-- An `int16_t` is below the largest int.
pub slt-to_int16 : (n b : ℕ) → b ≡ 2147483647 → slt (to_int16 n) b ≡ true
unfolding slt to_int16
slt-to_int16 n b h = elim (Bool-cases (ltb (n % 65536) 32768)) [
  | inl small ↦ ground arith
  | inr large ↦ ground arith
]
