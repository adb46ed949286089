-- ===== src/Startup/Numbers.antt =====
-- The conversion of the number of connections to an `int32`.
use lago_paiement_engine.Prelude.{ℕ, ◌-◌, ◌%◌, ◌^◌, ◌<◌, ◌≡◌, inl, inr, arith, ltb, Bool-cases}
use lago_paiement_engine.Prelude.Int.{ℤ, pos, negsuc, ◌≤ℤ◌}
use lago_paiement_engine.Startup.Processing.{signed_32, int32}

-- The values of an `int32`.
abbrev pub IsInt32 : ℤ → Type 0
IsInt32 n = (negsuc 2147483647 ≤ℤ n) × (n ≤ℤ pos 2147483647)

signed_32-IsInt32 : (n : ℕ) → n < 2 ^ 32 → IsInt32 (signed_32 n)
signed_32-IsInt32 n h = elim (Bool-cases (ltb n (2 ^ 31))) [
  | inl small ↦ rw small (omega arith, ground arith)
  | inr big ↦ rw big (ground arith, omega arith)
]

-- The number of connections that is handed to the pool is an `int32`, and it is the number of the
-- environment if that is one.
pub int32-IsInt32 : (n : ℤ) → IsInt32 (int32 n) × (IsInt32 n → int32 n ≡ n)
unfolding int32
int32-IsInt32 (pos n) = (signed_32-IsInt32 (n % 2 ^ 32) (omega arith), λ h. ground arith)
int32-IsInt32 (negsuc n) =
    (signed_32-IsInt32 (2 ^ 32 - 1 - n % 2 ^ 32) (omega arith), λ h. ground arith)
