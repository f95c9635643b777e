-- ===== src/Prelude/Bloques.antt =====
-- Arrays of blocks of one size.
use Prim.Native.Nat.{ℕ, ◌+◌, ◌*◌, ◌≤◌, ◌<◌}
use mathlib.Core.Logic.{◌≢◌, ◌⊎◌, inl, inr}
use native.Mathlib.Decide.{dec_lt}
use native.Mathlib.Omega.{arith}

-- Block `k` ends inside an array of `n` blocks exactly when it is one of them.
pub bloque_dentro : (k n m : ℕ) → k < n → k * m + m ≤ n * m
bloque_dentro k n m h = grind arith

pub bloque_fuera : (k n m : ℕ) → n ≤ k → 0 < m → n * m < k * m + m
bloque_fuera k n m h p = grind arith

-- Two blocks do not overlap.
pub bloques_disjuntos : (j k m : ℕ) → j ≢ k → (k * m + m ≤ j * m) ⊎ (j * m + m ≤ k * m)
bloques_disjuntos j k m h = elim (dec_lt j k) [
  | yes l ↦ inr (bloque_dentro j k m l)
  | no l ↦ inl (bloque_dentro k j m (omega arith))
]
