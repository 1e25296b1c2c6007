-- ===== src/Memory/Heap/Alignment.antt =====
-- Rounding up to a multiple.
use ferric_k.Base.{ℕ, suc, ◌+◌, ◌-◌, ◌*◌, ◌/◌, ◌≤◌, arith, inl, inr, leb, Bool-cases}
use native.Mathlib.Nat.{mul-le-mul_right, div-mul-le_self}
use ferric_k.Memory.Heap.{round_down}

pub round_up_low : (v n : ℕ) → 1 ≤ n → v ≤ round_down (v + (n - 1)) n
round_up_low v n pos = grind arith

pub round_up_high : (v n : ℕ) → round_down v n ≤ v
round_up_high v n = grind arith

-- No smaller multiple lies above the value.
pub round_up_least : (v n q : ℕ) → 1 ≤ n → v ≤ q * n → round_down (v + (n - 1)) n ≤ q * n
round_up_least v n q pos le =
    let k = (v + (n - 1)) / n in
    elim (Bool-cases (leb k q)) [
      | inl small ↦ mul-le-mul_right n (ground (arith, small))
      | inr large ↦
          (let more : suc q * n ≤ k * n = mul-le-mul_right n (ground (arith, large)) in
            let below = div-mul-le_self (v + (n - 1)) n in
            absurd (omega (arith, more, below, le, pos)))
    ]
