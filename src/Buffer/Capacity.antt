-- ===== src/Buffer/Capacity.antt =====
-- The capacity that kli_buffer_reserve of programs/libkarm/buffer.c asks its arena for.
use native.Mathlib.Nat.{pow-suc, mul-le-mul_left, one-le-pow}
use armonios.Prelude.{
  ℕ, zero, suc, ◌*◌, ◌/◌, ◌^◌, ◌≤◌, ◌<◌, inl, inr, false, arith, if◌then◌else◌, ltb, u64_max,
  Bool-cases, ap, ◌≡◌,
}
use armonios.Arena.{Arena}
use armonios.Arena.Alloc.{NoRoom}
use armonios.Buffer.{grow_capacity}

-- The doubled capacity is at most every doubling of the start that holds the minimum.
pub grow_capacity-least :
    (rounds current minimum k : ℕ)
    → minimum ≤ current * 2 ^ k
    → grow_capacity rounds current minimum ≤ current * 2 ^ k
unfolding grow_capacity
grow_capacity-least zero current minimum k holds =
    omega (arith, mul-le-mul_left current (one-le-pow k 2 (omega arith)))
grow_capacity-least (suc rounds) current minimum zero holds =
    let done : ltb current minimum ≡ false = ground arith in rw done (omega arith)
grow_capacity-least (suc rounds) current minimum (suc k) holds =
    let e = ap (λ (t : ℕ). current * t) (pow-suc 2 k) in
    let r = grow_capacity-least rounds (current * 2) minimum k (omega arith) in
    elim (Bool-cases (ltb current minimum)) [
      | inr done ↦
          rw done (omega (arith, mul-le-mul_left current (one-le-pow (suc k) 2 (omega arith))))
      | inl below ↦ elim (Bool-cases (ltb (u64_max / 2) current)) [
        | inl large ↦ rw (below, large) holds
        | inr fits_twice ↦ rw (below, fits_twice) (omega arith)
      ]
    ]

-- The capacity of a buffer is too small, and the arena has no room for the one asked for, which holds
-- the minimum and is at most every doubling of the old one, or of 64 when that is more, that holds it.
pub record Full (a : Arena) (capacity minimum : ℕ) : Type 0 where
  pub asked : ℕ
  pub small : capacity < minimum
  pub holds : minimum ≤ asked
  pub least :
      (k : ℕ)
      → minimum ≤ (if ltb capacity 64 then 64 else capacity) * 2 ^ k
      → asked ≤ (if ltb capacity 64 then 64 else capacity) * 2 ^ k
  pub no_room : NoRoom a asked
