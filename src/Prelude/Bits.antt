-- ===== src/Prelude/Bits.antt =====
-- Single bits of a word: `(w >> b) & 1`, `w | (1 << b)` and `w & ~(1 << b)`, read from the low end.
use Prim.Native.Nat.{ℕ, zero, suc, ◌+◌, ◌*◌, ◌/◌, ◌%◌, ◌<◌}
use mathlib.Core.Path.{◌≡◌, refl, ap}
use mathlib.Core.Logic.{inl, inr, ◌≢◌}
use mathlib.Core.Bool.{Bool, true, false}
use native.Mathlib.Omega.{arith}
use armonios.Prelude.Tests.{◌==◌, if◌then◌else◌, Bool-cases, ==→eq, ==→ne}

unfoldable pub bit : ℕ → ℕ → ℕ
bit w zero = w % 2
bit w (suc b) = bit (w / 2) b

unfoldable pub or_bit : ℕ → ℕ → ℕ
or_bit w zero = w / 2 * 2 + 1
or_bit w (suc b) = or_bit (w / 2) b * 2 + w % 2

unfoldable pub clear_bit : ℕ → ℕ → ℕ
clear_bit w zero = w / 2 * 2
clear_bit w (suc b) = clear_bit (w / 2) b * 2 + w % 2

half_double : (a b : ℕ) → b < 2 → (a * 2 + b) / 2 ≡ a
half_double a b h = omega arith

pub bit-or_bit_self : (w b : ℕ) → bit (or_bit w b) b ≡ 1
unfolding bit or_bit
bit-or_bit_self w zero = omega arith
bit-or_bit_self w (suc b) =
    rw (half_double (or_bit (w / 2) b) (w % 2) (omega arith)) (bit-or_bit_self (w / 2) b)

pub bit-clear_bit_self : (w b : ℕ) → bit (clear_bit w b) b ≡ 0
unfolding bit clear_bit
bit-clear_bit_self w zero = omega arith
bit-clear_bit_self w (suc b) =
    rw (half_double (clear_bit (w / 2) b) (w % 2) (omega arith)) (bit-clear_bit_self (w / 2) b)

pub bit-or_bit_ne : (w b c : ℕ) → b ≢ c → bit (or_bit w b) c ≡ bit w c
unfolding bit or_bit
bit-or_bit_ne w zero zero h = absurd (h refl)
bit-or_bit_ne w zero (suc c) h = ap (λ v. bit v c) (half_double (w / 2) 1 (omega arith))
bit-or_bit_ne w (suc b) zero h = omega arith
bit-or_bit_ne w (suc b) (suc c) h =
    rw (half_double (or_bit (w / 2) b) (w % 2) (omega arith))
      (bit-or_bit_ne (w / 2) b c (λ e. h (ap suc e)))

pub bit-clear_bit_ne : (w b c : ℕ) → b ≢ c → bit (clear_bit w b) c ≡ bit w c
unfolding bit clear_bit
bit-clear_bit_ne w zero zero h = absurd (h refl)
bit-clear_bit_ne w zero (suc c) h = ap (λ v. bit v c) (omega arith)
bit-clear_bit_ne w (suc b) zero h = omega arith
bit-clear_bit_ne w (suc b) (suc c) h =
    rw (half_double (clear_bit (w / 2) b) (w % 2) (omega arith))
      (bit-clear_bit_ne (w / 2) b c (λ e. h (ap suc e)))

pub bit-lt : (w b : ℕ) → bit w b < 2
unfolding bit
bit-lt w zero = omega arith
bit-lt w (suc b) = bit-lt (w / 2) b

-- Every number below `n` passes the test: a finite table, by evaluation.
unfoldable pub all_to : (ℕ → Bool) → ℕ → Bool
all_to test zero = true
all_to test (suc n) = if test n then all_to test n else false

pub all_to_at : (test : ℕ → Bool) (n k : ℕ) → k < n → all_to test n ≡ true → test k ≡ true
unfolding all_to
all_to_at test zero k lt all = elim lt [ ]
all_to_at test (suc n) k lt all = elim (Bool-cases (k == n)) [
  | inl last ↦ rw (==→eq k n last) (ground arith)
  | inr before ↦ all_to_at test n k (omega (arith, ==→ne k n before)) (ground arith)
]
