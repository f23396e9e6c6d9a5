-- ===== src/LibString/Tests.antt =====
-- programs/libkarm/string.c on small blocks of memory.
use armonios.Prelude.{
  ℕ, ◌*◌, ◌^◌, ◌+◌, ◌≤◌, ◌<◌, ◌≡◌, ◌⊎◌, refl, inr, some, arith, ◌==◌, if◌then◌else◌, min,
}
use armonios.LibString.{Memory, memmove, memcpy, copy_down, strlcpy, kli_utoa, put_digits, utoa_tmp}
use armonios.LibString.Move.{moved, memmove_lem}
use armonios.LibString.Text.{IsText, strlcpy_lem}
use armonios.LibString.Utoa.{parse, IsDigit, kli_utoa_lem}

-- "abc" at address 10, zero elsewhere
abbrev abc : Memory
abc x = if x == 10 then b'a' else if x == 11 then b'b' else if x == 12 then b'c' else 0

memmove_overlap : (memmove 11 10 3 abc 12 ≡ b'b') × (memmove 11 10 3 abc 13 ≡ b'c')
unfolding memmove copy_down memcpy
memmove_overlap = (refl, refl)

utoa_90 :
    let (n, k) = kli_utoa 90 100 30 abc in (n ≡ 2) × (k 100 ≡ b'9') × (k 101 ≡ b'0') × (k 102 ≡ 0)
unfolding kli_utoa put_digits utoa_tmp
utoa_90 = (refl, refl, refl, refl)

utoa_0 : let (n, k) = kli_utoa 0 100 30 abc in (n ≡ 1) × (k 100 ≡ b'0') × (k 101 ≡ 0)
unfolding kli_utoa put_digits utoa_tmp
utoa_0 = (refl, refl, refl)

abc-IsText : IsText abc 10 3
abc-IsText = record { inside = λ i h. ground arith; ended = refl }

strlcpy_lem_example :
    (k : Memory) × (strlcpy 8 100 10 3 abc ≡ some (3, k))
    × ((i : ℕ) → i < min 3 2 → k (100 + i) ≡ abc (10 + i))
    × (k (100 + min 3 2) ≡ 0)
    × ((x : ℕ) → (x < 100) ⊎ (103 ≤ x) → k x ≡ abc x)
strlcpy_lem_example =
    strlcpy_lem 3 8 100 10 3 abc abc-IsText (omega arith) (omega arith) (inr (omega arith))

kli_utoa_lem_example :
    let (n, k) = kli_utoa 1234 100 21 abc in
    (parse n k 100 0 ≡ 1234)
    × (0 < n)
    × ((i : ℕ) → i < n → IsDigit (k (100 + i)))
    × ((n ≡ 1) ⊎ (10 ^ n ≤ 1234 * 10))
    × (k (100 + n) ≡ 0)
    × (n < 21)
    × ((x : ℕ) → (x < 100) ⊎ (121 ≤ x) → k x ≡ abc x)
kli_utoa_lem_example = kli_utoa_lem 1234 100 21 abc (omega arith) (omega arith)

memmove_lem_example : memmove 11 10 3 abc 13 ≡ moved 11 10 3 abc 13
memmove_lem_example = memmove_lem 11 10 3 abc 13
