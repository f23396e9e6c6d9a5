-- ===== src/Pmm/Bitmap.antt =====
-- What kernel/mm/pmm.c's set_used and set_free do to the bitmap, and the count of clear bits.
use armonios.Prelude.{
  ℕ, zero, suc, ◌+◌, ◌/◌, ◌%◌, ◌≤◌, ◌<◌, ◌≡◌, ◌≢◌, refl, inl, inr, Bool, true, false, arith,
  if◌then◌else◌, ◌==◌, length, get_or, Bool-cases, get_or-set_self, get_or-set_ne, bit-or_bit_self,
  bit-or_bit_ne, bit-clear_bit_self, bit-clear_bit_ne, bit, or_bit, clear_bit, ==→eq, ==→ne,
}
use armonios.Pmm.{Pmm, is_used, set_used, set_free, write_word}

-- the page's bit lies in the array
abbrev pub InBitmap : Pmm → ℕ → Type 0
InBitmap s page = page / 64 < length s.bitmap

-- Writing one page's word changes that page's bit alone.
write_word_self :
    (s : Pmm) (p b : ℕ) (f : ℕ → ℕ → ℕ)
    → ((w c : ℕ) → bit (f w c) c ≡ b)
    → InBitmap s p
    → bit (get_or (write_word s p f) (p / 64) 0) (p % 64) ≡ b
write_word_self s p b f law h =
    rw (get_or-set_self s.bitmap (p / 64) (f (get_or s.bitmap (p / 64) 0) (p % 64)) 0 h)
      (law (get_or s.bitmap (p / 64) 0) (p % 64))

write_word_ne :
    (s : Pmm) (p q : ℕ) (f : ℕ → ℕ → ℕ)
    → ((w b c : ℕ) → b ≢ c → bit (f w b) c ≡ bit w c)
    → InBitmap s p
    → p ≢ q
    → bit (get_or (write_word s p f) (q / 64) 0) (q % 64)
      ≡ bit (get_or s.bitmap (q / 64) 0) (q % 64)
write_word_ne s p q f law h ne = elim (Bool-cases (p / 64 == q / 64)) [
  | inl e ↦ rw (← ==→eq (p / 64) (q / 64) e) (
      rw (get_or-set_self s.bitmap (p / 64) (f (get_or s.bitmap (p / 64) 0) (p % 64)) 0 h) (
        law (get_or s.bitmap (p / 64) 0) (p % 64) (q % 64)
          (ground (arith, ==→eq (p / 64) (q / 64) e))))
  | inr e ↦ rw (
      get_or-set_ne s.bitmap (p / 64) (q / 64) (f (get_or s.bitmap (p / 64) 0) (p % 64)) 0
        (==→ne (p / 64) (q / 64) e))
]

-- set_used marks its page and no other.
pub is_used-set_used :
    (s : Pmm) (p q : ℕ)
    → InBitmap s p
    → is_used (set_used s p) q ≡ (if p == q then true else is_used s q)
unfolding set_used
is_used-set_used s p q h = elim (Bool-cases (p == q)) [
  | inl e ↦ ground (arith, ==→eq p q e, write_word_self s p 1 or_bit bit-or_bit_self h)
  | inr e ↦ ground (arith, write_word_ne s p q or_bit bit-or_bit_ne h (==→ne p q e))
]

pub is_used-set_free :
    (s : Pmm) (p q : ℕ)
    → InBitmap s p
    → is_used (set_free s p) q ≡ (if p == q then false else is_used s q)
unfolding set_free
is_used-set_free s p q h = elim (Bool-cases (p == q)) [
  | inl e ↦ ground (arith, ==→eq p q e, write_word_self s p 0 clear_bit bit-clear_bit_self h)
  | inr e ↦ ground (arith, write_word_ne s p q clear_bit bit-clear_bit_ne h (==→ne p q e))
]

-- The number of pages below `n` whose bit is clear.
unfoldable pub count_clear : (ℕ → Bool) → ℕ → ℕ
count_clear used zero = 0
count_clear used (suc n) = count_clear used n + (if used n then 0 else 1)

pub count_clear-le : (used : ℕ → Bool) (n : ℕ) → count_clear used n ≤ n
unfolding count_clear
count_clear-le used zero = omega arith
count_clear-le used (suc n) = ground (arith, count_clear-le used n)

pub count_clear_congr :
    (f g : ℕ → Bool) (n : ℕ) → ((q : ℕ) → q < n → g q ≡ f q) → count_clear g n ≡ count_clear f n
unfolding count_clear
count_clear_congr f g zero same = refl
count_clear_congr f g (suc n) same =
    ground (arith, same n (omega arith), count_clear_congr f g n (λ q h. same q (omega arith)))

-- Setting one clear bit below `n` lowers the count by one.
pub count_clear_update :
    (f g : ℕ → Bool) (p n : ℕ)
    → ((q : ℕ) → g q ≡ (if p == q then true else f q))
    → f p ≡ false
    → p < n
    → count_clear g n + 1 ≡ count_clear f n
unfolding count_clear
count_clear_update f g p zero law clear h = absurd (omega arith)
count_clear_update f g p (suc n) law clear h = elim (Bool-cases (p == n)) [
  | inl e ↦ ground (
    arith,
    ==→eq p n e,
    law n,
    count_clear_congr f g n (λ q lt. ground (arith, law q, ==→eq p n e)),
  )
  | inr e ↦ ground (arith, ==→ne p n e, law n, count_clear_update f g p n law clear)
]

pub count_clear_none :
    (used : ℕ → Bool) (n : ℕ) → ((q : ℕ) → q < n → used q ≡ true) → count_clear used n ≡ 0
unfolding count_clear
count_clear_none used zero all = refl
count_clear_none used (suc n) all =
    ground (arith, all n (omega arith), count_clear_none used n (λ q h. all q (omega arith)))

pub count_clear_pos : (used : ℕ → Bool) (n p : ℕ) → p < n → used p ≡ false → 0 < count_clear used n
unfolding count_clear
count_clear_pos used zero p h clear = absurd (omega arith)
count_clear_pos used (suc n) p h clear = elim (Bool-cases (p == n)) [
  | inl e ↦ ground (arith, ==→eq p n e)
  | inr e ↦ omega (arith, ==→ne p n e, count_clear_pos used n p (omega (arith, ==→ne p n e)) clear)
]
