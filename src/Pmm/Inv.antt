-- ===== src/Pmm/Inv.antt =====
-- The invariant of the allocator of kernel/mm/pmm.c, and the loops over set_used and set_free.
use armonios.Prelude.{
  ℕ, ◌+◌, ◌*◌, ◌/◌, ◌%◌, ◌≤◌, ◌<◌, ◌≡◌, refl, ◌∙◌, inl, inr, true, false, arith, length, length-set,
  get_or, ap, sub64, add64, ==→eq, Bool-cases, u64_max, or_bit, clear_bit, ==_refl,
}
use armonios.Pmm.{Pmm, is_used, set_used, set_free, write_word, bitmap_words, max_pages, page_size}
use armonios.Pmm.Bitmap.{
  InBitmap, is_used-set_used, is_used-set_free, count_clear, count_clear-le, count_clear_update,
}

-- The bitmap covers the managed pages, their addresses fit in 64 bits, and `g_free_pages` counts
-- the clear bits among them.
pub record IsValid (s : Pmm) : Type 0 where
  pub shape : length s.bitmap ≡ bitmap_words
  pub bounded : s.total_pages ≤ max_pages
  pub no_wrap : s.mem_base + s.total_pages * page_size ≤ u64_max
  pub counted : s.free_pages ≡ count_clear (is_used s) s.total_pages

-- what no operation on single pages changes
pub record SameLayout (s t : Pmm) : Type 0 where
  pub words : length t.bitmap ≡ length s.bitmap
  pub base : t.mem_base ≡ s.mem_base
  pub total : t.total_pages ≡ s.total_pages

pub set_used_old : (s : Pmm) (p : ℕ) → is_used s p ≡ true → set_used s p ≡ s
unfolding set_used
set_used_old s p h = rw h

set_used_new :
    (s : Pmm) (p : ℕ)
    → is_used s p ≡ false
    → set_used s p ≡ record s { bitmap = write_word s p or_bit; free_pages = sub64 s.free_pages 1 }
unfolding set_used
set_used_new s p h = rw h

pub set_free_old : (s : Pmm) (p : ℕ) → is_used s p ≡ false → set_free s p ≡ s
unfolding set_free
set_free_old s p h = rw h

set_free_new :
    (s : Pmm) (p : ℕ)
    → is_used s p ≡ true
    → set_free s p
      ≡ record s { bitmap = write_word s p clear_bit; free_pages = add64 s.free_pages 1 }
unfolding set_free
set_free_new s p h = rw h

length-write_word : (s : Pmm) (p : ℕ) (f : ℕ → ℕ → ℕ) → length (write_word s p f) ≡ length s.bitmap
length-write_word s p f = length-set s.bitmap (p / 64) (f (get_or s.bitmap (p / 64) 0) (p % 64))

pub SameLayout-refl : (s : Pmm) → SameLayout s s
SameLayout-refl s = record { words = refl; base = refl; total = refl }

pub SameLayout-trans : {s t u : Pmm} → SameLayout s t → SameLayout t u → SameLayout s u
SameLayout-trans a b = record {
  words = b.words ∙ a.words;
  base = b.base ∙ a.base;
  total = b.total ∙ a.total;
}

pub set_used-SameLayout : (s : Pmm) (p : ℕ) → SameLayout s (set_used s p)
set_used-SameLayout s p = elim (Bool-cases (is_used s p)) [
  | inl old ↦ rw (set_used_old s p old) (SameLayout-refl s)
  | inr new ↦
      rw (set_used_new s p new)
        (record { words = length-write_word s p or_bit; base = refl; total = refl })
]

pub set_free-SameLayout : (s : Pmm) (p : ℕ) → SameLayout s (set_free s p)
set_free-SameLayout s p = elim (Bool-cases (is_used s p)) [
  | inl old ↦
      rw (set_free_new s p old)
        (record { words = length-write_word s p clear_bit; base = refl; total = refl })
  | inr new ↦ rw (set_free_old s p new) (SameLayout-refl s)
]

-- a managed page has its bit in the array
pub InBitmap_lem : {s : Pmm} (p : ℕ) → IsValid s → p < s.total_pages → InBitmap s p
InBitmap_lem p v h = omega arith

pub set_used_count :
    {s : Pmm} (p : ℕ)
    → IsValid s
    → p < s.total_pages
    → is_used s p ≡ false
    → (set_used s p).free_pages + 1 ≡ s.free_pages
set_used_count {s} p v h new = omega (
  arith,
  ap (λ (t : Pmm). t.free_pages) (set_used_new s p new),
  v.counted,
  count_clear-le (is_used s) s.total_pages,
  count_clear_update (is_used s) (is_used (set_used s p)) p s.total_pages
      (λ q. is_used-set_used s p q (InBitmap_lem p v h)) new h,
)

-- set_used on a managed page keeps the invariant.
pub set_used-IsValid : {s : Pmm} (p : ℕ) → IsValid s → p < s.total_pages → IsValid (set_used s p)
set_used-IsValid {s} p v h = elim (Bool-cases (is_used s p)) [
  | inl old ↦ rw (set_used_old s p old) v
  | inr new ↦
      let l = set_used-SameLayout s p in
      let n = set_used_count p v h new in
      record {
        shape = l.words ∙ v.shape;
        bounded = rw l.total v.bounded;
        no_wrap = rw (l.total, l.base) v.no_wrap;
        counted = omega (
          arith,
          v.counted,
          ap (count_clear (is_used (set_used s p))) l.total,
          count_clear_update (is_used s) (is_used (set_used s p)) p s.total_pages
              (λ q. is_used-set_used s p q (InBitmap_lem p v h)) new h,
        );
      }
]

pub set_free_count :
    {s : Pmm} (p : ℕ)
    → IsValid s
    → p < s.total_pages
    → is_used s p ≡ true
    → ((set_free s p).free_pages ≡ s.free_pages + 1)
      × (count_clear (is_used (set_free s p)) s.total_pages
          ≡ count_clear (is_used s) s.total_pages + 1)
set_free_count {s} p v h old =
    let up =
      count_clear_update (is_used (set_free s p)) (is_used s) p s.total_pages
        (λ q. ground (arith, is_used-set_free s p q (InBitmap_lem p v h), ==→eq p q))
        (is_used-set_free s p p (InBitmap_lem p v h) ∙ rw (==_refl p)) h in
    (
      omega (
        arith,
        ap (λ (t : Pmm). t.free_pages) (set_free_new s p old),
        v.counted,
        count_clear-le (is_used (set_free s p)) s.total_pages,
        up,
      ),
      omega (arith, up),
    )

-- set_free on a managed page keeps the invariant.
pub set_free-IsValid : {s : Pmm} (p : ℕ) → IsValid s → p < s.total_pages → IsValid (set_free s p)
set_free-IsValid {s} p v h = elim (Bool-cases (is_used s p)) [
  | inl old ↦
      let l = set_free-SameLayout s p in
      let n = set_free_count p v h old in
      record {
        shape = l.words ∙ v.shape;
        bounded = rw l.total v.bounded;
        no_wrap = rw (l.total, l.base) v.no_wrap;
        counted =
            omega (arith, v.counted, n.0, n.1, ap (count_clear (is_used (set_free s p))) l.total);
      }
  | inr new ↦ rw (set_free_old s p new) v
]
