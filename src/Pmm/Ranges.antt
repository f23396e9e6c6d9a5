-- ===== src/Pmm/Ranges.antt =====
-- Initialisation and reservation in kernel/mm/pmm.c: the loops over a range of pages.
use armonios.Prelude.{
  ℕ, zero, suc, ◌+◌, ◌≤◌, ◌≡◌, ◌∙◌, Bool, true, false, ◌&&◌, arith, if◌then◌else◌, ltb, leb,
}
use armonios.Pmm.{Pmm, is_used, set_used, set_free, set_used_range, set_free_range}
use armonios.Pmm.Bitmap.{is_used-set_used, is_used-set_free}
use armonios.Pmm.Inv.{
  IsValid, SameLayout, SameLayout-refl, SameLayout-trans, set_used-SameLayout, set_free-SameLayout,
  set_used-IsValid, set_free-IsValid, InBitmap_lem, set_used_count, set_free_count,
}

abbrev pub in_range : ℕ → ℕ → ℕ → Bool
in_range start n q = leb start q && ltb q (start + n)

pub set_used_range-SameLayout : (n start : ℕ) (s : Pmm) → SameLayout s (set_used_range start n s)
unfolding set_used_range
set_used_range-SameLayout zero start s = SameLayout-refl s
set_used_range-SameLayout (suc n) start s =
    SameLayout-trans (set_used-SameLayout s start)
      (set_used_range-SameLayout n (start + 1) (set_used s start))

-- The loop of set_used marks the pages of the range and no other.
pub is_used-set_used_range :
    (n start : ℕ) (s : Pmm) (q : ℕ)
    → IsValid s
    → start + n ≤ s.total_pages
    → is_used (set_used_range start n s) q ≡ (if in_range start n q then true else is_used s q)
unfolding set_used_range
is_used-set_used_range zero start s q v h = ground arith
is_used-set_used_range (suc n) start s q v h =
    let l = set_used-SameLayout s start in
    ground (
      arith,
      is_used-set_used_range n (start + 1) (set_used s start) q
          (set_used-IsValid start v (omega arith)) (omega arith),
      is_used-set_used s start q (InBitmap_lem start v (omega arith)),
    )

pub set_used_range-IsValid :
    (n start : ℕ) {s : Pmm}
    → IsValid s
    → start + n ≤ s.total_pages
    → IsValid (set_used_range start n s)
unfolding set_used_range
set_used_range-IsValid zero start v h = v
set_used_range-IsValid (suc n) start {s} v h =
    let l = set_used-SameLayout s start in
    set_used_range-IsValid n (start + 1) (set_used-IsValid start v (omega arith)) (omega arith)

-- Marking a range of clear pages takes exactly its length from the free count.
pub set_used_range_count :
    (n start : ℕ) {s : Pmm}
    → IsValid s
    → start + n ≤ s.total_pages
    → ((q : ℕ) → in_range start n q ≡ true → is_used s q ≡ false)
    → (set_used_range start n s).free_pages + n ≡ s.free_pages
unfolding set_used_range
set_used_range_count zero start v h clear = omega arith
set_used_range_count (suc n) start {s} v h clear =
    let l = set_used-SameLayout s start in
    omega (
      arith,
      set_used_count start v (omega arith) (clear start (ground arith)),
      set_used_range_count n (start + 1) (set_used-IsValid start v (omega arith)) (omega arith)
          (λ q r.
            is_used-set_used s start q (InBitmap_lem start v (omega arith))
            ∙ ground (arith, clear q)),
    )

pub set_free_range-SameLayout : (n start : ℕ) (s : Pmm) → SameLayout s (set_free_range start n s)
unfolding set_free_range
set_free_range-SameLayout zero start s = SameLayout-refl s
set_free_range-SameLayout (suc n) start s =
    SameLayout-trans (set_free-SameLayout s start)
      (set_free_range-SameLayout n (start + 1) (set_free s start))

pub set_free_range-IsValid :
    (n start : ℕ) {s : Pmm}
    → IsValid s
    → start + n ≤ s.total_pages
    → IsValid (set_free_range start n s)
unfolding set_free_range
set_free_range-IsValid zero start v h = v
set_free_range-IsValid (suc n) start {s} v h =
    let l = set_free-SameLayout s start in
    set_free_range-IsValid n (start + 1) (set_free-IsValid start v (omega arith)) (omega arith)

pub is_used-set_free_range :
    (n start : ℕ) (s : Pmm) (q : ℕ)
    → IsValid s
    → start + n ≤ s.total_pages
    → is_used (set_free_range start n s) q ≡ (if in_range start n q then false else is_used s q)
unfolding set_free_range
is_used-set_free_range zero start s q v h = ground arith
is_used-set_free_range (suc n) start s q v h =
    let l = set_free-SameLayout s start in
    ground (
      arith,
      is_used-set_free_range n (start + 1) (set_free s start) q
          (set_free-IsValid start v (omega arith)) (omega arith),
      is_used-set_free s start q (InBitmap_lem start v (omega arith)),
    )

-- Freeing a range of set pages adds exactly its length to the free count.
pub set_free_range_count :
    (n start : ℕ) {s : Pmm}
    → IsValid s
    → start + n ≤ s.total_pages
    → ((q : ℕ) → in_range start n q ≡ true → is_used s q ≡ true)
    → (set_free_range start n s).free_pages ≡ s.free_pages + n
unfolding set_free_range
set_free_range_count zero start v h set = omega arith
set_free_range_count (suc n) start {s} v h set =
    let l = set_free-SameLayout s start in
    omega (
      arith,
      (set_free_count start v (omega arith) (set start (ground arith))).0,
      set_free_range_count n (start + 1) (set_free-IsValid start v (omega arith)) (omega arith)
          (λ q r.
            is_used-set_free s start q (InBitmap_lem start v (omega arith))
            ∙ ground (arith, set q)),
    )
