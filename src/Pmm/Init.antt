-- ===== src/Pmm/Init.antt =====
-- pmm_init of kernel/mm/pmm.c.
use armonios.Prelude.{
  ℕ, ◌+◌, ◌*◌, ◌/◌, ◌%◌, ◌≤◌, ◌<◌, ◌≡◌, refl, ◌∙◌, inl, inr, true, false, ◌&&◌, arith,
  if◌then◌else◌, ltb, ◌==◌, Bool-cases, u64_max, replicate, length-replicate, get_or-replicate, bit,
  all_to, all_to_at,
}
use armonios.Pmm.{
  Pmm, is_used, set_used, set_free_range, page_size, max_pages, bitmap_words, pmm_init,
}
use armonios.Pmm.Bitmap.{count_clear_none, is_used-set_used}
use armonios.Pmm.Inv.{IsValid, InBitmap_lem, set_used-IsValid, set_used-SameLayout}
use armonios.Pmm.Ranges.{set_free_range-IsValid, set_free_range-SameLayout, is_used-set_free_range}

-- the pages that pmm_init manages
abbrev pub managed : ℕ → ℕ
managed mem_size =
    let pages = mem_size / page_size in if ltb max_pages pages then max_pages else pages

-- the state of pmm_init before its second loop
abbrev blank : ℕ → ℕ → Pmm
blank mem_base total = record {
  bitmap = replicate bitmap_words u64_max;
  mem_base = mem_base;
  total_pages = total;
  free_pages = 0;
}

ones_table : all_to (λ b. bit u64_max b == 1) 64 ≡ true
unfolding all_to bit
ones_table = refl

is_used-blank : (base total q : ℕ) → q < max_pages → is_used (blank base total) q ≡ true
unfolding is_used
is_used-blank base total q h =
    rw (get_or-replicate bitmap_words u64_max (q / 64) 0 (omega arith))
      (all_to_at (λ b. bit u64_max b == 1) 64 (q % 64) (omega arith) ones_table)

blank-IsValid :
    (base total : ℕ)
    → total ≤ max_pages
    → base + total * page_size ≤ u64_max
    → IsValid (blank base total)
blank-IsValid base total le fits = record {
  shape = length-replicate bitmap_words u64_max;
  bounded = le;
  no_wrap = fits;
  counted =
      let none_clear =
        count_clear_none (is_used (blank base total)) total
          (λ q h. is_used-blank base total q (omega arith)) in
      omega (arith, none_clear);
}

-- the last step of pmm_init
abbrev reserve_zero : Pmm → Pmm
reserve_zero s = if s.mem_base == 0 && ltb 0 s.total_pages then set_used s 0 else s

reserve_zero_lem :
    (s : Pmm)
    → IsValid s
    → ((q : ℕ) → q < s.total_pages → is_used s q ≡ false)
    → IsValid (reserve_zero s)
      × ((reserve_zero s).mem_base ≡ s.mem_base)
      × ((reserve_zero s).total_pages ≡ s.total_pages)
      × ((q : ℕ) → q < s.total_pages → is_used (reserve_zero s) q ≡ (s.mem_base == 0 && q == 0))
reserve_zero_lem s v clear = elim (Bool-cases (s.mem_base == 0 && ltb 0 s.total_pages)) [
  | inl hit ↦
      let pos : 0 < s.total_pages = ground arith in
      let zero_base : (s.mem_base == 0) ≡ true = ground arith in
      let l = set_used-SameLayout s 0 in
      rw hit (
        set_used-IsValid 0 v pos,
        l.base,
        l.total,
        λ q h. is_used-set_used s 0 q (InBitmap_lem 0 v pos) ∙ ground (arith, clear q),
      )
  | inr miss ↦ rw miss (v, refl, refl, λ q h. clear q h ∙ ground arith)
]

-- After pmm_init over memory whose managed part fits in 64 bits the allocator is valid and manages
-- at most PMM_MAX_PAGES pages, all of them free except page 0 of memory that starts at address 0.
pub pmm_init_lem :
    (mem_base mem_size : ℕ)
    → mem_base + managed mem_size * page_size ≤ u64_max
    → let s = pmm_init mem_base mem_size in
      IsValid s
      × (s.mem_base ≡ mem_base)
      × (s.total_pages ≡ managed mem_size)
      × ((q : ℕ) → q < s.total_pages → is_used s q ≡ (mem_base == 0 && q == 0))
unfolding pmm_init
pmm_init_lem base size fits =
    let total = managed size in
    let le : total ≤ max_pages = ground arith in
    let v = blank-IsValid base total le fits in
    let l = set_free_range-SameLayout total 0 (blank base total) in
    let clear : (q : ℕ)
        → q < total
        → is_used (set_free_range 0 total (blank base total)) q ≡ false =
      λ q h. is_used-set_free_range total 0 (blank base total) q v (omega arith) ∙ ground arith in
    let r =
      reserve_zero_lem (set_free_range 0 total (blank base total))
        (set_free_range-IsValid total 0 v (omega arith)) (λ q h. clear q (omega arith)) in
    (r.0, r.1 ∙ l.base, r.2 ∙ l.total, λ q h. r.3 q (omega arith) ∙ ground arith)
