-- ===== src/Pmm/Tests.antt =====
-- The allocator of kernel/mm/pmm.c at small memories, and its theorems there.
use armonios.Prelude.{
  ℕ, ◌+◌, ◌≤◌, ◌<◌, ◌≡◌, ◌≢◌, ◌⊎◌, refl, inl, inr, true, false, arith, if◌then◌else◌, ◌==◌, bit,
  clear_bit, or_bit,
}
use armonios.Pmm.{
  Pmm, is_used, pmm_init, pmm_reserve_range, pmm_alloc_page, pmm_alloc_pages, pmm_free_page,
  page_address, set_used, set_free_range, set_free, add_saturated, managed_end, set_used_range,
  reserve_end, align_up_saturated, reserve_start, align_down,
}
use armonios.Pmm.Inv.{IsValid}
use armonios.Pmm.Init.{pmm_init_lem}
use armonios.Pmm.Alloc.{SentinelReserved, alloc_page_first, Allocated, Blocked, pmm_alloc_pages_lem}
use armonios.Pmm.Reserve.{touches, pmm_reserve_range_lem}
use armonios.Pmm.Free.{pmm_free_page_rejects, pmm_free_page_zero}

-- four pages from 0x4000 on
abbrev small : Pmm
small = pmm_init 0x4000 0x4000

small-IsValid : IsValid small
small-IsValid = (pmm_init_lem 0x4000 0x4000 (omega arith)).0

small_base : small.mem_base ≡ 0x4000
small_base = (pmm_init_lem 0x4000 0x4000 (omega arith)).1

small_total : small.total_pages ≡ 4
small_total = (pmm_init_lem 0x4000 0x4000 (omega arith)).2

small-SentinelReserved : SentinelReserved small
small-SentinelReserved e = absurd (omega (arith, small_base))

-- two pages from address 0 on
abbrev low : Pmm
low = pmm_init 0 0x2000

low-IsValid : IsValid low
low-IsValid = (pmm_init_lem 0 0x2000 (omega arith)).0

-- reserve the second page, allocate two, free one
script :
    let s = pmm_reserve_range small 0x5001 8 in
    let (a, t) = pmm_alloc_page s in
    let (b, u) = pmm_alloc_pages t 2 in
    (a ≡ 0x4000) × (b ≡ 0x6000) × (u.free_pages ≡ 0) × ((pmm_free_page u 0x7000).free_pages ≡ 1)
unfolding pmm_init pmm_reserve_range pmm_alloc_page pmm_alloc_pages pmm_free_page set_free_range
    set_free bit clear_bit add_saturated managed_end set_used_range reserve_end align_up_saturated
    reserve_start align_down set_used or_bit
script = (refl, refl, refl, refl)

pmm_init_lem_example :
    IsValid low
    × (low.mem_base ≡ 0)
    × (low.total_pages ≡ 2)
    × ((q : ℕ) → q < low.total_pages → is_used low q ≡ (q == 0))
pmm_init_lem_example = pmm_init_lem 0 0x2000 (omega arith)

pmm_alloc_pages_lem_example :
    let (a, t) = pmm_alloc_pages small 3 in
    ((a ≡ 0) × (t ≡ small) × ((j : ℕ) → j + 3 ≤ small.total_pages → Blocked small 3 j))
    ⊎ ((k : ℕ) × Allocated small 3 k a t × ((j : ℕ) → j < k → Blocked small 3 j))
pmm_alloc_pages_lem_example =
    pmm_alloc_pages_lem small 3 small-IsValid small-SentinelReserved (omega arith)

pmm_reserve_range_lem_example :
    let t = pmm_reserve_range small 0x5001 8 in
    IsValid t
    × ((q : ℕ)
        → q < small.total_pages
        → is_used t q ≡ (if touches small 0x5001 8 q then true else is_used small q))
pmm_reserve_range_lem_example =
    pmm_reserve_range_lem small 0x5001 8 small-IsValid (omega (arith, small_base)) (omega arith)
      (omega arith)

pmm_free_page_rejects_example : pmm_free_page small 0x5008 ≡ small
pmm_free_page_rejects_example = pmm_free_page_rejects small 0x5008 (inr (inl (omega arith)))

small_first : pmm_alloc_page small ≡ (page_address small 0, set_used small 0)
small_first =
    alloc_page_first small (omega (arith, small_total))
      ((pmm_init_lem 0x4000 0x4000 (omega arith)).3 0 (omega (arith, small_total)))

allocates : (pmm_alloc_page small).0 ≢ 0
allocates = rw small_first (omega (arith, small_base))

pmm_free_page_zero_example :
    let t = pmm_free_page low 0 in
    (is_used t 0 ≡ false) × ((pmm_alloc_page t).0 ≡ 0) × (is_used (pmm_alloc_page t).1 0 ≡ true)
pmm_free_page_zero_example =
    pmm_free_page_zero low low-IsValid (pmm_init_lem 0 0x2000 (omega arith)).1
      (omega (arith, (pmm_init_lem 0 0x2000 (omega arith)).2))
