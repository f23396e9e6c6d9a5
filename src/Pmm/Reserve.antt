-- ===== src/Pmm/Reserve.antt =====
-- pmm_reserve_range of kernel/mm/pmm.c.
use armonios.Prelude.{
  ℕ, ◌+◌, ◌-◌, ◌*◌, ◌%◌, ◌≤◌, ◌<◌, ◌≡◌, ◌∙◌, inl, inr, Bool, true, min, ◌&&◌, ◌||◌, arith,
  if◌then◌else◌, ltb, leb, ◌==◌, Bool-cases, u64_max,
}
use armonios.Pmm.{
  Pmm, is_used, page_size, set_used_range, pmm_reserve_range, add_saturated, align_up_saturated,
  align_down, managed_end, reserve_start, reserve_end,
}
use armonios.Pmm.Inv.{IsValid}
use armonios.Pmm.Ranges.{set_used_range-IsValid, is_used-set_used_range}

-- page `q` and the bytes from `start` up to `start + size`, or to the end of the address space,
-- have a byte in common
abbrev pub touches : Pmm → ℕ → ℕ → ℕ → Bool
touches s start size q =
    ltb 0 size
    && ltb (s.mem_base + q * page_size) (min (start + size) u64_max)
    && ltb start (s.mem_base + q * page_size + page_size)

add_saturated_lem : (a b : ℕ) → a ≤ u64_max → b ≤ u64_max → add_saturated a b ≡ min (a + b) u64_max
unfolding add_saturated
add_saturated_lem a b h k = ground arith

managed_end_lem : {s : Pmm} → IsValid s → managed_end s ≡ s.mem_base + s.total_pages * page_size
unfolding managed_end add_saturated
managed_end_lem v = ground arith

-- The first page of the loop is the first that ends behind `start`.
reserve_start_lem :
    (s : Pmm) (start : ℕ)
    → IsValid s
    → s.mem_base % page_size ≡ 0
    → start < s.mem_base + s.total_pages * page_size
    → (reserve_start s start ≤ s.total_pages)
      × ((q : ℕ)
          → leb (reserve_start s start) q ≡ ltb start (s.mem_base + q * page_size + page_size))
unfolding reserve_start align_down
reserve_start_lem s start v aligned lt = (ground arith, λ q. ground arith)

-- The loop ends at the first page that begins at or behind `end`.
reserve_end_lem :
    (s : Pmm) (end : ℕ)
    → IsValid s
    → s.mem_base % page_size ≡ 0
    → s.mem_base < end
    → end ≤ u64_max
    → (reserve_end s end ≤ s.total_pages)
      × ((q : ℕ)
          → q < s.total_pages
          → ltb q (reserve_end s end) ≡ ltb (s.mem_base + q * page_size) end)
unfolding reserve_end align_up_saturated
reserve_end_lem s end v aligned lo hi =
    let e = managed_end_lem v in (ground arith, λ q h. ground arith)

-- The loop of pmm_reserve_range marks the pages that touch the range.
marked_lem :
    (s : Pmm) (start end q : ℕ)
    → IsValid s
    → s.mem_base % page_size ≡ 0
    → start < s.mem_base + s.total_pages * page_size
    → s.mem_base < end
    → end ≤ u64_max
    → q < s.total_pages
    → is_used
        (set_used_range (reserve_start s start) (reserve_end s end - reserve_start s start) s)
        q
      ≡ (if ltb (s.mem_base + q * page_size) end
            && ltb start (s.mem_base + q * page_size + page_size)
          then true
          else is_used s q)
marked_lem s start end q v aligned lt lo hi h =
    let first = reserve_start_lem s start v aligned lt in
    let last = reserve_end_lem s end v aligned lo hi in
    is_used-set_used_range (reserve_end s end - reserve_start s start) (reserve_start s start) s q v
      (omega arith)
    ∙ rw (← last.1 q h, ← first.1 q) (ground arith)

-- Reserving a range of a valid allocator whose memory starts on a page boundary marks exactly the
-- managed pages that have a byte in the range, and keeps the allocator valid.
pub pmm_reserve_range_lem :
    (s : Pmm) (start size : ℕ)
    → IsValid s
    → s.mem_base % page_size ≡ 0
    → start ≤ u64_max
    → size ≤ u64_max
    → let t = pmm_reserve_range s start size in
      IsValid t
      × ((q : ℕ)
          → q < s.total_pages
          → is_used t q ≡ (if touches s start size q then true else is_used s q))
unfolding pmm_reserve_range
pmm_reserve_range_lem s start size v aligned hs hz =
    rw (add_saturated_lem start size hs hz, managed_end_lem v)
      (elim (Bool-cases (size == 0 || s.total_pages == 0)) [
        | inl empty ↦ rw empty (v, λ q h. ground arith)
        | inr some_pages ↦
            rw some_pages (elim (Bool-cases (leb end s.mem_base || leb limit start)) [
              | inl outside ↦ rw outside (v, λ q h. ground arith)
              | inr inside ↦
                  let lt : start < limit = ground arith in
                  let lo : s.mem_base < end = ground arith in
                  let first = reserve_start_lem s start v aligned lt in
                  let last = reserve_end_lem s end v aligned lo (omega arith) in
                  rw inside (
                    set_used_range-IsValid (reserve_end s end - reserve_start s start)
                        (reserve_start s start) v (omega arith),
                    λ q h. marked_lem s start end q v aligned lt lo (omega arith) h ∙ ground arith,
                  )
            ])
      ])
  where
    end : ℕ
    end = min (start + size) u64_max

    limit : ℕ
    limit = s.mem_base + s.total_pages * page_size
