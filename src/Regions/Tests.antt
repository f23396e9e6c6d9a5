-- ===== src/Regions/Tests.antt =====
-- The user regions of kernel/process.c at a small table, and their theorems there.
use armonios.Prelude.{◌+◌, ◌≡◌, ◌⊎◌, refl, true, false, ◌∷◌, none, some, arith, replicate}
use armonios.Regions.{
  Region, Regions, mmap_base, user_region_end, holds_any, region_clear, process_alloc_user_region,
  process_set_user_region_mapping, process_find_user_region, process_remove_user_region_info,
  process_user_range_contains,
}
use armonios.Regions.Entries.{NoEntry, AnEntry, holds, is_exact}
use armonios.Regions.Access.{IsRegions, IsUser, process_user_range_contains_lem}
use armonios.Regions.Alloc.{Exhausted, Allocated, process_alloc_user_region_lem}
use armonios.Regions.Remove.{
  Removed, process_remove_user_region_info_lem, process_set_user_region_mapping_lem,
}

-- one page of code at 0x400000
abbrev one_region : Regions
one_region = record {
  next_user_vaddr = mmap_base;
  user_regions =
      record { start = 0x400000; end = 0x401000; paddr = 0; flags = 0 } ∷ replicate 7 region_clear;
  count = 1;
}

one_region-IsRegions : IsRegions one_region
one_region-IsRegions = record {
  array = refl;
  count = omega arith;
  proper = λ i h. ground arith;
  bounded = λ i h. ground arith;
  apart = λ i j hi hj ne. absurd (ground arith);
}

-- the whole page is the user's, one byte more is not
accepts_page : process_user_range_contains one_region 0x400000 4096 ≡ true
unfolding process_user_range_contains user_region_end holds_any
accepts_page = refl

rejects_more : process_user_range_contains one_region 0x400000 4097 ≡ false
unfolding process_user_range_contains user_region_end holds_any
rejects_more = refl

process_user_range_contains_lem_example :
    ((process_user_range_contains one_region 0x400010 16 ≡ true)
      × AnEntry (holds 0x400010 0x400020) one_region.user_regions 1
      × IsUser one_region 0x400018)
    ⊎ ((process_user_range_contains one_region 0x400010 16 ≡ false)
        × NoEntry (holds 0x400010 0x400020) one_region.user_regions 1)
process_user_range_contains_lem_example =
    process_user_range_contains_lem one_region 0x400010 16 0x400018 one_region-IsRegions
      (omega arith) (omega arith) (omega arith)

process_alloc_user_region_lem_example :
    (Exhausted one_region 5000 × (process_alloc_user_region one_region 5000 ≡ (none, one_region)))
    ⊎ ((s' : Regions) × (process_alloc_user_region one_region 5000 ≡ (some mmap_base, s'))
        × Allocated one_region mmap_base (mmap_base + 0x2000) (mmap_base + 1) s')
process_alloc_user_region_lem_example =
    process_alloc_user_region_lem one_region 5000 (mmap_base + 1) one_region-IsRegions (omega arith)
      (omega arith)

process_remove_user_region_info_lem_example :
    (NoEntry (is_exact 0x400000 0x401000) one_region.user_regions 1
      × (process_remove_user_region_info one_region 0x400000 4096 ≡ (none, one_region)))
    ⊎ ((r : Region) × (s' : Regions) × (process_remove_user_region_info one_region 0x400000 4096
          ≡ (some r, s'))
        × Removed one_region 0x400000 0x401000 0x400800 r s')
process_remove_user_region_info_lem_example =
    process_remove_user_region_info_lem one_region 0x400000 4096 0x400800 one_region-IsRegions
      (omega arith)

process_set_user_region_mapping_lem_example :
    (NoEntry (is_exact 0x400000 0x401000) one_region.user_regions 1
      × (process_set_user_region_mapping one_region 0x400000 4096 0x80000 1 ≡ (false, one_region))
      × (process_find_user_region one_region 0x400000 4096 ≡ none))
    ⊎ ((s' : Regions) × (process_set_user_region_mapping one_region 0x400000 4096 0x80000 1
          ≡ (true, s'))
        × IsRegions s'
        × (process_find_user_region s' 0x400000 4096
            ≡ some (record { start = 0x400000; end = 0x401000; paddr = 0x80000; flags = 1 })))
process_set_user_region_mapping_lem_example =
    process_set_user_region_mapping_lem one_region 0x400000 4096 0x80000 1 one_region-IsRegions
      (omega arith)
