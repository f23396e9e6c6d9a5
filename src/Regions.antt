-- ===== src/Regions.antt =====
-- The user regions of kernel/process.c: which addresses a process may hand to the kernel.
-- `Regions` has the fields of `process_t` that these functions use. The loops go over the first
-- `count` entries of the array. A process pointer is not null here, nor one for a result.
pub mod Entries
pub mod Access
pub mod Add
pub mod Alloc
pub mod Remove
mod Tests
use armonios.Prelude.{
  ℕ, zero, suc, ◌+◌, ◌-◌, ◌*◌, ◌/◌, ◌%◌, ◌^◌, Bool, true, false, not, ◌&&◌, ◌||◌, List, [], ◌∷◌,
  Option, none, some, if◌then◌else◌, ltb, leb, ◌==◌, get_or, set, add64, u64_max, u64_mod, sub32,
}

abbrev pub max_user_regions : ℕ
max_user_regions = 8

abbrev pub user_region_align : ℕ
user_region_align = 4096

abbrev pub mmap_base : ℕ
mmap_base = 0x0000000100000000

abbrev pub mmap_limit : ℕ
mmap_limit = 0x0000000200000000

-- `process_user_region_t`
pub record Region : Type 0 where
  pub start : ℕ
  pub end : ℕ
  pub paddr : ℕ
  pub flags : ℕ

pub record Regions : Type 0 where
  pub next_user_vaddr : ℕ
  pub user_regions : List Region
  pub count : ℕ

abbrev pub region_clear : Region
region_clear = record { start = 0; end = 0; paddr = 0; flags = 0 }

-- (value + alignment - 1) & ~(alignment - 1), at USER_REGION_ALIGN
abbrev pub align_up : ℕ → ℕ
align_up value = let v = add64 value (user_region_align - 1) in v - v % user_region_align

-- The end of a region, or none for an empty one and one that wraps.
unfoldable pub user_region_end : ℕ → ℕ → Option ℕ
user_region_end start size =
    if size == 0 || ltb (u64_max - size) start then none else some (start + size)

-- the test for an overlap, over the first `n` entries
unfoldable pub overlaps_any : ℕ → List Region → ℕ → ℕ → Bool
overlaps_any zero rs start end = false
overlaps_any (suc n) [] start end = false
overlaps_any (suc n) (r ∷ rs) start end =
    let rest = overlaps_any n rs start end in
    if ltb start r.end && ltb r.start end then true else rest

abbrev pub add_region : Regions → ℕ → ℕ → Regions
add_region s start end = record s {
  user_regions =
      set s.user_regions s.count (record { start = start; end = end; paddr = 0; flags = 0 });
  count = s.count + 1;
}

abbrev pub add_checked : Regions → ℕ → Option ℕ → Bool × Regions
add_checked s start none = (false, s)
add_checked s start (some end) =
    if overlaps_any s.count s.user_regions start end
    then (false, s)
    else (true, add_region s start end)

unfoldable pub process_add_user_region : Regions → ℕ → ℕ → Bool × Regions
process_add_user_region s start size =
    if leb max_user_regions s.count
    then (false, s)
    else add_checked s start (user_region_end start size)

-- The end of process_alloc_user_region, once the region is added: its address, and the new cursor.
abbrev pub alloc_at : Bool × Regions → ℕ → ℕ → Option ℕ × Regions
alloc_at (false, s) start end = (none, s)
alloc_at (true, s) start end = (some start, record s { next_user_vaddr = end })

abbrev pub alloc_checked : Regions → ℕ → ℕ → Option ℕ → Option ℕ × Regions
alloc_checked s start size none = (none, s)
alloc_checked s start size (some end) =
    if ltb mmap_limit end
    then (none, s)
    else alloc_at (process_add_user_region s start size) start end

unfoldable pub process_alloc_user_region : Regions → ℕ → Option ℕ × Regions
process_alloc_user_region s size =
    let aligned_size = align_up size in
    let start = align_up s.next_user_vaddr in
    if size == 0 || (ltb aligned_size size || ltb start s.next_user_vaddr)
    then (none, s)
    else alloc_checked s start aligned_size (user_region_end start aligned_size)

-- The index of the first entry with these bounds, `n` entries on from index `i`.
unfoldable pub find_exact : ℕ → ℕ → List Region → ℕ → ℕ → Option ℕ
find_exact zero i rs start end = none
find_exact (suc n) i [] start end = none
find_exact (suc n) i (r ∷ rs) start end =
    let rest = find_exact n (i + 1) rs start end in
    if r.start == start && r.end == end then some i else rest

abbrev pub find_checked : Regions → ℕ → Option ℕ → Option ℕ
find_checked s start none = none
find_checked s start (some end) = find_exact s.count 0 s.user_regions start end

-- the search that the next three functions share
unfoldable pub find_index : Regions → ℕ → ℕ → Option ℕ
find_index s start size = find_checked s start (user_region_end start size)

abbrev pub region_at : Regions → ℕ → Region
region_at s i = get_or s.user_regions i region_clear

abbrev pub map_at : Regions → Option ℕ → ℕ → ℕ → Bool × Regions
map_at s none paddr flags = (false, s)
map_at s (some i) paddr flags = (
  true,
  record s {
    user_regions = set s.user_regions i (record (region_at s i) { paddr = paddr; flags = flags });
  },
)

unfoldable pub process_set_user_region_mapping : Regions → ℕ → ℕ → ℕ → ℕ → Bool × Regions
process_set_user_region_mapping s start size paddr flags =
    map_at s (find_index s start size) paddr flags

abbrev pub copy_at : Regions → Option ℕ → Option Region
copy_at s none = none
copy_at s (some i) = some (region_at s i)

-- The region that is copied out.
unfoldable pub process_find_user_region : Regions → ℕ → ℕ → Option Region
process_find_user_region s start size = copy_at s (find_index s start size)

-- for (j = at; …; j++) regions[j - 1] = regions[j], with `n` rounds left
unfoldable pub shift_down : ℕ → ℕ → List Region → List Region
shift_down zero at rs = rs
shift_down (suc n) at rs = shift_down n (at + 1) (set rs (at - 1) (get_or rs at region_clear))

unfoldable pub remove_at : Regions → ℕ → Regions
unfolding shift_down
remove_at s i = record s {
  user_regions =
      set (shift_down (s.count - (i + 1)) (i + 1) s.user_regions) (s.count - 1) region_clear;
  count = s.count - 1;
}

abbrev pub remove_found : Regions → Option ℕ → Option Region × Regions
remove_found s none = (none, s)
remove_found s (some i) = (some (region_at s i), remove_at s i)

unfoldable pub process_remove_user_region_info : Regions → ℕ → ℕ → Option Region × Regions
process_remove_user_region_info s start size = remove_found s (find_index s start size)

abbrev pub is_some {ℓ} : {A : Type ℓ} → Option A → Bool
is_some none = false
is_some (some a) = true

unfoldable pub process_remove_user_region : Regions → ℕ → ℕ → Bool × Regions
process_remove_user_region s start size =
    let r = process_remove_user_region_info s start size in (is_some r.0, r.1)

-- the test for a region that holds the range, over the first `n` entries
unfoldable pub holds_any : ℕ → List Region → ℕ → ℕ → Bool
holds_any zero rs start end = false
holds_any (suc n) [] start end = false
holds_any (suc n) (r ∷ rs) start end =
    let rest = holds_any n rs start end in if leb r.start start && leb end r.end then true else rest

abbrev pub contains_checked : Regions → ℕ → Option ℕ → Bool
contains_checked s start none = false
contains_checked s start (some end) = holds_any s.count s.user_regions start end

unfoldable pub process_user_range_contains : Regions → ℕ → ℕ → Bool
process_user_range_contains s start size =
    if size == 0 then true else contains_checked s start (user_region_end start size)
