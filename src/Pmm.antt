-- ===== src/Pmm.antt =====
-- kernel/mm/pmm.c: the physical page allocator.
-- The static variables are the record `Pmm`; a `uint64_t` is its number, and arithmetic wraps.
pub mod Bitmap
pub mod Inv
pub mod Alloc
pub mod Ranges
pub mod Init
pub mod Reserve
pub mod Free
mod Tests
use armonios.Prelude.{
  ℕ, zero, suc, ◌+◌, ◌-◌, ◌*◌, ◌/◌, ◌%◌, Bool, not, ◌&&◌, ◌||◌, List, if◌then◌else◌, ltb, leb, ◌==◌,
  get_or, set, replicate, bit, or_bit, clear_bit, add64, sub64, mul64, u64_max,
}

abbrev pub page_size : ℕ
page_size = 4096

-- PMM_MAX_PAGES: 128 MiB of pages
abbrev pub max_pages : ℕ
max_pages = 32768

abbrev pub bits_per_word : ℕ
bits_per_word = 64

abbrev pub bitmap_words : ℕ
bitmap_words = 512

pub record Pmm : Type 0 where
  pub bitmap : List ℕ
  pub mem_base : ℕ
  pub total_pages : ℕ
  pub free_pages : ℕ

-- `value & ~(PAGE_SIZE - 1)`
unfoldable pub align_down : ℕ → ℕ
align_down value = value / page_size * page_size

unfoldable pub align_up : ℕ → ℕ
align_up value = add64 value (page_size - 1) / page_size * page_size

unfoldable pub add_saturated : ℕ → ℕ → ℕ
add_saturated a b = if ltb (u64_max - b) a then u64_max else a + b

unfoldable pub align_up_saturated : ℕ → ℕ
unfolding align_up
align_up_saturated value =
    if value % page_size == 0
    then value
    else if ltb (u64_max - (page_size - 1)) value
    then u64_max
    else align_up value

unfoldable pub managed_end : Pmm → ℕ
managed_end s = add_saturated s.mem_base (mul64 s.total_pages page_size)

-- the test `(g_bitmap[word] & (1ULL << bit)) != 0`, false out of the array
unfoldable pub is_used : Pmm → ℕ → Bool
is_used s page = bit (get_or s.bitmap (page / bits_per_word) 0) (page % bits_per_word) == 1

-- writes the word that holds `page`'s bit
abbrev write_word : Pmm → ℕ → (ℕ → ℕ → ℕ) → List ℕ
write_word s page f =
    let word = page / bits_per_word in
    set s.bitmap word (f (get_or s.bitmap word 0) (page % bits_per_word))

unfoldable pub set_used : Pmm → ℕ → Pmm
unfolding is_used
set_used s page =
    if is_used s page
    then s
    else record s { bitmap = write_word s page or_bit; free_pages = sub64 s.free_pages 1 }

unfoldable pub set_free : Pmm → ℕ → Pmm
unfolding is_used
set_free s page =
    if is_used s page
    then record s { bitmap = write_word s page clear_bit; free_pages = add64 s.free_pages 1 }
    else s

-- for (page = start; page < start + n; page++) set_used(page)
unfoldable pub set_used_range : ℕ → ℕ → Pmm → Pmm
set_used_range start zero s = s
set_used_range start (suc n) s = set_used_range (start + 1) n (set_used s start)

unfoldable pub set_free_range : ℕ → ℕ → Pmm → Pmm
set_free_range start zero s = s
set_free_range start (suc n) s = set_free_range (start + 1) n (set_free s start)

unfoldable pub pmm_init : ℕ → ℕ → Pmm
pmm_init mem_base mem_size =
    let pages = mem_size / page_size in
    let total = if ltb max_pages pages then max_pages else pages in
    let blank : Pmm = record {
      bitmap = replicate bitmap_words u64_max;
      mem_base = mem_base;
      total_pages = total;
      free_pages = 0;
    } in
    let s = set_free_range 0 total blank in
    if s.mem_base == 0 && ltb 0 s.total_pages then set_used s 0 else s

-- `page_start` and `page_end` of pmm_reserve_range
unfoldable pub reserve_start : Pmm → ℕ → ℕ
reserve_start s start =
    if ltb start s.mem_base then 0 else sub64 (align_down start) s.mem_base / page_size

unfoldable pub reserve_end : Pmm → ℕ → ℕ
reserve_end s end =
    let rounded = sub64 (align_up_saturated end) s.mem_base / page_size in
    if leb (managed_end s) end
    then s.total_pages
    else if ltb s.total_pages rounded
    then s.total_pages
    else rounded

unfoldable pub pmm_reserve_range : Pmm → ℕ → ℕ → Pmm
pmm_reserve_range s start size =
    let end = add_saturated start size in
    if size == 0 || s.total_pages == 0
    then s
    else (if leb end s.mem_base || leb (managed_end s) start
        then s
        else set_used_range (reserve_start s start) (reserve_end s end - reserve_start s start) s)

-- the address that the allocator hands out for a page
abbrev pub page_address : Pmm → ℕ → ℕ
page_address s page = add64 s.mem_base (mul64 page page_size)

-- The loop of pmm_alloc_page from `page` on, with `n` pages left.
unfoldable pub alloc_page_loop : Pmm → ℕ → ℕ → ℕ × Pmm
alloc_page_loop s page zero = (0, s)
alloc_page_loop s page (suc n) =
    let rest = alloc_page_loop s (page + 1) n in
    if is_used s page then rest else (page_address s page, set_used s page)

unfoldable pub pmm_alloc_page : Pmm → ℕ × Pmm
unfolding alloc_page_loop
pmm_alloc_page s = alloc_page_loop s 0 s.total_pages

-- The loop of pmm_alloc_pages from `page` on, with `n` pages left.
unfoldable pub alloc_pages_loop : Pmm → ℕ → ℕ → ℕ → ℕ → ℕ → ℕ × Pmm
alloc_pages_loop s count page zero run_start run_count = (0, s)
alloc_pages_loop s count page (suc n) run_start run_count =
    let begin = if run_count == 0 then page else run_start in
    let longer = alloc_pages_loop s count (page + 1) n begin (run_count + 1) in
    let broken = alloc_pages_loop s count (page + 1) n run_start 0 in
    if is_used s page
    then broken
    else (if run_count + 1 == count
        then (page_address s begin, set_used_range begin count s)
        else longer)

unfoldable pub pmm_alloc_pages : Pmm → ℕ → ℕ × Pmm
unfolding alloc_pages_loop
pmm_alloc_pages s count =
    if count == 0 || ltb s.total_pages count
    then (0, s)
    else alloc_pages_loop s count 0 s.total_pages 0 0

unfoldable pub pmm_free_page : Pmm → ℕ → Pmm
pmm_free_page s paddr =
    if ltb paddr s.mem_base || not (paddr % page_size == 0)
    then s
    else (let page = (paddr - s.mem_base) / page_size in
        if leb s.total_pages page then s else set_free s page)

pub pmm_free_count : Pmm → ℕ
pmm_free_count s = s.free_pages

pub pmm_total_count : Pmm → ℕ
pmm_total_count s = s.total_pages
