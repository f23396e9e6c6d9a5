-- ===== src/Arena.antt =====
-- programs/libkarm/arena.c: a bump allocator over a block of memory.
-- A null arena pointer is `none`; a function that updates `*arena` returns it beside its result.
pub mod Alloc
mod Tests
use Prim.Native.Nat.{bit_and}
use armonios.Prelude.{
  ℕ, ◌+◌, ◌-◌, ◌*◌, ◌/◌, Bool, true, false, not, ◌&&◌, ◌||◌, Option, none, some, if◌then◌else◌, ltb,
  leb, ◌==◌, u64_max, sub64, add64,
}

-- `kli_arena_t`; `base` is an address, and 0 is the null pointer.
pub record Arena : Type 0 where
  pub base : ℕ
  pub capacity : ℕ
  pub offset : ℕ
  pub mapping_size : ℕ

abbrev pub arena_clear : Arena
arena_clear = record { base = 0; capacity = 0; offset = 0; mapping_size = 0 }

-- The Boolean is whether 0 was returned (-1 if not).
unfoldable pub kli_arena_init : Option Arena → ℕ → ℕ → Bool × Option Arena
kli_arena_init none buffer capacity = (false, none)
kli_arena_init (some a) buffer capacity =
    if buffer == 0 || capacity == 0
    then (false, some arena_clear)
    else (true, some (record arena_clear { base = buffer; capacity = capacity }))

-- `alignment & (alignment - 1)` is zero for a power of two
unfoldable pub is_power_of_two : ℕ → Bool
is_power_of_two alignment = bit_and alignment (alignment - 1) == 0

-- `(current + alignment - 1) & ~(alignment - 1)`, computed once `alignment` is a power of two
unfoldable pub align_to : ℕ → ℕ → ℕ
align_to current alignment = sub64 (add64 current alignment) 1 / alignment * alignment

-- kli_arena_alloc_aligned behind its null test: the address (0 for failure) and the arena.
unfoldable pub alloc_from : Arena → ℕ → ℕ → ℕ × Arena
alloc_from a size alignment =
    let current = a.base + a.offset in
    let aligned = align_to current alignment in
    let padding = sub64 aligned current in
    let remaining = a.capacity - a.offset in
    if a.base == 0
      || size == 0
      || alignment == 0
      || not (is_power_of_two alignment)
      || ltb a.capacity a.offset
    then (0, a)
    else if ltb (u64_max - a.offset) a.base
    then (0, a)
    else if ltb (u64_max - (alignment - 1)) current
    then (0, a)
    else if ltb remaining padding || ltb (remaining - padding) size
    then (0, a)
    else (aligned, record a { offset = add64 a.offset (add64 padding size) })

unfoldable pub kli_arena_alloc_aligned : Option Arena → ℕ → ℕ → ℕ × Option Arena
kli_arena_alloc_aligned none size alignment = (0, none)
kli_arena_alloc_aligned (some a) size alignment =
    let (p, b) = alloc_from a size alignment in (p, some b)

-- `sizeof(uintptr_t)` is 8
unfoldable pub kli_arena_alloc : Option Arena → ℕ → ℕ × Option Arena
kli_arena_alloc a size = kli_arena_alloc_aligned a size 8

unfoldable pub kli_arena_remaining : Option Arena → ℕ
kli_arena_remaining none = 0
kli_arena_remaining (some a) =
    if a.base == 0 || ltb a.capacity a.offset then 0 else a.capacity - a.offset

unfoldable pub kli_arena_reset : Option Arena → Option Arena
kli_arena_reset none = none
kli_arena_reset (some a) = if a.base == 0 then some a else some (record a { offset = 0 })
