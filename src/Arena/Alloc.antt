-- ===== src/Arena/Alloc.antt =====
-- What an allocation from an arena of programs/libkarm/arena.c hands out.
use native.Mathlib.Nat.{div-add-mod, mod-lt, mul-mod_left}
use armonios.Prelude.{
  ap, ℕ, ◌+◌, ◌-◌, ◌*◌, ◌/◌, ◌%◌, ◌≤◌, ◌<◌, ◌≡◌, ◌≢◌, ◌⊎◌, refl, inl, inr, true, false, some, arith,
  ltb, u64_max, Bool-cases, ltb→le,
}
use armonios.Arena.{
  Arena, is_power_of_two, align_to, alloc_from, kli_arena_alloc_aligned, kli_arena_alloc,
  arena_clear, kli_arena_init, kli_arena_reset, kli_arena_remaining,
}

-- The block of the arena lies in the address space and its used part in the block.
pub record IsValid (a : Arena) : Type 0 where
  pub not_null : a.base ≢ 0
  pub used : a.offset ≤ a.capacity
  pub in_memory : a.base + a.capacity ≤ u64_max

align_to-mul :
    (current alignment : ℕ)
    → 0 < alignment
    → current + (alignment - 1) ≤ u64_max
    → align_to current alignment ≡ (current + (alignment - 1)) / alignment * alignment
unfolding align_to
align_to-mul current alignment pos fits = ap (λ (n : ℕ). n / alignment * alignment) (omega arith)

-- Rounding up gives the least multiple of the alignment that is not below.
pub align_to_lem :
    (current alignment : ℕ)
    → 0 < alignment
    → current + (alignment - 1) ≤ u64_max
    → (current ≤ align_to current alignment)
      × (align_to current alignment < current + alignment)
      × (align_to current alignment % alignment ≡ 0)
align_to_lem current alignment pos fits =
    let n = current + (alignment - 1) in
    let whole = div-add-mod n alignment in
    let below = mod-lt n {m = alignment} pos in
    rw (align_to-mul current alignment pos fits)
      (omega arith, omega arith, mul-mod_left (n / alignment) alignment)

-- What a successful allocation hands out: an aligned block in the unused part of the arena, behind
-- every earlier block, which becomes used with the padding in front of it.
pub record Block (a : Arena) (size alignment p : ℕ) (b : Arena) : Type 0 where
  pub above : a.base + a.offset ≤ p
  pub aligned : p % alignment ≡ 0
  pub close : p < a.base + a.offset + alignment
  pub used : b.base + b.offset ≡ p + size
  pub same_base : b.base ≡ a.base
  pub same_capacity : b.capacity ≡ a.capacity
  pub valid : IsValid b

-- An allocation of a positive size at a power of two from a valid arena either returns the null
-- address and leaves the arena, or hands out a block of the arena's unused part at a multiple of
-- the alignment and keeps the arena valid, so that later blocks lie behind it.
pub alloc_from_lem :
    (a : Arena) (size alignment : ℕ)
    → IsValid a
    → 0 < size
    → 0 < alignment
    → is_power_of_two alignment ≡ true
    → let (p, b) = alloc_from a size alignment in
      ((p ≡ 0) × (b ≡ a)) ⊎ ((p ≢ 0) × Block a size alignment p b)
unfolding alloc_from
alloc_from_lem a size alignment v pos apos pow =
    elim (Bool-cases (ltb (u64_max - (alignment - 1)) (a.base + a.offset))) [
      | inl high ↦ inl (ground arith, ground arith)
      | inr low ↦
          let t = align_to_lem (a.base + a.offset) alignment apos (omega (arith, ltb→le _ _ low)) in
          let p = align_to (a.base + a.offset) alignment in
          elim (Bool-cases (ltb (a.base + a.capacity) (p + size))) [
            | inl full ↦ inl (ground arith, ground arith)
            | inr fits ↦ inr (ground arith, ground arith)
          ]
    ]

-- kli_arena_alloc of a positive size from a valid arena fails exactly when no multiple of 8 in the
-- unused part has that many bytes behind it; otherwise it returns the lowest such address.
pub kli_arena_alloc_lem :
    (a : Arena) (size : ℕ)
    → IsValid a
    → 0 < size
    → let (p, b) = kli_arena_alloc (some a) size in
      ((p ≡ 0)
        × (b ≡ some a)
        × ((q : ℕ) → a.base + a.offset ≤ q → q % 8 ≡ 0 → a.base + a.capacity < q + size))
      ⊎ ((p % 8 ≡ 0)
          × (a.base + a.offset ≤ p)
          × (p + size ≤ a.base + a.capacity)
          × ((q : ℕ) → a.base + a.offset ≤ q → q % 8 ≡ 0 → p ≤ q)
          × (b ≡ some (record a { offset = p + size - a.base })))
unfolding kli_arena_alloc kli_arena_alloc_aligned alloc_from align_to is_power_of_two
kli_arena_alloc_lem a size v pos =
    let p = (a.base + a.offset + 7) / 8 * 8 in
    elim (Bool-cases (ltb (a.base + a.capacity) (p + size))) [
      | inl full ↦ inl (ground arith, ground arith, λ q lo al. ground arith)
      | inr fits ↦
          inr (ground arith, ground arith, ground arith, λ q lo al. ground arith, ground arith)
    ]

-- No multiple of 8 in the unused part of the arena has `size` bytes of the arena behind it.
abbrev pub NoRoom : Arena → ℕ → Type 0
NoRoom a size = (q : ℕ) → a.base + a.offset ≤ q → q % 8 ≡ 0 → a.base + a.capacity < q + size

pub alloc_from-NoRoom :
    (a : Arena) (size : ℕ) → IsValid a → 0 < size → (alloc_from a size 8).0 ≡ 0 → NoRoom a size
unfolding kli_arena_alloc kli_arena_alloc_aligned
alloc_from-NoRoom a size v pos failed = elim (kli_arena_alloc_lem a size v pos) [
  | inl r ↦ r.2
  | inr r ↦ let base = v.not_null in absurd (ground (arith, failed, r.1))
]

-- kli_arena_init gives a valid empty arena over a block of memory, and refuses a null or empty one.
pub kli_arena_init_lem :
    (old : Arena) (buffer capacity : ℕ)
    → buffer + capacity ≤ u64_max
    → ((kli_arena_init (some old) buffer capacity).0 ≡ true
        → (a : Arena) × ((kli_arena_init (some old) buffer capacity).1 ≡ some a)
          × IsValid a
          × (a.base ≡ buffer)
          × (kli_arena_remaining (some a) ≡ capacity))
      × ((buffer ≡ 0) ⊎ (capacity ≡ 0)
          → kli_arena_init (some old) buffer capacity ≡ (false, some arena_clear))
unfolding kli_arena_init kli_arena_remaining
kli_arena_init_lem old buffer capacity fits = (
  λ ok. (
    record arena_clear { base = buffer; capacity = capacity },
    ground arith,
    ground arith,
    refl,
    ground arith,
  ),
  λ bad. ground arith,
)

-- After a reset the whole block of a valid arena is unused again.
pub kli_arena_reset_lem :
    (a : Arena)
    → IsValid a
    → (b : Arena) × (kli_arena_reset (some a) ≡ some b)
      × IsValid b
      × (b.base ≡ a.base)
      × (kli_arena_remaining (some b) ≡ a.capacity)
unfolding kli_arena_reset kli_arena_remaining
kli_arena_reset_lem a v = (record a { offset = 0 }, ground arith, ground arith, refl, ground arith)
