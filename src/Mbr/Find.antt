-- ===== src/Mbr/Find.antt =====
-- Which entry of the table mbr_find_fat32_partition of drivers/storage/mbr.c chooses.
use mathlib.Core.Path.{subst}
use armonios.Prelude.{
  sym, ℕ, zero, suc, ◌+◌, ◌≤◌, ◌<◌, ◌≡◌, ◌⊎◌, refl, inl, inr, Bool, true, false, not, ◌&&◌, ◌||◌,
  List, Option, none, some, arith, ltb, leb, ◌==◌, get_or, u32_mod, Bool-cases, ==→eq, ap, ◌∙◌,
}
use armonios.Mbr.{
  Partition, entry_at, entry_of, is_skipped, find_loop, mbr_find_fat32_partition, mbr_type_is_fat32,
  partition_count,
}

-- A FAT32 entry with a proper boot flag that describes sectors behind the first one, with numbers
-- of 32 bits.
abbrev pub is_usable : List ℕ → ℕ → Bool
is_usable s index =
    let boot = get_or s (entry_at index) 0 in
    let p = entry_of s index in
    (boot == 0 || boot == 0x80)
    && mbr_type_is_fat32 p.type_of
    && (ltb 0 p.start_lba && ltb 0 p.sector_count && leb (p.start_lba + p.sector_count) u32_mod)

-- bytes 510 and 511
abbrev pub is_signed : List ℕ → Bool
is_signed s = get_or s 510 0 == 0x55 && get_or s 511 0 == 0xaa

is_skipped-is_usable : (s : List ℕ) (index : ℕ) → is_skipped s index ≡ not (is_usable s index)
unfolding is_skipped
is_skipped-is_usable s index = ground arith

-- the entries from `from` to before `to` are not usable
abbrev pub NoneUsable : List ℕ → ℕ → ℕ → Type 0
NoneUsable s from to = (i : ℕ) → from ≤ i → i < to → is_usable s i ≡ false

unusable_from :
    (s : List ℕ) (index to i : ℕ)
    → is_usable s index ≡ false
    → NoneUsable s (index + 1) to
    → index ≤ i
    → i < to
    → is_usable s i ≡ false
unusable_from s index to i useless more low high = elim (Bool-cases (i == index)) [
  | inl here ↦ ap (is_usable s) (==→eq i index here) ∙ useless
  | inr later ↦ more i (ground arith) high
]

-- `i` is the first usable entry between the bounds, and is the result.
abbrev pub Chosen : List ℕ → ℕ → ℕ → Option Partition → ℕ → Type 0
Chosen s from to found i =
    (from ≤ i)
    × (i < to)
    × (is_usable s i ≡ true)
    × NoneUsable s from i
    × (found ≡ some (entry_of s i))

find_loop_lem :
    (s : List ℕ) (index n : ℕ)
    → (NoneUsable s index (index + n) × (find_loop s index n ≡ none))
      ⊎ ((i : ℕ) × Chosen s index (index + n) (find_loop s index n) i)
unfolding find_loop
find_loop_lem s index zero = inl (λ i low high. absurd (omega arith), refl)
find_loop_lem s index (suc n) = elim (Bool-cases (is_usable s index)) [
  | inl usable ↦
      let taken : is_skipped s index ≡ false = ground (arith, is_skipped-is_usable s index) in
      inr (index, (omega arith, omega arith, usable, λ i low high. absurd (omega arith), rw taken))
  | inr useless ↦
      let passed : is_skipped s index ≡ true = ground (arith, is_skipped-is_usable s index) in
      let extend =
        λ (to : ℕ) (more : NoneUsable s (index + 1) to) (i : ℕ) (low : index ≤ i) (high : i < to).
          unusable_from s index to i useless more low high in
      elim (find_loop_lem s (index + 1) n) [
        | inl r ↦ inl (λ i low high. extend (index + 1 + n) r.0 i low (omega arith), rw passed r.1)
        | inr r ↦ inr (
          r.0,
          (omega (arith, r.1.0), omega (arith, r.1.1), r.1.2, extend r.0 r.1.3, rw passed r.1.4),
        )
      ]
]

found_entry :
    (s : List ℕ) (p : Partition) (i : ℕ)
    → is_usable s i ≡ true
    → some (entry_of s i) ≡ some p
    → (0 < p.start_lba) × (0 < p.sector_count) × (p.start_lba + p.sector_count ≤ u32_mod)
found_entry s p i usable e =
    let q = entry_of s i in
    let same : q ≡ p = ground arith in
    subst
      (λ (r : Partition).
        (0 < r.start_lba) × (0 < r.sector_count) × (r.start_lba + r.sector_count ≤ u32_mod))
      same (ground arith, ground arith, ground arith)

-- Without the signature nothing is found. With it the first of the four entries that is usable is
-- found, and none exactly when no entry is.
pub mbr_find_fat32_partition_lem :
    (s : List ℕ)
    → (((is_signed s ≡ false) ⊎ NoneUsable s 0 partition_count)
        × (mbr_find_fat32_partition s ≡ none))
      ⊎ ((is_signed s ≡ true)
          × ((i : ℕ) × Chosen s 0 partition_count (mbr_find_fat32_partition s) i))
unfolding mbr_find_fat32_partition
mbr_find_fat32_partition_lem s = elim (Bool-cases (is_signed s)) [
  | inl signed ↦
      let pass : (not (get_or s 510 0 == 0x55) || not (get_or s 511 0 == 0xaa)) ≡ false =
        ground arith in
      rw pass (elim (find_loop_lem s 0 partition_count) [
        | inl r ↦ inl (inr r.0, r.1)
        | inr r ↦ inr (signed, r)
      ])
  | inr unsigned ↦
      let stop : (not (get_or s 510 0 == 0x55) || not (get_or s 511 0 == 0xaa)) ≡ true =
        ground arith in
      rw stop (inl (inl unsigned, refl))
]

-- What is found is usable, so it lies behind the first sector.
pub found_usable :
    (s : List ℕ) (p : Partition)
    → mbr_find_fat32_partition s ≡ some p
    → (0 < p.start_lba) × (0 < p.sector_count) × (p.start_lba + p.sector_count ≤ u32_mod)
found_usable s p h = elim (mbr_find_fat32_partition_lem s) [
  | inl r ↦ absurd (ground (arith, r.1))
  | inr r ↦ found_entry s p r.1.0 r.1.1.2 (sym r.1.1.4 ∙ h)
]
