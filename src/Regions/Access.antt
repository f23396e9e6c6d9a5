-- ===== src/Regions/Access.antt =====
-- Which addresses are the user's, and process_user_range_contains of kernel/process.c.
use armonios.Prelude.{
  ℕ, ◌+◌, ◌-◌, ◌≤◌, ◌<◌, ◌≡◌, ◌≢◌, ◌⊎◌, refl, inl, inr, true, false, ◌||◌, none, some, arith, ltb,
  ◌==◌, length, Bool-cases, u64_max,
}
use armonios.Regions.{
  Regions, max_user_regions, user_region_end, contains_checked, process_user_range_contains,
}
use armonios.Regions.Entries.{entry, holds, NoEntry, AnEntry, holds_any_lem}

-- The regions in use are not empty, have 64-bit ends, and share no address.
pub record IsRegions (s : Regions) : Type 0 where
  pub array : length s.user_regions ≡ max_user_regions
  pub count : s.count ≤ max_user_regions
  pub proper : (i : ℕ) → i < s.count → (entry s.user_regions i).start < (entry s.user_regions i).end
  pub bounded : (i : ℕ) → i < s.count → (entry s.user_regions i).end ≤ u64_max
  pub apart :
      (i j : ℕ)
      → i < s.count
      → j < s.count
      → i ≢ j
      → ((entry s.user_regions i).end ≤ (entry s.user_regions j).start)
        ⊎ ((entry s.user_regions j).end ≤ (entry s.user_regions i).start)

-- Address `x` lies in a region in use.
abbrev pub IsUser : Regions → ℕ → Type 0
IsUser s x =
    (i : ℕ) × (i < s.count)
    × ((entry s.user_regions i).start ≤ x)
    × (x < (entry s.user_regions i).end)

pub user_region_end_lem :
    (start size : ℕ)
    → size ≤ u64_max
    → ((user_region_end start size ≡ none) × ((size ≡ 0) ⊎ (u64_max < start + size)))
      ⊎ ((user_region_end start size ≡ some (start + size)) × (0 < size) × (start + size ≤ u64_max))
unfolding user_region_end
user_region_end_lem start size word = elim (Bool-cases (size == 0 || ltb (u64_max - size) start)) [
  | inl bad ↦ inl (
    rw bad,
    elim (Bool-cases (size == 0)) [
      | inl empty ↦ inl (ground arith)
      | inr some_bytes ↦ inr (ground arith)
    ],
  )
  | inr good ↦ inr (rw good, ground arith, ground arith)
]

contains_checked_lem :
    (s : Regions) (start size : ℕ)
    → IsRegions s
    → size ≤ u64_max
    → 0 < size
    → ((contains_checked s start (user_region_end start size) ≡ true)
        × AnEntry (holds start (start + size)) s.user_regions s.count)
      ⊎ ((contains_checked s start (user_region_end start size) ≡ false)
          × NoEntry (holds start (start + size)) s.user_regions s.count)
contains_checked_lem s start size v word some_bytes = elim (user_region_end_lem start size word) [
  | inl r ↦ inr (
    rw r.0 refl,
    λ i h.
        let b = v.bounded i h in
        elim r.1 [ inl empty ↦ absurd (omega arith) | inr wraps ↦ ground arith ],
  )
  | inr r ↦
      elim (holds_any_lem s.count s.user_regions start (start + size)
        (omega (arith, v.array, v.count))) [
          | inl q ↦ inr (rw r.0 q.0, q.1)
          | inr q ↦ inl (rw r.0 q.0, q.1)
        ]
]

-- A range of 1 to 2 ^ 64 - 1 bytes is accepted exactly if one region in use holds all of it, and then
-- each of its addresses is the user's.
pub process_user_range_contains_lem :
    (s : Regions) (start size x : ℕ)
    → IsRegions s
    → size ≤ u64_max
    → start ≤ x
    → x < start + size
    → ((process_user_range_contains s start size ≡ true)
        × AnEntry (holds start (start + size)) s.user_regions s.count
        × IsUser s x)
      ⊎ ((process_user_range_contains s start size ≡ false)
          × NoEntry (holds start (start + size)) s.user_regions s.count)
unfolding process_user_range_contains
process_user_range_contains_lem s start size x v word low high =
    let some_bytes : (size == 0) ≡ false = ground arith in
    elim (contains_checked_lem s start size v word (omega arith)) [
      | inl r ↦ inl (
        rw some_bytes r.0,
        r.1,
        (r.1.0, r.1.1, let h = r.1.2 in ground arith, let h = r.1.2 in ground arith),
      )
      | inr r ↦ inr (rw some_bytes r.0, r.1)
    ]
