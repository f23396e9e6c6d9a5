-- ===== src/Regions/Add.antt =====
-- process_add_user_region of kernel/process.c.
use armonios.Prelude.{
  ℕ, ◌+◌, ◌≤◌, ◌<◌, ◌≡◌, ◌⊎◌, ◌↔◌, refl, ◌∙◌, inl, inr, true, false, arith, if◌then◌else◌, leb,
  ◌==◌, length-set, Bool-cases, u64_max,
}
use armonios.Regions.{Regions, max_user_regions, add_region, process_add_user_region}
use armonios.Regions.Entries.{entry, entry-set, meets, NoEntry, AnEntry, overlaps_any_lem}
use armonios.Regions.Access.{IsRegions, IsUser, user_region_end_lem}

-- A region that shares no address with those in use, put behind them.
module _ (s : Regions) (start end x : ℕ) (v : IsRegions s) (room : s.count < max_user_regions)
    (proper : start < end) (word : end ≤ u64_max)
    (free : NoEntry (meets start end) s.user_regions s.count) where
  entry-add_region :
      (i : ℕ)
      → entry (add_region s start end).user_regions i ≡ (
          if i == s.count
          then record { start = start; end = end; paddr = 0; flags = 0 }
          else entry s.user_regions i)
  entry-add_region i =
      entry-set s.user_regions s.count i (record { start = start; end = end; paddr = 0; flags = 0 })
        (omega (arith, v.array))

  add_region-IsRegions : IsRegions (add_region s start end)
  add_region-IsRegions = record {
    array = length-set s.user_regions s.count _ ∙ v.array;
    count = omega arith;
    proper = λ i h. ground (arith, entry-add_region i, v.proper i);
    bounded = λ i h. ground (arith, entry-add_region i, v.bounded i);
    apart = λ i j hi hj ne.
        ground (arith, entry-add_region i, entry-add_region j, v.apart i j, free i, free j);
  }

  IsUser-add_region : IsUser (add_region s start end) x ↔ (IsUser s x ⊎ ((start ≤ x) × (x < end)))
  IsUser-add_region = (
    λ u. elim (Bool-cases (u.0 == s.count)) [
      | inl e ↦ inr (ground (arith, entry-add_region u.0), ground (arith, entry-add_region u.0))
      | inr e ↦ inl (
        u.0,
        ground arith,
        ground (arith, entry-add_region u.0),
        ground (arith, entry-add_region u.0),
      )
    ],
    λ t. elim t [
      | inl u ↦
          let old : (u.0 == s.count) ≡ false = ground arith in
          (
            u.0,
            omega arith,
            ground (arith, entry-add_region u.0),
            ground (arith, entry-add_region u.0),
          )
      | inr r ↦ (
        s.count,
        omega arith,
        ground (arith, entry-add_region s.count),
        ground (arith, entry-add_region s.count),
      )
    ],
  )

-- Why a region is refused: no entry is left, it is empty or wraps, or it shares an address.
abbrev pub Refused : Regions → ℕ → ℕ → Type 0
Refused s start size =
    (s.count ≡ max_user_regions)
    ⊎ (size ≡ 0)
    ⊎ (u64_max < start + size)
    ⊎ AnEntry (meets start (start + size)) s.user_regions s.count

-- `s'` is `s` with the addresses from `start` to before `end` added.
pub record Added (s : Regions) (start end x : ℕ) (s' : Regions) : Type 0 where
  pub valid : IsRegions s'
  pub users : IsUser s' x ↔ (IsUser s x ⊎ ((start ≤ x) × (x < end)))
  pub cursor : s'.next_user_vaddr ≡ s.next_user_vaddr
  pub count : s'.count ≡ s.count + 1

-- process_add_user_region fails with no change exactly for the reasons of `Refused`, and otherwise
-- adds the addresses of the region to the user's, and keeps the invariant.
pub process_add_user_region_lem :
    (s : Regions) (start size x : ℕ)
    → IsRegions s
    → size ≤ u64_max
    → (Refused s start size × (process_add_user_region s start size ≡ (false, s)))
      ⊎ ((s' : Regions) × (process_add_user_region s start size ≡ (true, s'))
          × Added s start (start + size) x s')
unfolding process_add_user_region
process_add_user_region_lem s start size x v word =
    elim (Bool-cases (leb max_user_regions s.count)) [
      | inl full ↦ inl (inl (ground (arith, v.count)), rw full refl)
      | inr room ↦ elim (user_region_end_lem start size word) [
        | inl r ↦ inl (
          elim r.1 [ inl empty ↦ inr (inl empty) | inr wraps ↦ inr (inr (inl wraps)) ],
          rw (room, r.0) refl,
        )
        | inr r ↦
            elim (overlaps_any_lem s.count s.user_regions start (start + size)
              (omega (arith, v.array, v.count))) [
                | inl q ↦
                    let add = λ (y : ℕ).
                      IsUser-add_region s start (start + size) y v (ground arith)
                        (omega (arith, r.1)) r.2 q.1 in
                    inr (
                      add_region s start (start + size),
                      rw (room, r.0, q.0) refl,
                      record {
                        valid =
                            add_region-IsRegions s start (start + size) x v (ground arith)
                              (omega (arith, r.1)) r.2 q.1;
                        users = add x;
                        cursor = refl;
                        count = refl;
                      },
                    )
                | inr q ↦ inl (inr (inr (inr q.1)), rw (room, r.0, q.0) refl)
              ]
      ]
    ]
