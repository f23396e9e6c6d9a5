-- ===== src/Regions/Remove.antt =====
-- process_remove_user_region_info, process_find_user_region and process_set_user_region_mapping of
-- kernel/process.c.
use armonios.Prelude.{
  ℕ, ◌+◌, ◌-◌, ◌≤◌, ◌<◌, ◌≡◌, ◌≢◌, ◌⊎◌, ◌↔◌, refl, ap, ◌∙◌, inl, inr, true, false, none, some,
  arith, if◌then◌else◌, ltb, leb, ◌==◌, ==→eq, ==→ne, length-set, set, Bool-cases, u64_max,
}
use armonios.Regions.{
  Region, Regions, region_clear, region_at, shift_down, find_index, remove_at,
  process_remove_user_region_info, process_set_user_region_mapping, process_find_user_region,
}
use armonios.Regions.Entries.{
  entry, entry-set, is_exact, NoEntry, find_exact_lem, entry-shift_down, length-shift_down,
}
use armonios.Regions.Access.{IsRegions, IsUser, user_region_end_lem}

-- Where entry `k` of the shorter array comes from.
abbrev source_of : ℕ → ℕ → ℕ
source_of i k = if leb i k then k + 1 else k

module _ (s : Regions) (i : ℕ) (v : IsRegions s) (h : i < s.count) where
  entry-remove_at :
      (k : ℕ)
      → k < s.count - 1
      → entry (remove_at s i).user_regions k ≡ entry s.user_regions (source_of i k)
  unfolding remove_at
  entry-remove_at k lt =
      let n = s.count - (i + 1) in
      let l = length-shift_down n (i + 1) s.user_regions in
      let moved =
        entry-shift_down n (i + 1) s.user_regions k (omega arith)
          (omega (arith, v.array, v.count)) in
      let kept : entry (remove_at s i).user_regions k
          ≡ entry (shift_down n (i + 1) s.user_regions) k =
        entry-set (shift_down n (i + 1) s.user_regions) (s.count - 1) k region_clear
          (omega (arith, l, v.array, v.count))
        ∙ ground arith in
      kept ∙ moved ∙ ground arith

  source_of_lem : (k : ℕ) → k < s.count - 1 → (source_of i k < s.count) × (source_of i k ≢ i)
  source_of_lem k lt = (ground arith, λ e. ground arith)

  source_of-ne : (j k : ℕ) → j ≢ k → source_of i j ≢ source_of i k
  source_of-ne j k ne e = ne (ground arith)

  remove_at-IsRegions : IsRegions (remove_at s i)
  unfolding remove_at
  remove_at-IsRegions = record {
    array =
        length-set (shift_down (s.count - (i + 1)) (i + 1) s.user_regions) (s.count - 1)
          region_clear
        ∙ length-shift_down (s.count - (i + 1)) (i + 1) s.user_regions
        ∙ v.array;
    count = omega (arith, v.count);
    proper = λ k lt. rw (entry-remove_at k lt) (v.proper (source_of i k) (source_of_lem k lt).0);
    bounded = λ k lt. rw (entry-remove_at k lt) (v.bounded (source_of i k) (source_of_lem k lt).0);
    apart = λ j k hj hk ne.
        rw (entry-remove_at j hj, entry-remove_at k hk)
          (v.apart (source_of i j) (source_of i k) (source_of_lem j hj).0 (source_of_lem k hk).0
            (source_of-ne j k ne));
  }

  IsUser-remove_at :
      (x : ℕ)
      → IsUser (remove_at s i) x
        ↔ (IsUser s x × ((x < (entry s.user_regions i).start) ⊎ ((entry s.user_regions i).end ≤ x)))
  unfolding remove_at
  IsUser-remove_at x = (
    λ u.
        let k = source_of i u.0 in
        let o = source_of_lem u.0 u.1 in
        let e = entry-remove_at u.0 u.1 in
        let low : (entry s.user_regions k).start ≤ x = rw (← e) u.2 in
        let high : x < (entry s.user_regions k).end = rw (← e) u.3 in
        (
          (k, o.0, low, high),
          elim (v.apart k i o.0 h o.1) [ inl a ↦ inl (omega arith) | inr a ↦ inr (omega arith) ],
        ),
    λ (u, out).
        let away : u.0 ≢ i = λ e. outside u out e in
        let k = if ltb i u.0 then u.0 - 1 else u.0 in
        let back : source_of i k ≡ u.0 = ground arith in
        let lt : k < s.count - 1 = ground arith in
        let e : entry (remove_at s i).user_regions k ≡ entry s.user_regions u.0 =
          entry-remove_at k lt ∙ ap (entry s.user_regions) back in
        (k, lt, rw e u.2, rw e u.3),
  )
    where
      outside :
          (u : IsUser s x)
          → (x < (entry s.user_regions i).start) ⊎ ((entry s.user_regions i).end ≤ x)
          → u.0 ≢ i
      outside u out e =
          let low : (entry s.user_regions i).start ≤ x = rw (← e) u.2 in
          let high : x < (entry s.user_regions i).end = rw (← e) u.3 in ground arith

find_index_lem :
    (s : Regions) (start size : ℕ)
    → IsRegions s
    → size ≤ u64_max
    → ((find_index s start size ≡ none)
        × NoEntry (is_exact start (start + size)) s.user_regions s.count)
      ⊎ ((j : ℕ) × ((find_index s start size ≡ some j)
            × (j < s.count)
            × (is_exact start (start + size) (entry s.user_regions j) ≡ true)))
unfolding find_index
find_index_lem s start size v word = elim (user_region_end_lem start size word) [
  | inl r ↦ inl (
    rw r.0 refl,
    λ i h.
        let p = v.proper i h in
        let b = v.bounded i h in elim r.1 [ inl empty ↦ ground arith | inr wraps ↦ ground arith ],
  )
  | inr r ↦
      elim (find_exact_lem s.count 0 s.user_regions start (start + size)
        (omega (arith, v.array, v.count))) [
          | inl q ↦ inl (rw r.0 q.0, q.1)
          | inr q ↦
              let at : 0 + q.0 ≡ q.0 = omega arith in
              inr (q.0, (rw r.0 (q.1.0 ∙ ap (λ (k : ℕ). some k) at), q.1.1, q.1.2))
        ]
]

-- `r` is an entry in use of `s`, with its pages and flags, and has exactly the addresses from `start`
-- to before `end`; `s'` is `s` without it.
pub record Removed (s : Regions) (start end x : ℕ) (r : Region) (s' : Regions) : Type 0 where
  pub index : ℕ
  pub in_use : index < s.count
  pub whole : r ≡ entry s.user_regions index
  pub count : s'.count ≡ s.count - 1
  pub cursor : s'.next_user_vaddr ≡ s.next_user_vaddr
  pub others :
      (k : ℕ)
      → k < s.count - 1
      → entry s'.user_regions k ≡ entry s.user_regions (if leb index k then k + 1 else k)
  pub starts : r.start ≡ start
  pub ends : r.end ≡ end
  pub valid : IsRegions s'
  pub users : IsUser s' x ↔ (IsUser s x × ((x < start) ⊎ (end ≤ x)))

-- Removal fails with no change exactly if no region in use has these bounds. Otherwise it gives that
-- entry whole, with its pages and flags, takes exactly its addresses from the user, keeps the other
-- entries whole and in their order, and keeps the invariant.
pub process_remove_user_region_info_lem :
    (s : Regions) (start size x : ℕ)
    → IsRegions s
    → size ≤ u64_max
    → (NoEntry (is_exact start (start + size)) s.user_regions s.count
        × (process_remove_user_region_info s start size ≡ (none, s)))
      ⊎ ((r : Region) × (s' : Regions) × (process_remove_user_region_info s start size
            ≡ (some r, s'))
          × Removed s start (start + size) x r s')
unfolding process_remove_user_region_info remove_at
process_remove_user_region_info_lem s start size x v word =
    elim (find_index_lem s start size v word) [
      | inl q ↦ inl (q.1, rw q.0 refl)
      | inr q ↦
          let low : (entry s.user_regions q.0).start ≡ start = let e = q.1.2 in ground arith in
          let high : (entry s.user_regions q.0).end ≡ start + size =
            let e = q.1.2 in ground arith in
          inr (
            region_at s q.0,
            remove_at s q.0,
            rw q.1.0 refl,
            record {
              index = q.0;
              in_use = q.1.1;
              whole = refl;
              count = refl;
              cursor = refl;
              others = entry-remove_at s q.0 v q.1.1;
              starts = low;
              ends = high;
              valid = remove_at-IsRegions s q.0 v q.1.1;
              users = rw (← high, ← low) (IsUser-remove_at s q.0 v q.1.1 x);
            },
          )
    ]

-- No two entries in use have the same bounds.
exact_unique :
    (s : Regions) (start end i j : ℕ)
    → IsRegions s
    → i < s.count
    → j < s.count
    → is_exact start end (entry s.user_regions i) ≡ true
    → is_exact start end (entry s.user_regions j) ≡ true
    → i ≡ j
exact_unique s start end i j v hi hj a b = elim (Bool-cases (i == j)) [
  | inl e ↦ ==→eq i j e
  | inr ne ↦ absurd (ground (arith, v.apart i j hi hj (==→ne i j ne), v.proper i hi, v.proper j hj))
]

module _ (s : Regions) (i paddr flags : ℕ) (v : IsRegions s) (h : i < s.count) where
  mapped : Regions
  mapped = record s {
    user_regions = set s.user_regions i (record (region_at s i) { paddr = paddr; flags = flags });
  }

  entry-mapped :
      (k : ℕ)
      → entry mapped.user_regions k ≡ (
          if k == i
          then record (region_at s i) { paddr = paddr; flags = flags }
          else entry s.user_regions k)
  unfolding mapped
  entry-mapped k = entry-set s.user_regions i k _ (omega (arith, v.array, v.count))

  bounds-mapped :
      (k : ℕ)
      → ((entry mapped.user_regions k).start ≡ (entry s.user_regions k).start)
        × ((entry mapped.user_regions k).end ≡ (entry s.user_regions k).end)
  bounds-mapped k = elim (Bool-cases (k == i)) [
    | inl e ↦
        let same : entry s.user_regions k ≡ entry s.user_regions i =
          ap (entry s.user_regions) (==→eq k i e) in
        rw (entry-mapped k, e, same) (refl, refl)
    | inr e ↦ rw (entry-mapped k, e) (refl, refl)
  ]

  mapped-IsRegions : IsRegions mapped
  unfolding mapped
  mapped-IsRegions = record {
    array = length-set s.user_regions i _ ∙ v.array;
    count = v.count;
    proper = λ k lt. omega (arith, (bounds-mapped k).0, (bounds-mapped k).1, v.proper k lt);
    bounded = λ k lt. omega (arith, (bounds-mapped k).1, v.bounded k lt);
    apart = λ j k hj hk ne. ground (arith, bounds-mapped j, bounds-mapped k, v.apart j k hj hk ne);
  }

found_mapped :
    (s : Regions) (i paddr flags start size : ℕ) (v : IsRegions s) (h : i < s.count)
    → size ≤ u64_max
    → is_exact start (start + size) (entry s.user_regions i) ≡ true
    → process_find_user_region (mapped s i paddr flags v h) start size
      ≡ some (record { start = start; end = start + size; paddr = paddr; flags = flags })
unfolding process_find_user_region mapped
found_mapped s i paddr flags start size v h word exact =
    let s' = mapped s i paddr flags v h in
    let v' = mapped-IsRegions s i paddr flags v h in
    let b = bounds-mapped s i paddr flags v h i in
    let still : is_exact start (start + size) (entry s'.user_regions i) ≡ true = ground arith in
    let self : (i == i) ≡ true = ground arith in
    let low : (entry s.user_regions i).start ≡ start = ground arith in
    let high : (entry s.user_regions i).end ≡ start + size = ground arith in
    let there : entry s'.user_regions i
        ≡ record { start = start; end = start + size; paddr = paddr; flags = flags } =
      entry-mapped s i paddr flags v h i ∙ rw self (cc) in
    elim (find_index_lem s' start size v' word) [
      | inl q ↦ absurd (ground (arith, q.1 i h))
      | inr q ↦
          let same : q.0 ≡ i = exact_unique s' start (start + size) q.0 i v' q.1.1 h q.1.2 still in
          rw q.1.0 (ap (λ (k : ℕ). some (entry s'.user_regions k)) same ∙ ap some there)
    ]

-- Where the mapping of a region is set, its pages and flags are found under its bounds, and no bound
-- of any region changes.
pub process_set_user_region_mapping_lem :
    (s : Regions) (start size paddr flags : ℕ)
    → IsRegions s
    → size ≤ u64_max
    → (NoEntry (is_exact start (start + size)) s.user_regions s.count
        × (process_set_user_region_mapping s start size paddr flags ≡ (false, s))
        × (process_find_user_region s start size ≡ none))
      ⊎ ((s' : Regions) × (process_set_user_region_mapping s start size paddr flags ≡ (true, s'))
          × IsRegions s'
          × (process_find_user_region s' start size
              ≡ some (record { start = start; end = start + size; paddr = paddr; flags = flags })))
unfolding process_set_user_region_mapping process_find_user_region mapped
process_set_user_region_mapping_lem s start size paddr flags v word =
    elim (find_index_lem s start size v word) [
      | inl q ↦ inl (q.1, rw q.0 refl, rw q.0 refl)
      | inr q ↦
          let i = q.0 in
          let s' = mapped s i paddr flags v q.1.1 in
          let v' = mapped-IsRegions s i paddr flags v q.1.1 in
          inr (s', rw q.1.0 refl, v', found_mapped s i paddr flags start size v q.1.1 word q.1.2)
    ]
