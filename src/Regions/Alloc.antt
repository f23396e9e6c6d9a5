-- ===== src/Regions/Alloc.antt =====
-- process_alloc_user_region of kernel/process.c.
use armonios.Prelude.{
  ℕ, ◌+◌, ◌-◌, ◌/◌, ◌*◌, ◌≤◌, ◌<◌, ◌≡◌, ◌⊎◌, ◌↔◌, refl, inl, inr, true, false, none, some, arith,
  ltb, ◌==◌, Bool-cases, u64_max,
}
use armonios.Regions.{
  Regions, max_user_regions, user_region_align, mmap_limit, align_up, user_region_end,
  alloc_checked, process_alloc_user_region,
}
use armonios.Regions.Entries.{meets, AnEntry}
use armonios.Regions.Access.{IsRegions, IsUser, user_region_end_lem}
use armonios.Regions.Add.{Refused, Added, process_add_user_region_lem}

-- The next multiple of a page, with no bound on the numbers.
abbrev pub round_up : ℕ → ℕ
round_up v = (v + (user_region_align - 1)) / user_region_align * user_region_align

align_up_lem :
    (v : ℕ)
    → v ≤ u64_max
    → ((align_up v ≡ round_up v) × (v ≤ align_up v))
      ⊎ ((align_up v < v) × (mmap_limit < round_up v))
align_up_lem v word = elim (Bool-cases (ltb (u64_max - (user_region_align - 1)) v)) [
  | inl big ↦ inr (ground arith, ground arith)
  | inr small ↦ inl (ground arith, ground arith)
]

-- Why `size` bytes are not given: there are none to give, the area for mappings has no room behind the
-- cursor, no entry is left, or the addresses are in use.
abbrev pub Exhausted : Regions → ℕ → Type 0
Exhausted s size =
    let start = round_up s.next_user_vaddr in
    (size ≡ 0)
    ⊎ (mmap_limit < start + round_up size)
    ⊎ (s.count ≡ max_user_regions)
    ⊎ AnEntry (meets start (start + round_up size)) s.user_regions s.count

-- The pages from `start` to before `end`, behind the old cursor and below the limit of the mappings,
-- have been added, and the cursor is behind them.
pub record Allocated (s : Regions) (start end x : ℕ) (s' : Regions) : Type 0 where
  pub valid : IsRegions s'
  pub users : IsUser s' x ↔ (IsUser s x ⊎ ((start ≤ x) × (x < end)))
  pub behind : s.next_user_vaddr ≤ start
  pub below : end ≤ mmap_limit
  pub cursor : s'.next_user_vaddr ≡ end
  pub count : s'.count ≡ s.count + 1

moved_cursor :
    (s t : Regions) (start end x : ℕ)
    → Added s start end x t
    → IsRegions (record t { next_user_vaddr = end })
moved_cursor s t start end x a = record {
  array = a.valid.array;
  count = a.valid.count;
  proper = a.valid.proper;
  bounded = a.valid.bounded;
  apart = a.valid.apart;
}

reasons_left :
    (s : Regions) (start aligned : ℕ)
    → 0 < aligned
    → start + aligned ≤ u64_max
    → Refused s start aligned
    → (s.count ≡ max_user_regions) ⊎ AnEntry (meets start (start + aligned)) s.user_regions s.count
reasons_left s start aligned some_bytes fits r = elim r [
  | inl full ↦ inl full
  | inr q ↦ elim q [
    | inl none_asked ↦ absurd (omega arith)
    | inr t ↦ elim t [ inl wraps ↦ absurd (omega arith) | inr used ↦ inr used ]
  ]
]

alloc_checked_lem :
    (s : Regions) (start aligned x : ℕ)
    → IsRegions s
    → aligned ≤ u64_max
    → 0 < aligned
    → s.next_user_vaddr ≤ start
    → let r = alloc_checked s start aligned (user_region_end start aligned) in
      (((mmap_limit < start + aligned)
          ⊎ (s.count ≡ max_user_regions)
          ⊎ AnEntry (meets start (start + aligned)) s.user_regions s.count)
        × (r ≡ (none, s)))
      ⊎ ((s' : Regions) × (r ≡ (some start, s')) × Allocated s start (start + aligned) x s')
alloc_checked_lem s start aligned x v word pos from =
    elim (user_region_end_lem start aligned word) [
      | inl r ↦ inl (
        elim r.1 [ inl empty ↦ absurd (omega arith) | inr wraps ↦ inl (omega arith) ],
        rw r.0 refl,
      )
      | inr r ↦ elim (Bool-cases (ltb mmap_limit (start + aligned))) [
        | inl above ↦ inl (inl (ground arith), rw (r.0, above) refl)
        | inr below ↦ elim (process_add_user_region_lem s start aligned x v word) [
          | inl q ↦ inl (inr (reasons_left s start aligned pos r.2 q.0), rw (r.0, below, q.1) refl)
          | inr q ↦ inr (
            record (q.0) { next_user_vaddr = start + aligned },
            rw (r.0, below, q.1) refl,
            record {
              valid = moved_cursor s q.0 start (start + aligned) x q.2;
              users = q.2.users;
              behind = from;
              below = ground arith;
              cursor = refl;
              count = q.2.count;
            },
          )
        ]
      ]
    ]

-- process_alloc_user_region fails with no change exactly for the reasons of `Exhausted`. Otherwise it
-- gives the first page from the cursor on, adds as many pages to the user's addresses as hold the size,
-- none before the cursor and none past the limit of the mappings, moves the cursor behind them, and
-- keeps the invariant.
pub process_alloc_user_region_lem :
    (s : Regions) (size x : ℕ)
    → IsRegions s
    → size ≤ u64_max
    → s.next_user_vaddr ≤ u64_max
    → let start = round_up s.next_user_vaddr in
      (Exhausted s size × (process_alloc_user_region s size ≡ (none, s)))
      ⊎ ((s' : Regions) × (process_alloc_user_region s size ≡ (some start, s'))
          × Allocated s start (start + round_up size) x s')
unfolding process_alloc_user_region
process_alloc_user_region_lem s size x v word cursor = elim (Bool-cases (size == 0)) [
  | inl empty ↦ inl (inl (ground arith), rw empty refl)
  | inr bytes ↦ elim (align_up_lem size word) [
    | inr big ↦
        let t : ltb (align_up size) size ≡ true = ground arith in
        inl (inr (inl (omega arith)), rw (bytes, t) refl)
    | inl a ↦
        let t : ltb (align_up size) size ≡ false = ground arith in
        elim (align_up_lem s.next_user_vaddr cursor) [
          | inr big ↦
              let u : ltb (align_up s.next_user_vaddr) s.next_user_vaddr ≡ true = ground arith in
              inl (inr (inl (omega arith)), rw (bytes, t, u) refl)
          | inl b ↦
              let u : ltb (align_up s.next_user_vaddr) s.next_user_vaddr ≡ false = ground arith in
              rw (bytes, t, u, a.0, b.0)
                (elim (alloc_checked_lem s (round_up s.next_user_vaddr) (round_up size) x v
                  (omega (arith, a.0)) (ground arith) (omega (arith, b.0, b.1))) [
                    | inl r ↦ inl (inr r.0, r.1)
                    | inr r ↦ inr r
                  ])
        ]
  ]
]
