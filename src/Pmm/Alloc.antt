-- ===== src/Pmm/Alloc.antt =====
-- pmm_alloc_page and pmm_alloc_pages of kernel/mm/pmm.c.
use armonios.Prelude.{
  ℕ, zero, suc, ◌+◌, ◌-◌, ◌*◌, ◌≤◌, ◌<◌, ◌≡◌, ◌≢◌, ◌⊎◌, refl, sym, ◌∙◌, ap, inl, inr, true, false,
  arith, if◌then◌else◌, ltb, ◌==◌, Bool-cases, ltb→lt, ltb→le, ==→eq, ==→ne,
}
use mathlib.Core.Bool.{false≢true}
use armonios.Pmm.{
  Pmm, is_used, set_used, set_used_range, page_address, page_size, alloc_page_loop, pmm_alloc_page,
  alloc_pages_loop, pmm_alloc_pages,
}
use armonios.Pmm.Bitmap.{count_clear_none, is_used-set_used}
use armonios.Pmm.Inv.{
  IsValid, SameLayout, set_used-SameLayout, set_used-IsValid, set_used_count, InBitmap_lem,
}
use armonios.Pmm.Ranges.{
  in_range, set_used_range-SameLayout, set_used_range-IsValid, set_used_range_count,
  is_used-set_used_range,
}

pub page_address_lem :
    {s : Pmm} (k : ℕ)
    → IsValid s
    → k < s.total_pages
    → page_address s k ≡ s.mem_base + k * page_size
page_address_lem k v h = omega arith

-- The two outcomes of pmm_alloc_page: every page is taken and nothing changes, or the lowest
-- clear page is marked and its address returned.
abbrev pub PageOutcome : Pmm → ℕ × Pmm → Type 0
PageOutcome s r =
    ((r ≡ (0, s)) × ((q : ℕ) → q < s.total_pages → is_used s q ≡ true))
    ⊎ ((k : ℕ) × (r ≡ (page_address s k, set_used s k))
        × (k < s.total_pages)
        × (is_used s k ≡ false)
        × ((q : ℕ) → q < k → is_used s q ≡ true))

alloc_page_loop-PageOutcome :
    (n page : ℕ) (s : Pmm)
    → page + n ≡ s.total_pages
    → ((q : ℕ) → q < page → is_used s q ≡ true)
    → PageOutcome s (alloc_page_loop s page n)
unfolding alloc_page_loop
alloc_page_loop-PageOutcome zero page s e below = inl (refl, λ q h. below q (omega arith))
alloc_page_loop-PageOutcome (suc n) page s e below = elim (Bool-cases (is_used s page)) [
  | inl used ↦ rw used (
      alloc_page_loop-PageOutcome n (page + 1) s (omega arith) λ q h.
        elim (Bool-cases (ltb q page)) [
          | inl lt ↦ below q (ltb→lt q page lt)
          | inr ge ↦ let e' : q ≡ page = omega (arith, ltb→le q page ge) in rw e' used
        ])
  | inr clear ↦ rw clear (inr (page, refl, omega arith, clear, below))
]

pub pmm_alloc_page-PageOutcome : (s : Pmm) → PageOutcome s (pmm_alloc_page s)
unfolding pmm_alloc_page
pmm_alloc_page-PageOutcome s =
    alloc_page_loop-PageOutcome s.total_pages 0 s (omega arith) (λ q h. absurd (omega arith))

-- A clear page 0 is the page handed out.
pub alloc_page_first :
    (s : Pmm)
    → 0 < s.total_pages
    → is_used s 0 ≡ false
    → pmm_alloc_page s ≡ (page_address s 0, set_used s 0)
alloc_page_first s pos clear = elim (pmm_alloc_page-PageOutcome s) [
  | inl (e, all) ↦ absurd (false≢true (sym clear ∙ all 0 pos))
  | inr (k, e, lt, free, lowest) ↦ elim (Bool-cases (ltb 0 k)) [
    | inl later ↦ absurd (false≢true (sym clear ∙ lowest 0 (ltb→lt 0 k later)))
    | inr first ↦
        let e' : k ≡ 0 = omega (arith, ltb→le 0 k first) in
        e ∙ ap (λ j. (page_address s j, set_used s j)) e'
  ]
]

-- Page 0 of memory that starts at address 0 is taken, so that 0 can mean failure.
abbrev pub SentinelReserved : Pmm → Type 0
SentinelReserved s = s.mem_base ≡ 0 → is_used s 0 ≡ true

-- What a call that hands out the `n` pages from `k` on has done.
pub record Allocated (s : Pmm) (n k : ℕ) (a : ℕ) (t : Pmm) : Type 0 where
  pub within : k + n ≤ s.total_pages
  pub address : a ≡ s.mem_base + k * page_size
  pub not_null : a ≢ 0
  pub were_clear : (q : ℕ) → in_range k n q ≡ true → is_used s q ≡ false
  pub marked : (q : ℕ) → is_used t q ≡ (if in_range k n q then true else is_used s q)
  pub taken : t.free_pages + n ≡ s.free_pages
  pub layout : SameLayout s t
  pub valid : IsValid t

address_not_null :
    (s : Pmm) (k : ℕ) → SentinelReserved s → is_used s k ≡ false → s.mem_base + k * page_size ≢ 0
address_not_null s zero reserved clear e = false≢true (sym clear ∙ reserved (omega arith))
address_not_null s (suc k) reserved clear e = absurd (omega arith)

-- On a valid allocator whose address 0 is reserved, pmm_alloc_page either returns 0, changes
-- nothing and no page is free, or it hands out the lowest free page: its non-zero address is
-- returned, that page alone becomes used, and the free count falls by one.
pub pmm_alloc_page_lem :
    (s : Pmm)
    → IsValid s
    → SentinelReserved s
    → let (a, t) = pmm_alloc_page s in
      ((a ≡ 0) × (t ≡ s) × (s.free_pages ≡ 0))
      ⊎ ((k : ℕ) × Allocated s 1 k a t × ((q : ℕ) → q < k → is_used s q ≡ true))
pmm_alloc_page_lem s v reserved = elim (pmm_alloc_page-PageOutcome s) [
  | inl (e, all) ↦
      rw e (inl (refl, refl, v.counted ∙ count_clear_none (is_used s) s.total_pages all))
  | inr (k, e, lt, clear, lowest) ↦ rw e (
      inr (
        k,
        record {
          within = omega arith;
          address = page_address_lem k v lt;
          not_null = rw (page_address_lem k v lt) (address_not_null s k reserved clear);
          were_clear = λ q r. let e' : q ≡ k = ground arith in rw e' clear;
          marked = λ q. ground (arith, is_used-set_used s k q (InBitmap_lem k v lt));
          taken = set_used_count k v lt clear;
          layout = set_used-SameLayout s k;
          valid = set_used-IsValid k v lt;
        },
        lowest,
      ))
]

-- No run of `n` clear pages starts at `j`.
abbrev pub Blocked : Pmm → ℕ → ℕ → Type 0
Blocked s n j = (q : ℕ) × (in_range j n q ≡ true) × (is_used s q ≡ true)

abbrev pub RunOutcome : Pmm → ℕ → ℕ × Pmm → Type 0
RunOutcome s n r =
    ((r ≡ (0, s)) × ((j : ℕ) → j + n ≤ s.total_pages → Blocked s n j))
    ⊎ ((k : ℕ) × (r ≡ (page_address s k, set_used_range k n s))
        × (k + n ≤ s.total_pages)
        × ((q : ℕ) → in_range k n q ≡ true → is_used s q ≡ false)
        × ((j : ℕ) → j < k → Blocked s n j))

-- `run` clear pages end at `page`; whatever starts before them is blocked.
alloc_pages_loop-RunOutcome :
    (left page : ℕ) (s : Pmm) (count run_start run : ℕ)
    → page + left ≡ s.total_pages
    → run < count
    → run ≤ page
    → (run ≢ 0 → run_start + run ≡ page)
    → ((q : ℕ) → in_range (page - run) run q ≡ true → is_used s q ≡ false)
    → ((j : ℕ) → j < page - run → Blocked s count j)
    → RunOutcome s count (alloc_pages_loop s count page left run_start run)
unfolding alloc_pages_loop
alloc_pages_loop-RunOutcome zero page s count run_start run e lt le start clear blocked =
    inl (refl, λ j h. blocked j (omega arith))
alloc_pages_loop-RunOutcome (suc n) page s count run_start run e lt le start clear blocked =
    elim (Bool-cases (is_used s page)) [
      | inl used ↦ rw used (
          alloc_pages_loop-RunOutcome n (page + 1) s count run_start 0 (omega arith) (omega arith)
            (omega arith) (λ h. absurd (h refl)) (λ q r. ground arith)
            λ j h. elim (Bool-cases (ltb j (page - run))) [
              | inl before ↦ blocked j (ltb→lt _ _ before)
              | inr within ↦ (page, ground arith, used)
            ])
      | inr free ↦
          let begin : (if run == 0 then page else run_start) ≡ page - run = ground (arith, start) in
          rw (free, begin)
            (elim (Bool-cases (run + 1 == count)) [
              | inl done ↦ rw done (
                  inr (
                    page - run,
                    refl,
                    omega (arith, ==→eq (run + 1) count done),
                    λ q r. elim (Bool-cases (q == page)) [
                      | inl last ↦ rw (==→eq q page last) free
                      | inr other ↦ clear q (ground arith)
                    ],
                    blocked,
                  ))
              | inr more ↦ rw more (
                  alloc_pages_loop-RunOutcome n (page + 1) s count (page - run) (run + 1)
                    (omega arith) (omega (arith, ==→ne (run + 1) count more)) (omega arith)
                    (λ _. omega arith)
                    (λ q r. elim (Bool-cases (q == page)) [
                      | inl last ↦ rw (==→eq q page last) free
                      | inr other ↦ clear q (ground arith)
                    ])
                    λ j h. blocked j (omega arith))
            ])
    ]

pmm_alloc_pages-RunOutcome :
    (s : Pmm) (count : ℕ) → 0 < count → RunOutcome s count (pmm_alloc_pages s count)
unfolding pmm_alloc_pages
pmm_alloc_pages-RunOutcome s count pos = elim (Bool-cases (ltb s.total_pages count)) [
  | inl big ↦
      rw (zero_test count pos, big)
        (inl (refl, λ j h. absurd (omega (arith, ltb→lt s.total_pages count big))))
  | inr fits ↦
      rw (zero_test count pos, fits)
        (alloc_pages_loop-RunOutcome s.total_pages 0 s count 0 0 (omega arith) pos (omega arith)
          (λ h. absurd (h refl)) (λ q r. ground arith) (λ j h. absurd (omega arith)))
]
  where
    zero_test : (n : ℕ) → 0 < n → (n == 0) ≡ false
    zero_test n h = ground arith

-- On a valid allocator whose address 0 is reserved, pmm_alloc_pages for a positive count either
-- returns 0, changes nothing and every run of that length holds a used page, or it hands out the
-- first run of free pages: the non-zero address of the run is returned, exactly its pages become
-- used, the free count falls by their number, and every earlier run holds a used page.
pub pmm_alloc_pages_lem :
    (s : Pmm) (count : ℕ)
    → IsValid s
    → SentinelReserved s
    → 0 < count
    → let (a, t) = pmm_alloc_pages s count in
      ((a ≡ 0) × (t ≡ s) × ((j : ℕ) → j + count ≤ s.total_pages → Blocked s count j))
      ⊎ ((k : ℕ) × Allocated s count k a t × ((j : ℕ) → j < k → Blocked s count j))
pmm_alloc_pages_lem s count v reserved pos = elim (pmm_alloc_pages-RunOutcome s count pos) [
  | inl (e, all) ↦ rw e (inl (refl, refl, all))
  | inr (k, e, fits, clear, first) ↦ rw e (
      inr (
        k,
        record {
          within = fits;
          address = page_address_lem k v (omega arith);
          not_null =
              rw (page_address_lem k v (omega arith))
                (address_not_null s k reserved (clear k (ground arith)));
          were_clear = clear;
          marked = λ q. is_used-set_used_range count k s q v fits;
          taken = set_used_range_count count k v fits clear;
          layout = set_used_range-SameLayout count k s;
          valid = set_used_range-IsValid count k v fits;
        },
        first,
      ))
]
