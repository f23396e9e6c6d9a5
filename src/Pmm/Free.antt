-- ===== src/Pmm/Free.antt =====
-- pmm_free_page of kernel/mm/pmm.c, and its round trips with the allocator.
use armonios.Prelude.{
  ℕ, ◌+◌, ◌-◌, ◌/◌, ◌%◌, ◌≤◌, ◌<◌, ◌≡◌, ◌≢◌, ◌⊎◌, refl, ◌∙◌, inl, inr, true, false, arith,
  if◌then◌else◌, ◌==◌, Bool-cases, ==→eq,
}
use armonios.Pmm.{Pmm, is_used, set_free, page_size, pmm_alloc_page, pmm_free_page}
use armonios.Pmm.Bitmap.{is_used-set_used, is_used-set_free}
use armonios.Pmm.Inv.{
  SameLayout, IsValid, set_free-IsValid, set_free_count, set_free-SameLayout, set_free_old,
  InBitmap_lem,
}
use armonios.Pmm.Alloc.{pmm_alloc_page_lem, alloc_page_first, SentinelReserved}

-- The page that pmm_free_page clears for an address, if it accepts the address.
abbrev pub Names : Pmm → ℕ → ℕ → Type 0
Names s paddr k =
    (s.mem_base ≤ paddr)
    × (paddr % page_size ≡ 0)
    × ((paddr - s.mem_base) / page_size ≡ k)
    × (k < s.total_pages)

pmm_free_page_accepts :
    (s : Pmm) (paddr k : ℕ) → Names s paddr k → pmm_free_page s paddr ≡ set_free s k
unfolding pmm_free_page
pmm_free_page_accepts s paddr k (lo, al, e, h) = rw (← e) (ground arith)

-- An address below the managed memory, past its end or off a page boundary frees nothing.
pub pmm_free_page_rejects :
    (s : Pmm) (paddr : ℕ)
    → (paddr < s.mem_base)
      ⊎ (paddr % page_size ≢ 0)
      ⊎ (s.total_pages ≤ (paddr - s.mem_base) / page_size)
    → pmm_free_page s paddr ≡ s
unfolding pmm_free_page
pmm_free_page_rejects s paddr (inl below) = ground arith
pmm_free_page_rejects s paddr (inr (inl off)) = ground arith
pmm_free_page_rejects s paddr (inr (inr past)) = ground arith

-- Freeing the address of a managed page of a valid allocator clears exactly that page, adds it to
-- the free count if it was used, changes nothing if it was already free, and keeps the allocator
-- valid.
pub pmm_free_page_lem :
    (s : Pmm) (paddr k : ℕ)
    → IsValid s
    → Names s paddr k
    → let t = pmm_free_page s paddr in
      IsValid t
      × ((q : ℕ) → is_used t q ≡ (if k == q then false else is_used s q))
      × (t.free_pages ≡ s.free_pages + (if is_used s k then 1 else 0))
      × (is_used s k ≡ false → t ≡ s)
pmm_free_page_lem s paddr k v names = rw (pmm_free_page_accepts s paddr k names) (
  set_free-IsValid k v names.3,
  λ q. is_used-set_free s k q (InBitmap_lem k v names.3),
  elim (Bool-cases (is_used s k)) [
    | inl used ↦ rw used ((set_free_count k v names.3 used).0)
    | inr free ↦ rw (set_free_old s k free, free) (omega arith)
  ],
  set_free_old s k,
)

-- Freeing the page that the allocator has just handed out restores the free pages and their
-- number, if the managed memory starts on a page boundary.
pub pmm_free_page_restores :
    (s : Pmm)
    → IsValid s
    → SentinelReserved s
    → s.mem_base % page_size ≡ 0
    → (pmm_alloc_page s).0 ≢ 0
    → let (a, t) = pmm_alloc_page s in
      let u = pmm_free_page t a in
      ((q : ℕ) → is_used u q ≡ is_used s q) × (u.free_pages ≡ s.free_pages) × IsValid u
pmm_free_page_restores s v reserved aligned ok = elim (pmm_alloc_page_lem s v reserved) [
  | inl (failed, _, _) ↦ absurd (ok failed)
  | inr (k, done, _) ↦
      let names : Names (pmm_alloc_page s).1 (pmm_alloc_page s).0 k =
        let l = done.layout in
        let a = done.address in
        let w = done.within in (omega arith, omega arith, omega arith, omega arith) in
      let f = pmm_free_page_lem (pmm_alloc_page s).1 (pmm_alloc_page s).0 k done.valid names in
      let was = done.were_clear k (ground arith) in
      let is : is_used (pmm_alloc_page s).1 k ≡ true = done.marked k ∙ ground arith in
      (λ q. f.1 q ∙ ground (arith, done.marked q, ==→eq k q), f.2 ∙ rw is done.taken, f.0)
]

-- On memory that starts at address 0, freeing address 0 makes page 0 allocatable: the next
-- pmm_alloc_page marks page 0 as used and returns 0, which means failure.
pub pmm_free_page_zero :
    (s : Pmm)
    → IsValid s
    → s.mem_base ≡ 0
    → 0 < s.total_pages
    → let t = pmm_free_page s 0 in
      (is_used t 0 ≡ false) × ((pmm_alloc_page t).0 ≡ 0) × (is_used (pmm_alloc_page t).1 0 ≡ true)
pmm_free_page_zero s v base pos =
    let f = pmm_free_page_lem s 0 0 v (omega arith, refl, omega arith, pos) in
    let l : SameLayout s (pmm_free_page s 0) =
      rw (pmm_free_page_accepts s 0 0 (omega arith, refl, omega arith, pos))
        (set_free-SameLayout s 0) in
    let t = pmm_free_page s 0 in
    let clear : is_used t 0 ≡ false = f.1 0 in
    let pos' : 0 < t.total_pages = omega arith in
    rw (alloc_page_first t pos' clear)
      (clear, omega arith, is_used-set_used t 0 0 (InBitmap_lem 0 f.0 pos'))
