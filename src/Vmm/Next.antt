-- ===== src/Vmm/Next.antt =====
-- next_table and vmm_new_table of kernel/mm/vmm.c.
use mathlib.Core.Path.{subst}
use armonios.Prelude.{
  ℕ, ◌<◌, ◌≡◌, ◌⊎◌, refl, sym, ap, ◌∙◌, inl, inr, true, false, arith, if◌then◌else◌, Bool-cases,
  ◌==◌,
}
use armonios.Pmm.{Pmm, pmm_alloc_page}
use armonios.Vmm.{
  Vmm, table_entries, is_valid, address_of, entry_at, zero_table, table_index, vmm_leaf_entry,
  vmm_new_table, next_table,
}
use armonios.Vmm.Pages.{IsPages, InUse, Fresh, page_bounds, pmm_alloc_page-Fresh}
use armonios.Vmm.Space.{IsSpace, table_index-lt, zero_table-pmm, zero_table_cleared}
use armonios.Vmm.Walk.{found_by_stops, vmm_leaf_entry_lem, Below}
use armonios.Vmm.Child.{with_child-Below}

-- next_table finds the table at an entry, or puts a new one there, or there is no free page.
pub next_table-Below :
    (s : Vmm) (pgd t i : ℕ) (v : IsSpace s pgd)
    → 1 < v.rank t
    → i < table_entries
    → let (c, s') = next_table s t i in
      ((c ≡ 0) × (s' ≡ s) × (s.pmm.free_pages ≡ 0)) ⊎ Below s pgd t i c v s'
unfolding next_table vmm_new_table
next_table-Below s pgd t i v inner hi = elim (Bool-cases (is_valid (entry_at s t i))) [
  | inl e ↦
      let old = v.child t i inner hi e in
      rw (e, old.0)
        (inr (record {
          grown = record {
            space = v;
            rank_kept = λ x r. refl;
            kept = λ x j r h w. refl;
            translates = λ vaddr. refl;
          };
          not_null = v.not_null (address_of (entry_at s t i)) (omega (arith, old.1));
          rank = old.1;
          valid = e;
          table = old.0;
          address = refl;
        }))
  | inr e ↦ elim (pmm_alloc_page-Fresh s.pmm v.pages) [
    | inl r ↦
        let z : ((pmm_alloc_page s.pmm).0 == 0) ≡ true = ground (arith, r.0) in
        rw (e, z) (inl (refl, ap (λ (p : Pmm). record s { pmm = p }) r.1, r.2))
    | inr f ↦
        let z : ((pmm_alloc_page s.pmm).0 == 0) ≡ false = (let n = f.not_null in ground arith) in
        rw (e, z, z)
          (inr (
            with_child-Below s pgd v t i (pmm_alloc_page s.pmm).0 (pmm_alloc_page s.pmm).1 inner hi
              e f))
  ]
]

root_empty :
    (s : Vmm) (a : ℕ) (q : Pmm) (j : ℕ)
    → Fresh s.pmm a q
    → j < table_entries
    → entry_at (zero_table (record s { pmm = q }) a) a j ≡ 0
root_empty s a q j f hj =
    zero_table_cleared (record s { pmm = q }) a j (page_bounds q a f.pages f.taken).0 hj

root-IsSpace :
    (s : Vmm) (a : ℕ) (q : Pmm) → Fresh s.pmm a q → IsSpace (zero_table (record s { pmm = q }) a) a
root-IsSpace s a q f =
    let same = zero_table-pmm (record s { pmm = q }) a in
    record {
      rank = λ x. if x == a then 4 else 0;
      parent = λ x. 0;
      pages = subst IsPages (sym same) f.pages;
      root = (let e : (a == a) ≡ true = ground arith in rw e refl);
      in_use = λ x r.
          subst (λ (p : Pmm). InUse p x) (sym same)
            (subst (InUse q) (let e : a ≡ x = ground arith in e) f.taken);
      not_null = λ x r e. f.not_null (ground arith);
      child = λ x j r hj e. absurd (
          ground (
            arith,
            e,
            ap (λ (k : ℕ). entry_at (zero_table (record s { pmm = q }) a) k j)
                (let w : x ≡ a = ground arith in w),
            root_empty s a q j f hj,
          ));
    }

root_maps_nothing :
    (s : Vmm) (a : ℕ) (q : Pmm) (vaddr : ℕ)
    → Fresh s.pmm a q
    → vmm_leaf_entry (zero_table (record s { pmm = q }) a) a vaddr ≡ 0
root_maps_nothing s a q vaddr f =
    vmm_leaf_entry_lem (zero_table (record s { pmm = q }) a) a vaddr f.not_null
    ∙ found_by_stops 2 0 (zero_table (record s { pmm = q }) a) a vaddr
        (ground (arith, root_empty s a q (table_index vaddr 0) f (table_index-lt vaddr 0)))

-- A new root: an address space with no page mapped.
pub vmm_new_table_lem :
    (s : Vmm) (vaddr : ℕ)
    → IsPages s.pmm
    → let (a, s') = vmm_new_table s in
      ((a ≡ 0) × (s' ≡ s) × (s.pmm.free_pages ≡ 0))
      ⊎ (IsSpace s' a × (vmm_leaf_entry s' a vaddr ≡ 0))
unfolding vmm_new_table
vmm_new_table_lem s vaddr v = elim (pmm_alloc_page-Fresh s.pmm v) [
  | inl r ↦
      let z : ((pmm_alloc_page s.pmm).0 == 0) ≡ true = ground (arith, r.0) in
      rw z (inl (refl, ap (λ (p : Pmm). record s { pmm = p }) r.1, r.2))
  | inr f ↦
      let z : ((pmm_alloc_page s.pmm).0 == 0) ≡ false = (let n = f.not_null in ground arith) in
      rw z (
        inr (
          root-IsSpace s (pmm_alloc_page s.pmm).0 (pmm_alloc_page s.pmm).1 f,
          root_maps_nothing s (pmm_alloc_page s.pmm).0 (pmm_alloc_page s.pmm).1 vaddr f,
        ))
]
