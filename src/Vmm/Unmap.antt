-- ===== src/Vmm/Unmap.antt =====
-- vmm_unmap_page of kernel/mm/vmm.c.
use armonios.Prelude.{
  ℕ, ◌%◌, ◌<◌, ◌≡◌, ◌≢◌, ◌⊎◌, refl, ap, ◌∙◌, inl, inr, true, false, arith, Bool-cases, ◌==◌, ==→eq,
  ==→ne,
}
use armonios.Pmm.{page_size}
use armonios.Vmm.{
  Vmm, is_valid, address_bits, entry_at, set_entry, table_index, leaf_loop, vmm_leaf_entry,
}
use armonios.Vmm.Space.{IsSpace, table_index-lt}
use armonios.Vmm.Walk.{found_by, vmm_leaf_entry_lem}
use armonios.Vmm.{leaf_table, vmm_unmap_page}
use armonios.Vmm.Walk.{rank-leaf_loop}
use armonios.Vmm.Leaf.{set_last-IsSpace, vmm_leaf_entry-set_entry}
use armonios.Vmm.Remap.{translate, Remapped, remapped, entry_found}

-- vmm_unmap_page keeps the address space. It fails with no change exactly for an address off a page
-- boundary and a page that is not mapped. Otherwise the addresses of the page are translated no more,
-- and all others as before.
pub vmm_unmap_page_lem :
    (s : Vmm) (pgd vaddr other : ℕ)
    → IsSpace s pgd
    → vaddr < address_bits
    → other < address_bits
    → let (ok, s') = vmm_unmap_page s pgd vaddr in
      IsSpace s' pgd
      × (((ok ≡ false)
            × (s' ≡ s)
            × ((vaddr % page_size ≢ 0) ⊎ (is_valid (vmm_leaf_entry s pgd vaddr) ≡ false)))
          ⊎ ((ok ≡ true)
              × (vaddr % page_size ≡ 0)
              × (is_valid (vmm_leaf_entry s pgd vaddr) ≡ true)
              × Remapped s pgd vaddr other 0 0 s'))
unfolding vmm_unmap_page leaf_table translate
vmm_unmap_page_lem s pgd vaddr other v hv ho =
    let nn = v.not_null pgd (omega (arith, v.root)) in
    let z : (pgd == 0) ≡ false = ground arith in
    let last = leaf_loop 3 0 s pgd vaddr in
    let i = table_index vaddr 3 in
    elim (Bool-cases (vaddr % page_size == 0)) [
      | inr off ↦ rw (z, off) (v, inl (refl, refl, inl (==→ne (vaddr % page_size) 0 off)))
      | inl on ↦ elim (Bool-cases (last == 0)) [
        | inl gone ↦
            let none_there : vmm_leaf_entry s pgd vaddr ≡ 0 =
              vmm_leaf_entry_lem s pgd vaddr nn
              ∙ (let e : found_by 3 0 s pgd vaddr ≡ 0 = rw gone refl in e) in
            rw (z, on, gone) (v, inl (refl, refl, inr (ap is_valid none_there)))
        | inr full ↦
            let ne = ==→ne last 0 full in
            let found = entry_found s pgd v vaddr last ne refl in
            let rank_last = rank-leaf_loop s pgd v 3 0 pgd vaddr v.root ne in
            elim (Bool-cases (is_valid (entry_at s last i))) [
              | inr free ↦
                  rw (z, on, full, free) (v, inl (refl, refl, inr (ap is_valid found ∙ free)))
              | inl taken ↦
                  rw (z, on, full, taken)
                    (
                      set_last-IsSpace s pgd v last i 0 rank_last (table_index-lt vaddr 3),
                      inr (
                        refl,
                        ==→eq (vaddr % page_size) 0 on,
                        ap is_valid found ∙ taken,
                        remapped s (set_entry s last i 0) pgd vaddr other 0 0
                            (vmm_leaf_entry-set_entry s pgd v vaddr other 0 last hv ho ne refl)
                            refl,
                      ),
                    )
            ]
      ]
    ]
