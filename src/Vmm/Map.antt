-- ===== src/Vmm/Map.antt =====
-- vmm_map_page of kernel/mm/vmm.c.
use armonios.Prelude.{
  ℕ, ◌+◌, ◌/◌, ◌%◌, ◌<◌, ◌≡◌, ◌≢◌, ◌⊎◌, refl, sym, ap, ◌∙◌, inl, inr, Bool, true, false, arith,
  if◌then◌else◌, Bool-cases, ◌==◌, ==→eq, ==→ne,
}
use armonios.Pmm.{page_size}
use armonios.Vmm.{
  Vmm, is_valid, address_bits, entry_at, set_entry, table_index, leaf_loop, vmm_leaf_entry,
}
use armonios.Vmm.Space.{IsSpace, table_index-lt}
use armonios.Vmm.Walk.{Grown}
use armonios.Vmm.{page_descriptor, descend, put_leaf, vmm_map_page, vmm_virt_to_phys}
use armonios.Vmm.Walk.{rank-leaf_loop}
use armonios.Vmm.Leaf.{set_last-IsSpace, vmm_leaf_entry-set_entry}
use armonios.Vmm.Descend.{page_descriptor_lem, Descended, descend-Descended}
use armonios.Vmm.Remap.{translate, Remapped, remapped, entry_found}

-- Why a page is not mapped: an address off a page boundary, a page mapped before, or no free page.
abbrev pub Unmappable : Vmm → ℕ → ℕ → ℕ → Vmm → Type 0
Unmappable s pgd vaddr paddr s' =
    (vaddr % page_size ≢ 0)
    ⊎ (paddr % page_size ≢ 0)
    ⊎ (is_valid (vmm_leaf_entry s pgd vaddr) ≡ true)
    ⊎ (s'.pmm.free_pages ≡ 0)

abbrev pub MapOutcome : Vmm → ℕ → ℕ → ℕ → ℕ → ℕ → Bool × Vmm → Type 0
MapOutcome s pgd vaddr paddr flags other (ok, s') =
    IsSpace s' pgd
    × (((ok ≡ false)
          × Unmappable s pgd vaddr paddr s'
          × (vmm_leaf_entry s' pgd other ≡ vmm_leaf_entry s pgd other)
          × (vmm_virt_to_phys s' pgd other ≡ vmm_virt_to_phys s pgd other))
        ⊎ ((ok ≡ true)
            × (is_valid (vmm_leaf_entry s pgd vaddr) ≡ false)
            × Remapped s pgd vaddr other (page_descriptor paddr flags) (paddr + other % page_size)
                s'))

put_leaf-Remapped :
    (s : Vmm) (pgd vaddr paddr flags other last : ℕ) (v : IsSpace s pgd) (t : Vmm)
    (g : Grown s pgd v t)
    → vaddr < address_bits
    → paddr < address_bits
    → other < address_bits
    → paddr % page_size ≡ 0
    → last ≢ 0
    → leaf_loop 3 0 t pgd vaddr ≡ last
    → MapOutcome s pgd vaddr paddr flags other (put_leaf t last vaddr paddr flags)
unfolding vmm_virt_to_phys translate
put_leaf-Remapped s pgd vaddr paddr flags other last v t g hv hp ho pon ne at =
    let i = table_index vaddr 3 in
    let found = entry_found t pgd g.space vaddr last ne at in
    let rank_last : g.space.rank last ≡ 1 =
      ap g.space.rank (sym at)
      ∙ rank-leaf_loop t pgd g.space 3 0 pgd vaddr g.space.root (λ z. ne (sym at ∙ z)) in
    let d = page_descriptor_lem paddr flags hp pon in
    elim (Bool-cases (is_valid (entry_at t last i))) [
      | inl taken ↦ rw taken (
        g.space,
        inl (
          refl,
          inr (inr (inl (ap is_valid (sym (g.translates vaddr) ∙ found) ∙ taken))),
          g.translates other,
          ap (translate other) (g.translates other),
        ),
      )
      | inr free ↦ rw free (
        set_last-IsSpace t pgd g.space last i (page_descriptor paddr flags) rank_last
            (table_index-lt vaddr 3),
        inr (
          refl,
          ap is_valid (sym (g.translates vaddr) ∙ found) ∙ free,
          remapped s (set_entry t last i (page_descriptor paddr flags)) pgd vaddr other
              (page_descriptor paddr flags) (paddr + other % page_size)
              (vmm_leaf_entry-set_entry t pgd g.space vaddr other (page_descriptor paddr flags) last
                  hv ho ne at
                ∙ ap
                    (λ (k : ℕ).
                      if other / page_size == vaddr / page_size
                      then page_descriptor paddr flags
                      else k)
                    (g.translates other))
              (rw (d.0, d.1, d.2) refl),
        ),
      )
    ]

end_of_search :
    (s : Vmm) (pgd vaddr paddr flags other : ℕ) (v : IsSpace s pgd) (last : ℕ) (t : Vmm)
    → vaddr < address_bits
    → paddr < address_bits
    → other < address_bits
    → paddr % page_size ≡ 0
    → Descended s pgd v 3 0 pgd vaddr last t
    → MapOutcome s pgd vaddr paddr flags other
        (if last == 0 then (false, t) else put_leaf t last vaddr paddr flags)
unfolding Descended vmm_virt_to_phys translate
end_of_search s pgd vaddr paddr flags other v last t hv hp ho pon d = elim (d.1) [
  | inl e ↦
      let z : (last == 0) ≡ true = ground (arith, e.0) in
      rw z (
        d.0.space,
        inl (
          refl,
          inr (inr (inr e.1)),
          d.0.translates other,
          ap (translate other) (d.0.translates other),
        ),
      )
  | inr e ↦
      let z : (last == 0) ≡ false = (let ne = e.0 in ground arith) in
      rw z (put_leaf-Remapped s pgd vaddr paddr flags other last v t d.0 hv hp ho pon e.0 e.1)
]

-- vmm_map_page keeps the address space. It fails only for the reasons of `Unmappable`, and then each
-- address is translated as before. Otherwise the page was not mapped, its addresses are now translated
-- to those of the page at `paddr`, and all others as before.
pub vmm_map_page_lem :
    (s : Vmm) (pgd vaddr paddr flags other : ℕ)
    → IsSpace s pgd
    → vaddr < address_bits
    → paddr < address_bits
    → other < address_bits
    → let (ok, s') = vmm_map_page s pgd vaddr paddr flags in
      IsSpace s' pgd
      × (((ok ≡ false)
            × Unmappable s pgd vaddr paddr s'
            × (vmm_leaf_entry s' pgd other ≡ vmm_leaf_entry s pgd other)
            × (vmm_virt_to_phys s' pgd other ≡ vmm_virt_to_phys s pgd other))
          ⊎ ((ok ≡ true)
              × (is_valid (vmm_leaf_entry s pgd vaddr) ≡ false)
              × Remapped s pgd vaddr other
                  (page_descriptor paddr flags)
                  (paddr + other % page_size)
                  s'))
unfolding vmm_map_page vmm_virt_to_phys
vmm_map_page_lem s pgd vaddr paddr flags other v hv hp ho =
    let nn = v.not_null pgd (omega (arith, v.root)) in
    let z : (pgd == 0) ≡ false = ground arith in
    elim (Bool-cases (vaddr % page_size == 0)) [
      | inr off ↦ rw (z, off) (v, inl (refl, inl (==→ne (vaddr % page_size) 0 off), refl, refl))
      | inl on ↦ elim (Bool-cases (paddr % page_size == 0)) [
        | inr poff ↦
            rw (z, on, poff)
              (v, inl (refl, inr (inl (==→ne (paddr % page_size) 0 poff)), refl, refl))
        | inl pon ↦
            rw (z, on, pon)
              (end_of_search s pgd vaddr paddr flags other v (descend 3 0 s pgd vaddr).0
                (descend 3 0 s pgd vaddr).1 hv hp ho (==→eq (paddr % page_size) 0 pon)
                (descend-Descended 3 0 s pgd pgd vaddr v v.root))
      ]
    ]
