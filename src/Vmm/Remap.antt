-- ===== src/Vmm/Remap.antt =====
-- How an address space translates once a page is mapped or not, for kernel/mm/vmm.c.
use armonios.Prelude.{
  ℕ, ◌+◌, ◌/◌, ◌%◌, ◌≡◌, ◌≢◌, refl, sym, ap, ◌∙◌, inl, inr, false, not, ◌||◌, arith, if◌then◌else◌,
  Bool-cases, ◌==◌,
}
use armonios.Pmm.{page_size}
use armonios.Vmm.{
  Vmm, is_valid, is_table, address_of, entry_at, table_index, leaf_loop, vmm_leaf_entry,
}
use armonios.Vmm.Space.{IsSpace}
use armonios.Vmm.Walk.{vmm_leaf_entry_lem, last_entry}
use armonios.Vmm.{vmm_virt_to_phys}
use armonios.Vmm.Leaf.{leaf_loop_page}
use armonios.Vmm.Walk.{same_page_index}

-- vmm_virt_to_phys as a function of the entry.
unfoldable pub translate : ℕ → ℕ → ℕ
translate vaddr entry =
    if not (is_valid entry) || not (is_table entry) then 0 else address_of entry + vaddr % page_size

-- The address space `s'` maps the page of `vaddr` by `entry`, and the other pages as `s` does.
pub record Remapped (s : Vmm) (pgd vaddr other entry physical : ℕ) (s' : Vmm) : Type 0 where
  pub entries :
      vmm_leaf_entry s' pgd other
      ≡ (if other / page_size == vaddr / page_size then entry else vmm_leaf_entry s pgd other)
  pub translates :
      vmm_virt_to_phys s' pgd other
      ≡ (if other / page_size == vaddr / page_size then physical else vmm_virt_to_phys s pgd other)

pub remapped :
    (s s' : Vmm) (pgd vaddr other entry physical : ℕ)
    → vmm_leaf_entry s' pgd other
      ≡ (if other / page_size == vaddr / page_size then entry else vmm_leaf_entry s pgd other)
    → translate other entry ≡ physical
    → Remapped s pgd vaddr other entry physical s'
unfolding vmm_virt_to_phys translate
remapped s s' pgd vaddr other entry physical e t = record {
  entries = e;
  translates = ap (translate other) e ∙ elim (Bool-cases (other / page_size == vaddr / page_size)) [
    | inl w ↦ rw w t
    | inr w ↦ rw w refl
  ];
}

-- the entry at the end of a walk
pub entry_found :
    (s : Vmm) (pgd : ℕ) (v : IsSpace s pgd) (vaddr last : ℕ)
    → last ≢ 0
    → leaf_loop 3 0 s pgd vaddr ≡ last
    → vmm_leaf_entry s pgd vaddr ≡ entry_at s last (table_index vaddr 3)
entry_found s pgd v vaddr last ne at =
    let full : (last == 0) ≡ false = ground arith in
    vmm_leaf_entry_lem s pgd vaddr (v.not_null pgd (omega (arith, v.root)))
    ∙ ap (last_entry s vaddr) at
    ∙ rw full refl

-- The addresses of a page have one entry.
pub vmm_leaf_entry_page :
    (s : Vmm) (pgd : ℕ) (v : IsSpace s pgd) (vaddr other : ℕ)
    → vaddr / page_size ≡ other / page_size
    → vmm_leaf_entry s pgd vaddr ≡ vmm_leaf_entry s pgd other
vmm_leaf_entry_page s pgd v vaddr other e =
    let nn = v.not_null pgd (omega (arith, v.root)) in
    vmm_leaf_entry_lem s pgd vaddr nn
    ∙ ap (last_entry s vaddr) (leaf_loop_page 3 0 s pgd vaddr other (omega arith) e)
    ∙ ap
        (λ (i : ℕ).
          let last = leaf_loop 3 0 s pgd other in if last == 0 then 0 else entry_at s last i)
        (same_page_index vaddr other 3 (omega arith) e)
    ∙ sym (vmm_leaf_entry_lem s pgd other nn)
