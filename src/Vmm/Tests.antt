-- ===== src/Vmm/Tests.antt =====
-- An address space of kernel/mm/vmm.c in a small memory, and its theorems there.
use armonios.Prelude.{
  ℕ, ◌+◌, ◌-◌, ◌%◌, ◌<◌, ◌≡◌, ◌≢◌, ◌⊎◌, inl, inr, true, false, arith, if◌then◌else◌,
}
use armonios.Pmm.{pmm_init, page_size}
use armonios.Pmm.Bitmap.{count_clear_pos}
use armonios.Pmm.Init.{pmm_init_lem}
use armonios.Pmm.{is_used}
use armonios.Vmm.{
  Vmm, is_valid, page_align_down, page_descriptor, vmm_new_table, vmm_map_page, vmm_unmap_page,
  vmm_map_range, vmm_leaf_entry, vmm_virt_to_phys,
}
use armonios.Vmm.Pages.{IsPages}
use armonios.Vmm.Space.{IsSpace}
use armonios.Vmm.Next.{vmm_new_table_lem}
use armonios.Vmm.Remap.{Remapped}
use armonios.Vmm.Map.{Unmappable, vmm_map_page_lem}
use armonios.Vmm.Unmap.{vmm_unmap_page_lem}
use armonios.Vmm.MapRange.{covered, RangeRefused, vmm_map_range_lem}

-- eight pages from 0x4000 on
abbrev start : Vmm
start = record { pmm = pmm_init 0x4000 0x8000; memory = λ a. 0 }

start-IsPages : IsPages start.pmm
start-IsPages =
    let r = pmm_init_lem 0x4000 0x8000 (omega arith) in
    record {
      valid = r.0;
      reserved = λ e. absurd (omega (arith, e, r.1));
      on_page = omega (arith, r.1);
      high = omega (arith, r.1, r.2);
    }

some_free : 0 < start.pmm.free_pages
some_free =
    let r = pmm_init_lem 0x4000 0x8000 (omega arith) in
    let clear : is_used start.pmm 1 ≡ false = r.3 1 (omega (arith, r.2)) in
    omega (
      arith,
      r.0.counted,
      count_clear_pos (is_used start.pmm) start.pmm.total_pages 1 (omega (arith, r.2)) clear,
    )

abbrev root : ℕ
root = (vmm_new_table start).0

abbrev space : Vmm
space = (vmm_new_table start).1

space-IsSpace : IsSpace space root
space-IsSpace = elim (vmm_new_table_lem start 0 start-IsPages) [
  | inl r ↦ absurd (omega (arith, r.2, some_free))
  | inr r ↦ r.0
]

vmm_map_page_lem_example :
    let (ok, s') = vmm_map_page space root 0x400000 0x80000 16 in
    IsSpace s' root
    × (((ok ≡ false)
          × Unmappable space root 0x400000 0x80000 s'
          × (vmm_leaf_entry s' root 0x400010 ≡ vmm_leaf_entry space root 0x400010)
          × (vmm_virt_to_phys s' root 0x400010 ≡ vmm_virt_to_phys space root 0x400010))
        ⊎ ((ok ≡ true)
            × (is_valid (vmm_leaf_entry space root 0x400000) ≡ false)
            × Remapped space root 0x400000 0x400010 (page_descriptor 0x80000 16) 0x80010 s'))
vmm_map_page_lem_example =
    vmm_map_page_lem space root 0x400000 0x80000 16 0x400010 space-IsSpace (omega arith)
      (omega arith) (omega arith)

vmm_unmap_page_lem_example :
    let (ok, s') = vmm_unmap_page space root 0x400000 in
    IsSpace s' root
    × (((ok ≡ false)
          × (s' ≡ space)
          × ((0x400000 % page_size ≢ 0) ⊎ (is_valid (vmm_leaf_entry space root 0x400000) ≡ false)))
        ⊎ ((ok ≡ true)
            × (0x400000 % page_size ≡ 0)
            × (is_valid (vmm_leaf_entry space root 0x400000) ≡ true)
            × Remapped space root 0x400000 0x401000 0 0 s'))
vmm_unmap_page_lem_example =
    vmm_unmap_page_lem space root 0x400000 0x401000 space-IsSpace (omega arith) (omega arith)

vmm_map_range_lem_example :
    let (ok, s') = vmm_map_range space root 0x400010 0x80010 0x1800 16 in
    IsSpace s' root
    × (((ok ≡ true)
          × (vmm_virt_to_phys s' root 0x401234 ≡ (
              if covered 0x400010 0x1800 0x401234
              then page_align_down 0x80010 + (0x401234 - page_align_down 0x400010)
              else vmm_virt_to_phys space root 0x401234)))
        ⊎ ((ok ≡ false)
            × RangeRefused space root 0x400010 0x80010 0x1800 s'
            × (vmm_virt_to_phys s' root 0x401234 ≡ vmm_virt_to_phys space root 0x401234)))
vmm_map_range_lem_example =
    vmm_map_range_lem space root 0x400010 0x80010 0x1800 16 0x401234 space-IsSpace (omega arith)
      (omega arith) (omega arith)
