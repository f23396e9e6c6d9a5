-- ===== src/UserVm.antt =====
-- kernel/user_vm.c: the memory that a process asks for, over its regions (Regions), its page tables
-- (Vmm) and the page allocator (Pmm). Pointers are not null. Bytes are cleared a word at a time.
pub mod Protection
mod Tests
use armonios.Prelude.{
  ℕ, zero, suc, ◌+◌, ◌-◌, ◌*◌, ◌/◌, ◌%◌, Bool, true, false, not, ◌&&◌, ◌||◌, Option, none, some,
  if◌then◌else◌, ltb, ◌==◌, u64_max, add64,
}
use armonios.Pmm.{Pmm, page_size, pmm_alloc_pages, pmm_free_page}
use armonios.Regions.{
  Region, Regions, process_alloc_user_region, process_remove_user_region,
  process_set_user_region_mapping, process_find_user_region, is_some,
}
use armonios.Process.{Process}
use armonios.Vmm.{Vmm, vmm_map_range, vmm_unmap_range}

-- The value of a call: an address, or one of two errors.
pub data Answer : Type 0 where
  address : ℕ → Answer
  no_memory invalid : Answer

abbrev pub page_round_up : ℕ → ℕ
page_round_up value =
    if value == 0 || ltb (u64_max - (page_size - 1)) value
    then 0
    else (value + (page_size - 1)) / page_size * page_size

-- flags & f, for one bit
abbrev pub asks : ℕ → ℕ → Bool
asks flags f = flags / f % 2 == 1

-- The flags of the page tables for those of a call: 1 reads, 2 writes, 4 executes and 16 is the user's.
unfoldable pub flags_to_vmm : ℕ → Option ℕ
flags_to_vmm asked =
    if not (asked / 8 == 0)
    then none
    else let flags = if asked == 0 then 1 + 2 else asked in
      if asks flags 2 && asks flags 4
      then none
      else let access = if asks flags 2 then 1 + 2 else if asks flags 1 then 1 else 0 in
        some (16 + access + (if asks flags 4 then 4 else 0))

-- for (offset …; offset < size; offset += PAGE_SIZE) pmm_free_page(paddr + offset), with `n` rounds left
unfoldable pub free_page_range : ℕ → ℕ → ℕ → Pmm → Pmm
free_page_range zero offset paddr p = p
free_page_range (suc n) offset paddr p =
    free_page_range n (offset + page_size) paddr (pmm_free_page p (add64 paddr offset))

abbrev pub free_pages : ℕ → ℕ → Vmm → Vmm
free_pages paddr size vmm = record vmm { pmm = free_page_range (size / page_size) 0 paddr vmm.pmm }

-- the loop that clears new memory, word by word, with `n` words left
unfoldable pub clear_words : ℕ → ℕ → (ℕ → ℕ) → ℕ → ℕ
clear_words zero at memory = memory
clear_words (suc n) at memory = clear_words n (at + 8) (λ a. if a == at then 0 else memory a)

abbrev pub clear_memory : ℕ → ℕ → Vmm → Vmm
clear_memory paddr size vmm = record vmm { memory = clear_words (size / 8) paddr vmm.memory }

abbrev pub drop_region : Process → ℕ → ℕ → Process
drop_region p addr size = record p { regions = (process_remove_user_region p.regions addr size).1 }

-- The end of user_vm_map_anonymous, with the pages at `paddr` for the region at `addr`.
abbrev pub install : Process → Vmm → ℕ → ℕ → ℕ → ℕ → Answer × (Process × Vmm)
install p vmm addr size paddr vmm_flags =
    let (mapped, t) =
      vmm_map_range (clear_memory paddr size vmm) p.page_table addr paddr size vmm_flags in
    let undone = free_pages paddr size (vmm_unmap_range t p.page_table addr size).1 in
    let (set, regions) = process_set_user_region_mapping p.regions addr size paddr 1 in
    if not mapped
    then (no_memory, (drop_region p addr size, undone))
    else if not set
    then (invalid, (drop_region p addr size, undone))
    else (address addr, (record p { regions = regions }, t))

abbrev pub map_at_region : Option ℕ × Regions → Process → Vmm → ℕ → ℕ → Answer × (Process × Vmm)
map_at_region (none, regions) p vmm size vmm_flags = (invalid, (p, vmm))
map_at_region (some addr, regions) p vmm size vmm_flags =
    let q = record p { regions = regions } in
    let (paddr, pmm) = pmm_alloc_pages vmm.pmm (size / page_size) in
    let u = record vmm { pmm = pmm } in
    if paddr == 0
    then (no_memory, (drop_region q addr size, u))
    else install q u addr size paddr vmm_flags

abbrev pub map_with : Option ℕ → Process → Vmm → ℕ → Answer × (Process × Vmm)
map_with none p vmm size = (invalid, (p, vmm))
map_with (some vmm_flags) p vmm size =
    map_at_region (process_alloc_user_region p.regions size) p vmm size vmm_flags

unfoldable pub user_vm_map_anonymous : Process → Vmm → ℕ → ℕ → ℕ → Answer × (Process × Vmm)
user_vm_map_anonymous p vmm hint size flags =
    let aligned_size = page_round_up size in
    if p.page_table == 0 || (not (hint == 0) || aligned_size == 0)
    then (invalid, (p, vmm))
    else map_with (flags_to_vmm flags) p vmm aligned_size

abbrev pub unmap_region : Option Region → Process → Vmm → ℕ → ℕ → Bool × (Process × Vmm)
unmap_region none p vmm addr size = (false, (p, vmm))
unmap_region (some region) p vmm addr size =
    let (unmapped, t) = vmm_unmap_range vmm p.page_table addr size in
    let (removed, regions) = process_remove_user_region p.regions addr size in
    if region.flags % 2 == 0 || region.paddr == 0
    then (false, (p, vmm))
    else if not unmapped
    then (false, (p, t))
    else if not removed
    then (false, (p, t))
    else (true, (record p { regions = regions }, free_pages region.paddr size t))

unfoldable pub user_vm_unmap_anonymous : Process → Vmm → ℕ → ℕ → Bool × (Process × Vmm)
user_vm_unmap_anonymous p vmm addr size =
    let aligned_size = page_round_up size in
    if p.page_table == 0 || aligned_size == 0
    then (false, (p, vmm))
    else unmap_region (process_find_user_region p.regions addr aligned_size) p vmm addr aligned_size

abbrev pub physical_with : Option ℕ → Process → Vmm → ℕ → ℕ → ℕ → Bool × (Process × Vmm)
physical_with none p vmm vaddr paddr size = (false, (p, vmm))
physical_with (some vmm_flags) p vmm vaddr paddr size =
    let (mapped, t) = vmm_map_range vmm p.page_table vaddr paddr size vmm_flags in
    let undone = (vmm_unmap_range t p.page_table vaddr size).1 in
    let (set, regions) = process_set_user_region_mapping p.regions vaddr size paddr 0 in
    if not (is_some (process_find_user_region p.regions vaddr size))
    then (false, (p, vmm))
    else if not mapped
    then (false, (p, undone))
    else if not set
    then (false, (p, undone))
    else (true, (record p { regions = regions }, t))

unfoldable pub user_vm_map_physical : Process → Vmm → ℕ → ℕ → ℕ → ℕ → Bool × (Process × Vmm)
user_vm_map_physical p vmm vaddr paddr size flags =
    if p.page_table == 0 || (vaddr == 0 || (paddr == 0 || size == 0))
    then (false, (p, vmm))
    else physical_with (flags_to_vmm flags) p vmm vaddr paddr size
