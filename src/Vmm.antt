-- ===== src/Vmm.antt =====
-- kernel/mm/vmm.c, the page tables of the address spaces, over the page allocator of kernel/mm/pmm.c.
-- `memory` is the 64-bit word at each address; a table is the address of its page, 0 for none. In a
-- descriptor the parts stand at different bits, so that `|` adds them.
pub mod Pages
pub mod Space
pub mod Walk
pub mod Child
pub mod Next
pub mod Leaf
pub mod Descend
pub mod Remap
pub mod Map
pub mod Unmap
pub mod Rollback
pub mod Range
pub mod MapRange
mod Tests
use armonios.Prelude.{
  ℕ, zero, suc, ◌+◌, ◌-◌, ◌*◌, ◌/◌, ◌%◌, ◌^◌, Bool, true, false, not, ◌&&◌, ◌||◌, Option, none,
  some, if◌then◌else◌, ltb, ◌==◌, u64_max, add64, sub64,
}
use armonios.Pmm.{Pmm, page_size, pmm_alloc_page, pmm_free_page}

abbrev pub table_entries : ℕ
table_entries = 512

pub record Vmm : Type 0 where
  pub pmm : Pmm
  pub memory : ℕ → ℕ

-- entry & DESC_VALID
abbrev pub is_valid : ℕ → Bool
is_valid entry = entry % 2 == 1

-- entry & DESC_TABLE, which is DESC_PAGE too
abbrev pub is_table : ℕ → Bool
is_table entry = entry / 2 % 2 == 1

abbrev pub address_bits : ℕ
address_bits = 2 ^ 48

-- entry & DESC_ADDR_MASK
abbrev pub address_of : ℕ → ℕ
address_of entry = entry % address_bits / page_size * page_size

abbrev pub page_align_down : ℕ → ℕ
page_align_down value = value / page_size * page_size

abbrev pub page_align_up : ℕ → ℕ
page_align_up value = let v = add64 value (page_size - 1) in v / page_size * page_size

-- The bytes of the pages from `offset` on, or none for no bytes and for an end that wraps.
unfoldable pub page_span : ℕ → ℕ → Option ℕ
page_span offset size =
    if size == 0 || not (ltb offset page_size)
    then none
    else if ltb (u64_max - offset) size
    then none
    else let end = offset + size in
      if not (end % page_size == 0) && ltb (u64_max - (page_size - 1)) end
      then none
      else some (page_align_up end)

-- (vaddr >> (39 - level * 9)) & TABLE_INDEX_MASK
unfoldable pub table_index : ℕ → ℕ → ℕ
table_index vaddr level = vaddr / 2 ^ (39 - level * 9) % table_entries

-- table[i]
unfoldable pub entry_at : Vmm → ℕ → ℕ → ℕ
entry_at s table i = s.memory (table + 8 * i)

-- table[i] = v
unfoldable pub set_entry : Vmm → ℕ → ℕ → ℕ → Vmm
set_entry s table i v = record s { memory = λ a. if a == table + 8 * i then v else s.memory a }

-- for (…; i < TABLE_ENTRIES; i++) table[i] = 0, with `n` rounds left
unfoldable pub zero_loop : ℕ → ℕ → Vmm → ℕ → Vmm
unfolding set_entry
zero_loop zero i s table = s
zero_loop (suc n) i s table = zero_loop n (i + 1) (set_entry s table i 0) table

unfoldable pub zero_table : Vmm → ℕ → Vmm
zero_table s table = zero_loop table_entries 0 s table

unfoldable pub vmm_new_table : Vmm → ℕ × Vmm
vmm_new_table s =
    let (paddr, pmm) = pmm_alloc_page s.pmm in
    let t = record s { pmm = pmm } in if paddr == 0 then (0, t) else (paddr, zero_table t paddr)

unfoldable pub next_table : Vmm → ℕ → ℕ → ℕ × Vmm
next_table s table index =
    let entry = entry_at s table index in
    let (child, t) = vmm_new_table s in
    if is_valid entry
    then (if not (is_table entry) then (0, s) else (address_of entry, s))
    else if child == 0
    then (0, t)
    else (child, set_entry t table index (address_of child + 1 + 2))

abbrev pub flag_of : ℕ → ℕ → Bool
flag_of flags f = flags / f % 2 == 1

unfoldable pub page_descriptor : ℕ → ℕ → ℕ
page_descriptor paddr flags =
    let valid_page_af = 1 + 2 + 2 ^ 10 in
    let uxn = 2 ^ 54 in
    let pxn = 2 ^ 53 in
    let is_device = flag_of flags 8 in
    let kind = if is_device then 2 ^ 2 else 3 * 2 ^ 8 in
    let read_only = if flag_of flags 2 then 0 else 2 ^ 7 in
    let user = if flag_of flags 16 then 2 ^ 6 else 0 in
    let no_user_exec =
      if is_device
      then uxn
      else if not (flag_of flags 4)
      then uxn
      else if flag_of flags 16
      then 0
      else uxn in
    let no_kernel_exec =
      if is_device
      then pxn
      else if not (flag_of flags 4)
      then pxn
      else if flag_of flags 16
      then pxn
      else 0 in
    address_of paddr + (valid_page_af + kind + read_only + user + no_user_exec + no_kernel_exec)

-- Three rounds find `level1`, `level2` and `level3`; a round with no table ends the search.
unfoldable pub descend : ℕ → ℕ → Vmm → ℕ → ℕ → ℕ × Vmm
descend zero level s table vaddr = (table, s)
descend (suc n) level s table vaddr =
    let (child, t) = next_table s table (table_index vaddr level) in
    let rest = descend n (level + 1) t child vaddr in if child == 0 then (0, t) else rest

-- the end of vmm_map_page, once `level3` is found
abbrev pub put_leaf : Vmm → ℕ → ℕ → ℕ → ℕ → Bool × Vmm
put_leaf s level3 vaddr paddr flags =
    if is_valid (entry_at s level3 (table_index vaddr 3))
    then (false, s)
    else (true, set_entry s level3 (table_index vaddr 3) (page_descriptor paddr flags))

unfoldable pub vmm_map_page : Vmm → ℕ → ℕ → ℕ → ℕ → Bool × Vmm
vmm_map_page s pgd vaddr paddr flags =
    if pgd == 0 || (not (vaddr % page_size == 0) || not (paddr % page_size == 0))
    then (false, s)
    else let (level3, t) = descend 3 0 s pgd vaddr in
      if level3 == 0 then (false, t) else put_leaf t level3 vaddr paddr flags

-- the loop of leaf_table from `level` on, with `n` rounds left
unfoldable pub leaf_loop : ℕ → ℕ → Vmm → ℕ → ℕ → ℕ
leaf_loop zero level s table vaddr = table
leaf_loop (suc n) level s table vaddr =
    let entry = entry_at s table (table_index vaddr level) in
    let rest = leaf_loop n (level + 1) s (address_of entry) vaddr in
    if not (is_valid entry) || not (is_table entry) then 0 else rest

unfoldable pub leaf_table : Vmm → ℕ → ℕ → ℕ
leaf_table s pgd vaddr = if pgd == 0 then 0 else leaf_loop 3 0 s pgd vaddr

-- The instructions that drop the translation the processor holds are not in the result.
unfoldable pub vmm_unmap_page : Vmm → ℕ → ℕ → Bool × Vmm
vmm_unmap_page s pgd vaddr =
    if pgd == 0 || not (vaddr % page_size == 0)
    then (false, s)
    else let level3 = leaf_table s pgd vaddr in
      if level3 == 0
      then (false, s)
      else if not (is_valid (entry_at s level3 (table_index vaddr 3)))
      then (false, s)
      else (true, set_entry s level3 (table_index vaddr 3) 0)

unfoldable pub vmm_leaf_entry : Vmm → ℕ → ℕ → ℕ
vmm_leaf_entry s pgd vaddr =
    let table = leaf_table s pgd vaddr in
    if table == 0 then 0 else entry_at s table (table_index vaddr 3)

unfoldable pub vmm_virt_to_phys : Vmm → ℕ → ℕ → ℕ
vmm_virt_to_phys s pgd vaddr =
    let entry = vmm_leaf_entry s pgd vaddr in
    if not (is_valid entry) || not (is_table entry) then 0 else address_of entry + vaddr % page_size

-- for (rollback = …; rollback < mapped; rollback += PAGE_SIZE), with `n` rounds left
unfoldable pub rollback_loop : ℕ → ℕ → Vmm → ℕ → ℕ → Vmm
rollback_loop zero rollback s pgd vaddr = s
rollback_loop (suc n) rollback s pgd vaddr =
    rollback_loop n (rollback + page_size) (vmm_unmap_page s pgd (vaddr + rollback)).1 pgd vaddr

-- for (mapped = …; mapped < end; mapped += PAGE_SIZE), with `n` rounds left
unfoldable pub map_loop : ℕ → ℕ → Vmm → ℕ → ℕ → ℕ → ℕ → Bool × Vmm
map_loop zero mapped s pgd vaddr paddr flags = (true, s)
map_loop (suc n) mapped s pgd vaddr paddr flags =
    let (ok, t) = vmm_map_page s pgd (vaddr + mapped) (paddr + mapped) flags in
    let rest = map_loop n (mapped + page_size) t pgd vaddr paddr flags in
    if ok then rest else (false, rollback_loop (mapped / page_size) 0 t pgd vaddr)

abbrev pub map_span : Vmm → Option ℕ → ℕ → ℕ → ℕ → ℕ → Bool × Vmm
map_span s none pgd vaddr paddr flags = (false, s)
map_span s (some end) pgd vaddr paddr flags =
    if ltb (u64_max - end) vaddr || ltb (u64_max - end) paddr
    then (false, s)
    else map_loop (end / page_size) 0 s pgd vaddr paddr flags

unfoldable pub vmm_map_range : Vmm → ℕ → ℕ → ℕ → ℕ → ℕ → Bool × Vmm
vmm_map_range s pgd vaddr paddr size flags =
    if pgd == 0 || not (vaddr % page_size == paddr % page_size)
    then (false, s)
    else if size == 0
    then (true, s)
    else map_span s (page_span (vaddr % page_size) size) pgd (page_align_down vaddr)
        (page_align_down paddr) flags

unfoldable pub unmap_loop : ℕ → ℕ → Vmm → ℕ → ℕ → Bool × Vmm
unmap_loop zero unmapped s pgd vaddr = (true, s)
unmap_loop (suc n) unmapped s pgd vaddr =
    let (ok, t) = vmm_unmap_page s pgd (vaddr + unmapped) in
    let rest = unmap_loop n (unmapped + page_size) t pgd vaddr in if ok then rest else (false, t)

abbrev pub unmap_span : Vmm → Option ℕ → ℕ → ℕ → Bool × Vmm
unmap_span s none pgd vaddr = (false, s)
unmap_span s (some end) pgd vaddr =
    if ltb (u64_max - end) vaddr then (false, s) else unmap_loop (end / page_size) 0 s pgd vaddr

unfoldable pub vmm_unmap_range : Vmm → ℕ → ℕ → ℕ → Bool × Vmm
vmm_unmap_range s pgd vaddr size =
    if pgd == 0
    then (false, s)
    else if size == 0
    then (true, s)
    else unmap_span s (page_span (vaddr % page_size) size) pgd (page_align_down vaddr)

-- `n` entries from `i` on, each given to `free` if it points to a table
abbrev pub free_entries : (ℕ → Pmm → Pmm) → ℕ → ℕ → Vmm → ℕ → Pmm → Pmm
free_entries free zero i s table p = p
free_entries free (suc n) i s table p =
    let entry = entry_at s table i in
    let freed = if is_valid entry && is_table entry then free (address_of entry) p else p in
    free_entries free n (i + 1) s table freed

-- free_table_level, at `n` levels above the last; the words of the pages stay.
unfoldable pub free_table_level : ℕ → Vmm → ℕ → Pmm → Pmm
free_table_level zero s table p = if table == 0 then p else pmm_free_page p table
free_table_level (suc n) s table p =
    let freed = free_entries (free_table_level n s) table_entries 0 s table p in
    if table == 0 then p else pmm_free_page freed table

unfoldable pub vmm_free_table : Vmm → ℕ → Vmm
vmm_free_table s pgd = record s { pmm = free_table_level 3 s pgd s.pmm }

-- the addresses of the linker's symbols
pub record KernelImage : Type 0 where
  pub kernel_start : ℕ
  pub text_end : ℕ
  pub rodata_end : ℕ
  pub data_end : ℕ

-- if (call != 0) return -1;
abbrev pub and_then : Bool × Vmm → (Vmm → Bool × Vmm) → Bool × Vmm
and_then (false, s) next = (false, s)
and_then (true, s) next = next s

abbrev pub map_if : Bool → ℕ → ℕ → ℕ → ℕ → Vmm → Bool × Vmm
map_if wanted pgd from to flags s =
    if wanted then vmm_map_range s pgd from from (sub64 to from) flags else (true, s)

abbrev pub map_devices : Option (ℕ → Vmm → Bool × Vmm) → ℕ → Vmm → Bool × Vmm
map_devices none pgd s = (true, s)
map_devices (some map_mmio) pgd s = map_mmio pgd s

-- The memory before the kernel, its code, its constants, its data with the memory behind it, and devices.
unfoldable pub vmm_map_kernel_identity :
    KernelImage → Vmm → ℕ → ℕ → ℕ → Option (ℕ → Vmm → Bool × Vmm) → Bool × Vmm
vmm_map_kernel_identity image s pgd memory_base memory_size map_mmio =
    let kstart = image.kernel_start in
    let text_end = page_align_up image.text_end in
    let rodata_end = page_align_up image.rodata_end in
    let data_end = page_align_up image.data_end in
    let ram_end = add64 memory_base memory_size in
    if pgd == 0 || memory_size == 0
    then (false, s)
    else and_then (map_if (ltb memory_base kstart) pgd memory_base kstart (1 + 2) s) (λ t.
      and_then (map_if true pgd kstart text_end (1 + 4) t) (λ u.
        and_then (map_if (ltb text_end rodata_end) pgd text_end rodata_end 1 u) (λ w.
          and_then (map_if (ltb rodata_end data_end) pgd rodata_end data_end (1 + 2) w) (λ x.
            and_then (map_if (ltb data_end ram_end) pgd data_end ram_end (1 + 2) x)
              (λ y. map_devices map_mmio pgd y)))))
