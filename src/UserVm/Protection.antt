-- ===== src/UserVm/Protection.antt =====
-- The protection of the pages that kernel/user_vm.c maps, down to the bits of kernel/mm/vmm.c.
use armonios.Prelude.{
  ℕ, zero, suc, ◌/◌, ◌%◌, ◌^◌, ◌≤◌, ◌<◌, ◌≡◌, ◌⊎◌, refl, inl, inr, Bool, true, false, not, ◌&&◌,
  ◌||◌, none, some, arith, ◌==◌,
}
use armonios.Pmm.{page_size}
use armonios.UserVm.{asks, flags_to_vmm}
use armonios.Vmm.{page_descriptor, address_bits}

-- Bits of a descriptor: read-only 7, the user's 6, not executed by the kernel 53, nor by the user 54.
abbrev pub read_only : ℕ → Bool
read_only d = d / 2 ^ 7 % 2 == 1

abbrev pub for_user : ℕ → Bool
for_user d = d / 2 ^ 6 % 2 == 1

abbrev pub no_kernel_exec : ℕ → Bool
no_kernel_exec d = d / 2 ^ 53 % 2 == 1

abbrev pub no_user_exec : ℕ → Bool
no_user_exec d = d / 2 ^ 54 % 2 == 1

-- A page for the user that the kernel does not execute, with just the accesses asked for.
pub record Protected (write exec : Bool) (d : ℕ) : Type 0 where
  pub user : for_user d ≡ true
  pub kernel : no_kernel_exec d ≡ true
  pub writes : read_only d ≡ not write
  pub executes : no_user_exec d ≡ not exec
  pub exclusive : (write && exec) ≡ false

abbrev pub writes_asked : ℕ → Bool
writes_asked asked = asked == 0 || asks asked 2

read_write :
    (paddr : ℕ)
    → paddr < address_bits
    → paddr % page_size ≡ 0
    → Protected true false (page_descriptor paddr 19)
unfolding page_descriptor
read_write paddr hp page = record {
  user = ground arith;
  kernel = ground arith;
  writes = ground arith;
  executes = ground arith;
  exclusive = refl;
}

reads_only :
    (paddr : ℕ)
    → paddr < address_bits
    → paddr % page_size ≡ 0
    → Protected false false (page_descriptor paddr 17)
unfolding page_descriptor
reads_only paddr hp page = record {
  user = ground arith;
  kernel = ground arith;
  writes = ground arith;
  executes = ground arith;
  exclusive = refl;
}

runs_only :
    (paddr : ℕ)
    → paddr < address_bits
    → paddr % page_size ≡ 0
    → Protected false true (page_descriptor paddr 20)
unfolding page_descriptor
runs_only paddr hp page = record {
  user = ground arith;
  kernel = ground arith;
  writes = ground arith;
  executes = ground arith;
  exclusive = refl;
}

read_run :
    (paddr : ℕ)
    → paddr < address_bits
    → paddr % page_size ≡ 0
    → Protected false true (page_descriptor paddr 21)
unfolding page_descriptor
read_run paddr hp page = record {
  user = ground arith;
  kernel = ground arith;
  writes = ground arith;
  executes = ground arith;
  exclusive = refl;
}

-- flags_to_vmm refuses exactly the flags above 7 and those that write and execute. For the others, 0
-- counting as read and write, the descriptor of any page lets the user alone use it: it is writable
-- exactly if that was asked for, executable by the user exactly if that was, never both, and never
-- executable by the kernel.
pub flags_to_vmm_lem :
    (asked paddr : ℕ)
    → paddr < address_bits
    → paddr % page_size ≡ 0
    → ((flags_to_vmm asked ≡ none) × ((7 < asked) ⊎ ((writes_asked asked && asks asked 4) ≡ true)))
      ⊎ ((f : ℕ) × (flags_to_vmm asked ≡ some f)
          × (asked ≤ 7)
          × Protected (writes_asked asked) (asks asked 4) (page_descriptor paddr f))
unfolding flags_to_vmm
flags_to_vmm_lem zero paddr hp page = inr (19, refl, omega arith, read_write paddr hp page)
flags_to_vmm_lem (suc zero) paddr hp page = inr (17, refl, omega arith, reads_only paddr hp page)
flags_to_vmm_lem (suc (suc zero)) paddr hp page =
    inr (19, refl, omega arith, read_write paddr hp page)
flags_to_vmm_lem (suc (suc (suc zero))) paddr hp page =
    inr (19, refl, omega arith, read_write paddr hp page)
flags_to_vmm_lem (suc (suc (suc (suc zero)))) paddr hp page =
    inr (20, refl, omega arith, runs_only paddr hp page)
flags_to_vmm_lem (suc (suc (suc (suc (suc zero))))) paddr hp page =
    inr (21, refl, omega arith, read_run paddr hp page)
flags_to_vmm_lem (suc (suc (suc (suc (suc (suc zero)))))) paddr hp page = inl (refl, inr refl)
flags_to_vmm_lem (suc (suc (suc (suc (suc (suc (suc zero))))))) paddr hp page = inl (refl, inr refl)
flags_to_vmm_lem (suc (suc (suc (suc (suc (suc (suc (suc k)))))))) paddr hp page =
    let high : (suc (suc (suc (suc (suc (suc (suc (suc k))))))) / 8 == 0) ≡ false = ground arith in
    inl (rw high refl, inl (omega arith))
