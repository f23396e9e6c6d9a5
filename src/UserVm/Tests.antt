-- ===== src/UserVm/Tests.antt =====
-- Flags that a process may ask for in kernel/user_vm.c.
use armonios.Prelude.{ℕ, ◌≤◌, ◌<◌, ◌≡◌, ◌⊎◌, refl, true, ◌&&◌, none, some, arith}
use armonios.UserVm.{asks, flags_to_vmm}
use armonios.UserVm.Protection.{Protected, writes_asked, flags_to_vmm_lem}
use armonios.Vmm.{page_descriptor}

-- writing and executing
refuses_both : flags_to_vmm 6 ≡ none
unfolding flags_to_vmm
refuses_both = refl

flags_to_vmm_lem_example :
    ((flags_to_vmm 5 ≡ none) × ((7 < 5) ⊎ ((writes_asked 5 && asks 5 4) ≡ true)))
    ⊎ ((f : ℕ) × (flags_to_vmm 5 ≡ some f)
        × (5 ≤ 7)
        × Protected (writes_asked 5) (asks 5 4) (page_descriptor 0x80000 f))
flags_to_vmm_lem_example = flags_to_vmm_lem 5 0x80000 (omega arith) (omega arith)
