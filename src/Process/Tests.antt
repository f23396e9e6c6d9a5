-- ===== src/Process/Tests.antt =====
-- The table of kernel/process.c with two processes, and its theorems there.
use armonios.Prelude.{
  ℕ, zero, suc, ◌+◌, ◌≤◌, ◌<◌, ◌≡◌, ◌⊎◌, refl, sym, ap, ◌∙◌, true, false, List, [], ◌∷◌, none, some,
  arith, ◌==◌, get_or, replicate,
}
use armonios.Process.{
  put, Process, running, Frame, Kernel, Services, no_process, process_init, is_unused,
  is_process_ready, is_process_running, max_processes, slot, process_alloc, process_kill,
}
use armonios.Process.Find.{has_pid, count_used, IsTable}
use armonios.Process.Alloc.{Created, process_alloc_lem}
use armonios.Process.Exit.{NotKilled, Reaped, process_kill_wait}
use armonios.Process.Dispatch.{preempt, IsRunning, Preempted, preempt_lem}
use armonios.Process.Fairness.{preemptions, process_dispatch_fair}

-- process 7 runs, process 9 is ready
abbrev two : Kernel (List ℕ)
two = record {
  processes =
      record (process_init 7 none) { state = running }
      ∷ process_init 9 (some (65 ∷ 66 ∷ []))
      ∷ replicate 14 no_process;
  current = some 0;
  process_count = 2;
  vmm = record {
    pmm = record { bitmap = []; mem_base = 0; total_pages = 0; free_pages = 0 };
    memory = λ a. 0;
  };
  ttbr0 = 0;
  services = [];
}

-- the pids that were cleaned up after
abbrev log : Services (List ℕ)
log = record { close_all = λ pid w. pid ∷ w; destroy_windows = λ pid w. pid ∷ w }

get_or-replicate_self : (n i : ℕ) → get_or (replicate n no_process) i no_process ≡ no_process
get_or-replicate_self zero i = refl
get_or-replicate_self (suc n) zero = refl
get_or-replicate_self (suc n) (suc i) = get_or-replicate_self n i

used_slots : (i : ℕ) → is_unused (slot two i).state ≡ false → i < 2
used_slots zero h = omega arith
used_slots (suc zero) h = omega arith
used_slots (suc (suc i)) h =
    absurd (ground (arith, h, ap (λ (p : Process). is_unused p.state) (get_or-replicate_self 14 i)))

pid_of : (i : ℕ) → i < 2 → (slot two i).pid ≡ 7 + (i + i)
pid_of zero h = refl
pid_of (suc zero) h = refl
pid_of (suc (suc i)) h = absurd (omega arith)

two-IsTable : IsTable two
unfolding count_used
two-IsTable = record {
  slots = refl;
  count = refl;
  not_zero = λ i h used. λ e. absurd (omega (arith, e, pid_of i (used_slots i used)));
  distinct =
      λ i j hi hj ui uj e. omega (arith, e, pid_of i (used_slots i ui), pid_of j (used_slots j uj));
}

abbrev new_pid : ℕ
new_pid = 11

process_alloc_lem_example :
    ((process_alloc two new_pid none ≡ (none, two))
      × ((new_pid ≡ 0)
          ⊎ ((j : ℕ) × (j < max_processes) × (has_pid two.processes new_pid j ≡ true))
          ⊎ ((j : ℕ) → j < max_processes → is_unused (slot two j).state ≡ false)))
    ⊎ ((i : ℕ) × (k' : Kernel (List ℕ)) × (i < max_processes)
        × (process_alloc two new_pid none ≡ (some i, k'))
        × Created two new_pid none 9 i k')
process_alloc_lem_example = process_alloc_lem two new_pid none 9 two-IsTable

process_kill_wait_example :
    (NotKilled two 9 × (process_kill log two 9 3 ≡ (false, two)))
    ⊎ ((k1 : Kernel (List ℕ)) × (process_kill log two 9 3 ≡ (true, k1)) × Reaped log two 9 3 7 k1)
process_kill_wait_example = process_kill_wait log two 9 3 7 two-IsTable

alone_in_two : (i : ℕ) → i < max_processes → is_process_running (slot two i).state ≡ (i == 0)
alone_in_two zero h = refl
alone_in_two (suc zero) h = refl
alone_in_two (suc (suc i)) h =
    let e : (suc (suc i) == 0) ≡ false = ground arith in
    ap (λ (p : Process). is_process_running p.state) (get_or-replicate_self 14 i) ∙ sym e

two-IsRunning : IsRunning two 0
two-IsRunning = record { slots = refl; current = refl; index = omega arith; alone = alone_in_two }

abbrev frame : Frame
frame = record { x = replicate 31 5; elr = 0x400000; spsr = 0; sp_el0 = 0x500000 }

preempt_lem_example :
    (((i : ℕ) → i < max_processes → is_process_ready (slot two i).state ≡ false)
      × (preempt two 0 frame ≡ (
        none,
        put two 0 (record (slot two 0) {
          regs = frame.x;
          pc = frame.elr;
          pstate = frame.spsr;
          sp = frame.sp_el0;
        }),
      )))
    ⊎ ((j : ℕ) × ((j < max_processes)
          × (is_process_ready (slot two j).state ≡ true)
          × Preempted two 0 j frame (preempt two 0 frame)))
preempt_lem_example = preempt_lem two 0 frame two-IsRunning

process_dispatch_fair_example :
    (n : ℕ) × ((n ≤ max_processes) × ((preemptions (λ m. frame) n two).current ≡ some 1))
process_dispatch_fair_example =
    process_dispatch_fair two 0 1 (λ m. frame) two-IsRunning (omega arith) refl
