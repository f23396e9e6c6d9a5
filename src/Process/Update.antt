-- ===== src/Process/Update.antt =====
-- The table of processes of kernel/process.c with one slot changed.
use armonios.Prelude.{
  ℕ, ◌+◌, ◌<◌, ◌≡◌, ◌≢◌, refl, sym, ap, ◌∙◌, inl, inr, false, not, ◌&&◌, List, arith, if◌then◌else◌,
  ◌==◌, ==→eq, ==→ne, Bool-cases, length, get_or, set, length-set, get_or-set,
}
use armonios.Process.{Process, Kernel, no_process, is_unused, max_processes, process_find, slot}
use armonios.Process.Find.{
  has_pid, count_used, one_if_used, count_used-set, IsTable, process_find_same,
}

-- One slot changes: `k'` has process `p` at slot `i`.
module _ {ℓ} {W : Type ℓ} (k k' : Kernel W) (i : ℕ) (p : Process) (v : IsTable k)
    (hi : i < max_processes) (at : k'.processes ≡ set k.processes i p) where
  pub updated_slot : (j : ℕ) → slot k' j ≡ (if j == i then p else slot k j)
  updated_slot j =
      ap (λ (ps : List Process). get_or ps j no_process) at
      ∙ get_or-set k.processes i j p no_process (omega (arith, v.slots))

  pub updated-IsTable :
      k'.process_count + one_if_used (slot k i) ≡ k.process_count + one_if_used p
      → (is_unused p.state ≡ false → p.pid ≢ 0)
      → ((j : ℕ)
          → j < max_processes
          → j ≢ i
          → is_unused p.state ≡ false
          → is_unused (slot k j).state ≡ false
          → (slot k j).pid ≢ p.pid)
      → IsTable k'
  updated-IsTable counts not_zero fresh = record {
    slots = ap length at ∙ length-set k.processes i p ∙ v.slots;
    count =
        let c = count_used-set k.processes i p (omega (arith, v.slots)) in
        let e : count_used k'.processes ≡ count_used (set k.processes i p) = ap count_used at in
        omega (arith, c, e, counts, v.count);
    not_zero = λ j h used. elim (Bool-cases (j == i)) [
      | inl e ↦
          let s : slot k' j ≡ p = updated_slot j ∙ rw e refl in
          rw s (not_zero (ap (λ (q : Process). is_unused q.state) (sym s) ∙ used))
      | inr e ↦
          let s : slot k' j ≡ slot k j = updated_slot j ∙ rw e refl in
          rw s (v.not_zero j h (ap (λ (q : Process). is_unused q.state) (sym s) ∙ used))
    ];
    distinct = λ a b ha hb ua ub same. elim (Bool-cases (a == i)) [
      | inl ea ↦ elim (Bool-cases (b == i)) [
        | inl eb ↦ ==→eq a i ea ∙ sym (==→eq b i eb)
        | inr eb ↦
            let sa : slot k' a ≡ p = updated_slot a ∙ rw ea refl in
            let sb : slot k' b ≡ slot k b = updated_slot b ∙ rw eb refl in
            absurd (
              fresh b hb (==→ne b i eb) (ap (λ (q : Process). is_unused q.state) (sym sa) ∙ ua)
                (ap (λ (q : Process). is_unused q.state) (sym sb) ∙ ub)
                (ap (λ (q : Process). q.pid) (sym sb) ∙ sym same ∙ ap (λ (q : Process). q.pid) sa))
      ]
      | inr ea ↦
          let sa : slot k' a ≡ slot k a = updated_slot a ∙ rw ea refl in
          elim (Bool-cases (b == i)) [
            | inl eb ↦
                let sb : slot k' b ≡ p = updated_slot b ∙ rw eb refl in
                absurd (
                  fresh a ha (==→ne a i ea) (ap (λ (q : Process). is_unused q.state) (sym sb) ∙ ub)
                    (ap (λ (q : Process). is_unused q.state) (sym sa) ∙ ua)
                    (ap (λ (q : Process). q.pid) (sym sa) ∙ same ∙ ap (λ (q : Process). q.pid) sb))
            | inr eb ↦
                let sb : slot k' b ≡ slot k b = updated_slot b ∙ rw eb refl in
                v.distinct a b ha hb (ap (λ (q : Process). is_unused q.state) (sym sa) ∙ ua)
                  (ap (λ (q : Process). is_unused q.state) (sym sb) ∙ ub)
                  (ap (λ (q : Process). q.pid) (sym sa) ∙ same ∙ ap (λ (q : Process). q.pid) sb)
          ]
    ];
  }

  -- Pids that neither the old nor the new process of the slot has find what they found.
  pub updated_find :
      (pid : ℕ)
      → IsTable k'
      → (not (is_unused p.state) && p.pid == pid) ≡ false
      → has_pid k.processes pid i ≡ false
      → process_find k' pid ≡ process_find k pid
  updated_find pid v' new_not old_not = process_find_same k k' pid v v' (λ j h.
      elim (Bool-cases (j == i)) [
        | inl e ↦
            let s : slot k' j ≡ p = updated_slot j ∙ rw e refl in
            ap (λ (q : Process). not (is_unused q.state) && q.pid == pid) s
            ∙ new_not
            ∙ sym old_not
            ∙ ap (has_pid k.processes pid) (sym (==→eq j i e))
        | inr e ↦
            let s : slot k' j ≡ slot k j = updated_slot j ∙ rw e refl in
            ap (λ (q : Process). not (is_unused q.state) && q.pid == pid) s
      ])
