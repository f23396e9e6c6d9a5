-- ===== src/Process/Fairness.antt =====
-- Fairness of the preemption of processes in kernel/process.c.
use armonios.Prelude.{
  ℕ, zero, suc, ◌+◌, ◌≤◌, ◌<◌, ◌≡◌, ◌≢◌, refl, sym, ap, ◌∙◌, inl, inr, true, false, Option, none,
  some, arith, ◌==◌, Bool-cases,
}
use armonios.RoundRobin.{distance}
use armonios.Process.{Process, Frame, Kernel, is_process_ready, max_processes, slot}
use armonios.Process.Dispatch.{preempt, IsRunning, Preempted, preempt_nearer}

abbrev preempt_current {ℓ} : {W : Type ℓ} → Option ℕ → Kernel W → Frame → Kernel W
preempt_current none k f = k
preempt_current (some c) k f = (preempt k c f).1

-- `n` preemptions one after the other, each with the registers the running process then has
unfoldable pub preemptions {ℓ} : {W : Type ℓ} → (ℕ → Frame) → ℕ → Kernel W → Kernel W
preemptions frames zero k = k
preemptions frames (suc n) k =
    preemptions (λ (m : ℕ). frames (m + 1)) n (preempt_current k.current k (frames 0))

still_ready {ℓ} :
    {W : Type ℓ} (k : Kernel W) (c j i : ℕ) (f : Frame) (r : Option Frame × Kernel W)
    → Preempted k c j f r
    → i ≢ j
    → is_process_ready (slot k i).state ≡ true
    → is_process_ready (slot r.1 i).state ≡ true
still_ready k c j i f r p ne waits =
    ap (λ (q : Process). is_process_ready q.state) (p.slots i) ∙ elim (Bool-cases (i == c)) [
      | inl e ↦ rw e refl
      | inr e ↦ let apart : (i == j) ≡ false = ground arith in rw (e, apart) waits
    ]

served_within {ℓ} :
    {W : Type ℓ} (d : ℕ) (k : Kernel W) (c i : ℕ) (frames : ℕ → Frame)
    → IsRunning k c
    → i < max_processes
    → is_process_ready (slot k i).state ≡ true
    → distance max_processes c i < d
    → (n : ℕ) × ((n ≤ d) × ((preemptions frames n k).current ≡ some i))
unfolding preemptions
served_within zero k c i frames v hi waits near = absurd (omega arith)
served_within {W = W} (suc d) k c i frames v hi waits near =
    let r = preempt_nearer k c (frames 0) v i hi waits in
    let step : preempt_current k.current k (frames 0) ≡ (preempt k c (frames 0)).1 =
      ap (λ (o : Option ℕ). preempt_current o k (frames 0)) v.current in
    elim r.1.3 [
      | inl here ↦ (
        1,
        (
          omega arith,
          ap (λ (t : Kernel W). t.current) step
              ∙ r.1.2.running.current
              ∙ ap (λ (q : ℕ). some q) here,
        ),
      )
      | inr closer ↦
          let ne : i ≢ r.0 = λ e. closer.0 (sym e) in
          let rest =
            served_within d (preempt k c (frames 0)).1 r.0 i (λ (m : ℕ). frames (m + 1))
              r.1.2.running hi
              (still_ready k c r.0 i (frames 0) (preempt k c (frames 0)) r.1.2 ne waits)
              (omega (arith, closer.1)) in
          (
            suc rest.0,
            (
              omega (arith, rest.1.0),
              ap (λ (t : Kernel W). (preemptions (λ (m : ℕ). frames (m + 1)) rest.0 t).current) step
                  ∙ rest.1.1,
            ),
          )
    ]

-- With the current process the only one that runs, a ready process `i` runs after at most sixteen
-- preemptions, whatever the registers at each of them and whichever other processes are ready.
pub process_dispatch_fair {ℓ} :
    {W : Type ℓ} (k : Kernel W) (c i : ℕ) (frames : ℕ → Frame)
    → IsRunning k c
    → i < max_processes
    → is_process_ready (slot k i).state ≡ true
    → (n : ℕ) × ((n ≤ max_processes) × ((preemptions frames n k).current ≡ some i))
process_dispatch_fair k c i frames v hi waits =
    served_within max_processes k c i frames v hi waits (let hc = v.index in ground arith)
