-- ===== src/Process/Dispatch.antt =====
-- Preemption in kernel/process.c: process_save_context of the current process, then process_dispatch_next.
use mathlib.Core.Path.{subst}
use armonios.Prelude.{
  ℕ, ◌+◌, ◌-◌, ◌<◌, ◌%◌, ◌≡◌, ◌≢◌, ◌⊎◌, refl, sym, ap, ◌∙◌, inl, inr, true, false, Option, none,
  some, arith, if◌then◌else◌, ◌==◌, ==→eq, Bool-cases, length, length-set, get_or-set,
}
use armonios.RoundRobin.{pick, pick_lem, pick_nearer, distance, reached, NoneReady}
use armonios.Process.{
  Process, ProcessState, unused, ready, running, blocked, zombie, Frame, Kernel, no_process,
  is_process_ready, is_process_running, max_processes, slot, put, process_load_context,
  process_save_context, process_next_runnable, suspend, resume, dispatch_to, process_dispatch_next,
}

-- The current process `c` is preempted with these registers.
unfoldable pub preempt {ℓ} : {W : Type ℓ} → Kernel W → ℕ → Frame → Option Frame × Kernel W
preempt k c f =
    process_dispatch_next (put k c (process_save_context (slot k c) f.x f.elr f.spsr f.sp_el0))
      (some c) 1

-- The current process runs, and no other does.
pub record IsRunning {ℓ} {W : Type ℓ} (k : Kernel W) (c : ℕ) : Type 0 where
  pub slots : length k.processes ≡ max_processes
  pub current : k.current ≡ some c
  pub index : c < max_processes
  pub alone : (i : ℕ) → i < max_processes → is_process_running (slot k i).state ≡ (i == c)

-- `c` waits with the registers it had, `j` runs, and the other processes are as they were.
abbrev pub handed_over {ℓ} : {W : Type ℓ} → Kernel W → ℕ → ℕ → Frame → ℕ → Process
handed_over k c j f i =
    if i == c
    then record (slot k c) { regs = f.x; pc = f.elr; pstate = f.spsr; sp = f.sp_el0; state = ready }
    else if i == j
    then record (slot k j) { state = running }
    else slot k i

-- The registers that process `p` keeps while it waits.
abbrev pub registers_of : Process → Frame
registers_of p = record { x = p.regs; elr = p.pc; spsr = p.pstate; sp_el0 = p.sp }

pub record Preempted {ℓ} {W : Type ℓ} (k : Kernel W) (c j : ℕ) (f : Frame)
    (r : Option Frame × Kernel W) : Type 0 where
  pub frame : r.0 ≡ some (registers_of (slot k j))
  pub running : IsRunning r.1 j
  pub ttbr0 : r.1.ttbr0 ≡ (if (slot k j).page_table == 0 then k.ttbr0 else (slot k j).page_table)
  pub slots : (i : ℕ) → slot r.1 i ≡ handed_over k c j f i

module _ {ℓ} {W : Type ℓ} (k : Kernel W) (c : ℕ) (f : Frame) (v : IsRunning k c) where
  saved : Kernel W
  saved = put k c (process_save_context (slot k c) f.x f.elr f.spsr f.sp_el0)

  slot-saved :
      (i : ℕ)
      → slot saved i
        ≡ (if i == c then process_save_context (slot k c) f.x f.elr f.spsr f.sp_el0 else slot k i)
  unfolding saved
  slot-saved i = get_or-set k.processes c i _ no_process (omega (arith, v.slots, v.index))

  same_state : (i : ℕ) → (slot saved i).state ≡ (slot k i).state
  same_state i = elim (Bool-cases (i == c)) [
    | inl e ↦
        let at : slot saved i ≡ process_save_context (slot k c) f.x f.elr f.spsr f.sp_el0 =
          slot-saved i ∙ rw e refl in
        ap (λ (p : Process). p.state) at ∙ ap (λ (j : ℕ). (slot k j).state) (sym (==→eq i c e))
    | inr e ↦
        let at : slot saved i ≡ slot k i = slot-saved i ∙ rw e refl in
        ap (λ (p : Process). p.state) at
  ]

  suspended : suspend saved (some c) 1 ≡ put saved c (record (slot saved c) { state = ready })
  suspended =
      let here : (c == c) ≡ true = ground arith in
      let runs : is_process_running (slot saved c).state ≡ true =
        ap is_process_running (same_state c) ∙ v.alone c v.index ∙ here in
      rw runs refl

  -- The processor goes to `j`, a ready process other than `c`.
  module _ (j : ℕ) (hj : j < max_processes) (ne : j ≢ c) where
    waiting : Kernel W
    waiting = put saved c (record (slot saved c) { state = ready })

    slot-waiting :
        (i : ℕ)
        → slot waiting i ≡ (
            if i == c
            then record (process_save_context (slot k c) f.x f.elr f.spsr f.sp_el0) {
              state = ready;
            }
            else slot k i)
    unfolding saved waiting
    slot-waiting i =
        get_or-set saved.processes c i (record (slot saved c) { state = ready }) no_process
          (omega (
            arith,
            length-set k.processes c (process_save_context (slot k c) f.x f.elr f.spsr f.sp_el0),
            v.slots,
            v.index,
          ))
        ∙ elim (Bool-cases (i == c)) [
          | inl e ↦
              let here : (c == c) ≡ true = ground arith in
              let at : slot saved c ≡ process_save_context (slot k c) f.x f.elr f.spsr f.sp_el0 =
                slot-saved c ∙ rw here refl in
              rw e (ap (λ (p : Process). record p { state = ready }) at)
          | inr e ↦ rw e (slot-saved i ∙ rw e refl)
        ]

    length-waiting : length waiting.processes ≡ max_processes
    unfolding saved waiting
    length-waiting =
        length-set saved.processes c (record (slot saved c) { state = ready })
        ∙ length-set k.processes c (process_save_context (slot k c) f.x f.elr f.spsr f.sp_el0)
        ∙ v.slots

    slot-resume : (i : ℕ) → slot (resume waiting j).1 i ≡ handed_over k c j f i
    slot-resume i =
        let away : (j == c) ≡ false = ground arith in
        let next : slot waiting j ≡ slot k j = slot-waiting j ∙ rw away refl in
        stored i ∙ elim (Bool-cases (i == j)) [
          | inl e ↦
              let apart : (i == c) ≡ false = ground arith in
              rw (e, apart) (ap (λ (p : Process). record p { state = running }) next)
          | inr e ↦ rw e (
              slot-waiting i ∙ elim (Bool-cases (i == c)) [ inl w ↦ rw w refl | inr w ↦ rw w refl ])
        ]
      where
        stored :
            (i : ℕ)
            → slot (resume waiting j).1 i
              ≡ (if i == j then record (slot waiting j) { state = running } else slot waiting i)
        stored i = elim (Bool-cases ((slot waiting j).page_table == 0)) [
          | inl e ↦ rw e (
              get_or-set waiting.processes j i (record (slot waiting j) { state = running })
                no_process (omega (arith, length-waiting)))
          | inr e ↦ rw e (
              get_or-set waiting.processes j i (record (slot waiting j) { state = running })
                no_process (omega (arith, length-waiting)))
        ]

    resume-IsRunning : IsRunning (resume waiting j).1 j
    resume-IsRunning = record {
      slots = lengths;
      current = elim (Bool-cases ((slot waiting j).page_table == 0)) [
        | inl e ↦ rw e refl
        | inr e ↦ rw e refl
      ];
      index = hj;
      alone = λ i hi.
          ap (λ (p : Process). is_process_running p.state) (slot-resume i)
          ∙ elim (Bool-cases (i == c)) [
            | inl e ↦ let apart : (i == j) ≡ false = ground arith in rw (e, apart) refl
            | inr e ↦ elim (Bool-cases (i == j)) [
              | inl w ↦ rw (e, w) refl
              | inr w ↦ rw (e, w) (v.alone i hi ∙ e)
            ]
          ];
    }
      where
        lengths : length (resume waiting j).1.processes ≡ max_processes
        lengths = elim (Bool-cases ((slot waiting j).page_table == 0)) [
          | inl e ↦ rw e (
              length-set waiting.processes j (record (slot waiting j) { state = running })
              ∙ length-waiting)
          | inr e ↦ rw e (
              length-set waiting.processes j (record (slot waiting j) { state = running })
              ∙ length-waiting)
        ]

    ttbr0-resume :
        (resume waiting j).1.ttbr0
        ≡ (if (slot waiting j).page_table == 0 then k.ttbr0 else (slot waiting j).page_table)
    unfolding waiting saved
    ttbr0-resume = elim (Bool-cases ((slot waiting j).page_table == 0)) [
      | inl e ↦ rw e refl
      | inr e ↦ rw e refl
    ]

    preempt-resume :
        pick max_processes
            (λ i. is_process_ready (slot saved i).state)
            (c + 1)
            0
            (max_processes - 1)
          ≡ some j
        → preempt k c f ≡ (some (resume waiting j).0, (resume waiting j).1)
    unfolding preempt process_dispatch_next process_next_runnable saved waiting
    preempt-resume found =
        ap (λ (o : Option ℕ). dispatch_to saved (some c) o 1) found
        ∙ ap (λ (t : Kernel W). let (frame, u) = resume t j in (some frame, u)) suspended

    preempt-Preempted :
        pick max_processes
            (λ i. is_process_ready (slot saved i).state)
            (c + 1)
            0
            (max_processes - 1)
          ≡ some j
        → Preempted k c j f (preempt k c f)
    preempt-Preempted found =
        let e = preempt-resume found in
        let away : (j == c) ≡ false = ground arith in
        let next : slot waiting j ≡ slot k j = slot-waiting j ∙ rw away refl in
        record {
          frame =
              ap (λ (r : Option Frame × Kernel W). r.0) e
              ∙ ap (λ (p : Process). some (process_load_context p)) next;
          ttbr0 =
              ap (λ (r : Option Frame × Kernel W). r.1.ttbr0) e
              ∙ ttbr0-resume
              ∙ ap (λ (p : Process). if p.page_table == 0 then k.ttbr0 else p.page_table) next;
          running =
              subst (λ (t : Kernel W). IsRunning t j)
                (sym (ap (λ (r : Option Frame × Kernel W). r.1) e)) resume-IsRunning;
          slots = λ i. ap (λ (r : Option Frame × Kernel W). slot r.1 i) e ∙ slot-resume i;
        }

  c_not_ready : is_process_ready (slot k c).state ≡ false
  c_not_ready =
      busy (slot k c).state (v.alone c v.index ∙ (let e : (c == c) ≡ true = ground arith in e))
    where
      busy : (t : ProcessState) → is_process_running t ≡ true → is_process_ready t ≡ false
      busy unused h = refl
      busy ready h = cc
      busy running h = refl
      busy blocked h = refl
      busy zombie h = refl

  -- A ready process is preempted to, or one from which it is nearer.
  pub preempt_nearer :
      (i : ℕ)
      → i < max_processes
      → is_process_ready (slot k i).state ≡ true
      → (j : ℕ) × ((j < max_processes)
          × (j ≢ c)
          × Preempted k c j f (preempt k c f)
          × ((j ≡ i) ⊎ ((j ≢ i) × (distance max_processes j i < distance max_processes c i))))
  preempt_nearer i hi waits =
      let not_c : i ≢ c = λ e.
        absurd (
          ground
            (arith, waits, ap (λ (q : ℕ). is_process_ready (slot k q).state) e, c_not_ready)) in
      let near : distance max_processes c i < max_processes - 1 =
        (let hc = v.index in ground arith) in
      elim (pick_nearer max_processes (λ q. is_process_ready (slot saved q).state) c i
        (max_processes - 1) v.index hi (ap is_process_ready (same_state i) ∙ waits) (omega arith)
        near) [
          | inl found ↦ (i, (hi, not_c, preempt-Preempted i hi not_c found, inl refl))
          | inr r ↦
              let rj : is_process_ready (slot k r.0).state ≡ true =
                ap is_process_ready (sym (same_state r.0)) ∙ r.1.2 in
              let ne : r.0 ≢ c = λ e. absurd (
                ground
                  (arith, rj, ap (λ (q : ℕ). is_process_ready (slot k q).state) e, c_not_ready)) in
              (r.0, (r.1.1, ne, preempt-Preempted r.0 r.1.1 ne r.1.0, inr (r.1.3, r.1.4)))
        ]

  no_other :
      pick max_processes (λ q. is_process_ready (slot saved q).state) (c + 1) 0 (max_processes - 1)
        ≡ none
      → preempt k c f ≡ (none, saved)
  unfolding preempt process_dispatch_next process_next_runnable saved
  no_other e = ap (λ (o : Option ℕ). dispatch_to saved (some c) o 1) e

  none_ready :
      NoneReady max_processes
        (λ q. is_process_ready (slot saved q).state)
        (c + 1)
        0
        (max_processes - 1)
      → (i : ℕ) → i < max_processes
      → is_process_ready (slot k i).state ≡ false
  none_ready nothing i hi = elim (Bool-cases (i == c)) [
    | inl e ↦ ap (λ (q : ℕ). is_process_ready (slot k q).state) (==→eq i c e) ∙ c_not_ready
    | inr e ↦
        ap is_process_ready (sym (same_state i))
        ∙ ap (λ (q : ℕ). is_process_ready (slot saved q).state)
            (sym (reached max_processes c i v.index hi))
        ∙ nothing (distance max_processes c i) (omega arith) (let hc = v.index in ground arith)
  ]

  -- A preemption of the current process goes to a ready process: its saved registers are loaded, its
  -- page table is in use unless it has none, it alone runs, the preempted one is ready with the registers it had, and no other changes. With no
  -- process ready, none is given and only those registers are stored.
  pub preempt_lem :
      (((i : ℕ) → i < max_processes → is_process_ready (slot k i).state ≡ false)
        × (preempt k c f ≡ (
          none,
          put k c (record (slot k c) { regs = f.x; pc = f.elr; pstate = f.spsr; sp = f.sp_el0 }),
        )))
      ⊎ ((j : ℕ) × ((j < max_processes)
            × (is_process_ready (slot k j).state ≡ true)
            × Preempted k c j f (preempt k c f)))
  unfolding saved
  preempt_lem =
      elim (pick_lem max_processes (λ q. is_process_ready (slot saved q).state) (c + 1) 0
        (max_processes - 1)) [
          | inl r ↦ inl (none_ready r.1, no_other r.0)
          | inr r ↦
              let j = (c + 1 + r.0) % max_processes in
              let hj : j < max_processes = omega arith in
              let rj : is_process_ready (slot k j).state ≡ true =
                ap is_process_ready (sym (same_state j)) ∙ r.1.3 in
              let ne : j ≢ c = λ e. absurd (
                ground
                  (arith, rj, ap (λ (q : ℕ). is_process_ready (slot k q).state) e, c_not_ready)) in
              inr (j, (hj, rj, preempt-Preempted j hj ne r.1.0))
        ]
