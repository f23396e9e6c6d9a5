-- ===== src/Process/Exit.antt =====
-- process_release, process_kill and process_wait_zombie of kernel/process.c.
use mathlib.Core.Path.{subst}
use armonios.Prelude.{
  ℕ, ◌+◌, ◌<◌, ◌≡◌, ◌≢◌, ◌⊎◌, refl, sym, ap, ◌∙◌, inl, inr, true, false, not, ◌&&◌, Option, none,
  some, arith, if◌then◌else◌, ltb, ◌==◌, ==→eq, ==→ne, Bool-cases, set,
}
use armonios.Process.{
  Process, zombie, Services, Kernel, no_process, is_unused, is_zombie, is_index, max_processes,
  process_find, slot, process_release, process_mark_exited, process_kill, process_wait_zombie,
}
use armonios.Process.Find.{
  has_pid, one_if_used, count_used-set, IsTable, process_find_lem, process_find_self,
}
use armonios.Process.Update.{updated_slot, updated-IsTable, updated_find}

-- Slot `i` is unused after the release, one process is gone, and other pids find what they found.
pub record Released {ℓ} {W : Type ℓ} (k : Kernel W) (pid other i : ℕ) (k' : Kernel W) : Type 0 where
  pub table : IsTable k'
  pub slot_free : slot k' i ≡ no_process
  pub gone : process_find k' pid ≡ none
  pub others : other ≢ pid → process_find k' other ≡ process_find k other
  pub count : k'.process_count + 1 ≡ k.process_count
  pub not_current : is_index k'.current i ≡ false

released_current {ℓ} :
    {W : Type ℓ} (k : Kernel W) (i : ℕ)
    → is_unused (slot k i).state ≡ false
    → is_index (process_release k i).current i ≡ false
unfolding process_release
released_current k i used = elim (Bool-cases (is_index k.current i)) [
  | inl c ↦ rw (used, c) refl
  | inr c ↦ rw (used, c) c
]

pub process_release_lem {ℓ} :
    {W : Type ℓ} (k : Kernel W) (other i : ℕ)
    → IsTable k
    → i < max_processes
    → is_unused (slot k i).state ≡ false
    → Released k (slot k i).pid other i (process_release k i)
unfolding process_release
process_release_lem k other i v hi used =
    let pid = (slot k i).pid in
    let k' = process_release k i in
    let at : k'.processes ≡ set k.processes i no_process = rw used refl in
    let c = count_used-set k.processes i no_process (omega (arith, v.slots)) in
    let one : one_if_used (slot k i) ≡ 1 = rw used refl in
    let some_left : 0 < k.process_count = omega (arith, c, one, v.count) in
    let more : ltb 0 k.process_count ≡ true = ground arith in
    let count : k'.process_count + 1 ≡ k.process_count =
      rw (used, more) (omega (arith, some_left)) in
    let there : slot k' i ≡ no_process =
      updated_slot k k' i no_process v hi at i
      ∙ (let e : (i == i) ≡ true = ground arith in rw e refl) in
    let table : IsTable k' =
      updated-IsTable k k' i no_process v hi at (omega (arith, count, one))
        (λ u. absurd (ground arith)) (λ j h ne u w. absurd (ground arith)) in
    record {
      table = table;
      slot_free = there;
      gone = elim (process_find_lem k' table pid) [
        | inl r ↦ r.0
        | inr r ↦
            let same : slot k' r.0 ≡ (if r.0 == i then no_process else slot k r.0) =
              updated_slot k k' i no_process v hi at r.0 in
            elim (Bool-cases (r.0 == i)) [
              | inl e ↦
                  let s : slot k' r.0 ≡ no_process = same ∙ rw e refl in
                  absurd (ground (arith, r.1.2, ap (λ (q : Process). is_unused q.state) s))
              | inr e ↦
                  let s : slot k' r.0 ≡ slot k r.0 = same ∙ rw e refl in
                  let has : has_pid k.processes pid r.0 ≡ true =
                    ap (λ (q : Process). not (is_unused q.state) && q.pid == pid) (sym s) ∙ r.1.2 in
                  absurd (
                    ==→ne r.0 i e
                      (v.distinct r.0 i r.1.1 hi (ground (arith, has)) used (ground (arith, has))))
            ]
      ];
      others = λ ne. updated_find k k' i no_process v hi at other table refl (ground arith);
      count = count;
      not_current = released_current k i used;
    }

-- Process `i` has become a zombie with this exit code, and nothing else has changed in the table.
pub record Killed {ℓ} {W : Type ℓ} (services : Services W) (k : Kernel W)
    (pid exit_code other i : ℕ) (k' : Kernel W) : Type ℓ where
  pub table : IsTable k'
  pub process : slot k' i ≡ record (slot k i) { exit_code = exit_code; state = zombie }
  pub found : process_find k' pid ≡ some i
  pub others : process_find k' other ≡ process_find k other
  pub count : k'.process_count ≡ k.process_count
  pub current : k'.current ≡ k.current
  pub cleaned : k'.services ≡ services.destroy_windows pid (services.close_all pid k.services)

process_mark_exited-Killed {ℓ} :
    {W : Type ℓ} (services : Services W) (k : Kernel W) (exit_code other i : ℕ)
    → IsTable k
    → i < max_processes
    → is_unused (slot k i).state ≡ false
    → is_zombie (slot k i).state ≡ false
    → Killed services k
        (slot k i).pid
        exit_code
        other
        i
        (process_mark_exited services k i exit_code)
unfolding process_mark_exited
process_mark_exited-Killed services k exit_code other i v hi used alive =
    let pid = (slot k i).pid in
    let k' = process_mark_exited services k i exit_code in
    let p = record (slot k i) { exit_code = exit_code; state = zombie } in
    let at : k'.processes ≡ set k.processes i p = rw alive refl in
    let count : k'.process_count ≡ k.process_count = rw alive refl in
    let there : slot k' i ≡ p =
      updated_slot k k' i p v hi at i ∙ (let e : (i == i) ≡ true = ground arith in rw e refl) in
    let table : IsTable k' =
      updated-IsTable k k' i p v hi at (rw used (omega (arith, count))) (λ u. v.not_zero i hi used)
        (λ j h ne u w e. ne (v.distinct j i h hi w used e)) in
    let found : process_find k' pid ≡ some i =
      ap (λ (q : Process). process_find k' q.pid) (sym there)
      ∙ process_find_self k' table i hi (ap (λ (q : Process). is_unused q.state) there) in
    record {
      table = table;
      process = there;
      found = found;
      others = elim (Bool-cases (pid == other)) [
        | inl e ↦
            let same : pid ≡ other = ==→eq pid other e in
            ap (process_find k') (sym same)
            ∙ found
            ∙ sym (process_find_self k v i hi used)
            ∙ ap (process_find k) same
        | inr e ↦ updated_find k k' i p v hi at other table e (ground (arith, e))
      ];
      count = count;
      current = rw alive refl;
      cleaned = rw alive refl;
    }

-- Why a process is not killed: there is none with the pid, or it is the current one or a zombie.
abbrev pub NotKilled {ℓ} : {W : Type ℓ} → Kernel W → ℕ → Type 0
NotKilled k pid =
    (process_find k pid ≡ none)
    ⊎ ((i : ℕ) × (process_find k pid ≡ some i)
        × ((is_index k.current i ≡ true) ⊎ (is_zombie (slot k i).state ≡ true)))

-- After a kill, a wait for the process gives the exit code of the kill. Its files and windows are
-- gone once, then its pid finds nothing, and other pids find what they found.
pub record Reaped {ℓ} {W : Type ℓ} (services : Services W) (k : Kernel W) (pid exit_code other : ℕ)
    (k1 : Kernel W) : Type ℓ where
  pub killed : IsTable k1
  pub cleaned : k1.services ≡ services.destroy_windows pid (services.close_all pid k.services)
  pub code : (process_wait_zombie k1 pid).0 ≡ some exit_code
  pub table : IsTable (process_wait_zombie k1 pid).1
  pub gone : process_find (process_wait_zombie k1 pid).1 pid ≡ none
  pub others :
      other ≢ pid → process_find (process_wait_zombie k1 pid).1 other ≡ process_find k other
  pub count : (process_wait_zombie k1 pid).1.process_count + 1 ≡ k.process_count

wait_lem {ℓ} :
    {W : Type ℓ} (services : Services W) (k : Kernel W) (pid exit_code other i : ℕ) (k1 : Kernel W)
    → i < max_processes
    → (slot k i).pid ≡ pid
    → is_index k.current i ≡ false
    → Killed services k pid exit_code other i k1
    → Reaped services k pid exit_code other k1
unfolding process_wait_zombie
wait_lem {W = W} services k pid exit_code other i k1 hi own away d =
    let p = record (slot k i) { exit_code = exit_code; state = zombie } in
    let z : is_zombie (slot k1 i).state ≡ true =
      ap (λ (q : Process). is_zombie q.state) d.process in
    let not_current : is_index k1.current i ≡ false =
      ap (λ (o : Option ℕ). is_index o i) d.current ∙ away in
    let used : is_unused (slot k1 i).state ≡ false =
      ap (λ (q : Process). is_unused q.state) d.process in
    let pid1 : (slot k1 i).pid ≡ pid = ap (λ (q : Process). q.pid) d.process ∙ own in
    let r = process_release_lem k1 other i d.table hi used in
    let result : process_wait_zombie k1 pid ≡ (some (slot k1 i).exit_code, process_release k1 i) =
      rw (d.found, not_current, z) refl in
    let after : (process_wait_zombie k1 pid).1 ≡ process_release k1 i =
      ap (λ (q : Option ℕ × Kernel W). q.1) result in
    record {
      killed = d.table;
      cleaned = d.cleaned;
      code =
          ap (λ (q : Option ℕ × Kernel W). q.0) result
          ∙ ap (λ (q : Process). some q.exit_code) d.process;
      table = subst IsTable (sym after) r.table;
      gone =
          ap (λ (t : Kernel W). process_find t pid) after
          ∙ ap (process_find (process_release k1 i)) (sym pid1)
          ∙ r.gone;
      others = λ ne.
          ap (λ (t : Kernel W). process_find t other) after
          ∙ r.others (λ e. ne (e ∙ pid1))
          ∙ d.others;
      count = ap (λ (t : Kernel W). t.process_count + 1) after ∙ r.count ∙ d.count;
    }

-- A process that is no zombie and not the current one can be killed by its pid, and then waited for: the
-- wait gives the exit code of the kill, and the table has lost exactly this process. In the other cases
-- a kill changes nothing.
pub process_kill_wait {ℓ} :
    {W : Type ℓ} (services : Services W) (k : Kernel W) (pid exit_code other : ℕ)
    → IsTable k
    → (NotKilled k pid × (process_kill services k pid exit_code ≡ (false, k)))
      ⊎ ((k1 : Kernel W) × (process_kill services k pid exit_code ≡ (true, k1))
          × Reaped services k pid exit_code other k1)
unfolding process_kill
process_kill_wait services k pid exit_code other v = elim (process_find_lem k v pid) [
  | inl r ↦ inl (inl r.0, rw r.0 refl)
  | inr r ↦ elim (Bool-cases (is_index k.current r.0)) [
    | inl cur ↦ inl (inr (r.0, r.1.0, inl cur), rw (r.1.0, cur) refl)
    | inr away ↦ elim (Bool-cases (is_zombie (slot k r.0).state)) [
      | inl dead ↦ inl (inr (r.0, r.1.0, inr dead), rw (r.1.0, away, dead) refl)
      | inr alive ↦
          let own : (slot k r.0).pid ≡ pid = ground (arith, r.1.2) in
          let used : is_unused (slot k r.0).state ≡ false = ground (arith, r.1.2) in
          let d = process_mark_exited-Killed services k exit_code other r.0 v r.1.1 used alive in
          let d' =
            subst
              (λ (n : ℕ).
                Killed services k n exit_code other r.0
                  (process_mark_exited services k r.0 exit_code))
              own d in
          inr (
            process_mark_exited services k r.0 exit_code,
            rw (r.1.0, away, alive) refl,
            wait_lem services k pid exit_code other r.0
                (process_mark_exited services k r.0 exit_code) r.1.1 own away d',
          )
    ]
  ]
]
