-- ===== src/Process/Alloc.antt =====
-- process_alloc of kernel/process.c.
use armonios.Prelude.{
  ℕ, ◌+◌, ◌<◌, ◌≡◌, ◌≢◌, ◌⊎◌, refl, sym, ap, ◌∙◌, inl, inr, true, false, List, Option, none, some,
  arith, ◌==◌, ==→eq, ==→ne, Bool-cases, set,
}
use armonios.Process.{
  Process, Kernel, is_unused, max_processes, process_init, process_find, slot, init_at,
  process_alloc,
}
use armonios.Process.Find.{
  has_pid, count_used-le, find_unused_slot_lem, IsTable, process_find_lem, process_find_self,
}
use armonios.Process.Update.{updated_slot, updated-IsTable, updated_find}

-- A new process of this pid is at slot `i`, and pid `other`, if it is another one, finds what it found.
pub record Created {ℓ} {W : Type ℓ} (k : Kernel W) (pid : ℕ) (name : Option (List ℕ)) (other i : ℕ)
    (k' : Kernel W) : Type 0 where
  pub table : IsTable k'
  pub was_unused : is_unused (slot k i).state ≡ true
  pub process : slot k' i ≡ process_init pid name
  pub found : process_find k' pid ≡ some i
  pub others : other ≢ pid → process_find k' other ≡ process_find k other
  pub count : k'.process_count ≡ k.process_count + 1

created {ℓ} :
    {W : Type ℓ} (k k' : Kernel W) (pid : ℕ) (name : Option (List ℕ)) (other i : ℕ)
    → IsTable k
    → i < max_processes
    → pid ≢ 0
    → is_unused (slot k i).state ≡ true
    → ((j : ℕ) → j < max_processes → has_pid k.processes pid j ≡ false)
    → k'.processes ≡ set k.processes i (process_init pid name)
    → k'.process_count ≡ k.process_count + 1
    → Created k pid name other i k'
created k k' pid name other i v hi nz free none_has at count =
    let p = process_init pid name in
    let there : slot k' i ≡ p =
      updated_slot k k' i p v hi at i ∙ (let e : (i == i) ≡ true = ground arith in rw e refl) in
    let table =
      updated-IsTable k k' i p v hi at (rw free (omega (arith, count))) (λ u. nz)
        (λ j h ne u used e. ground (arith, none_has j h)) in
    record {
      table = table;
      was_unused = free;
      process = there;
      found =
          ap (process_find k') (ap (λ (q : Process). q.pid) (sym there))
          ∙ process_find_self k' table i hi (ap (λ (q : Process). is_unused q.state) there);
      others = λ ne. updated_find k k' i p v hi at other table (ground arith) (rw free refl);
      count = count;
    }

-- process_alloc gives no slot, and changes nothing, exactly for pid 0, a pid in use and a full table.
-- Otherwise it puts a new process into an unused slot, where its pid finds it, and other pids find what
-- they found.
pub process_alloc_lem {ℓ} :
    {W : Type ℓ} (k : Kernel W) (pid : ℕ) (name : Option (List ℕ)) (other : ℕ)
    → IsTable k
    → ((process_alloc k pid name ≡ (none, k))
        × ((pid ≡ 0)
            ⊎ ((j : ℕ) × (j < max_processes) × (has_pid k.processes pid j ≡ true))
            ⊎ ((j : ℕ) → j < max_processes → is_unused (slot k j).state ≡ false)))
      ⊎ ((i : ℕ) × (k' : Kernel W) × (i < max_processes)
          × (process_alloc k pid name ≡ (some i, k'))
          × Created k pid name other i k')
unfolding process_alloc
process_alloc_lem k pid name other v = elim (Bool-cases (pid == 0)) [
  | inl z ↦ inl (rw z refl, inl (==→eq pid 0 z))
  | inr nz ↦ elim (process_find_lem k v pid) [
    | inr r ↦ inl (rw (nz, r.1.0) refl, inr (inl (r.0, r.1.1, r.1.2)))
    | inl r ↦ elim (find_unused_slot_lem k.processes 0) [
      | inl q ↦ inl (rw (nz, r.0, q.0) refl, inr (inr (λ j h. q.1 j (omega (arith, v.slots)))))
      | inr q ↦
          let hi : q.0 < max_processes = omega (arith, q.1.1, v.slots) in
          let at : 0 + q.0 ≡ q.0 = omega arith in
          let room = count_used-le k.processes in
          inr (
            q.0,
            (init_at k (some q.0) pid name).1,
            hi,
            rw (nz, r.0, q.1.0, at) refl,
            created k (init_at k (some q.0) pid name).1 pid name other q.0 v hi (==→ne pid 0 nz)
                q.1.2 r.1 refl (omega (arith, v.count, v.slots, room)),
          )
    ]
  ]
]
