-- ===== src/Process/Find.antt =====
-- Lookups in the table of processes of kernel/process.c, and what the table keeps.
use armonios.Prelude.{
  ℕ, zero, suc, ◌+◌, ◌≤◌, ◌<◌, ◌≡◌, ◌≢◌, ◌⊎◌, refl, sym, ap, ◌∙◌, inl, inr, Bool, true, false, not,
  ◌&&◌, List, [], ◌∷◌, none, some, arith, if◌then◌else◌, ◌==◌, Bool-cases, length, get_or, set,
}
use armonios.Process.{
  Process, Kernel, no_process, is_unused, find_from, find_unused_slot, max_processes, process_find,
  slot,
}

-- Entry `i` of a list of processes is used and has this pid.
abbrev pub has_pid : List Process → ℕ → ℕ → Bool
has_pid ps pid i =
    not (is_unused (get_or ps i no_process).state) && (get_or ps i no_process).pid == pid

pub find_from_lem :
    (ps : List Process) (i pid : ℕ)
    → ((find_from ps i pid ≡ none) × ((j : ℕ) → j < length ps → has_pid ps pid j ≡ false))
      ⊎ ((j : ℕ) × ((find_from ps i pid ≡ some (i + j))
            × (j < length ps)
            × (has_pid ps pid j ≡ true)))
unfolding find_from
find_from_lem [] i pid = inl (refl, λ j h. absurd (omega arith))
find_from_lem (p ∷ ps) i pid = elim (Bool-cases (not (is_unused p.state) && p.pid == pid)) [
  | inl hit ↦ inr (
    0,
    (rw hit (ap (λ (k : ℕ). some k) (let e : i ≡ i + 0 = omega arith in e)), omega arith, hit),
  )
  | inr miss ↦ elim (find_from_lem ps (i + 1) pid) [
    | inl r ↦ inl (rw miss r.0, later p ps pid miss r.1)
    | inr r ↦
        let at : i + 1 + r.0 ≡ i + suc r.0 = omega arith in
        inr (suc r.0, (rw miss (r.1.0 ∙ ap (λ (k : ℕ). some k) at), omega (arith, r.1.1), r.1.2))
  ]
]
  where
    later :
        (p : Process) (ps : List Process) (pid : ℕ)
        → (not (is_unused p.state) && p.pid == pid) ≡ false
        → ((j : ℕ) → j < length ps → has_pid ps pid j ≡ false)
        → (j : ℕ) → j < suc (length ps)
        → has_pid (p ∷ ps) pid j ≡ false
    later p ps pid miss rest zero h = miss
    later p ps pid miss rest (suc j) h = rest j (omega arith)

pub find_unused_slot_lem :
    (ps : List Process) (i : ℕ)
    → ((find_unused_slot ps i ≡ none)
        × ((j : ℕ) → j < length ps → is_unused (get_or ps j no_process).state ≡ false))
      ⊎ ((j : ℕ) × ((find_unused_slot ps i ≡ some (i + j))
            × (j < length ps)
            × (is_unused (get_or ps j no_process).state ≡ true)))
unfolding find_unused_slot
find_unused_slot_lem [] i = inl (refl, λ j h. absurd (omega arith))
find_unused_slot_lem (p ∷ ps) i = elim (Bool-cases (is_unused p.state)) [
  | inl hit ↦ inr (
    0,
    (rw hit (ap (λ (k : ℕ). some k) (let e : i ≡ i + 0 = omega arith in e)), omega arith, hit),
  )
  | inr miss ↦ elim (find_unused_slot_lem ps (i + 1)) [
    | inl r ↦ inl (rw miss r.0, later p ps miss r.1)
    | inr r ↦
        let at : i + 1 + r.0 ≡ i + suc r.0 = omega arith in
        inr (suc r.0, (rw miss (r.1.0 ∙ ap (λ (k : ℕ). some k) at), omega (arith, r.1.1), r.1.2))
  ]
]
  where
    later :
        (p : Process) (ps : List Process)
        → is_unused p.state ≡ false
        → ((j : ℕ) → j < length ps → is_unused (get_or ps j no_process).state ≡ false)
        → (j : ℕ) → j < suc (length ps)
        → is_unused (get_or (p ∷ ps) j no_process).state ≡ false
    later p ps miss rest zero h = miss
    later p ps miss rest (suc j) h = rest j (omega arith)

-- How many processes there are.
unfoldable pub count_used : List Process → ℕ
count_used [] = 0
count_used (p ∷ ps) = (if is_unused p.state then 0 else 1) + count_used ps

pub count_used-le : (ps : List Process) → count_used ps ≤ length ps
unfolding count_used
count_used-le [] = omega arith
count_used-le (p ∷ ps) = elim (Bool-cases (is_unused p.state)) [
  | inl e ↦ rw e (omega (arith, count_used-le ps))
  | inr e ↦ rw e (omega (arith, count_used-le ps))
]

abbrev pub one_if_used : Process → ℕ
one_if_used p = if is_unused p.state then 0 else 1

pub count_used-set :
    (ps : List Process) (i : ℕ) (p : Process)
    → i < length ps
    → count_used (set ps i p) + one_if_used (get_or ps i no_process) ≡ count_used ps + one_if_used p
unfolding count_used
count_used-set [] i p h = absurd (omega arith)
count_used-set (q ∷ ps) zero p h = omega arith
count_used-set (q ∷ ps) (suc i) p h = omega (arith, count_used-set ps i p (omega arith))

-- The table has its slots, the count is that of the processes, and pids are not 0 and tell processes
-- apart.
pub record IsTable {ℓ} {W : Type ℓ} (k : Kernel W) : Type 0 where
  pub slots : length k.processes ≡ max_processes
  pub count : k.process_count ≡ count_used k.processes
  pub not_zero :
      (i : ℕ) → i < max_processes → is_unused (slot k i).state ≡ false → (slot k i).pid ≢ 0
  pub distinct :
      (i j : ℕ)
      → i < max_processes
      → j < max_processes
      → is_unused (slot k i).state ≡ false
      → is_unused (slot k j).state ≡ false
      → (slot k i).pid ≡ (slot k j).pid
      → i ≡ j

module _ {ℓ} {W : Type ℓ} (k : Kernel W) (v : IsTable k) where
  -- A lookup finds nothing, or the one process with the pid.
  pub process_find_lem :
      (pid : ℕ)
      → ((process_find k pid ≡ none)
          × ((j : ℕ) → j < max_processes → has_pid k.processes pid j ≡ false))
        ⊎ ((j : ℕ) × ((process_find k pid ≡ some j)
              × (j < max_processes)
              × (has_pid k.processes pid j ≡ true)))
  unfolding process_find
  process_find_lem pid = elim (Bool-cases (pid == 0)) [
    | inl none_has ↦ inl (rw none_has refl, λ j h. ground (arith, v.not_zero j h))
    | inr some_may ↦ elim (find_from_lem k.processes 0 pid) [
      | inl r ↦ inl (rw some_may r.0, λ j h. r.1 j (omega (arith, v.slots)))
      | inr r ↦
          let at : 0 + r.0 ≡ r.0 = omega arith in
          inr (
            r.0,
            (rw some_may (r.1.0 ∙ ap (λ (n : ℕ). some n) at), omega (arith, r.1.1, v.slots), r.1.2),
          )
    ]
  ]

  -- A process is found by its pid.
  pub process_find_self :
      (i : ℕ)
      → i < max_processes
      → is_unused (slot k i).state ≡ false
      → process_find k (slot k i).pid ≡ some i
  process_find_self i h used = elim (process_find_lem (slot k i).pid) [
    | inl r ↦ absurd (ground (arith, r.1 i h, used))
    | inr r ↦
        let same : r.0 ≡ i =
          v.distinct r.0 i r.1.1 h (ground (arith, r.1.2)) used (ground (arith, r.1.2)) in
        r.1.0 ∙ ap (λ (n : ℕ). some n) same
  ]

-- Tables in which the same slots have a pid find the same process for it.
pub process_find_same {ℓ} :
    {W : Type ℓ} (k k' : Kernel W) (pid : ℕ)
    → IsTable k
    → IsTable k'
    → ((j : ℕ) → j < max_processes → has_pid k'.processes pid j ≡ has_pid k.processes pid j)
    → process_find k' pid ≡ process_find k pid
process_find_same k k' pid v v' same = elim (process_find_lem k v pid) [
  | inl r ↦ elim (process_find_lem k' v' pid) [
    | inl q ↦ q.0 ∙ sym r.0
    | inr q ↦ absurd (ground (arith, r.1 q.0 q.1.1, same q.0 q.1.1, q.1.2))
  ]
  | inr r ↦
      let there = same r.0 r.1.1 ∙ r.1.2 in
      let own : (slot k' r.0).pid ≡ pid = ground (arith, there) in
      ap (process_find k') (sym own)
      ∙ process_find_self k' v' r.0 r.1.1 (ground (arith, there))
      ∙ sym r.1.0
]
