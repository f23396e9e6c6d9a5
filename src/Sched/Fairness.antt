-- ===== src/Sched/Fairness.antt =====
-- Fairness of the yields of kernel/sched/sched.c.
use armonios.Prelude.{
  ℕ, zero, suc, ◌+◌, ◌≤◌, ◌<◌, ◌≡◌, ◌≢◌, sym, ap, ◌∙◌, inl, inr, true, false, some, arith, ◌==◌,
}
use armonios.RoundRobin.{pick_nearer, distance}
use armonios.Sched.{Context, Thread, Sched, max_threads, is_ready, is_state_ready, sched_yield}
use armonios.Sched.Invariant.{
  IsSched, switched, thread_at-switched, switched-IsSched, sched_yield-switched, current-switched,
  current_busy,
}

-- `n` yields one after the other, each from the registers the running thread then has.
unfoldable pub yields : (ℕ → Context) → ℕ → Sched → Sched
yields cpus zero s = s
yields cpus (suc n) s = yields (λ (k : ℕ). cpus (k + 1)) n (sched_yield (cpus 0) s).1

-- A ready thread other than the two of a switch stays ready.
switched-ready :
    (s : Sched) (c j i : ℕ) (cpu : Context)
    → IsSched s
    → s.current ≡ some c
    → c < max_threads
    → j < max_threads
    → j ≢ c
    → i ≢ c
    → i ≢ j
    → is_ready s i ≡ true
    → is_ready (switched s c j cpu) i ≡ true
switched-ready s c j i cpu v cur hc hj ne not_c not_j ready =
    let a : (i == c) ≡ false = ground arith in
    let b : (i == j) ≡ false = ground arith in
    ap (λ (t : Thread). is_state_ready t.state) (thread_at-switched s c j cpu v cur hc hj ne i)
    ∙ rw (a, b) ready

served_within :
    (d : ℕ) (s : Sched) (c i : ℕ) (cpus : ℕ → Context)
    → IsSched s
    → s.current ≡ some c
    → i < max_threads
    → is_ready s i ≡ true
    → distance max_threads c i < d
    → (n : ℕ) × ((n ≤ d) × ((yields cpus n s).current ≡ some i))
unfolding yields
served_within zero s c i cpus v cur hi ready near = absurd (omega arith)
served_within (suc d) s c i cpus v cur hi ready near =
    let hc = v.current c cur in
    let busy = current_busy s c v cur in
    let not_c : i ≢ c = λ e. absurd (ground (arith, ready, ap (is_ready s) e, busy)) in
    let fits : distance max_threads c i < max_threads = ground arith in
    elim (pick_nearer max_threads (is_ready s) c i max_threads hc hi ready (omega arith) fits) [
      | inl found ↦ (
        1,
        (
          omega arith,
          ap (λ (t : Sched). t.current) (sched_yield-switched s c i (cpus 0) cur not_c found)
              ∙ current-switched s c i (cpus 0),
        ),
      )
      | inr r ↦
          let j = r.0 in
          let not_j : j ≢ c = λ e. absurd (ground (arith, r.1.2, ap (is_ready s) e, busy)) in
          let step : (sched_yield (cpus 0) s).1 ≡ switched s c j (cpus 0) =
            sched_yield-switched s c j (cpus 0) cur not_j r.1.0 in
          let rest =
            served_within d (switched s c j (cpus 0)) j i (λ (k : ℕ). cpus (k + 1))
              (switched-IsSched s c j (cpus 0) v cur hc r.1.1 not_j)
              (current-switched s c j (cpus 0)) hi
              (switched-ready s c j i (cpus 0) v cur hc r.1.1 not_j not_c (λ e. r.1.3 (sym e))
                ready)
              (omega (arith, r.1.4)) in
          (
            suc rest.0,
            (
              omega (arith, rest.1.0),
              ap (λ (t : Sched). (yields (λ (k : ℕ). cpus (k + 1)) rest.0 t).current) step
                  ∙ rest.1.1,
            ),
          )
    ]

-- With the current thread the only one that runs, a ready thread `i` runs after at most three yields,
-- whatever the registers at each of them and whichever other threads are ready.
pub sched_yield_fair :
    (s : Sched) (c i : ℕ) (cpus : ℕ → Context)
    → IsSched s
    → s.current ≡ some c
    → i < max_threads
    → is_ready s i ≡ true
    → (n : ℕ) × ((n < max_threads) × ((yields cpus n s).current ≡ some i))
sched_yield_fair s c i cpus v cur hi ready =
    let not_c : i ≢ c =
      λ e. absurd (ground (arith, ready, ap (is_ready s) e, current_busy s c v cur)) in
    let hc = v.current c cur in
    let near : distance max_threads c i < 3 = ground arith in
    let r = served_within 3 s c i cpus v cur hi ready near in (r.0, (omega (arith, r.1.0), r.1.1))
