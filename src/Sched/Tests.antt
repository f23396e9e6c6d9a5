-- ===== src/Sched/Tests.antt =====
-- The scheduler of kernel/sched/sched.c with three threads, and its theorems there.
use armonios.Prelude.{
  ℕ, zero, suc, ◌<◌, ◌≡◌, ◌⊎◌, refl, true, false, [], ◌∷◌, some, arith, if◌then◌else◌, ◌==◌,
}
use armonios.Sched.{
  Context, Thread, ThreadState, unused, ready, running, Sched, no_context, no_thread, max_threads,
  thread_at, is_ready, next_runnable_thread, sched_yield,
}
use armonios.RoundRobin.{pick}
use armonios.Sched.Invariant.{IsSched, is_running, is_some_of, IsNearest, sched_yield_lem}
use armonios.Sched.Fairness.{yields, sched_yield_fair}

abbrev thread_of : ℕ → ThreadState → Thread
thread_of pid state = record no_thread {
  pid = pid;
  state = state;
  context = record no_context { sp = pid };
}

-- thread 1 runs, threads 0 and 3 are ready, slot 2 is free
abbrev three_threads : Sched
three_threads = record {
  ticks = 0;
  quantums = 0;
  quantum_ticks = 3;
  ticks_left = 3;
  threads = thread_of 1 ready ∷ thread_of 2 running ∷ thread_of 0 unused ∷ thread_of 3 ready ∷ [];
  current = some 1;
  thread_count = 3;
  next_pid = 4;
  pmm = record { bitmap = []; mem_base = 0; total_pages = 0; free_pages = 0 };
}

alone_in_three : (i : ℕ) → i < max_threads → is_running three_threads i ≡ is_some_of (some 1) i
alone_in_three zero h = refl
alone_in_three (suc zero) h = refl
alone_in_three (suc (suc zero)) h = refl
alone_in_three (suc (suc (suc zero))) h = refl
alone_in_three (suc (suc (suc (suc k)))) h = absurd (omega arith)

three_threads-IsSched : IsSched three_threads
three_threads-IsSched = record {
  table = refl;
  current = λ c e. ground arith;
  alone = alone_in_three;
}

-- the registers of the processor at a yield
abbrev cpu : Context
cpu = record no_context { sp = 77 }

yield_test :
    ((sched_yield cpu three_threads).0.sp ≡ 3)
    × ((sched_yield cpu three_threads).1.current ≡ some 3)
unfolding sched_yield next_runnable_thread pick
yield_test = (refl, refl)

sched_yield_lem_example :
    let (loaded, s') = sched_yield cpu three_threads in
    (((i : ℕ) → i < max_threads → is_ready three_threads i ≡ false)
      × (loaded ≡ cpu)
      × (s' ≡ three_threads))
    ⊎ ((j : ℕ) × ((is_ready three_threads j ≡ true)
          × IsNearest three_threads 1 j
          × (loaded ≡ (thread_at three_threads j).context)
          × (s'.current ≡ some j)
          × (thread_at s' 1 ≡ (
              if 1 == 1
              then record (thread_at three_threads 1) { state = ready; context = cpu }
              else if 1 == j
              then record (thread_at three_threads j) { state = running }
              else thread_at three_threads 1))
          × IsSched s'))
sched_yield_lem_example = sched_yield_lem three_threads 1 1 cpu three_threads-IsSched refl

sched_yield_fair_example :
    (n : ℕ) × ((n < max_threads) × ((yields (λ k. cpu) n three_threads).current ≡ some 0))
sched_yield_fair_example =
    sched_yield_fair three_threads 1 0 (λ k. cpu) three_threads-IsSched refl (omega arith) refl
