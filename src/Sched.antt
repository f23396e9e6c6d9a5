-- ===== src/Sched.antt =====
-- kernel/sched/sched.c, the cooperative scheduler of kernel threads, with kernel/sched/switch.S.
-- `Sched` holds the static variables and the page allocator. A pointer to a thread is its index. A
-- function that switches takes the registers of the processor and gives those after the switch, which
-- are none where the code waits for ever. Interrupts are masked across each switch.
pub mod Invariant
pub mod Fairness
pub mod Timer
mod Tests
use armonios.Prelude.{
  ℕ, zero, suc, ◌+◌, ◌-◌, ◌*◌, Bool, true, false, List, [], ◌∷◌, Option, none, some, if◌then◌else◌,
  ltb, ◌==◌, get_or, set, add32, sub32, add64, mul64, replicate,
}
use armonios.Pmm.{Pmm, page_size, pmm_alloc_pages, pmm_free_page}
use armonios.RoundRobin.{pick}

abbrev pub max_threads : ℕ
max_threads = 4

abbrev pub stack_pages : ℕ
stack_pages = 4

-- `sched_context_t`
pub record Context : Type 0 where
  pub x19 : ℕ
  pub x20 : ℕ
  pub x21 : ℕ
  pub x22 : ℕ
  pub x23 : ℕ
  pub x24 : ℕ
  pub x25 : ℕ
  pub x26 : ℕ
  pub x27 : ℕ
  pub x28 : ℕ
  pub x29 : ℕ
  pub sp : ℕ
  pub lr : ℕ

-- `thread_state_t`
pub data ThreadState : Type 0 where
  unused ready running zombie : ThreadState

-- `kernel_thread_t`
pub record Thread : Type 0 where
  pub pid : ℕ
  pub state : ThreadState
  pub context : Context
  pub stack_base : ℕ
  pub name : ℕ

pub record Sched : Type 0 where
  pub ticks : ℕ
  pub quantums : ℕ
  pub quantum_ticks : ℕ
  pub ticks_left : ℕ
  pub threads : List Thread
  pub current : Option ℕ
  pub thread_count : ℕ
  pub next_pid : ℕ
  pub pmm : Pmm

abbrev pub no_context : Context
no_context = record {
  x19 = 0;
  x20 = 0;
  x21 = 0;
  x22 = 0;
  x23 = 0;
  x24 = 0;
  x25 = 0;
  x26 = 0;
  x27 = 0;
  x28 = 0;
  x29 = 0;
  sp = 0;
  lr = 0;
}

abbrev pub no_thread : Thread
no_thread = record { pid = 0; state = unused; context = no_context; stack_base = 0; name = 0 }

abbrev pub thread_at : Sched → ℕ → Thread
thread_at s i = get_or s.threads i no_thread

-- sched_init leaves the contexts of the threads.
abbrev pub reset_threads : List Thread → List Thread
reset_threads [] = []
reset_threads (t ∷ ts) =
    record t { pid = 0; state = unused; stack_base = 0; name = 0 } ∷ reset_threads ts

unfoldable pub sched_init : Sched → ℕ → Sched
sched_init s quantum_ticks =
    let quantum = if quantum_ticks == 0 then 1 else quantum_ticks in
    record s {
      ticks = 0;
      quantums = 0;
      quantum_ticks = quantum;
      ticks_left = quantum;
      threads = reset_threads s.threads;
      current = none;
      thread_count = 0;
      next_pid = 1;
    }

abbrev pub is_state_ready : ThreadState → Bool
is_state_ready unused = false
is_state_ready ready = true
is_state_ready running = false
is_state_ready zombie = false

abbrev pub is_ready : Sched → ℕ → Bool
is_ready s i = is_state_ready (thread_at s i).state

abbrev pub start_of : Option ℕ → ℕ
start_of none = 0
start_of (some c) = c + 1

unfoldable pub next_runnable_thread : Sched → Option ℕ
unfolding pick
next_runnable_thread s = pick max_threads (is_ready s) (start_of s.current) 0 max_threads

abbrev pub is_state_unused : ThreadState → Bool
is_state_unused unused = true
is_state_unused ready = false
is_state_unused running = false
is_state_unused zombie = false

-- the search for an unused slot, from index `i` on
unfoldable pub find_unused : List Thread → ℕ → Option ℕ
find_unused [] i = none
find_unused (t ∷ ts) i =
    let rest = find_unused ts (i + 1) in if is_state_unused t.state then some i else rest

-- The context of a new thread: the trampoline finds the entry and its argument in x19 and x20.
abbrev pub first_context : ℕ → ℕ → ℕ → ℕ → Context
first_context entry arg stack trampoline = record no_context {
  x19 = entry;
  x20 = arg;
  sp = add64 stack (stack_pages * page_size);
  lr = trampoline;
}

abbrev pub create_thread_in : Sched → Option ℕ → ℕ → ℕ → ℕ → ℕ → Bool × Sched
create_thread_in s none entry arg name trampoline = (false, s)
create_thread_in s (some i) entry arg name trampoline =
    let (stack, pmm) = pmm_alloc_pages s.pmm stack_pages in
    if stack == 0 then (false, record s { pmm = pmm }) else (
      true,
      record s {
        pmm = pmm;
        threads = set s.threads i (record {
          pid = s.next_pid;
          state = ready;
          context = first_context entry arg stack trampoline;
          stack_base = stack;
          name = name;
        });
        next_pid = add32 s.next_pid 1;
        thread_count = add32 s.thread_count 1;
      },
    )

-- `entry` 0 is the null pointer; `trampoline` is the address of sched_thread_trampoline.
unfoldable pub sched_create_kernel_thread : Sched → ℕ → ℕ → ℕ → ℕ → Bool × Sched
sched_create_kernel_thread s entry arg name trampoline =
    if entry == 0
    then (false, s)
    else create_thread_in s (find_unused s.threads 0) entry arg name trampoline

abbrev pub with_state : Sched → ℕ → ThreadState → List Thread
with_state s i st = set s.threads i (record (thread_at s i) { state = st })

-- Thread `i` becomes the one that runs.
abbrev pub run : Sched → ℕ → Sched
run s i = record s { threads = with_state s i running; current = some i }

abbrev pub start_in : Sched → Option ℕ → Context → Context × Sched
start_in s none cpu = (cpu, s)
start_in s (some i) cpu = ((thread_at s i).context, run s i)

unfoldable pub sched_start : Context → Sched → Context × Sched
sched_start cpu s = start_in s (next_runnable_thread s) cpu

-- switch_context: the registers are saved in the old thread and loaded from the new one.
abbrev pub save_context : Sched → ℕ → Context → Sched
save_context s i cpu = record s {
  threads = set s.threads i (record (thread_at s i) { context = cpu });
}

abbrev pub switch_to : Sched → ℕ → ℕ → Context → Context × Sched
switch_to s old next cpu = let t = save_context s old cpu in ((thread_at t next).context, t)

abbrev pub yield_in : Sched → ℕ → Option ℕ → Context → Context × Sched
yield_in s old none cpu = (cpu, s)
yield_in s old (some next) cpu =
    if next == old
    then (cpu, s)
    else switch_to (run (record s { threads = with_state s old ready }) next) old next cpu

abbrev pub yield_from : Option ℕ → Context → Sched → Context × Sched
yield_from none cpu s = (cpu, s)
yield_from (some old) cpu s = yield_in s old (next_runnable_thread s) cpu

unfoldable pub sched_yield : Context → Sched → Context × Sched
sched_yield cpu s = yield_from s.current cpu s

-- for (i …) pmm_free_page(stack + i * PAGE_SIZE), with `n` rounds left
unfoldable pub free_pages_loop : Pmm → ℕ → ℕ → ℕ → Pmm
free_pages_loop p stack i zero = p
free_pages_loop p stack i (suc n) =
    free_pages_loop (pmm_free_page p (add64 stack (mul64 i page_size))) stack (i + 1) n

unfoldable pub free_stack : Sched → ℕ → Sched
unfolding free_pages_loop
free_stack s i =
    let t = thread_at s i in
    if t.stack_base == 0 then s else record s {
      pmm = free_pages_loop s.pmm t.stack_base 0 stack_pages;
      threads = set s.threads i (record t { stack_base = 0 });
    }

abbrev pub exit_in : Sched → ℕ → Option ℕ → Context → Option Context × Sched
exit_in s old none cpu = (none, free_stack s old)
exit_in s old (some next) cpu =
    let (loaded, t) = switch_to (free_stack (run s next) old) old next cpu in (some loaded, t)

abbrev pub exit_thread : Sched → ℕ → Context → Option Context × Sched
exit_thread s old cpu =
    let t = record s {
      threads = with_state s old zombie;
      thread_count = if ltb 0 s.thread_count then s.thread_count - 1 else s.thread_count;
    } in
    exit_in t old (next_runnable_thread t) cpu

abbrev pub exit_from : Option ℕ → Context → Sched → Option Context × Sched
exit_from none cpu s = (none, s)
exit_from (some old) cpu s = exit_thread s old cpu

unfoldable pub sched_thread_exit : Context → Sched → Option Context × Sched
sched_thread_exit cpu s = exit_from s.current cpu s

unfoldable pub sched_on_timer_tick : Sched → Sched
sched_on_timer_tick s =
    let left = if ltb 0 s.ticks_left then s.ticks_left - 1 else s.ticks_left in
    if left == 0
    then record s {
      ticks = add64 s.ticks 1;
      quantums = add64 s.quantums 1;
      ticks_left = s.quantum_ticks;
    }
    else record s { ticks = add64 s.ticks 1; ticks_left = left }

unfoldable pub sched_ticks : Sched → ℕ
sched_ticks s = s.ticks

unfoldable pub sched_quantums : Sched → ℕ
sched_quantums s = s.quantums
