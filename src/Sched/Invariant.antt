-- ===== src/Sched/Invariant.antt =====
-- Which thread runs, across the operations of kernel/sched/sched.c.
use mathlib.Core.Path.{subst}
use armonios.Prelude.{
  ℕ, ◌+◌, ◌%◌, ◌≤◌, ◌<◌, ltb, ◌≡◌, ◌≢◌, ◌⊎◌, refl, sym, ap, ◌∙◌, inl, inr, Bool, true, false,
  Option, none, some, arith, if◌then◌else◌, ◌==◌, Bool-cases, length, get_or, length-set,
  get_or-set,
}
use armonios.RoundRobin.{pick, pick_lem, NoneReady, distance, reached}
use armonios.Sched.{
  Context, Thread, ThreadState, unused, ready, running, zombie, Sched, max_threads, no_thread,
  thread_at, is_ready, is_state_ready, start_of, next_runnable_thread, with_state, run, switch_to,
  yield_in, yield_from, sched_yield,
}

abbrev pub is_state_running : ThreadState → Bool
is_state_running unused = false
is_state_running ready = false
is_state_running running = true
is_state_running zombie = false

abbrev pub is_running : Sched → ℕ → Bool
is_running s i = is_state_running (thread_at s i).state

abbrev pub is_some_of : Option ℕ → ℕ → Bool
is_some_of none i = false
is_some_of (some c) i = i == c

-- The current thread runs, and no other does.
pub record IsSched (s : Sched) : Type 0 where
  pub table : length s.threads ≡ max_threads
  pub current : (c : ℕ) → s.current ≡ some c → c < max_threads
  pub alone : (i : ℕ) → i < max_threads → is_running s i ≡ is_some_of s.current i

-- The state after a switch from `c` to `j`, thread by thread.
pub switched : Sched → ℕ → ℕ → Context → Sched
switched s c j cpu = (switch_to (run (record s { threads = with_state s c ready }) j) c j cpu).1

module _ (s : Sched) (c j : ℕ) (cpu : Context) (v : IsSched s) (cur : s.current ≡ some c)
    (hc : c < max_threads) (hj : j < max_threads) (ne : j ≢ c) where
  pub thread_at-switched :
      (k : ℕ)
      → thread_at (switched s c j cpu) k ≡ (
          if k == c
          then record (thread_at s c) { state = ready; context = cpu }
          else if k == j
          then record (thread_at s j) { state = running }
          else thread_at s k)
  unfolding switched
  thread_at-switched k =
      let ts = with_state s c ready in
      let old = record (thread_at s c) { state = ready } in
      let l1 = length-set s.threads c old in
      let u = run (record s { threads = ts }) j in
      let j_there : get_or ts j no_thread ≡ thread_at s j =
        get_or-set s.threads c j old no_thread (omega (arith, v.table)) ∙ ground arith in
      let l2 = length-set ts j (record (get_or ts j no_thread) { state = running }) in
      let c_there : thread_at u c ≡ old =
        get_or-set ts j c _ no_thread (omega (arith, l1, v.table))
        ∙ (let far : (c == j) ≡ false = ground arith in
            rw far (
              get_or-set s.threads c c old no_thread (omega (arith, v.table))
              ∙ (let self : (c == c) ≡ true = ground arith in rw self refl))) in
      get_or-set u.threads c k (record (thread_at u c) { context = cpu }) no_thread
        (omega (arith, l1, l2, v.table))
      ∙ elim (Bool-cases (k == c)) [
        | inl e ↦ rw e (ap (λ (t : Thread). record t { context = cpu }) c_there)
        | inr e ↦ rw e (
            get_or-set ts j k (record (get_or ts j no_thread) { state = running }) no_thread
              (omega (arith, l1, v.table))
            ∙ elim (Bool-cases (k == j)) [
              | inl f ↦ rw f (ap (λ (t : Thread). record t { state = running }) j_there)
              | inr f ↦
                  rw f (get_or-set s.threads c k old no_thread (omega (arith, v.table)) ∙ rw e refl)
            ])
      ]

  pub switched-IsSched : IsSched (switched s c j cpu)
  unfolding switched
  switched-IsSched = record {
    table =
        length-set (run (record s { threads = with_state s c ready }) j).threads c _
        ∙ length-set (with_state s c ready) j _
        ∙ length-set s.threads c _
        ∙ v.table;
    current = λ k e. ground arith;
    alone = λ k lt.
        ap (λ (t : Thread). is_state_running t.state) (thread_at-switched k)
        ∙ elim (Bool-cases (k == c)) [
          | inl e ↦ let apart : (k == j) ≡ false = ground arith in rw (e, apart) refl
          | inr e ↦ elim (Bool-cases (k == j)) [
            | inl f ↦ rw (e, f) refl
            | inr f ↦ rw (e, f) (v.alone k lt ∙ ap (λ (o : Option ℕ). is_some_of o k) cur ∙ e)
          ]
        ];
  }

  -- The thread that starts has the registers it was saved with.
  context_switched : (thread_at (switched s c j cpu) j).context ≡ (thread_at s j).context
  context_switched =
      let away : (j == c) ≡ false = ground arith in
      let here : (j == j) ≡ true = ground arith in
      ap (λ (t : Thread). t.context) (thread_at-switched j) ∙ rw (away, here) refl

-- The search of the scheduler, from the current thread `c`.
pub next_runnable_thread_from :
    (s : Sched) (c : ℕ)
    → s.current ≡ some c
    → next_runnable_thread s ≡ pick max_threads (is_ready s) (c + 1) 0 max_threads
unfolding next_runnable_thread
next_runnable_thread_from s c cur =
    ap (λ (o : Option ℕ). pick max_threads (is_ready s) (start_of o) 0 max_threads) cur

pub sched_yield_from :
    (s : Sched) (c : ℕ) (cpu : Context)
    → s.current ≡ some c
    → sched_yield cpu s ≡ yield_in s c (pick max_threads (is_ready s) (c + 1) 0 max_threads) cpu
unfolding sched_yield
sched_yield_from s c cpu cur =
    ap (λ (o : Option ℕ). yield_from o cpu s) cur
    ∙ ap (λ (o : Option ℕ). yield_in s c o cpu) (next_runnable_thread_from s c cur)

-- A yield whose search finds another thread.
pub sched_yield-switched :
    (s : Sched) (c j : ℕ) (cpu : Context)
    → s.current ≡ some c
    → j ≢ c
    → pick max_threads (is_ready s) (c + 1) 0 max_threads ≡ some j
    → (sched_yield cpu s).1 ≡ switched s c j cpu
unfolding switched
sched_yield-switched s c j cpu cur ne found =
    let far : (j == c) ≡ false = ground arith in
    let e : yield_in s c (some j) cpu
        ≡ switch_to (run (record s { threads = with_state s c ready }) j) c j cpu =
      rw far refl in
    ap (λ (p : Context × Sched). p.1)
      (sched_yield_from s c cpu cur ∙ ap (λ (o : Option ℕ). yield_in s c o cpu) found ∙ e)

pub current-switched : (s : Sched) (c j : ℕ) (cpu : Context) → (switched s c j cpu).current ≡ some j
unfolding switched
current-switched s c j cpu = refl

-- The current thread does not wait.
pub current_busy : (s : Sched) (c : ℕ) → IsSched s → s.current ≡ some c → is_ready s c ≡ false
current_busy s c v cur =
    let runs : is_running s c ≡ true =
      v.alone c (v.current c cur)
      ∙ ap (λ (o : Option ℕ). is_some_of o c) cur
      ∙ (let e : (c == c) ≡ true = ground arith in e) in
    not_both (thread_at s c).state runs
  where
    not_both : (t : ThreadState) → is_state_running t ≡ true → is_state_ready t ≡ false
    not_both unused h = refl
    not_both ready h = cc
    not_both running h = refl
    not_both zombie h = refl

-- A search that finds nothing has seen every thread.
none_ready :
    (s : Sched) (c : ℕ)
    → c < max_threads
    → NoneReady max_threads (is_ready s) (c + 1) 0 max_threads
    → (i : ℕ) → i < max_threads
    → is_ready s i ≡ false
none_ready s c hc none_there i hi =
    ap (is_ready s) (sym (reached max_threads c i hc hi))
    ∙ none_there (distance max_threads c i) (omega arith) (ground arith)

-- Slot `j` of the table comes no later than any ready thread when one goes from slot `c + 1` on and
-- from the last slot to slot 0.
abbrev pub IsNearest : Sched → ℕ → ℕ → Type 0
IsNearest s c j =
    (j < max_threads)
    × ((i : ℕ)
        → i < max_threads
        → is_ready s i ≡ true
        → distance max_threads c j ≤ distance max_threads c i)

pick-IsNearest :
    (s : Sched) (c o : ℕ)
    → c < max_threads
    → o < max_threads
    → NoneReady max_threads (is_ready s) (c + 1) 0 o
    → IsNearest s c ((c + 1 + o) % max_threads)
pick-IsNearest s c o hc ho before = (
  omega arith,
  λ i hi waits.
      let at : is_ready s ((c + 1 + distance max_threads c i) % max_threads) ≡ true =
        ap (is_ready s) (reached max_threads c i hc hi) ∙ waits in
      let same : distance max_threads c ((c + 1 + o) % max_threads) ≡ o = ground arith in
      elim (Bool-cases (ltb (distance max_threads c i) o)) [
        | inl less ↦
            absurd
              (ground (arith, at, before (distance max_threads c i) (omega arith) (ground arith)))
        | inr le ↦ ground arith
      ],
)

-- A yield of the current thread `c` switches to the first ready thread behind it, round the table:
-- that one runs with its own registers, `c` is ready with the registers it had, and no other thread
-- changes. With no thread ready it goes on. Either way the current thread runs, and no other.
pub sched_yield_lem :
    (s : Sched) (c k : ℕ) (cpu : Context)
    → IsSched s
    → s.current ≡ some c
    → let (loaded, s') = sched_yield cpu s in
      (((i : ℕ) → i < max_threads → is_ready s i ≡ false) × (loaded ≡ cpu) × (s' ≡ s))
      ⊎ ((j : ℕ) × ((is_ready s j ≡ true)
            × IsNearest s c j
            × (loaded ≡ (thread_at s j).context)
            × (s'.current ≡ some j)
            × (thread_at s' k ≡ (
                if k == c
                then record (thread_at s c) { state = ready; context = cpu }
                else if k == j
                then record (thread_at s j) { state = running }
                else thread_at s k))
            × IsSched s'))
unfolding switched
sched_yield_lem s c k cpu v cur =
    let hc = v.current c cur in
    rw (sched_yield_from s c cpu cur)
      (elim (pick_lem max_threads (is_ready s) (c + 1) 0 max_threads) [
        | inl r ↦ inl (none_ready s c hc r.1, rw r.0 refl, rw r.0 refl)
        | inr r ↦
            let j = (c + 1 + r.0) % max_threads in
            let hj : j < max_threads = omega arith in
            let busy = current_busy s c v cur in
            let ne : j ≢ c = λ e. absurd (ground (arith, r.1.3, ap (is_ready s) e, busy)) in
            let far : (j == c) ≡ false = ground arith in
            let e : yield_in s c (pick max_threads (is_ready s) (c + 1) 0 max_threads) cpu
                ≡ switch_to (run (record s { threads = with_state s c ready }) j) c j cpu =
              ap (λ (o : Option ℕ). yield_in s c o cpu) r.1.0 ∙ rw far refl in
            inr (
              j,
              (
                r.1.3,
                pick-IsNearest s c r.0 hc (omega (arith, r.1.2)) r.1.4,
                ap (λ (p : Context × Sched). p.0) e ∙ context_switched s c j cpu v cur hc hj ne,
                ap (λ (p : Context × Sched). p.1.current) e,
                ap (λ (p : Context × Sched). thread_at p.1 k) e
                    ∙ thread_at-switched s c j cpu v cur hc hj ne k,
                subst (λ (p : Context × Sched). IsSched p.1) (sym e)
                    (switched-IsSched s c j cpu v cur hc hj ne),
              ),
            )
      ])
