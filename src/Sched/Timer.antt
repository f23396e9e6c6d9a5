-- ===== src/Sched/Timer.antt =====
-- The timer tick of kernel/sched/sched.c.
use native.Mathlib.Nat.{div-eq_of_lt-le}
use armonios.Prelude.{
  ℕ, zero, suc, ◌+◌, ◌-◌, ◌*◌, ◌/◌, ◌≤◌, ◌<◌, ◌≡◌, refl, sym, inl, inr, true, arith, if◌then◌else◌,
  ltb, ◌==◌, Bool-cases, u64_mod, add64,
}
use armonios.Sched.{Sched, sched_init, sched_on_timer_tick, sched_ticks, sched_quantums}

-- `n` timer ticks
unfoldable pub ticked : ℕ → Sched → Sched
ticked zero s = s
ticked (suc n) s = sched_on_timer_tick (ticked n s)

-- The length of a time slice: 0 counts as 1.
abbrev pub slice : ℕ → ℕ
slice q = if q == 0 then 1 else q

-- After `n` ticks.
record IsCounted (q n : ℕ) (s : Sched) : Type 0 where
  ticks : s.ticks ≡ n
  quantum : s.quantum_ticks ≡ slice q
  more : 0 < s.ticks_left
  fits : s.ticks_left ≤ slice q
  counted : s.quantums * slice q + (slice q - s.ticks_left) ≡ n

le_mul : (a b : ℕ) → 0 < b → a ≤ a * b
le_mul zero b pos = omega arith
le_mul (suc a) b pos = omega (arith, le_mul a b pos)

next_multiple : (k b n : ℕ) → k * b + (b - 1) ≡ n → 0 < b → suc k * b ≡ suc n
next_multiple k b n e pos = omega arith

sched_on_timer_tick-IsCounted :
    (q n : ℕ) (s : Sched)
    → 0 < slice q
    → suc n < u64_mod
    → IsCounted q n s
    → IsCounted q (suc n) (sched_on_timer_tick s)
unfolding sched_on_timer_tick
sched_on_timer_tick-IsCounted q n s pos small v =
    let more : ltb 0 s.ticks_left ≡ true = ground (arith, v.more) in
    rw more (elim (Bool-cases (s.ticks_left - 1 == 0)) [
      | inl e ↦
          let one : s.ticks_left ≡ 1 = ground (arith, v.more) in
          let full : suc s.quantums * slice q ≡ suc n =
            next_multiple s.quantums (slice q) n (omega (arith, v.counted, one)) pos in
          let below = le_mul (suc s.quantums) (slice q) pos in
          let q_up : add64 s.quantums 1 ≡ suc s.quantums = omega (arith, below, full) in
          rw e (record {
            ticks = omega (arith, v.ticks);
            quantum = v.quantum;
            more = omega (arith, v.quantum);
            fits = omega (arith, v.quantum);
            counted = rw (q_up, v.quantum) (omega (arith, full));
          })
      | inr e ↦
          let big : 1 < s.ticks_left = ground (arith, v.more) in
          rw e (record {
            ticks = omega (arith, v.ticks);
            quantum = v.quantum;
            more = omega arith;
            fits = omega (arith, v.fits);
            counted = omega (arith, v.counted, v.fits);
          })
    ])

ticked-IsCounted :
    (q n : ℕ) (s : Sched) → 0 < slice q → n < u64_mod → IsCounted q n (ticked n (sched_init s q))
unfolding ticked sched_init
ticked-IsCounted q zero s pos small = record {
  ticks = refl;
  quantum = refl;
  more = pos;
  fits = omega arith;
  counted = omega arith;
}
ticked-IsCounted q (suc n) s pos small =
    sched_on_timer_tick-IsCounted q n (ticked n (sched_init s q)) pos small
      (ticked-IsCounted q n s pos (omega arith))

-- After the scheduler is started with a time slice of `q` ticks, 0 for 1, and `n` ticks, fewer than
-- 2 ^ 64, it counts `n` ticks and as many time slices as `n` ticks hold.
pub sched_quantums_lem :
    (s : Sched) (q n : ℕ)
    → n < u64_mod
    → (sched_ticks (ticked n (sched_init s q)) ≡ n)
      × (sched_quantums (ticked n (sched_init s q)) ≡ n / slice q)
unfolding sched_ticks sched_quantums
sched_quantums_lem s q n small =
    let t = ticked n (sched_init s q) in
    let pos : 0 < slice q = ground arith in
    let v = ticked-IsCounted q n s pos small in
    (
      v.ticks,
      sym (
          div-eq_of_lt-le {k = t.quantums} (slice q) (omega (arith, v.counted))
            (omega (arith, v.counted, v.more, v.fits))),
    )
