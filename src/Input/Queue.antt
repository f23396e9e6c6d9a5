-- ===== src/Input/Queue.antt =====
-- The event queue of drivers/input/input.c as a list of at most 64 events, oldest first.
use mathlib.Core.Option
use mathlib.Core.Path.{ap₂}
use armonios.Prelude.{
  ℕ, suc, ◌+◌, ◌-◌, ◌%◌, ◌≤◌, ◌<◌, ◌≡◌, refl, sym, ap, ◌∙◌, true, false, List, [], ◌∷◌, ◌++◌,
  Option, none, some, arith, if◌then◌else◌, ltb, leb, ◌==◌, length, get_or, set, drop, length-set,
  Bool-cases, ==→eq, inl, inr, add32, sub32, add64,
}
use armonios.Ring.{window, length-window, window-push}
use armonios.Input.{
  Input, InputEvent, key_event, queue_size, stats_of, push_event, input_queue_poll,
  input_queue_push,
}

-- The queued events, oldest first.
abbrev pub contents : Input → List InputEvent
contents s = window queue_size s.events (key_event 0) s.head s.count

pub record IsInput (s : Input) : Type 0 where
  pub array : length s.events ≡ queue_size
  pub head : s.head < queue_size
  pub count : s.count ≤ queue_size
  pub tail : s.tail ≡ (s.head + s.count) % queue_size
  pub high_water : s.count ≤ s.high_water

abbrev pub first {ℓ} : {A : Type ℓ} → List A → Option A
first [] = none
first (x ∷ xs) = some x

pub push_event-room :
    (e : InputEvent) (s : Input)
    → IsInput s
    → s.count < queue_size
    → let s' = (push_event e s).1 in
      ((push_event e s).0 ≡ true)
      × IsInput s'
      × (contents s' ≡ contents s ++ (e ∷ []))
      × (s'.overflow ≡ s.overflow)
      × (s'.esc_state ≡ s.esc_state)
unfolding push_event
push_event-room e s v room =
    let has : leb queue_size s.count ≡ false = ground arith in
    let more : add32 s.count 1 ≡ suc s.count = omega arith in
    rw (has, more)
      (
        refl,
        record {
          array = length-set s.events s.tail e ∙ v.array;
          head = v.head;
          count = omega arith;
          tail = omega (arith, v.tail);
          high_water = ground arith;
        },
        ap (λ (t : ℕ). window queue_size (set s.events t e) (key_event 0) s.head (suc s.count))
              v.tail
            ∙ window-push queue_size s.events (key_event 0) s.head s.count e v.array v.head room,
        refl,
        refl,
      )

push_event-full :
    (e : InputEvent) (s : Input)
    → queue_size ≤ s.count
    → push_event e s ≡ (false, record s { overflow = add64 s.overflow 1 })
unfolding push_event
push_event-full e s full = let has : leb queue_size s.count ≡ true = ground arith in rw has

-- A pushed event goes behind the others while there are less than 64, and otherwise it is refused
-- and counted, and the queue stays. The invariant is kept.
pub input_queue_push_lem :
    (e : InputEvent) (s : Input)
    → IsInput s
    → let (done, s') = input_queue_push (some e) s in
      IsInput s'
      × (done ≡ ltb (length (contents s)) queue_size)
      × (contents s' ≡ (if done then contents s ++ (e ∷ []) else contents s))
      × (s'.overflow ≡ (if done then s.overflow else add64 s.overflow 1))
unfolding input_queue_push
input_queue_push_lem e s v =
    let n : length (contents s) ≡ s.count =
      length-window queue_size s.events (key_event 0) s.head s.count in
    elim (Bool-cases (ltb s.count queue_size)) [
      | inl less ↦
          let p = push_event-room e s v (ground arith) in
          let room : ltb (length (contents s)) queue_size ≡ true =
            ap (λ k. ltb k queue_size) n ∙ less in
          rw (room, p.0) (p.1, refl, p.2, p.3)
      | inr full ↦
          let no_room : ltb (length (contents s)) queue_size ≡ false =
            ap (λ k. ltb k queue_size) n ∙ full in
          rw (no_room, push_event-full e s (ground arith))
            (
              record {
                array = v.array;
                head = v.head;
                count = v.count;
                tail = v.tail;
                high_water = v.high_water;
              },
              refl,
              refl,
              refl,
            )
    ]

-- A poll takes the oldest event, or none from an empty queue, and keeps the rest and the invariant.
pub input_queue_poll_lem :
    (s : Input)
    → IsInput s
    → let (r, s') = input_queue_poll s in
      IsInput s'
      × (r ≡ Option.map (λ e. (e, stats_of s)) (first (contents s)))
      × (contents s' ≡ drop 1 (contents s))
unfolding input_queue_poll window
input_queue_poll_lem s v = elim (Bool-cases (s.count == 0)) [
  | inl empty ↦
      let w : contents s ≡ [] =
        ap (λ c. window queue_size s.events (key_event 0) s.head c) (==→eq s.count 0 empty) in
      rw empty (
        v,
        ap (λ (l : List InputEvent). Option.map (λ e. (e, stats_of s)) (first l)) (sym w),
        w ∙ ap (drop 1) (sym w),
      )
  | inr more ↦
      let m = s.count - 1 in
      let at = (s.head + 1) % queue_size in
      let some_left : s.count ≡ suc m = ground arith in
      let w : contents s
          ≡ get_or s.events s.head (key_event 0) ∷ window queue_size s.events (key_event 0) at m =
        ap (λ c. window queue_size s.events (key_event 0) s.head c) some_left in
      let next : add32 s.head 1 % queue_size ≡ at = omega arith in
      let less : sub32 s.count 1 ≡ m = ground arith in
      rw more (
        record {
          array = v.array;
          head = omega arith;
          count = ground arith;
          tail = v.tail ∙ ground arith;
          high_water = ground arith;
        },
        ap (λ (l : List InputEvent). Option.map (λ e. (e, stats_of s)) (first l)) (sym w),
        ap₂ (λ h c. window queue_size s.events (key_event 0) h c) next less ∙ ap (drop 1) (sym w),
      )
]
