-- ===== src/Buffer/Reserve.antt =====
-- kli_buffer_reserve of programs/libkarm/buffer.c.
use native.Mathlib.Nat.{pow-suc}
use armonios.Prelude.{
  ℕ, zero, suc, ◌+◌, ◌*◌, ◌/◌, ◌^◌, ◌≤◌, ◌<◌, ◌≡◌, ◌≢◌, ◌⊎◌, refl, ap, ◌∙◌, inl, inr, true, false,
  some, arith, if◌then◌else◌, ltb, leb, ◌==◌, u64_max, Bool-cases, ==_refl, ltb→le, ltb→lt,
}
use armonios.LibString.{Memory, memmove}
use armonios.LibString.Move.{moved, memmove_lem}
use armonios.Arena.Alloc
use armonios.Arena.{Arena, alloc_from, is_power_of_two}
use armonios.Arena.Alloc.{Block, NoRoom, alloc_from_lem, alloc_from-NoRoom}
use armonios.Buffer.Capacity.{Full, grow_capacity-least}
use armonios.Buffer.{
  World, Buffer, Status, ok, nomem, buffer_is_valid, set_arena, min_capacity, grow_capacity,
  new_capacity, reallocate, reserve_in,
}

-- The loop that doubles the capacity ends by its test or by its break: the result holds the
-- minimum, is a 64-bit number, and is not below the start.
pub grow_capacity_lem :
    (rounds current minimum : ℕ)
    → 0 < current
    → current ≤ u64_max
    → minimum ≤ u64_max
    → minimum ≤ current * 2 ^ rounds
    → (minimum ≤ grow_capacity rounds current minimum)
      × (grow_capacity rounds current minimum ≤ u64_max)
      × (current ≤ grow_capacity rounds current minimum)
unfolding grow_capacity
grow_capacity_lem zero current minimum pos small fits enough = (omega arith, small, omega arith)
grow_capacity_lem (suc rounds) current minimum pos small fits enough =
    let enough' : minimum ≤ current * 2 * 2 ^ rounds =
      omega (arith, ap (λ (t : ℕ). current * t) (pow-suc 2 rounds)) in
    elim (Bool-cases (ltb current minimum)) [
      | inl below ↦ elim (Bool-cases (ltb (u64_max / 2) current)) [
        | inl large ↦
            rw (below, large) (omega arith, fits, omega (arith, ltb→lt current minimum below))
        | inr fits_twice ↦
            let half = ltb→le (u64_max / 2) current fits_twice in
            let rest =
              grow_capacity_lem rounds (current * 2) minimum (omega arith) (omega arith) fits
                enough' in
            rw (below, fits_twice) (rest.0, rest.1, omega (arith, rest.2))
      ]
      | inr done ↦ rw done (ltb→le current minimum done, small, omega arith)
    ]

-- `capacity` is the old one; the result is also at least the minimum capacity.
pub new_capacity_lem :
    (capacity minimum : ℕ)
    → capacity ≤ u64_max
    → minimum ≤ u64_max
    → (minimum ≤ new_capacity capacity minimum)
      × (new_capacity capacity minimum ≤ u64_max)
      × (capacity ≤ new_capacity capacity minimum)
      × (min_capacity ≤ new_capacity capacity minimum)
new_capacity_lem capacity minimum small fits =
    let first = (if ltb capacity min_capacity then min_capacity else capacity) in
    let lower : (min_capacity ≤ first) × (capacity ≤ first) × (first ≤ u64_max) = ground arith in
    let g = grow_capacity_lem 64 first minimum (omega arith) lower.2 fits (omega arith) in
    (g.0, g.1, omega (arith, lower.1, g.2), omega (arith, lower.0, g.2))

-- A buffer's block lies in the used part of the arena `a`, which is valid.
pub record InBlock (a : Arena) (b : Buffer) : Type 0 where
  pub not_null : b.arena ≢ 0
  pub arena : Alloc.IsValid a
  pub below : b.length ≤ b.capacity
  pub empty : b.capacity ≡ 0 → b.data_at ≡ 0
  pub behind : 0 < b.capacity → a.base ≤ b.data_at
  pub before : 0 < b.capacity → b.data_at + b.capacity ≤ a.base + a.offset
  pub small : b.capacity ≤ u64_max

abbrev pub InArena : World → Buffer → Type 0
InArena w b = InBlock (w.arenas b.arena) b

-- the unused part of the arena of `b`
abbrev pub Unused : World → Buffer → ℕ → Type 0
Unused w b x = let a = w.arenas b.arena in (a.base + a.offset ≤ x) × (x < a.base + a.capacity)

-- What a successful reserve has done: the capacity suffices, the buffer holds the same bytes,
-- only unused bytes of the arena have changed, and the block is the old one or was unused.
pub record Reserved (w : World) (b : Buffer) (minimum : ℕ) (b' : Buffer) (w' : World) : Type 0 where
  pub room : minimum ≤ b'.capacity
  pub same_length : b'.length ≡ b.length
  pub same_arena : b'.arena ≡ b.arena
  pub same_bytes : (i : ℕ) → i < b.length → w'.bytes (b'.data_at + i) ≡ w.bytes (b.data_at + i)
  pub frame : (x : ℕ) → ¬ Unused w b x → w'.bytes x ≡ w.bytes x
  pub place : (b' ≡ b) ⊎ ((w.arenas b.arena).base + (w.arenas b.arena).offset ≤ b'.data_at)
  pub valid : InArena w' b'

pub buffer_is_valid-InArena :
    (w : World) (b : Buffer) → InArena w b → buffer_is_valid w (some b) ≡ true
unfolding buffer_is_valid
buffer_is_valid-InArena w b v = ground arith

power_of_two_eight : is_power_of_two 8 ≡ true
unfolding is_power_of_two
power_of_two_eight = refl

pub set_arena_self : (w : World) (p : ℕ) (a : Arena) → (set_arena w p a).arenas p ≡ a
set_arena_self w p a = rw (==_refl p)

-- Moving a valid buffer into a fresh block keeps its bytes, or fails for the reason given with no
-- change.
abbrev pub Outcome : World → Buffer → ℕ → Type 0 → Status × Buffer × World → Type 0
Outcome w b minimum Reason (s, b', w') =
    ((s ≡ ok) × Reserved w b minimum b' w')
    ⊎ ((s ≡ nomem) × Reason × (b' ≡ b) × ((x : ℕ) → w'.bytes x ≡ w.bytes x) × InArena w' b)

copied_lem :
    (dst src n : ℕ) (m : Memory) (x : ℕ)
    → (if n == 0 then m else memmove dst src n m) x ≡ moved dst src n m x
copied_lem dst src n m x = ground (arith, memmove_lem dst src n m x)

reallocate_lem :
    (w : World) (b : Buffer) (size : ℕ)
    → InArena w b
    → b.capacity ≤ size
    → 0 < size
    → size ≤ u64_max
    → Outcome w b size (NoRoom (w.arenas b.arena) size) (reallocate w b size)
unfolding reallocate
reallocate_lem w b size v more pos small =
    elim (alloc_from_lem (w.arenas b.arena) size 8 v.arena pos (omega arith) power_of_two_eight) [
      | inl (failed, same) ↦
          let room = alloc_from-NoRoom (w.arenas b.arena) size v.arena pos failed in
          rw failed (inr (refl, room, refl, λ x. refl, rw (==_refl b.arena, same) v))
      | inr (got, block) ↦
          let test : ((alloc_from (w.arenas b.arena) size 8).0 == 0) ≡ false = ground arith in
          let p = (alloc_from (w.arenas b.arena) size 8).0 in
          rw test (
            inl (
              refl,
              record {
                room = omega arith;
                same_length = refl;
                same_arena = refl;
                same_bytes = λ i lt. copied_lem p b.data_at b.length w.bytes (p + i) ∙ ground arith;
                frame = λ x out. copied_lem p b.data_at b.length w.bytes x ∙ ground arith;
                place = inr block.above;
                valid = rw (==_refl b.arena) (record {
                  not_null = v.not_null;
                  arena = block.valid;
                  below = omega arith;
                  empty = λ e. absurd (omega arith);
                  behind = λ _. omega arith;
                  before = λ _. omega arith;
                  small = small;
                });
              },
            ))
    ]

pub reserve_in_lem :
    (w : World) (b : Buffer) (minimum : ℕ)
    → InArena w b
    → minimum ≤ u64_max
    → Outcome w b minimum (Full (w.arenas b.arena) b.capacity minimum) (reserve_in w b minimum)
unfolding reserve_in
reserve_in_lem w b minimum v fits = elim (Bool-cases (leb minimum b.capacity)) [
  | inl enough ↦
      rw (buffer_is_valid-InArena w b v, enough)
        (inl (
          refl,
          record {
            room = ground arith;
            same_length = refl;
            same_arena = refl;
            same_bytes = λ i lt. refl;
            frame = λ x out. refl;
            place = inl refl;
            valid = v;
          },
        ))
  | inr more ↦
      let n = new_capacity_lem b.capacity minimum v.small fits in
      let passes : ltb (new_capacity b.capacity minimum) minimum ≡ false = ground (arith, n.0) in
      rw (buffer_is_valid-InArena w b v, more, passes)
        (elim (reallocate_lem w b (new_capacity b.capacity minimum) v n.2 (omega (arith, n.3))
          n.1) [
            | inl (e, r) ↦ inl (
              e,
              record {
                room = omega (arith, n.0, r.room);
                same_length = r.same_length;
                same_arena = r.same_arena;
                same_bytes = r.same_bytes;
                frame = r.frame;
                place = r.place;
                valid = r.valid;
              },
            )
            | inr (e, room, same, bytes, still) ↦ inr (
              e,
              record {
                asked = new_capacity b.capacity minimum;
                small = ground arith;
                holds = n.0;
                least = λ k holds.
                    grow_capacity-least 64 (if ltb b.capacity 64 then 64 else b.capacity) minimum k
                      holds;
                no_room = room;
              },
              same,
              bytes,
              still,
            )
          ])
]
