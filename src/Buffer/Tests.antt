-- ===== src/Buffer/Tests.antt =====
-- programs/libkarm/buffer.c on one buffer of 64 bytes that holds three.
use armonios.Prelude.{ℕ, ◌+◌, ◌≤◌, ◌<◌, ◌≡◌, ◌⊎◌, refl, arith, u64_max}
use armonios.Arena.{Arena, alloc_from, align_to, is_power_of_two}
use armonios.LibString.{memmove, memcpy, copy_down}
use armonios.Buffer.{
  World, Buffer, ok, inval, nomem, reserve_in, reallocate, append_in, grow_capacity,
  buffer_is_valid,
}
use armonios.Buffer.Reserve.{InArena, grow_capacity_lem}
use armonios.Buffer.Capacity.{Full}
use armonios.Buffer.Append.{Appended, append_in_lem}

abbrev arena : Arena
arena = record { base = 0x1000; capacity = 1024; offset = 64; mapping_size = 0 }

abbrev world : World
world = record { bytes = λ x. x; arenas = λ p. arena }

abbrev three : Buffer
three = record { data_at = 0x1000; length = 3; capacity = 64; arena = 8 }

three-InArena : InArena world three
three-InArena = record {
  not_null = omega arith;
  arena = omega arith;
  below = omega arith;
  empty = omega arith;
  behind = omega arith;
  before = omega arith;
  small = omega arith;
}

-- the buffer appended to itself until it moves
append_moves :
    let (s, b, w) = append_in world three 0x1000 62 in
    (s ≡ ok) × (b.data_at ≡ 0x1040) × (b.capacity ≡ 128) × (w.bytes (0x1040 + 3) ≡ 0x1000)
unfolding append_in reserve_in reallocate grow_capacity buffer_is_valid alloc_from align_to
    is_power_of_two memmove memcpy copy_down
append_moves = (refl, refl, refl, refl)

grow_capacity_lem_example :
    (1000 ≤ grow_capacity 64 64 1000)
    × (grow_capacity 64 64 1000 ≤ u64_max)
    × (64 ≤ grow_capacity 64 64 1000)
grow_capacity_lem_example =
    grow_capacity_lem 64 64 1000 (omega arith) (omega arith) (omega arith) (omega arith)

append_in_lem_example :
    let (s, b, w) = append_in world three 0x1000 62 in
    ((s ≡ ok) × Appended world three 0x1000 62 b w)
    ⊎ ((((s ≡ nomem) × Full arena 64 65) ⊎ ((s ≡ inval) × (u64_max < 65)))
        × (b ≡ three)
        × ((x : ℕ) → w.bytes x ≡ x)
        × InArena w three)
append_in_lem_example =
    append_in_lem world three 0x1000 62 three-InArena (omega arith) (omega arith) (omega arith)
      (λ x lo hi. omega arith)
