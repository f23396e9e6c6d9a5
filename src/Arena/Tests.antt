-- ===== src/Arena/Tests.antt =====
-- programs/libkarm/arena.c on one arena.
use armonios.Prelude.{◌≡◌, refl, true, some, arith}
use armonios.Arena.{
  Arena, alloc_from, align_to, is_power_of_two, kli_arena_reset, kli_arena_remaining,
}
use armonios.Arena.Alloc.{IsValid, kli_arena_reset_lem}

-- five of the 100 bytes from 0x1000 on are used
abbrev arena : Arena
arena = record { base = 0x1000; capacity = 100; offset = 5; mapping_size = 0 }

arena-IsValid : IsValid arena
arena-IsValid = omega arith

alloc_twelve : alloc_from arena 12 8 ≡ (0x1008, record arena { offset = 20 })
unfolding alloc_from align_to is_power_of_two
alloc_twelve = refl

sixteen : is_power_of_two 16 ≡ true
unfolding is_power_of_two
sixteen = refl

kli_arena_reset_lem_example :
    (b : Arena) × (kli_arena_reset (some arena) ≡ some b)
    × IsValid b
    × (b.base ≡ 0x1000)
    × (kli_arena_remaining (some b) ≡ 100)
kli_arena_reset_lem_example = kli_arena_reset_lem arena arena-IsValid
