-- ===== src/Buffer.antt =====
-- programs/libkarm/buffer.c: the growable byte buffer over an arena.
-- A `World` is the memory and the arenas in it, by their addresses. A null buffer is `none`; a
-- function that updates `*buffer` returns it beside its status and the world.
pub mod Capacity
pub mod Reserve
pub mod Append
mod Tests
use armonios.Prelude.{
  ℕ, zero, suc, ◌+◌, ◌-◌, ◌*◌, ◌/◌, Bool, true, false, not, ◌&&◌, ◌||◌, Option, none, some,
  if◌then◌else◌, ltb, leb, ◌==◌, u64_max, add64,
}
use armonios.LibString.{Memory, memmove}
use armonios.Arena.{Arena, alloc_from}

-- 0, KLI_INVAL and KLI_NOMEM
pub data Status : Type 0 where
  ok inval nomem : Status

pub record World : Type 0 where
  pub bytes : Memory
  pub arenas : ℕ → Arena

-- `kli_buffer_t`; `data` and `arena` are addresses, and 0 is the null pointer.
pub record Buffer : Type 0 where
  pub data_at : ℕ
  pub length : ℕ
  pub capacity : ℕ
  pub arena : ℕ

abbrev pub buffer_clear_all : Buffer
buffer_clear_all = record { data_at = 0; length = 0; capacity = 0; arena = 0 }

abbrev pub set_arena : World → ℕ → Arena → World
set_arena w p a = record w { arenas = λ q. if q == p then a else w.arenas q }

-- an arena pointer that kli_buffer_init accepts
unfoldable pub arena_is_usable : World → ℕ → Bool
arena_is_usable w p = let a = w.arenas p in not (p == 0 || a.base == 0 || ltb a.capacity a.offset)

unfoldable pub buffer_is_valid : World → Option Buffer → Bool
unfolding arena_is_usable
buffer_is_valid w none = false
buffer_is_valid w (some b) =
    if not (arena_is_usable w b.arena) || ltb b.capacity b.length
    then false
    else (if b.capacity == 0 && not (b.data_at == 0) || not (b.capacity == 0) && b.data_at == 0
        then false
        else true)

unfoldable pub kli_buffer_init : World → Option Buffer → ℕ → Status × Option Buffer
unfolding arena_is_usable
kli_buffer_init w none arena = (inval, none)
kli_buffer_init w (some b) arena =
    if not (arena_is_usable w arena)
    then (inval, some buffer_clear_all)
    else (ok, some (record buffer_clear_all { arena = arena }))

abbrev pub min_capacity : ℕ
min_capacity = 64

-- while (new_capacity < minimum) …, with the rounds bounded: from 64 on, 64 doublings pass any
-- 64-bit minimum.
unfoldable pub grow_capacity : ℕ → ℕ → ℕ → ℕ
grow_capacity zero current minimum = current
grow_capacity (suc rounds) current minimum =
    let doubled = grow_capacity rounds (current * 2) minimum in
    if ltb current minimum then if ltb (u64_max / 2) current then minimum else doubled else current

abbrev pub new_capacity : ℕ → ℕ → ℕ
new_capacity capacity minimum =
    grow_capacity 64 (if ltb capacity min_capacity then min_capacity else capacity) minimum

-- kli_buffer_reserve on a buffer that is valid and too small
unfoldable pub reallocate : World → Buffer → ℕ → Status × Buffer × World
reallocate w b size =
    let (p, a) = alloc_from (w.arenas b.arena) size 8 in
    if p == 0 then (nomem, b, set_arena w b.arena a) else (
      ok,
      record b { data_at = p; capacity = size },
      record (set_arena w b.arena a) {
        bytes = if b.length == 0 then w.bytes else memmove p b.data_at b.length w.bytes;
      },
    )

-- kli_buffer_reserve behind its null test
unfoldable pub reserve_in : World → Buffer → ℕ → Status × Buffer × World
reserve_in w b minimum =
    if not (buffer_is_valid w (some b))
    then (inval, b, w)
    else if leb minimum b.capacity
    then (ok, b, w)
    else if ltb (new_capacity b.capacity minimum) minimum
    then (nomem, b, w)
    else reallocate w b (new_capacity b.capacity minimum)

unfoldable pub kli_buffer_reserve : World → Option Buffer → ℕ → Status × Option Buffer × World
kli_buffer_reserve w none minimum = (inval, none, w)
kli_buffer_reserve w (some b) minimum = let (s, b', w') = reserve_in w b minimum in (s, some b', w')

-- The end of kli_buffer_append, once the bytes are reserved.
abbrev pub copy_behind : Status × Buffer × World → ℕ → ℕ → ℕ → Status × Buffer × World
copy_behind (ok, b, w) src size required = (
  ok,
  record b { length = required },
  record w { bytes = memmove (b.data_at + b.length) src size w.bytes },
)
copy_behind (inval, b, w) src size required = (inval, b, w)
copy_behind (nomem, b, w) src size required = (nomem, b, w)

-- kli_buffer_append behind its null test; `src` is the address of the bytes.
unfoldable pub append_in : World → Buffer → ℕ → ℕ → Status × Buffer × World
append_in w b src size =
    if not (buffer_is_valid w (some b))
    then (inval, b, w)
    else if size == 0
    then (ok, b, w)
    else if src == 0 || ltb (u64_max - size) b.length
    then (inval, b, w)
    else copy_behind (reserve_in w b (b.length + size)) src size (b.length + size)

unfoldable pub kli_buffer_append : World → Option Buffer → ℕ → ℕ → Status × Option Buffer × World
kli_buffer_append w none src size = (inval, none, w)
kli_buffer_append w (some b) src size = let (s, b', w') = append_in w b src size in (s, some b', w')

unfoldable pub kli_buffer_clear : World → Option Buffer → Option Buffer
kli_buffer_clear w none = none
kli_buffer_clear w (some b) =
    if buffer_is_valid w (some b) then some (record b { length = 0 }) else some b

unfoldable pub kli_buffer_remaining : World → Option Buffer → ℕ
kli_buffer_remaining w none = 0
kli_buffer_remaining w (some b) = if buffer_is_valid w (some b) then b.capacity - b.length else 0
