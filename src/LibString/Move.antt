-- ===== src/LibString/Move.antt =====
-- Block copies: memmove of programs/libkarm/string.c copies a snapshot, overlap or not.
use armonios.Prelude.{
  ℕ, zero, suc, ◌+◌, ◌-◌, ◌%◌, ◌≤◌, ◌≡◌, ◌⊎◌, Bool, ◌&&◌, arith, if◌then◌else◌, ltb, leb,
}
use armonios.LibString.{Memory, store, memcpy, memset, copy_down, memmove}

-- the `n` addresses from `a` on
abbrev pub in_block : ℕ → ℕ → ℕ → Bool
in_block a n x = leb a x && ltb x (a + n)

-- The memory after the bytes at `src` have been read, and then written to `dst`.
abbrev pub moved : ℕ → ℕ → ℕ → Memory → Memory
moved dst src n m x = if in_block dst n x then m (src + (x - dst)) else m x

-- Copying upwards is right unless a source byte is overwritten before it is read.
pub memcpy_lem :
    (n dst src : ℕ) (m : Memory) (x : ℕ)
    → (dst ≤ src) ⊎ (src + n ≤ dst)
    → memcpy dst src n m x ≡ moved dst src n m x
unfolding memcpy
memcpy_lem zero dst src m x apart = ground arith
memcpy_lem (suc n) dst src m x apart =
    ground (arith, memcpy_lem n (dst + 1) (src + 1) (store m dst (m src)) x)

copy_down_lem :
    (n dst src : ℕ) (m : Memory) (x : ℕ) → src ≤ dst → copy_down dst src n m x ≡ moved dst src n m x
unfolding copy_down
copy_down_lem zero dst src m x le = ground arith
copy_down_lem (suc n) dst src m x le =
    ground (arith, copy_down_lem n dst src (store m (dst + n) (m (src + n))) x)

-- memmove leaves in the `n` bytes at `dst` what the `n` bytes at `src` held before, however the
-- two blocks overlap, and changes no other byte.
pub memmove_lem : (dst src n : ℕ) (m : Memory) (x : ℕ) → memmove dst src n m x ≡ moved dst src n m x
unfolding memmove
memmove_lem dst src n m x = ground (arith, memcpy_lem n dst src m x, copy_down_lem n dst src m x)

-- memset fills exactly the block with the low byte of its argument.
pub memset_lem :
    (n dst c : ℕ) (m : Memory) (x : ℕ)
    → memset dst c n m x ≡ (if in_block dst n x then c % 256 else m x)
unfolding memset
memset_lem zero dst c m x = ground arith
memset_lem (suc n) dst c m x = ground (arith, memset_lem n (dst + 1) c (store m dst (c % 256)) x)
