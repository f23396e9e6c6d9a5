-- ===== src/LibString.antt =====
-- programs/libkarm/string.c, over a memory of bytes.
-- A pointer is its address. The loops count down the rounds left.
pub mod Move
pub mod Text
pub mod Utoa
mod Tests
use mathlib.Core.Option
use armonios.Prelude.{
  ℕ, zero, suc, ◌+◌, ◌-◌, ◌/◌, ◌%◌, Bool, true, false, ◌&&◌, ◌||◌, List, [], ◌∷◌, Option, none,
  some, if◌then◌else◌, ltb, leb, ◌==◌, ◌^◌, get_or, length, u64_max, u64_mod,
}

-- the byte at each address
abbrev pub Memory : Type 0
Memory = ℕ → ℕ

abbrev pub store : Memory → ℕ → ℕ → Memory
store m a v x = if x == a then v else m x

-- while (n--) *d++ = *s++
unfoldable pub memcpy : ℕ → ℕ → ℕ → Memory → Memory
memcpy dst src zero m = m
memcpy dst src (suc n) m = memcpy (dst + 1) (src + 1) n (store m dst (m src))

unfoldable pub memset : ℕ → ℕ → ℕ → Memory → Memory
memset dst c zero m = m
memset dst c (suc n) m = memset (dst + 1) c n (store m dst (c % 256))

-- d += n; s += n; while (n--) *--d = *--s
unfoldable pub copy_down : ℕ → ℕ → ℕ → Memory → Memory
copy_down dst src zero m = m
copy_down dst src (suc n) m = copy_down dst src n (store m (dst + n) (m (src + n)))

unfoldable pub memmove : ℕ → ℕ → ℕ → Memory → Memory
memmove dst src n m =
    if dst == src || n == 0
    then m
    else if ltb dst src
    then memcpy dst src n m
    else copy_down dst src n m

-- `fuel` bounds the bytes looked at; `none` when no terminator lies within them.
unfoldable pub strlen_loop : ℕ → Memory → ℕ → ℕ → Option ℕ
strlen_loop zero m s n = none
strlen_loop (suc fuel) m s n =
    let rest = strlen_loop fuel m (s + 1) (n + 1) in if m s == 0 then some n else rest

-- The digits of `value`, lowest first, while `room` characters of `tmp` are left.
unfoldable pub utoa_digits : ℕ → ℕ → List ℕ
utoa_digits zero value = []
utoa_digits (suc room) value =
    let rest = utoa_digits room (value / 10) in
    if ltb 0 value then (b'0' + value % 10) ∷ rest else []

-- `tmp` before the copy loop
unfoldable pub utoa_tmp : ℕ → List ℕ
unfolding utoa_digits
utoa_tmp value = if value == 0 then b'0' ∷ [] else utoa_digits 24 value

-- while (i > 0 && out + 1 < buf_size) buf[out++] = tmp[--i]
unfoldable pub put_digits : List ℕ → ℕ → ℕ → ℕ → ℕ → Memory → ℕ × Memory
put_digits tmp zero out buf buf_size m = (out, m)
put_digits tmp (suc i) out buf buf_size m =
    let rest = put_digits tmp i (out + 1) buf buf_size (store m (buf + out) (get_or tmp i 0)) in
    if ltb (out + 1) buf_size then rest else (out, m)

-- Ends the text that the copy loop has put into `buf`.
abbrev pub terminate : ℕ → ℕ × Memory → ℕ × Memory
terminate buf r = (r.0, store r.1 (buf + r.0) 0)

unfoldable pub kli_utoa : ℕ → ℕ → ℕ → Memory → ℕ × Memory
kli_utoa value buf buf_size m =
    let tmp = utoa_tmp value in
    if buf_size == 0 then (0, m) else terminate buf (put_digits tmp (length tmp) 0 buf buf_size m)

-- `value` is the 64-bit pattern of the signed argument; `~value + 1` is its magnitude.
unfoldable pub kli_itoa : ℕ → ℕ → ℕ → Memory → ℕ × Memory
kli_itoa value buf buf_size m =
    let negative = leb (2 ^ 63) value in
    let tmp = utoa_tmp (if negative then (u64_max - value + 1) % u64_mod else value) in
    if buf_size == 0
    then (0, m)
    else if negative && ltb 1 buf_size
    then terminate buf (put_digits tmp (length tmp) 1 buf buf_size (store m buf b'-'))
    else terminate buf (put_digits tmp (length tmp) 0 buf buf_size m)

unfoldable pub strlen : ℕ → Memory → ℕ → Option ℕ
unfolding strlen_loop
strlen fuel m s = strlen_loop fuel m s 0

unfoldable pub strlcpy : ℕ → ℕ → ℕ → ℕ → Memory → Option (ℕ × Memory)
strlcpy fuel dst src dst_size m =
    Option.map
      (λ src_len.
        let copy_len = if leb dst_size src_len then dst_size - 1 else src_len in
        if dst_size == 0
        then (src_len, m)
        else (src_len, store (memcpy dst src copy_len m) (dst + copy_len) 0))
      (strlen fuel m src)
