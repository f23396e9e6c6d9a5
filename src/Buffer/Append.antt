-- ===== src/Buffer/Append.antt =====
-- kli_buffer_append of programs/libkarm/buffer.c adds the bytes behind those that the buffer holds.
use armonios.Prelude.{
  ℕ, ◌+◌, ◌-◌, ◌≤◌, ◌<◌, ◌≡◌, ◌≢◌, ◌⊎◌, refl, ◌∙◌, inl, inr, false, ◌||◌, some, arith, ltb, ◌==◌,
  u64_max, Bool-cases,
}
use armonios.LibString.{memmove}
use armonios.LibString.Move.{memmove_lem}
use armonios.Arena.Alloc
use armonios.Buffer.{
  World, Buffer, Status, ok, inval, nomem, reserve_in, copy_behind, append_in, kli_buffer_init,
}
use armonios.Buffer.Capacity.{Full}
use armonios.Buffer.Reserve.{InArena, Unused, Reserved, buffer_is_valid-InArena, reserve_in_lem}

copy_behind_ok :
    (r : Status × Buffer × World) (src size required : ℕ)
    → r.0 ≡ ok
    → copy_behind r src size required ≡ (
      ok,
      record (r.1) { length = required },
      record (r.2) { bytes = memmove (r.1.data_at + r.1.length) src size r.2.bytes },
    )
copy_behind_ok (s, b, w) src size required e = rw e

copy_behind_nomem :
    (r : Status × Buffer × World) (src size required : ℕ)
    → r.0 ≡ nomem
    → copy_behind r src size required ≡ (nomem, r.1, r.2)
copy_behind_nomem (s, b, w) src size required e = rw e

-- What a successful append has done.
pub record Appended (w : World) (b : Buffer) (src size : ℕ) (b' : Buffer) (w' : World)
    : Type 0 where
  pub length : b'.length ≡ b.length + size
  pub old_bytes : (i : ℕ) → i < b.length → w'.bytes (b'.data_at + i) ≡ w.bytes (b.data_at + i)
  pub new_bytes : (i : ℕ) → i < size → w'.bytes (b'.data_at + b.length + i) ≡ w.bytes (src + i)
  pub valid : InArena w' b'

append-Reserved :
    (w : World) (b : Buffer) (src size : ℕ) (b' : Buffer) (w' : World)
    → ((x : ℕ) → src ≤ x → x < src + size → ¬ Unused w b x)
    → Reserved w b (b.length + size) b' w'
    → Appended w b src size
        (record b' { length = b.length + size })
        (record w' { bytes = memmove (b'.data_at + b'.length) src size w'.bytes })
append-Reserved w b src size b' w' apart r =
    let e = r.same_length in
    let at = b'.data_at + b'.length in
    record {
      length = refl;
      old_bytes = λ i lt.
          memmove_lem at src size w'.bytes (b'.data_at + i) ∙ ground (arith, r.same_bytes i);
      new_bytes = λ i lt.
          memmove_lem at src size w'.bytes (b'.data_at + b.length + i)
          ∙ ground (arith, r.frame (src + i), apart (src + i));
      valid = record {
        not_null = r.valid.not_null;
        arena = r.valid.arena;
        below = r.room;
        empty = r.valid.empty;
        behind = r.valid.behind;
        before = r.valid.before;
        small = r.valid.small;
      };
    }

-- On a buffer that lies in its arena, with at least one source byte, none of them in the arena's
-- unused part, kli_buffer_append either makes the buffer hold its old bytes and then the source
-- bytes as they were before the call, or it changes neither the buffer nor the memory: when the
-- length would pass 64 bits (KLI_INVAL), or when it passes the capacity and no multiple of 8 in the
-- unused part of the arena has room for the capacity asked for, which is at most every doubling of the
-- old one (of 64 if that is more) that holds the length (KLI_NOMEM).
pub append_in_lem :
    (w : World) (b : Buffer) (src size : ℕ)
    → InArena w b
    → src ≢ 0
    → 0 < size
    → size ≤ u64_max
    → ((x : ℕ) → src ≤ x → x < src + size → ¬ Unused w b x)
    → let (s, b', w') = append_in w b src size in
      ((s ≡ ok) × Appended w b src size b' w')
      ⊎ ((((s ≡ nomem) × Full (w.arenas b.arena) b.capacity (b.length + size))
            ⊎ ((s ≡ inval) × (u64_max < b.length + size)))
          × (b' ≡ b)
          × ((x : ℕ) → w'.bytes x ≡ w.bytes x)
          × InArena w' b)
unfolding append_in
append_in_lem w b src size v ne pos small apart =
    let nonempty : (size == 0) ≡ false = ground arith in
    elim (Bool-cases (src == 0 || ltb (u64_max - size) b.length)) [
      | inl wraps ↦
          rw (buffer_is_valid-InArena w b v, nonempty, wraps)
            (inr (inr (refl, ground arith), refl, (λ x. refl), v))
      | inr fits ↦
          let r = reserve_in w b (b.length + size) in
          rw (buffer_is_valid-InArena w b v, nonempty, fits)
            (elim (reserve_in_lem w b (b.length + size) v (ground arith)) [
              | inl (done, res) ↦
                  rw (copy_behind_ok r src size (b.length + size) done)
                    (inl (refl, append-Reserved w b src size r.1 r.2 apart res))
              | inr (full, room, same, bytes, still) ↦
                  rw (copy_behind_nomem r src size (b.length + size) full)
                    (inr (inl (refl, room), same, bytes, still))
            ])
    ]

-- kli_buffer_init over a valid arena gives an empty buffer that lies in the arena, and clears the
-- buffer when the arena pointer is null.
pub kli_buffer_init_lem :
    (w : World) (old : Buffer) (arena : ℕ)
    → (arena ≢ 0
        → Alloc.IsValid (w.arenas arena)
        → (b : Buffer) × (kli_buffer_init w (some old) arena ≡ (ok, some b))
          × (b.length ≡ 0)
          × InArena w b)
      × (arena ≡ 0 → (kli_buffer_init w (some old) arena).0 ≡ inval)
unfolding kli_buffer_init
kli_buffer_init_lem w old arena = (
  λ ne v. (
    record { data_at = 0; length = 0; capacity = 0; arena = arena },
    ground arith,
    refl,
    record {
      not_null = ne;
      arena = v;
      below = omega arith;
      empty = λ _. refl;
      behind = λ h. absurd (omega arith);
      before = λ h. absurd (omega arith);
      small = omega arith;
    },
  ),
  λ null. ground arith,
)
