-- ===== src/LibString/Text.antt =====
-- strlen and strlcpy of programs/libkarm/string.c.
use armonios.Prelude.{
  ℕ, zero, suc, ◌+◌, ◌-◌, ◌≤◌, ◌<◌, ◌≡◌, ◌≢◌, ◌⊎◌, ap, ◌∙◌, inl, inr, min, some, arith,
  if◌then◌else◌, leb,
}
use armonios.LibString.{Memory, store, memcpy, strlen_loop, strlen, strlcpy}
use armonios.LibString.Move.{memcpy_lem}

-- `n` bytes other than zero stand at `s`, and a zero byte behind them.
pub record IsText (m : Memory) (s n : ℕ) : Type 0 where
  pub inside : (i : ℕ) → i < n → m (s + i) ≢ 0
  pub ended : m (s + n) ≡ 0

strlen_loop_lem :
    (n fuel : ℕ) (m : Memory) (s acc : ℕ)
    → IsText m s n
    → n < fuel
    → strlen_loop fuel m s acc ≡ some (acc + n)
unfolding strlen_loop
strlen_loop_lem n zero m s acc t h = absurd (omega arith)
strlen_loop_lem zero (suc fuel) m s acc t h =
    let e : m s ≡ 0 = ap m (omega arith) ∙ t.ended in ground arith
strlen_loop_lem (suc n) (suc fuel) m s acc t h =
    let ne : m s ≢ 0 = λ e. t.inside 0 (omega arith) (ap m (omega arith) ∙ e) in
    let rest : IsText m (s + 1) n = record {
      inside = λ i lt e. t.inside (i + 1) (omega arith) (ap m (omega arith) ∙ e);
      ended = ap m (omega arith) ∙ t.ended;
    } in
    ground (arith, strlen_loop_lem n fuel m (s + 1) (acc + 1) rest)

-- strlen returns the length of a text, given more rounds than its length.
pub strlen_lem :
    (n fuel : ℕ) (m : Memory) (s : ℕ) → IsText m s n → n < fuel → strlen fuel m s ≡ some n
unfolding strlen
strlen_lem n fuel m s t h = strlen_loop_lem n fuel m s 0 t h ∙ ap some (omega arith)

-- strlcpy of a text into a block apart from it, of at least one byte, returns the length of the
-- text, copies as much of it as leaves room for a zero byte, puts that byte behind the copy, and
-- changes nothing outside the block.
pub strlcpy_lem :
    (n fuel dst src size : ℕ) (m : Memory)
    → IsText m src n
    → n < fuel
    → 0 < size
    → (dst + size ≤ src) ⊎ (src + n ≤ dst)
    → (k : Memory) × (strlcpy fuel dst src size m ≡ some (n, k))
      × ((i : ℕ) → i < min n (size - 1) → k (dst + i) ≡ m (src + i))
      × (k (dst + min n (size - 1)) ≡ 0)
      × ((x : ℕ) → (x < dst) ⊎ (dst + size ≤ x) → k x ≡ m x)
unfolding strlcpy
strlcpy_lem n fuel dst src size m t h pos apart =
    let len = (if leb size n then size - 1 else n) in
    let fits : len ≡ min n (size - 1) = ground arith in
    let k : Memory = store (memcpy dst src len m) (dst + len) 0 in
    let copied = λ (x : ℕ).
      memcpy_lem len dst src m x
        (elim apart [ inl a ↦ inl (omega arith) | inr b ↦ inr (omega arith) ]) in
    (
      k,
      rw (strlen_lem n fuel m src t h) (ground arith),
      λ i lt. ground (arith, copied (dst + i)),
      ground arith,
      λ x o. ground (arith, copied x),
    )
