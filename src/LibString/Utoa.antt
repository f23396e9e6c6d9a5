-- ===== src/LibString/Utoa.antt =====
-- kli_utoa and kli_itoa of programs/libkarm/string.c: decimal text that reads back as the value.
use native.Mathlib.Nat.{pow-suc, add-zero}
use mathlib.Core.Path.{ap₂}
use armonios.Prelude.{
  ℕ, zero, suc, ◌+◌, ◌-◌, ◌*◌, ◌/◌, ◌%◌, ◌^◌, ◌≤◌, ◌<◌, ◌≡◌, ◌⊎◌, refl, sym, ap, ◌∙◌, inl, inr,
  true, false, arith, List, [], ◌∷◌, ltb, leb, ◌==◌, Bool-cases, ltb→le, ==→eq, ==_refl, get_or,
  length, u64_max, u64_mod,
}
use armonios.LibString.{
  Memory, store, utoa_digits, utoa_tmp, put_digits, terminate, kli_utoa, kli_itoa,
}

-- the number that `n` decimal characters from address `a` on write, after those that write `acc`
unfoldable pub parse : ℕ → Memory → ℕ → ℕ → ℕ
parse zero m a acc = acc
parse (suc n) m a acc = parse n m (a + 1) (acc * 10 + (m a - b'0'))

-- the same of the first `i` characters of `tmp`, read from the end
high_first : List ℕ → ℕ → ℕ → ℕ
high_first tmp zero acc = acc
high_first tmp (suc i) acc = high_first tmp i (acc * 10 + (get_or tmp i 0 - b'0'))

high_first-cons :
    (d : ℕ) (ds : List ℕ) (i acc : ℕ)
    → high_first (d ∷ ds) (suc i) acc ≡ high_first ds i acc * 10 + (d - b'0')
unfolding high_first
high_first-cons d ds zero acc = refl
high_first-cons d ds (suc i) acc = high_first-cons d ds i (acc * 10 + (get_or ds i 0 - b'0'))

utoa_digits_value :
    (room value : ℕ)
    → value < 10 ^ room
    → high_first (utoa_digits room value) (length (utoa_digits room value)) 0 ≡ value
unfolding utoa_digits high_first
utoa_digits_value zero value h = omega arith
utoa_digits_value (suc room) value h = elim (Bool-cases (ltb 0 value)) [
  | inl pos ↦ rw pos (
      high_first-cons (b'0' + value % 10) (utoa_digits room (value / 10))
        (length (utoa_digits room (value / 10))) 0
      ∙ omega (arith, pow-suc 10 room, utoa_digits_value room (value / 10)))
  | inr none_left ↦ rw none_left (omega (arith, ltb→le 0 value none_left))
]

length-utoa_digits : (room k value : ℕ) → value < 10 ^ k → length (utoa_digits room value) ≤ k
unfolding utoa_digits
length-utoa_digits zero k value h = omega arith
length-utoa_digits (suc room) zero value h = ground arith
length-utoa_digits (suc room) (suc k) value h =
    ground (arith, pow-suc 10 k, length-utoa_digits room k (value / 10))

utoa_tmp_value :
    (value : ℕ)
    → value < u64_mod
    → (high_first (utoa_tmp value) (length (utoa_tmp value)) 0 ≡ value)
      × (length (utoa_tmp value) ≤ 20)
unfolding utoa_tmp high_first
utoa_tmp_value value h = elim (Bool-cases (value == 0)) [
  | inl e ↦ rw e (omega (arith, ==→eq value 0 e), omega arith)
  | inr e ↦
      rw e (utoa_digits_value 24 value (omega arith), length-utoa_digits 24 20 value (omega arith))
]

abbrev pub IsDigit : ℕ → Type 0
IsDigit c = (b'0' ≤ c) × (c ≤ b'9')

get_or-utoa_digits-IsDigit :
    (room value j : ℕ)
    → j < length (utoa_digits room value)
    → IsDigit (get_or (utoa_digits room value) j 0)
unfolding utoa_digits
get_or-utoa_digits-IsDigit zero value j h = absurd (omega arith)
get_or-utoa_digits-IsDigit (suc room) value zero h = ground arith
get_or-utoa_digits-IsDigit (suc room) value (suc j) h =
    ground (arith, get_or-utoa_digits-IsDigit room (value / 10) j)

-- No digit in front is zero.
pow-length-utoa_digits :
    (room value : ℕ) → 0 < value → 10 ^ length (utoa_digits room value) ≤ value * 10
unfolding utoa_digits
pow-length-utoa_digits zero value pos = omega arith
pow-length-utoa_digits (suc room) value pos =
    let l = length (utoa_digits room (value / 10)) in
    let some_left : ltb 0 value ≡ true = ground arith in
    elim (Bool-cases (ltb 0 (value / 10))) [
      | inl more ↦
          let r = pow-length-utoa_digits room (value / 10) (ground arith) in
          rw some_left (omega (arith, pow-suc 10 l))
      | inr last ↦
          let short = length-utoa_digits room 0 (value / 10) (ground arith) in
          let e : l ≡ 0 = omega arith in rw (some_left, e) (omega arith)
    ]

utoa_tmp_chars :
    (value : ℕ)
    → value < u64_mod
    → (0 < length (utoa_tmp value))
      × ((j : ℕ) → j < length (utoa_tmp value) → IsDigit (get_or (utoa_tmp value) j 0))
      × ((length (utoa_tmp value) ≡ 1) ⊎ (10 ^ length (utoa_tmp value) ≤ value * 10))
unfolding utoa_tmp utoa_digits
utoa_tmp_chars value h = elim (Bool-cases (value == 0)) [
  | inl e ↦ rw e (omega arith, only, inl refl)
  | inr e ↦
      let pos : 0 < value = ground arith in
      let some_left : ltb 0 value ≡ true = ground arith in
      rw e (
        rw some_left (omega arith),
        get_or-utoa_digits-IsDigit 24 value,
        inr (pow-length-utoa_digits 24 value pos),
      )
]
  where
    only : (j : ℕ) → j < 1 → IsDigit (get_or (b'0' ∷ []) j 0)
    only zero h = omega arith
    only (suc j) h = absurd (omega arith)

-- What the copy loop leaves when all `i` characters fit.
record Written (tmp : List ℕ) (i out buf : ℕ) (m : Memory) (r : ℕ × Memory) : Type 0 where
  count : r.0 ≡ out + i
  reads : (acc : ℕ) → parse i r.1 (buf + out) acc ≡ high_first tmp i acc
  chars : (j : ℕ) → j < i → r.1 (buf + out + j) ≡ get_or tmp (i - 1 - j) 0
  frame : (x : ℕ) → (x < buf + out) ⊎ (buf + out + i ≤ x) → r.1 x ≡ m x

chars_front :
    (tmp : List ℕ) (i at : ℕ) (m : Memory)
    → m at ≡ get_or tmp i 0
    → ((j : ℕ) → j < i → m (at + 1 + j) ≡ get_or tmp (i - 1 - j) 0)
    → (j : ℕ) → j < suc i
    → m (at + j) ≡ get_or tmp (suc i - 1 - j) 0
chars_front tmp i at m first rest zero lt =
    ap m (omega arith) ∙ first ∙ ap (λ (n : ℕ). get_or tmp n 0) (omega arith)
chars_front tmp i at m first rest (suc k) lt =
    ap m (omega arith) ∙ rest k (omega arith) ∙ ap (λ (n : ℕ). get_or tmp n 0) (omega arith)

put_digits-Written :
    (tmp : List ℕ) (i out buf size : ℕ) (m : Memory)
    → out + i < size
    → Written tmp i out buf m (put_digits tmp i out buf size m)
unfolding put_digits parse high_first
put_digits-Written tmp zero out buf size m h = record {
  count = omega arith;
  reads = λ acc. refl;
  chars = λ j h. absurd (omega arith);
  frame = λ x o. refl;
}
put_digits-Written tmp (suc i) out buf size m h = elim (Bool-cases (ltb (out + 1) size)) [
  | inl fits ↦
      let m1 : Memory = store m (buf + out) (get_or tmp i 0) in
      let w = put_digits-Written tmp i (out + 1) buf size m1 (omega arith) in
      let m2 : Memory = (put_digits tmp i (out + 1) buf size m1).1 in
      let first : m2 (buf + out) ≡ get_or tmp i 0 =
        w.frame (buf + out) (inl (omega arith)) ∙ rw (==_refl (buf + out)) in
      rw fits (record {
        count = omega (arith, w.count);
        reads = λ acc.
            ap₂ (λ (c a : ℕ). parse i m2 a (acc * 10 + (c - b'0'))) first (omega arith)
            ∙ w.reads (acc * 10 + (get_or tmp i 0 - b'0'));
        chars = chars_front tmp i (buf + out) m2 first (λ k lt. ap m2 (omega arith) ∙ w.chars k lt);
        frame = λ x o. ground (arith, w.frame x);
      })
  | inr full ↦ absurd (omega (arith, ltb→le (out + 1) size full))
]

parse_congr :
    (n : ℕ) (m k : Memory) (a acc : ℕ)
    → ((x : ℕ) → x < a + n → k x ≡ m x)
    → parse n k a acc ≡ parse n m a acc
unfolding parse
parse_congr zero m k a acc same = refl
parse_congr (suc n) m k a acc same =
    rw (same a (omega arith))
      (parse_congr n m k (a + 1) (acc * 10 + (m a - b'0')) (λ x h. same x (omega arith)))

-- The text of a finished call that began at `out`, and the zero byte behind it.
record Ended (tmp : List ℕ) (i out buf : ℕ) (m : Memory) (r : ℕ × Memory) : Type 0 where
  count : r.0 ≡ out + i
  reads : (acc : ℕ) → parse i r.1 (buf + out) acc ≡ high_first tmp i acc
  chars : (j : ℕ) → j < i → r.1 (buf + out + j) ≡ get_or tmp (i - 1 - j) 0
  ended : r.1 (buf + r.0) ≡ 0
  frame : (x : ℕ) → (x < buf + out) ⊎ (buf + out + i < x) → r.1 x ≡ m x

terminate-Ended :
    (tmp : List ℕ) (i out buf : ℕ) (m : Memory) (r : ℕ × Memory)
    → Written tmp i out buf m r
    → Ended tmp i out buf m (terminate buf r)
terminate-Ended tmp i out buf m r w = record {
  count = w.count;
  reads = λ acc.
      parse_congr i r.1 (terminate buf r).1 (buf + out) acc (λ x h. let c = w.count in ground arith)
      ∙ w.reads acc;
  chars = λ j h. let c = w.count in ground (arith, w.chars j h);
  ended = rw (==_refl (buf + r.0));
  frame = λ x o. let c = w.count in ground (arith, w.frame x);
}

-- Into a buffer of at least 21 bytes kli_utoa writes the decimal text of a 64-bit value: reading
-- the characters, of which there is at least one, back gives the value. Each is a digit, and of more
-- than one the first is not zero. A zero byte ends them inside the buffer, and no byte outside the
-- buffer changes.
pub kli_utoa_lem :
    (value buf buf_size : ℕ) (m : Memory)
    → value < u64_mod
    → 21 ≤ buf_size
    → let (n, k) = kli_utoa value buf buf_size m in
      (parse n k buf 0 ≡ value)
      × (0 < n)
      × ((i : ℕ) → i < n → IsDigit (k (buf + i)))
      × ((n ≡ 1) ⊎ (10 ^ n ≤ value * 10))
      × (k (buf + n) ≡ 0)
      × (n < buf_size)
      × ((x : ℕ) → (x < buf) ⊎ (buf + buf_size ≤ x) → k x ≡ m x)
unfolding kli_utoa
kli_utoa_lem value buf size m h room =
    let tmp = utoa_tmp value in
    let v = utoa_tmp_value value h in
    let d = utoa_tmp_chars value h in
    let e =
      terminate-Ended tmp (length tmp) 0 buf m (put_digits tmp (length tmp) 0 buf size m)
        (put_digits-Written tmp (length tmp) 0 buf size m (omega arith)) in
    let r : ℕ × Memory = terminate buf (put_digits tmp (length tmp) 0 buf size m) in
    let nonempty : (size == 0) ≡ false = ground arith in
    let whole : r.0 ≡ length tmp = omega (arith, e.count) in
    rw nonempty (
      ap₂ (λ (n a : ℕ). parse n r.1 a 0) whole (sym (add-zero buf)) ∙ e.reads 0 ∙ v.0,
      omega (arith, whole, d.0),
      λ i lt. ground (arith, e.chars i, d.1 (length tmp - 1 - i)),
      rw whole d.2,
      e.ended,
      omega (arith, e.count),
      λ x o. e.frame x (elim o [ inl l ↦ inl (omega arith) | inr g ↦ inr (omega arith) ]),
    )

-- Into a buffer of at least 22 bytes kli_itoa writes the decimal text of a signed 64-bit value,
-- given by its bit pattern: from 2 ^ 63 on a minus sign and the magnitude, below that the value
-- alone. A zero byte ends the text inside the buffer.
pub kli_itoa_lem :
    (value buf buf_size : ℕ) (m : Memory)
    → value < u64_mod
    → 22 ≤ buf_size
    → let (n, k) = kli_itoa value buf buf_size m in
      (k (buf + n) ≡ 0)
      × (n < buf_size)
      × (value < 2 ^ 63 → parse n k buf 0 ≡ value)
      × (2 ^ 63 ≤ value → (k buf ≡ b'-') × (parse (n - 1) k (buf + 1) 0 ≡ u64_mod - value))
unfolding kli_itoa
kli_itoa_lem value buf size m h room = elim (Bool-cases (leb (2 ^ 63) value)) [
  | inl negative ↦
      let magnitude = (u64_max - value + 1) % u64_mod in
      let tmp = utoa_tmp magnitude in
      let v = utoa_tmp_value magnitude (omega arith) in
      let m1 : Memory = store m buf b'-' in
      let e =
        terminate-Ended tmp (length tmp) 1 buf m1 (put_digits tmp (length tmp) 1 buf size m1)
          (put_digits-Written tmp (length tmp) 1 buf size m1 (omega arith)) in
      let r : ℕ × Memory = terminate buf (put_digits tmp (length tmp) 1 buf size m1) in
      let nonempty : (size == 0) ≡ false = ground arith in
      let two : ltb 1 size ≡ true = ground arith in
      let whole : r.0 - 1 ≡ length tmp = omega (arith, e.count) in
      rw (nonempty, negative, two)
        (
          e.ended,
          omega (arith, e.count),
          λ small. absurd (ground arith),
          λ _. (
            e.frame buf (inl (omega arith)) ∙ rw (==_refl buf),
            ap (λ (n : ℕ). parse n r.1 (buf + 1) 0) whole ∙ e.reads 0 ∙ v.0 ∙ ground arith,
          ),
        )
  | inr positive ↦
      let tmp = utoa_tmp value in
      let v = utoa_tmp_value value h in
      let e =
        terminate-Ended tmp (length tmp) 0 buf m (put_digits tmp (length tmp) 0 buf size m)
          (put_digits-Written tmp (length tmp) 0 buf size m (omega arith)) in
      let r : ℕ × Memory = terminate buf (put_digits tmp (length tmp) 0 buf size m) in
      let nonempty : (size == 0) ≡ false = ground arith in
      let whole : r.0 ≡ length tmp = omega (arith, e.count) in
      rw (nonempty, positive)
        (
          e.ended,
          omega (arith, e.count),
          λ _. ap₂ (λ (n a : ℕ). parse n r.1 a 0) whole (sym (add-zero buf)) ∙ e.reads 0 ∙ v.0,
          λ big. absurd (ground arith),
        )
]
