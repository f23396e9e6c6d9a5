-- ===== src/RoundRobin.antt =====
-- The search that kernel/sched/sched.c and kernel/process.c share: the first ready slot of a table
-- from `start` on, round its end.
use native.Mathlib.Nat.{mod-eq_of_lt, mod-eq-sub-mod}
use armonios.Prelude.{
  ℕ, zero, suc, ◌+◌, ◌-◌, ◌%◌, ◌≤◌, ◌<◌, ◌≡◌, ◌≢◌, ◌⊎◌, refl, ap, ◌∙◌, inl, inr, Bool, true, false,
  Option, none, some, arith, if◌then◌else◌, ltb, ◌==◌, ==→eq, Bool-cases,
}

-- for (offset …) { index = (start + offset) % size; if (ready) return index; }, with `n` rounds left
unfoldable pub pick : ℕ → (ℕ → Bool) → ℕ → ℕ → ℕ → Option ℕ
pick size is_ready start offset zero = none
pick size is_ready start offset (suc n) =
    let rest = pick size is_ready start (offset + 1) n in
    let index = (start + offset) % size in if is_ready index then some index else rest

-- The offsets from `from` to before `to` are not ready.
abbrev pub NoneReady : ℕ → (ℕ → Bool) → ℕ → ℕ → ℕ → Type 0
NoneReady size is_ready start from to =
    (k : ℕ) → from ≤ k → k < to → is_ready ((start + k) % size) ≡ false

pub pick_lem :
    (size : ℕ) (is_ready : ℕ → Bool) (start offset n : ℕ)
    → ((pick size is_ready start offset n ≡ none)
        × NoneReady size is_ready start offset (offset + n))
      ⊎ ((k : ℕ) × ((pick size is_ready start offset n ≡ some ((start + k) % size))
            × (offset ≤ k)
            × (k < offset + n)
            × (is_ready ((start + k) % size) ≡ true)
            × NoneReady size is_ready start offset k))
unfolding pick
pick_lem size is_ready start offset zero = inl (refl, λ k low high. absurd (omega arith))
pick_lem size is_ready start offset (suc n) =
    elim (Bool-cases (is_ready ((start + offset) % size))) [
      | inl ready ↦ inr (
        offset,
        (rw ready refl, omega arith, omega arith, ready, λ k low high. absurd (omega arith)),
      )
      | inr busy ↦ elim (pick_lem size is_ready start (offset + 1) n) [
        | inl r ↦ inl (rw busy r.0, later (offset + 1 + n) (offset + suc n) (omega arith) busy r.1)
        | inr r ↦ inr (
          r.0,
          (
            rw busy r.1.0,
            omega (arith, r.1.1),
            omega (arith, r.1.2),
            r.1.3,
            later r.0 r.0 (omega arith) busy r.1.4,
          ),
        )
      ]
    ]
  where
    later :
        (to to' : ℕ)
        → to' ≤ to
        → is_ready ((start + offset) % size) ≡ false
        → NoneReady size is_ready start (offset + 1) to
        → NoneReady size is_ready start offset to'
    later to to' le busy rest k low high = elim (Bool-cases (k == offset)) [
      | inl e ↦ ap (λ (j : ℕ). is_ready ((start + j) % size)) (==→eq k offset e) ∙ busy
      | inr e ↦ rest k (ground arith) (omega arith)
    ]

wrap_lem :
    (size a : ℕ)
    → a < size + size
    → ((a % size ≡ a) × (a < size)) ⊎ ((a % size + size ≡ a) × (size ≤ a))
wrap_lem size a h = elim (Bool-cases (ltb a size)) [
  | inl small ↦ inl (mod-eq_of_lt (ground arith), ground arith)
  | inr big ↦
      let le : size ≤ a = ground arith in
      let e : a % size ≡ a - size = mod-eq-sub-mod le ∙ mod-eq_of_lt (omega arith) in
      inr (omega (arith, e), le)
]

-- How many slots stand between `c` and `i`, going round the table.
abbrev pub distance : ℕ → ℕ → ℕ → ℕ
distance size c i = if ltb c i then i - c - 1 else i + size - c - 1

pub reached : (size c i : ℕ) → c < size → i < size → (c + 1 + distance size c i) % size ≡ i
reached size c i hc hi = elim (wrap_lem size (c + 1 + distance size c i) (ground arith)) [
  | inl r ↦ ground arith
  | inr r ↦ ground arith
]

-- From behind `c` the search finds `i`, if `i` is ready, or a ready slot from which `i` is nearer.
pub pick_nearer :
    (size : ℕ) (is_ready : ℕ → Bool) (c i n : ℕ)
    → c < size
    → i < size
    → is_ready i ≡ true
    → n ≤ size
    → distance size c i < n
    → (pick size is_ready (c + 1) 0 n ≡ some i)
      ⊎ ((j : ℕ) × ((pick size is_ready (c + 1) 0 n ≡ some j)
            × (j < size)
            × (is_ready j ≡ true)
            × (j ≢ i)
            × (distance size j i < distance size c i)))
pick_nearer size is_ready c i n hc hi ready fits near =
    let d = distance size c i in
    let goal : (c + 1 + d) % size ≡ i = reached size c i hc hi in
    let ready_there : is_ready ((c + 1 + d) % size) ≡ true = ap is_ready goal ∙ ready in
    elim (pick_lem size is_ready (c + 1) 0 n) [
      | inl r ↦ absurd (ground (arith, r.1 d (omega arith) (omega arith)))
      | inr r ↦ elim (Bool-cases (r.0 == d)) [
        | inl e ↦ inl (
            r.1.0
            ∙ ap (λ (k : ℕ). some ((c + 1 + k) % size)) (==→eq r.0 d e)
            ∙ ap (λ (k : ℕ). some k) goal)
        | inr e ↦ elim (Bool-cases (ltb d r.0)) [
          | inl past ↦ absurd (ground (arith, r.1.4 d (omega arith) (ground arith)))
          | inr before ↦ elim (wrap_lem size (c + 1 + r.0) (omega (arith, r.1.2))) [
            | inl w ↦ inr (
              (c + 1 + r.0) % size,
              (r.1.0, omega (arith, w.0, w.1), r.1.3, λ q. ground arith, ground arith),
            )
            | inr w ↦ inr (
              (c + 1 + r.0) % size,
              (r.1.0, omega (arith, w.0, w.1), r.1.3, λ q. ground arith, ground arith),
            )
          ]
        ]
      ]
    ]
