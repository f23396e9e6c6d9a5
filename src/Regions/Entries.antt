-- ===== src/Regions/Entries.antt =====
-- The loops of kernel/process.c over the region array, entry by entry.
use armonios.Prelude.{
  get_or-set, ℕ, zero, suc, ◌+◌, ◌-◌, ◌≤◌, ◌<◌, ◌≡◌, ◌⊎◌, refl, ap, ◌∙◌, inl, inr, Bool, true,
  false, ◌&&◌, List, [], ◌∷◌, none, some, arith, if◌then◌else◌, ltb, leb, ◌==◌, ==→eq, length,
  get_or, set, Bool-cases, length-set,
}
use armonios.Regions.{Region, region_clear, overlaps_any, holds_any, find_exact, shift_down}

abbrev pub entry : List Region → ℕ → Region
entry rs i = get_or rs i region_clear

-- Whether a range and a region share an address, and whether the region holds the range.
abbrev pub meets : ℕ → ℕ → Region → Bool
meets start end r = ltb start r.end && ltb r.start end

abbrev pub holds : ℕ → ℕ → Region → Bool
holds start end r = leb r.start start && leb end r.end

abbrev pub is_exact : ℕ → ℕ → Region → Bool
is_exact start end r = r.start == start && r.end == end

-- The first `n` entries fail a test, or one of them passes it.
abbrev pub NoEntry : (Region → Bool) → List Region → ℕ → Type 0
NoEntry p rs n = (i : ℕ) → i < n → p (entry rs i) ≡ false

abbrev pub AnEntry : (Region → Bool) → List Region → ℕ → Type 0
AnEntry p rs n = (i : ℕ) × (i < n) × (p (entry rs i) ≡ true)

NoEntry-cons :
    (p : Region → Bool) (r : Region) (rs : List Region) (n : ℕ)
    → p r ≡ false
    → NoEntry p rs n
    → NoEntry p (r ∷ rs) (suc n)
NoEntry-cons p r rs n front rest zero h = front
NoEntry-cons p r rs n front rest (suc i) h = rest i (omega arith)

pub overlaps_any_lem :
    (n : ℕ) (rs : List Region) (start end : ℕ)
    → n ≤ length rs
    → ((overlaps_any n rs start end ≡ false) × NoEntry (meets start end) rs n)
      ⊎ ((overlaps_any n rs start end ≡ true) × AnEntry (meets start end) rs n)
unfolding overlaps_any
overlaps_any_lem zero rs start end h = inl (refl, λ i lt. absurd (omega arith))
overlaps_any_lem (suc n) [] start end h = absurd (omega arith)
overlaps_any_lem (suc n) (r ∷ rs) start end h = elim (Bool-cases (meets start end r)) [
  | inl hit ↦ inr (rw hit, (0, omega arith, hit))
  | inr miss ↦ elim (overlaps_any_lem n rs start end (omega arith)) [
    | inl q ↦ inl (rw miss q.0, NoEntry-cons (meets start end) r rs n miss q.1)
    | inr q ↦ inr (rw miss q.0, (suc q.1.0, omega (arith, q.1.1), q.1.2))
  ]
]

pub holds_any_lem :
    (n : ℕ) (rs : List Region) (start end : ℕ)
    → n ≤ length rs
    → ((holds_any n rs start end ≡ false) × NoEntry (holds start end) rs n)
      ⊎ ((holds_any n rs start end ≡ true) × AnEntry (holds start end) rs n)
unfolding holds_any
holds_any_lem zero rs start end h = inl (refl, λ i lt. absurd (omega arith))
holds_any_lem (suc n) [] start end h = absurd (omega arith)
holds_any_lem (suc n) (r ∷ rs) start end h = elim (Bool-cases (holds start end r)) [
  | inl hit ↦ inr (rw hit, (0, omega arith, hit))
  | inr miss ↦ elim (holds_any_lem n rs start end (omega arith)) [
    | inl q ↦ inl (rw miss q.0, NoEntry-cons (holds start end) r rs n miss q.1)
    | inr q ↦ inr (rw miss q.0, (suc q.1.0, omega (arith, q.1.1), q.1.2))
  ]
]

-- The search finds the first entry with the bounds, `i` being the index of the first one looked at.
pub find_exact_lem :
    (n i : ℕ) (rs : List Region) (start end : ℕ)
    → n ≤ length rs
    → ((find_exact n i rs start end ≡ none) × NoEntry (is_exact start end) rs n)
      ⊎ ((j : ℕ) × ((find_exact n i rs start end ≡ some (i + j))
            × (j < n)
            × (is_exact start end (entry rs j) ≡ true)))
unfolding find_exact
find_exact_lem zero i rs start end h = inl (refl, λ k lt. absurd (omega arith))
find_exact_lem (suc n) i [] start end h = absurd (omega arith)
find_exact_lem (suc n) i (r ∷ rs) start end h = elim (Bool-cases (is_exact start end r)) [
  | inl hit ↦ inr (0, (rw hit (ap (λ (k : ℕ). some k) (omega arith)), omega arith, hit))
  | inr miss ↦ elim (find_exact_lem n (i + 1) rs start end (omega arith)) [
    | inl q ↦ inl (rw miss q.0, NoEntry-cons (is_exact start end) r rs n miss q.1)
    | inr q ↦
        let at : i + 1 + q.0 ≡ i + suc q.0 = omega arith in
        inr (suc q.0, (rw miss (q.1.0 ∙ ap (λ (k : ℕ). some k) at), omega (arith, q.1.1), q.1.2))
  ]
]

pub length-shift_down : (n at : ℕ) (rs : List Region) → length (shift_down n at rs) ≡ length rs
unfolding shift_down
length-shift_down zero at rs = refl
length-shift_down (suc n) at rs =
    length-shift_down n (at + 1) (set rs (at - 1) (get_or rs at region_clear))
    ∙ length-set rs (at - 1) (get_or rs at region_clear)

pub entry-set :
    (rs : List Region) (at k : ℕ) (r : Region)
    → at < length rs
    → entry (set rs at r) k ≡ (if k == at then r else entry rs k)
entry-set rs at k r h = get_or-set rs at k r region_clear h

-- Shifting moves `n` entries down by one.
pub entry-shift_down :
    (n at : ℕ) (rs : List Region) (k : ℕ)
    → 0 < at
    → at + n ≤ length rs
    → entry (shift_down n at rs) k
      ≡ (if leb at (k + 1) && ltb (k + 1) (at + n) then entry rs (k + 1) else entry rs k)
unfolding shift_down
entry-shift_down zero at rs k pos h =
    let out : (leb at (k + 1) && ltb (k + 1) (at + 0)) ≡ false = ground arith in rw out
entry-shift_down (suc n) at rs k pos h =
    let rs' = set rs (at - 1) (entry rs at) in
    let l = length-set rs (at - 1) (entry rs at) in
    let here = entry-set rs (at - 1) k (entry rs at) (omega arith) in
    let next = entry-set rs (at - 1) (k + 1) (entry rs at) (omega arith) in
    let rest = entry-shift_down n (at + 1) rs' k (omega arith) (omega arith) in
    rest ∙ elim (Bool-cases (k + 1 == at)) [
      | inl e ↦
          let same : entry rs (k + 1) ≡ entry rs at = ap (entry rs) (==→eq (k + 1) at e) in
          ground arith
      | inr e ↦ ground arith
    ]
