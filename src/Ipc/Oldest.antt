-- ===== src/Ipc/Oldest.antt =====
-- ipc_find_oldest_target_slot of kernel/ipc.c: the oldest message for a target.
use mathlib.Core.Path.{subst}
use armonios.Prelude.{
  ◌≢◌, ℕ, zero, suc, ◌+◌, ◌-◌, ◌≤◌, ◌<◌, ◌≡◌, ◌⊎◌, refl, ap, ◌∙◌, inl, inr, true, false, List, [],
  ◌∷◌, Option, none, some, arith, ltb, length, get_or, Bool-cases,
}
use armonios.Ipc.{Slot, no_slot, is_for, older, find_oldest}

abbrev pub slot : List Slot → ℕ → Slot
slot ss k = get_or ss k no_slot

-- No slot is for the target.
abbrev pub NoneFor : ℕ → List Slot → Type 0
NoneFor target ss = (k : ℕ) → k < length ss → is_for target (slot ss k) ≡ false

-- No slot for the target is older than `s`.
abbrev pub Oldest : ℕ → List Slot → Slot → Type 0
Oldest target ss s =
    (k : ℕ) → k < length ss → is_for target (slot ss k) ≡ true → s.sequence ≤ (slot ss k).sequence

-- The result `(j, s)` is what was found before, or a slot of the list that begins at index `i`.
abbrev pub Origin : ℕ → List Slot → ℕ → Option (ℕ × Slot) → ℕ × Slot → Type 0
Origin target ss i best p =
    (best ≡ some p)
    ⊎ ((i ≤ p.0) × (p.0 < i + length ss) × (slot ss (p.0 - i) ≡ p.1) × (is_for target p.1 ≡ true))

-- No older slot was found before.
abbrev pub NotBelow : Option (ℕ × Slot) → Slot → Type 0
NotBelow best s = (b : ℕ × Slot) → best ≡ some b → s.sequence ≤ b.1.sequence

abbrev pub Found : ℕ → List Slot → ℕ → Option (ℕ × Slot) → ℕ × Slot → Type 0
Found target ss i best p = Origin target ss i best p × Oldest target ss p.1 × NotBelow best p.1

-- The search of a list from index `i` on.
abbrev pub Search : ℕ → List Slot → ℕ → Option (ℕ × Slot) → Type 0
Search target ss i best =
    ((find_oldest ss target i best ≡ none) × (best ≡ none) × NoneFor target ss)
    ⊎ ((p : ℕ × Slot) × ((find_oldest ss target i best ≡ some p) × Found target ss i best p))

Oldest-front :
    (target : ℕ) (s q : Slot) (ss : List Slot)
    → (is_for target s ≡ true → q.sequence ≤ s.sequence)
    → Oldest target ss q
    → Oldest target (s ∷ ss) q
Oldest-front target s q ss front rest zero h mine = front mine
Oldest-front target s q ss front rest (suc k) h mine = rest k (omega arith) mine

-- An origin in the tail of a list.
Origin-front :
    (target : ℕ) (s : Slot) (ss : List Slot) (i : ℕ) (before best : Option (ℕ × Slot))
    (p : ℕ × Slot)
    → (before ≡ some p → Origin target (s ∷ ss) i best p)
    → Origin target ss (i + 1) before p
    → Origin target (s ∷ ss) i best p
Origin-front target s ss i before best p first (inl e) = first e
Origin-front target s ss i before best p first (inr o) =
    let at : p.0 - i ≡ suc (p.0 - (i + 1)) = omega (arith, o.0) in
    inr (omega (arith, o.0), omega (arith, o.1), ap (slot (s ∷ ss)) at ∙ o.2, o.3)

same_pair : (p q : ℕ × Slot) → some p ≡ some q → p ≡ q
same_pair p q e = ap (λ (o : Option (ℕ × Slot)). elim o [ none ↦ p | some r ↦ r ]) e

-- One more slot in front that is not for the target.
skip_front :
    (target : ℕ) (s : Slot) (ss : List Slot) (i : ℕ) (best : Option (ℕ × Slot)) (p : ℕ × Slot)
    → is_for target s ≡ false
    → Found target ss (i + 1) best p
    → Found target (s ∷ ss) i best p
skip_front target s ss i best p other f = (
  Origin-front target s ss i best best p inl f.0,
  Oldest-front target s p.1 ss (λ mine. absurd (ground arith)) f.1,
  f.2,
)

-- The slot in front is the oldest so far.
begin_front :
    (target : ℕ) (s : Slot) (ss : List Slot) (i : ℕ) (best : Option (ℕ × Slot)) (p : ℕ × Slot)
    → is_for target s ≡ true
    → NotBelow best s
    → Found target ss (i + 1) (some (i, s)) p
    → Found target (s ∷ ss) i best p
begin_front target s ss i best p mine below f =
    let le : p.1.sequence ≤ s.sequence = f.2 (i, s) refl in
    let at : i - i ≡ 0 = omega arith in
    (
      Origin-front target s ss i (some (i, s)) best p
          (λ e.
            subst (Origin target (s ∷ ss) i best) (same_pair (i, s) p e)
              (inr (omega arith, omega arith, ap (slot (s ∷ ss)) at, mine)))
          f.0,
      Oldest-front target s p.1 ss (λ m. le) f.1,
      λ b e. omega (arith, le, below b e),
    )

-- The slot in front is not older than what was found before.
keep_front :
    (target : ℕ) (s : Slot) (ss : List Slot) (i : ℕ) (b : ℕ × Slot) (p : ℕ × Slot)
    → b.1.sequence ≤ s.sequence
    → Found target ss (i + 1) (some b) p
    → Found target (s ∷ ss) i (some b) p
keep_front target s ss i b p le f = (
  Origin-front target s ss i (some b) (some b) p inl f.0,
  Oldest-front target s p.1 ss (λ m. omega (arith, f.2 b refl)) f.1,
  f.2,
)

NoneFor-front :
    (target : ℕ) (s : Slot) (ss : List Slot)
    → is_for target s ≡ false
    → NoneFor target ss
    → NoneFor target (s ∷ ss)
NoneFor-front target s ss other rest zero h = other
NoneFor-front target s ss other rest (suc k) h = rest k (omega arith)

older_some : (best : Option (ℕ × Slot)) (i : ℕ) (s : Slot) → older best i s ≢ none
older_some none i s e = absurd (ground arith)
older_some (some b) i s e = elim (Bool-cases (ltb s.sequence b.1.sequence)) [
  | inl lower ↦ absurd (ground arith)
  | inr higher ↦ absurd (ground arith)
]

-- One more slot in front that is for the target.
take_front :
    (target : ℕ) (s : Slot) (ss : List Slot) (i : ℕ) (best : Option (ℕ × Slot)) (p : ℕ × Slot)
    → is_for target s ≡ true
    → Found target ss (i + 1) (older best i s) p
    → Found target (s ∷ ss) i best p
take_front target s ss i none p mine f =
    begin_front target s ss i none p mine (λ b e. absurd (ground arith)) f
take_front target s ss i (some b) p mine f = elim (Bool-cases (ltb s.sequence b.1.sequence)) [
  | inl lower ↦
      let less : s.sequence < b.1.sequence = ground arith in
      begin_front target s ss i (some b) p mine
        (λ c e. subst (λ (d : ℕ × Slot). s.sequence ≤ d.1.sequence) (same_pair b c e) (omega arith))
        (subst (λ (o : Option (ℕ × Slot)). Found target ss (i + 1) o p) (rw lower refl) f)
  | inr higher ↦
      let le : b.1.sequence ≤ s.sequence = ground arith in
      keep_front target s ss i b p le
        (subst (λ (o : Option (ℕ × Slot)). Found target ss (i + 1) o p) (rw higher refl) f)
]

pub find_oldest_lem :
    (ss : List Slot) (target i : ℕ) (best : Option (ℕ × Slot)) → Search target ss i best
unfolding find_oldest
find_oldest_lem [] target i none = inl (refl, refl, λ k h. absurd (omega arith))
find_oldest_lem [] target i (some b) = inr (
  b,
  (
    refl,
    (
      inl refl,
      λ k h m. absurd (omega arith),
      λ c e. subst (λ (d : ℕ × Slot). b.1.sequence ≤ d.1.sequence) (same_pair b c e) (omega arith),
    ),
  ),
)
find_oldest_lem (s ∷ ss) target i best = elim (Bool-cases (is_for target s)) [
  | inl mine ↦ elim (find_oldest_lem ss target (i + 1) (older best i s)) [
    | inl r ↦ absurd (older_some best i s r.1)
    | inr r ↦ inr (r.0, (rw mine r.1.0, take_front target s ss i best r.0 mine r.1.1))
  ]
  | inr other ↦ elim (find_oldest_lem ss target (i + 1) best) [
    | inl r ↦ inl (rw other r.0, r.1, NoneFor-front target s ss other r.2)
    | inr r ↦ inr (r.0, (rw other r.1.0, skip_front target s ss i best r.0 other r.1.1))
  ]
]
