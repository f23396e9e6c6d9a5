-- ===== src/Ring.antt =====
-- The circular arrays of drivers/input/input.c and kernel/gui_events.c: what a window of `n`
-- elements from `head` on holds, in an array of `size` elements.
use native.Mathlib.Nat.{mod-eq_of_lt, mod-eq-sub-mod, mod-lt, mod-add-mod}
use armonios.Prelude.{
  ℕ, zero, suc, ◌+◌, ◌-◌, ◌%◌, ◌≤◌, ◌<◌, ◌≡◌, ◌≢◌, refl, sym, ap, ◌∙◌, List, [], ◌∷◌, ◌++◌, arith,
  length, get_or, set, get_or-set_self, get_or-set_ne, ◌⊎◌, inl, inr, Bool-cases, ltb,
}

module _ {ℓ} {A : Type ℓ} (size : ℕ) where
  unfoldable pub window : List A → A → ℕ → ℕ → List A
  window es d head zero = []
  window es d head (suc n) = get_or es head d ∷ window es d ((head + 1) % size) n

-- A position in the window, without the modulus.
slot_lem :
    (size h n : ℕ)
    → h < size
    → n < size
    → ((h + n) % size ≡ h + n) ⊎ (((h + n) % size + size ≡ h + n) × (size ≤ h + n))
slot_lem size h n hs ns = elim (Bool-cases (ltb (h + n) size)) [
  | inl small ↦ inl (mod-eq_of_lt (ground arith))
  | inr big ↦
      let le : size ≤ h + n = ground arith in
      let e : (h + n) % size ≡ h + n - size = mod-eq-sub-mod le ∙ mod-eq_of_lt (omega arith) in
      inr (omega (arith, e), le)
]

slot-step : (size h n : ℕ) → ((h + 1) % size + n) % size ≡ (h + suc n) % size
slot-step size h n = mod-add-mod (h + 1) size n ∙ ap (λ (k : ℕ). k % size) (omega arith)

module _ {ℓ} {A : Type ℓ} (size : ℕ) where
  pub length-window : (es : List A) (d : A) (h n : ℕ) → length (window size es d h n) ≡ n
  unfolding window
  length-window es d h zero = refl
  length-window es d h (suc n) = ap suc (length-window es d ((h + 1) % size) n)

  -- A write outside the window is not seen.
  window-set_ne :
      (es : List A) (d : A) (h n i : ℕ) (e : A)
      → ((k : ℕ) → k < n → (h + k) % size ≢ i)
      → h < size
      → window size (set es i e) d h n ≡ window size es d h n
  unfolding window
  window-set_ne es d h zero i e out hs = refl
  window-set_ne es d h (suc n) i e out hs =
      let first : i ≢ h = λ q.
        out 0 (omega arith) (ap (λ (k : ℕ). k % size) (omega arith) ∙ mod-eq_of_lt hs ∙ sym q) in
      ap (λ (x : A). x ∷ window size (set es i e) d ((h + 1) % size) n)
        (get_or-set_ne es i h e d first)
      ∙ ap (λ (r : List A). get_or es h d ∷ r)
          (window-set_ne es d ((h + 1) % size) n i e
            (λ k lt q. out (suc k) (omega arith) (sym (slot-step size h k) ∙ q))
            (mod-lt (h + 1) (omega arith)))

  -- A window of one element more ends with the element behind it.
  pub window-suc :
      (es : List A) (d : A) (h n : ℕ)
      → h < size
      → window size es d h (suc n) ≡ window size es d h n ++ (get_or es ((h + n) % size) d ∷ [])
  unfolding window
  window-suc es d h zero hs =
      ap (λ (k : ℕ). get_or es k d ∷ [])
        (sym (mod-eq_of_lt hs) ∙ ap (λ (k : ℕ). k % size) (omega arith))
  window-suc es d h (suc n) hs =
      ap (λ (r : List A). get_or es h d ∷ r)
        (window-suc es d ((h + 1) % size) n (mod-lt (h + 1) (omega arith))
          ∙ ap (λ (k : ℕ). window size es d ((h + 1) % size) n ++ (get_or es k d ∷ []))
              (slot-step size h n))

  -- Writing the element behind the window extends it.
  pub window-push :
      (es : List A) (d : A) (h n : ℕ) (e : A)
      → length es ≡ size
      → h < size
      → n < size
      → window size (set es ((h + n) % size) e) d h (suc n) ≡ window size es d h n ++ (e ∷ [])
  window-push es d h n e len hs ns =
      let i = (h + n) % size in
      let inside : i < length es = rw len (mod-lt (h + n) (omega arith)) in
      window-suc (set es i e) d h n hs
      ∙ ap (λ (x : A). window size (set es i e) d h n ++ (x ∷ [])) (get_or-set_self es i e d inside)
      ∙ ap (λ (w : List A). w ++ (e ∷ []))
          (window-set_ne es d h n i e
            (λ k lt q. elim (slot_lem size h k hs (omega arith)) [
              | inl a ↦ elim (slot_lem size h n hs ns) [
                | inl b ↦ absurd (omega (arith, a, b, q))
                | inr b ↦ absurd (omega (arith, a, b, q))
              ]
              | inr a ↦ elim (slot_lem size h n hs ns) [
                | inl b ↦ absurd (omega (arith, a, b, q))
                | inr b ↦ absurd (omega (arith, a, b, q))
              ]
            ])
            hs)
