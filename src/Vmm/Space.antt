-- ===== src/Vmm/Space.antt =====
-- Address spaces of kernel/mm/vmm.c: the tables below a root, as a tree.
use armonios.Prelude.{
  ℕ, zero, suc, ◌+◌, ◌*◌, ◌%◌, ◌≤◌, ◌<◌, ◌≡◌, ◌≢◌, ◌⊎◌, refl, ap, ◌∙◌, inl, inr, true, false, arith,
  Bool-cases, ◌==◌,
}
use armonios.Pmm.{page_size}
use armonios.Vmm.{
  Vmm, table_entries, is_valid, is_table, address_of, entry_at, set_entry, zero_loop, zero_table,
  table_index,
}
use armonios.Vmm.Pages.{IsPages, InUse, page_bounds}

-- The tables below `pgd`: `rank` is 4 for the root, 1 for a last table and 0 for no table, and
-- `parent` is the word that points at a table. Each table is a page in use.
pub record IsSpace (s : Vmm) (pgd : ℕ) : Type 0 where
  pub rank : ℕ → ℕ
  pub parent : ℕ → ℕ
  pub pages : IsPages s.pmm
  pub root : rank pgd ≡ 4
  pub in_use : (t : ℕ) → 0 < rank t → InUse s.pmm t
  pub not_null : (t : ℕ) → 0 < rank t → t ≢ 0
  pub child :
      (t i : ℕ)
      → 1 < rank t
      → i < table_entries
      → is_valid (entry_at s t i) ≡ true
      → (is_table (entry_at s t i) ≡ true)
        × (rank (address_of (entry_at s t i)) + 1 ≡ rank t)
        × (parent (address_of (entry_at s t i)) ≡ t + 8 * i)

abbrev pub OnPage : ℕ → Type 0
OnPage t = t % page_size ≡ 0

pub table-OnPage : (s : Vmm) (pgd t : ℕ) → (v : IsSpace s pgd) → 0 < v.rank t → OnPage t
table-OnPage s pgd t v r = (page_bounds s.pmm t v.pages (v.in_use t r)).0

pub table_index-lt : (vaddr level : ℕ) → table_index vaddr level < table_entries
unfolding table_index
table_index-lt vaddr level = omega arith

pub entry_at-set_entry_same : (s : Vmm) (t i v : ℕ) → entry_at (set_entry s t i v) t i ≡ v
unfolding entry_at set_entry
entry_at-set_entry_same s t i v =
    let e : (t + 8 * i == t + 8 * i) ≡ true = ground arith in rw e refl

pub entry_at-set_entry_other :
    (s : Vmm) (t i v u j : ℕ)
    → OnPage t
    → OnPage u
    → i < table_entries
    → j < table_entries
    → (u ≢ t) ⊎ (j ≢ i)
    → entry_at (set_entry s t i v) u j ≡ entry_at s u j
unfolding entry_at set_entry
entry_at-set_entry_other s t i v u j pt pu hi hj apart =
    let far : u + 8 * j ≢ t + 8 * i =
      λ e. elim apart [ inl n ↦ absurd (n (omega arith)) | inr n ↦ absurd (n (omega arith)) ] in
    let e : (u + 8 * j == t + 8 * i) ≡ false = ground arith in rw e refl

zero_loop_other :
    (n i : ℕ) (s : Vmm) (t u j : ℕ)
    → OnPage t
    → OnPage u
    → i + n ≤ table_entries
    → j < table_entries
    → u ≢ t
    → entry_at (zero_loop n i s t) u j ≡ entry_at s u j
unfolding zero_loop
zero_loop_other zero i s t u j pt pu h hj ne = refl
zero_loop_other (suc n) i s t u j pt pu h hj ne =
    zero_loop_other n (i + 1) (set_entry s t i 0) t u j pt pu (omega arith) hj ne
    ∙ entry_at-set_entry_other s t i 0 u j pt pu (omega arith) hj (inl ne)

zero_loop_before :
    (n i : ℕ) (s : Vmm) (t j : ℕ)
    → OnPage t
    → i + n ≤ table_entries
    → j < i
    → entry_at (zero_loop n i s t) t j ≡ entry_at s t j
unfolding zero_loop
zero_loop_before zero i s t j pt h lt = refl
zero_loop_before (suc n) i s t j pt h lt =
    zero_loop_before n (i + 1) (set_entry s t i 0) t j pt (omega arith) (omega arith)
    ∙ entry_at-set_entry_other s t i 0 t j pt pt (omega arith) (omega arith)
        (inr (λ e. absurd (omega arith)))

zero_loop_cleared :
    (n i : ℕ) (s : Vmm) (t j : ℕ)
    → OnPage t
    → i + n ≤ table_entries
    → i ≤ j
    → j < i + n
    → entry_at (zero_loop n i s t) t j ≡ 0
unfolding zero_loop
zero_loop_cleared zero i s t j pt h low high = absurd (omega arith)
zero_loop_cleared (suc n) i s t j pt h low high = elim (Bool-cases (j == i)) [
  | inl e ↦
      let here : j ≡ i = ground arith in
      zero_loop_before n (i + 1) (set_entry s t i 0) t j pt (omega arith) (omega arith)
      ∙ ap (entry_at (set_entry s t i 0) t) here
      ∙ entry_at-set_entry_same s t i 0
  | inr e ↦
      zero_loop_cleared n (i + 1) (set_entry s t i 0) t j pt (omega arith) (ground arith)
        (omega arith)
]

zero_loop-pmm : (n i : ℕ) (s : Vmm) (t : ℕ) → (zero_loop n i s t).pmm ≡ s.pmm
unfolding zero_loop set_entry
zero_loop-pmm zero i s t = refl
zero_loop-pmm (suc n) i s t = zero_loop-pmm n (i + 1) (set_entry s t i 0) t

pub zero_table-pmm : (s : Vmm) (t : ℕ) → (zero_table s t).pmm ≡ s.pmm
unfolding zero_table
zero_table-pmm s t = zero_loop-pmm table_entries 0 s t

pub zero_table_cleared :
    (s : Vmm) (t j : ℕ) → OnPage t → j < table_entries → entry_at (zero_table s t) t j ≡ 0
unfolding zero_table
zero_table_cleared s t j pt hj =
    zero_loop_cleared table_entries 0 s t j pt (omega arith) (omega arith) (omega arith)

pub zero_table_other :
    (s : Vmm) (t u j : ℕ)
    → OnPage t
    → OnPage u
    → j < table_entries
    → u ≢ t
    → entry_at (zero_table s t) u j ≡ entry_at s u j
unfolding zero_table
zero_table_other s t u j pt pu hj ne =
    zero_loop_other table_entries 0 s t u j pt pu (omega arith) hj ne
