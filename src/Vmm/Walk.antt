-- ===== src/Vmm/Walk.antt =====
-- Walks from the root of an address space to a last table, in kernel/mm/vmm.c.
use armonios.Prelude.{
  ℕ, zero, suc, ◌+◌, ◌*◌, ◌/◌, ◌≤◌, ◌<◌, ◌≡◌, ◌≢◌, ◌⊎◌, refl, sym, ap, ◌∙◌, inl, inr, true, false,
  arith, if◌then◌else◌, Bool-cases, ◌==◌, ==→eq,
}
use armonios.Pmm.{page_size}
use armonios.Vmm.{
  Vmm, table_entries, is_valid, is_table, address_of, address_bits, entry_at, table_index,
  leaf_loop, leaf_table, vmm_leaf_entry,
}
use armonios.Vmm.Space.{IsSpace, table-OnPage, table_index-lt}

-- the entry of `table` that a walk to `vaddr` reads at `level`
abbrev pub on_way : Vmm → ℕ → ℕ → ℕ → ℕ
on_way s table vaddr level = entry_at s table (table_index vaddr level)

pub leaf_loop_stops :
    (n level : ℕ) (s : Vmm) (t vaddr : ℕ)
    → is_valid (on_way s t vaddr level) ≡ false
    → leaf_loop (suc n) level s t vaddr ≡ 0
unfolding leaf_loop
leaf_loop_stops n level s t vaddr e = rw e refl

pub leaf_loop_goes :
    (n level : ℕ) (s : Vmm) (t vaddr : ℕ)
    → is_valid (on_way s t vaddr level) ≡ true
    → is_table (on_way s t vaddr level) ≡ true
    → leaf_loop (suc n) level s t vaddr
      ≡ leaf_loop n (level + 1) s (address_of (on_way s t vaddr level)) vaddr
unfolding leaf_loop
leaf_loop_goes n level s t vaddr e f = rw (e, f) refl

module _ (s : Vmm) (pgd : ℕ) (v : IsSpace s pgd) where
  -- A step of a walk ends it, or goes on at a table of the next rank.
  pub leaf_loop_cases :
      (n level t vaddr : ℕ)
      → v.rank t ≡ suc (suc n)
      → let e = on_way s t vaddr level in
        ((is_valid e ≡ false) × (leaf_loop (suc n) level s t vaddr ≡ 0))
        ⊎ ((is_valid e ≡ true)
            × (leaf_loop (suc n) level s t vaddr ≡ leaf_loop n (level + 1) s (address_of e) vaddr)
            × (v.rank (address_of e) ≡ suc n)
            × (v.parent (address_of e) ≡ t + 8 * table_index vaddr level))
  leaf_loop_cases n level t vaddr r = elim (Bool-cases (is_valid (on_way s t vaddr level))) [
    | inl e ↦
        let c = v.child t (table_index vaddr level) (omega arith) (table_index-lt vaddr level) e in
        inr (e, leaf_loop_goes n level s t vaddr e c.0, omega (arith, c.1), c.2)
    | inr e ↦ inl (e, leaf_loop_stops n level s t vaddr e)
  ]

  pub rank-leaf_loop :
      (n level t vaddr : ℕ)
      → v.rank t ≡ suc n
      → leaf_loop n level s t vaddr ≢ 0
      → v.rank (leaf_loop n level s t vaddr) ≡ 1
  unfolding leaf_loop
  rank-leaf_loop zero level t vaddr r ne = r
  rank-leaf_loop (suc n) level t vaddr r ne = elim (leaf_loop_cases n level t vaddr r) [
    | inl c ↦ absurd (ne c.1)
    | inr c ↦
        ap v.rank c.1
        ∙ rank-leaf_loop n (level + 1) (address_of (on_way s t vaddr level)) vaddr c.2
            (λ e. ne (c.1 ∙ e))
  ]

  -- Walks that end at one table began at one table and read the same entries.
  pub same_way :
      (n level t u vaddr other : ℕ)
      → v.rank t ≡ suc n
      → v.rank u ≡ suc n
      → leaf_loop n level s t vaddr ≢ 0
      → leaf_loop n level s t vaddr ≡ leaf_loop n level s u other
      → (t ≡ u) × ((k : ℕ) → level ≤ k → k < level + n → table_index vaddr k ≡ table_index other k)
  unfolding leaf_loop
  same_way zero level t u vaddr other rt ru ne e = (e, λ k low high. absurd (omega arith))
  same_way (suc n) level t u vaddr other rt ru ne e = elim (leaf_loop_cases n level t vaddr rt) [
    | inl c ↦ absurd (ne c.1)
    | inr c ↦ elim (leaf_loop_cases n level u other ru) [
      | inl d ↦ absurd (ne (e ∙ d.1))
      | inr d ↦
          let tc = address_of (on_way s t vaddr level) in
          let uc = address_of (on_way s u other level) in
          let rest =
            same_way n (level + 1) tc uc vaddr other c.2 d.2 (λ z. ne (c.1 ∙ z))
              (sym c.1 ∙ e ∙ d.1) in
          let words : t + 8 * table_index vaddr level ≡ u + 8 * table_index other level =
            sym c.3 ∙ ap v.parent rest.0 ∙ d.3 in
          let pt = table-OnPage s pgd t v (omega arith) in
          let pu = table-OnPage s pgd u v (omega arith) in
          let lt = table_index-lt vaddr level in
          let lu = table_index-lt other level in
          let same : t ≡ u = omega arith in
          (
            same,
            λ k low high. elim (Bool-cases (k == level)) [
              | inl here ↦
                  let at : k ≡ level = ==→eq k level here in
                  ap (table_index vaddr) at
                  ∙ (let q : table_index vaddr level ≡ table_index other level = omega arith in q)
                  ∙ ap (table_index other) (sym at)
              | inr away ↦ rest.1 k (ground arith) (omega arith)
            ],
          )
    ]
  ]

-- Addresses of 48 bits with the same entries on all four levels lie on one page.
pub same_page :
    (vaddr other : ℕ)
    → vaddr < address_bits
    → other < address_bits
    → ((k : ℕ) → k < 4 → table_index vaddr k ≡ table_index other k)
    → vaddr / page_size ≡ other / page_size
unfolding table_index
same_page vaddr other hv ho same =
    omega (
      arith,
      same 0 (omega arith),
      same 1 (omega arith),
      same 2 (omega arith),
      same 3 (omega arith),
    )

pub same_page_index :
    (vaddr other level : ℕ)
    → level < 4
    → vaddr / page_size ≡ other / page_size
    → table_index vaddr level ≡ table_index other level
unfolding table_index
same_page_index vaddr other zero lt e = omega arith
same_page_index vaddr other (suc zero) lt e = omega arith
same_page_index vaddr other (suc (suc zero)) lt e = omega arith
same_page_index vaddr other (suc (suc (suc zero))) lt e = omega arith
same_page_index vaddr other (suc (suc (suc (suc k)))) lt e = absurd (omega arith)

-- The entry of the last table that a walk finds, or 0.
abbrev pub found_by : ℕ → ℕ → Vmm → ℕ → ℕ → ℕ
found_by n level s t vaddr =
    let last = leaf_loop n level s t vaddr in if last == 0 then 0 else on_way s last vaddr 3

abbrev pub last_entry : Vmm → ℕ → ℕ → ℕ
last_entry s vaddr last = if last == 0 then 0 else on_way s last vaddr 3

pub found_by_stops :
    (n level : ℕ) (s : Vmm) (t vaddr : ℕ)
    → is_valid (on_way s t vaddr level) ≡ false
    → found_by (suc n) level s t vaddr ≡ 0
found_by_stops n level s t vaddr e = ap (last_entry s vaddr) (leaf_loop_stops n level s t vaddr e)

pub found_by_goes :
    (n level : ℕ) (s : Vmm) (t vaddr : ℕ)
    → is_valid (on_way s t vaddr level) ≡ true
    → is_table (on_way s t vaddr level) ≡ true
    → found_by (suc n) level s t vaddr
      ≡ found_by n (level + 1) s (address_of (on_way s t vaddr level)) vaddr
found_by_goes n level s t vaddr e f = ap (last_entry s vaddr) (leaf_loop_goes n level s t vaddr e f)

pub vmm_leaf_entry_lem :
    (s : Vmm) (pgd vaddr : ℕ) → pgd ≢ 0 → vmm_leaf_entry s pgd vaddr ≡ found_by 3 0 s pgd vaddr
unfolding vmm_leaf_entry leaf_table
vmm_leaf_entry_lem s pgd vaddr ne = let e : (pgd == 0) ≡ false = ground arith in rw e refl

-- Tables may have been added: the old ones are still there, with their valid entries, and every
-- address has the entry it had.
pub record Grown (s : Vmm) (pgd : ℕ) (v : IsSpace s pgd) (s' : Vmm) : Type 0 where
  pub space : IsSpace s' pgd
  pub rank_kept : (t : ℕ) → 0 < v.rank t → space.rank t ≡ v.rank t
  pub kept :
      (t i : ℕ)
      → 0 < v.rank t
      → i < table_entries
      → is_valid (entry_at s t i) ≡ true
      → entry_at s' t i ≡ entry_at s t i
  pub translates : (vaddr : ℕ) → vmm_leaf_entry s' pgd vaddr ≡ vmm_leaf_entry s pgd vaddr

pub Grown-refl : (s : Vmm) (pgd : ℕ) (v : IsSpace s pgd) → Grown s pgd v s
Grown-refl s pgd v = record {
  space = v;
  rank_kept = λ t r. refl;
  kept = λ t i r h e. refl;
  translates = λ vaddr. refl;
}

pub Grown-trans :
    {s s' s'' : Vmm} {pgd : ℕ} {v : IsSpace s pgd} (g : Grown s pgd v s')
    → Grown s' pgd g.space s''
    → Grown s pgd v s''
Grown-trans g h = record {
  space = h.space;
  rank_kept = λ t r. h.rank_kept t (omega (arith, r, g.rank_kept t r)) ∙ g.rank_kept t r;
  kept = λ t i r lt e.
      let first = g.kept t i r lt e in
      h.kept t i (omega (arith, r, g.rank_kept t r)) lt (ap is_valid first ∙ e) ∙ first;
  translates = λ vaddr. h.translates vaddr ∙ g.translates vaddr;
}

-- Table `c` stands at entry `i` of table `t`, below it.
pub record Below (s : Vmm) (pgd t i c : ℕ) (v : IsSpace s pgd) (s' : Vmm) : Type 0 where
  pub grown : Grown s pgd v s'
  pub not_null : c ≢ 0
  pub rank : grown.space.rank c + 1 ≡ v.rank t
  pub valid : is_valid (entry_at s' t i) ≡ true
  pub table : is_table (entry_at s' t i) ≡ true
  pub address : address_of (entry_at s' t i) ≡ c
