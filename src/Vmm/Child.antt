-- ===== src/Vmm/Child.antt =====
-- A new table below one of an address space, as next_table of kernel/mm/vmm.c adds it.
use mathlib.Core.Path.{subst}
use armonios.Prelude.{
  ℕ, zero, suc, ◌+◌, ◌-◌, ◌*◌, ◌≤◌, ◌<◌, ◌≡◌, ◌≢◌, ◌⊎◌, refl, sym, ap, ◌∙◌, inl, inr, true, false,
  ◌&&◌, arith, if◌then◌else◌, Bool-cases, ◌==◌, ==→eq, ==→ne,
}
use armonios.Pmm.{Pmm, page_size}
use armonios.Vmm.{
  Vmm, table_entries, is_valid, is_table, address_of, address_bits, entry_at, set_entry, zero_table,
  table_index, leaf_loop,
}
use armonios.Vmm.Pages.{IsPages, InUse, Fresh, page_bounds}
use armonios.Vmm.Space.{
  IsSpace, OnPage, table-OnPage, table_index-lt, entry_at-set_entry_same, entry_at-set_entry_other,
  zero_table-pmm, zero_table_cleared, zero_table_other,
}
use armonios.Vmm.Walk.{
  on_way, found_by, found_by_stops, found_by_goes, vmm_leaf_entry_lem, Grown, Below,
}

-- `t` gets the fresh page `c` as its table at entry `i`, which was not valid.
abbrev with_child : Vmm → ℕ → ℕ → ℕ → Pmm → Vmm
with_child s t i c q = set_entry (zero_table (record s { pmm = q }) c) t i (address_of c + 1 + 2)

-- What entry `j` of table `x` is, where it is valid and `x` is no last table.
abbrev ChildAt : (ℕ → ℕ) → (ℕ → ℕ) → ℕ → ℕ → ℕ → Type 0
ChildAt rank parent x j e =
    (is_table e ≡ true) × (rank (address_of e) + 1 ≡ rank x) × (parent (address_of e) ≡ x + 8 * j)

module _ (s : Vmm) (pgd : ℕ) (v : IsSpace s pgd) (t i c : ℕ) (q : Pmm) (inner : 1 < v.rank t)
    (hi : i < table_entries) (free : is_valid (entry_at s t i) ≡ false) (f : Fresh s.pmm c q) where
  c_page : OnPage c × (c + page_size ≤ address_bits)
  c_page = page_bounds q c f.pages f.taken

  old-ne : (x : ℕ) → 0 < v.rank x → x ≢ c
  old-ne x r = (f.kept x (v.in_use x r)).1

  new_entry : entry_at (with_child s t i c q) t i ≡ c + 3
  new_entry = entry_at-set_entry_same _ t i _ ∙ (let p = c_page in omega arith)

  leads_to : address_of (c + 3) ≡ c
  leads_to = let p = c_page in omega arith

  child_empty : (j : ℕ) → j < table_entries → entry_at (with_child s t i c q) c j ≡ 0
  child_empty j hj =
      entry_at-set_entry_other _ t i _ c j (table-OnPage s pgd t v (omega arith)) c_page.0 hi hj
        (inl (λ e. old-ne t (omega arith) (sym e)))
      ∙ zero_table_cleared _ c j c_page.0 hj

  others :
      (x j : ℕ)
      → 0 < v.rank x
      → j < table_entries
      → (x ≢ t) ⊎ (j ≢ i)
      → entry_at (with_child s t i c q) x j ≡ entry_at s x j
  unfolding entry_at
  others x j r hj apart =
      let px = table-OnPage s pgd x v r in
      entry_at-set_entry_other (zero_table (record s { pmm = q }) c) t i (address_of c + 1 + 2) x j
        (table-OnPage s pgd t v (omega arith)) px hi hj apart
      ∙ zero_table_other (record s { pmm = q }) c x j c_page.0 px hj (old-ne x r)

  same_pmm : (with_child s t i c q).pmm ≡ q
  unfolding set_entry
  same_pmm = zero_table-pmm (record s { pmm = q }) c

  -- A valid entry of an old table is not the new one.
  valid_others :
      (x j : ℕ)
      → 0 < v.rank x
      → j < table_entries
      → is_valid (entry_at s x j) ≡ true
      → entry_at (with_child s t i c q) x j ≡ entry_at s x j
  valid_others x j r hj e = others x j r hj (elim (Bool-cases (x == t)) [
    | inl same ↦ inr (λ ji. absurd (
        ground (
          arith,
          e,
          free,
          ap (λ (k : ℕ). is_valid (entry_at s k j)) (==→eq x t same),
          ap (λ (k : ℕ). is_valid (entry_at s t k)) ji,
        )))
    | inr other ↦ inl (==→ne x t other)
  ])

  new_rank : ℕ → ℕ
  new_rank x = if x == c then v.rank t - 1 else v.rank x

  new_parent : ℕ → ℕ
  new_parent x = if x == c then t + 8 * i else v.parent x

  new_rank_old : (x : ℕ) → x ≢ c → new_rank x ≡ v.rank x
  unfolding new_rank
  new_rank_old x ne = let e : (x == c) ≡ false = ground arith in rw e refl

  new_child :
      (x j : ℕ)
      → 1 < new_rank x
      → j < table_entries
      → is_valid (entry_at (with_child s t i c q) x j) ≡ true
      → ChildAt new_rank new_parent x j (entry_at (with_child s t i c q) x j)
  unfolding new_rank new_parent
  new_child x j r hj e = elim (Bool-cases (x == c)) [
    | inl is_new ↦ absurd (
        ground (
          arith,
          e,
          ap (λ (k : ℕ). entry_at (with_child s t i c q) k j) (==→eq x c is_new),
          child_empty j hj,
        ))
    | inr is_old ↦
        let rx : 1 < v.rank x = ground arith in
        elim (Bool-cases (x == t && j == i)) [
          | inl here ↦
              let at : entry_at (with_child s t i c q) x j ≡ c + 3 =
                ap (λ (k : ℕ). entry_at (with_child s t i c q) k j)
                  (let w : x ≡ t = ground arith in w)
                ∙ ap (entry_at (with_child s t i c q) t) (let w : j ≡ i = ground arith in w)
                ∙ new_entry in
              subst (ChildAt new_rank new_parent x j) (sym at) (
                ground (arith, c_page),
                ground (arith, leads_to, ap v.rank (let w : x ≡ t = ground arith in w)),
                ground (arith, leads_to),
              )
          | inr away ↦
              let apart : (x ≢ t) ⊎ (j ≢ i) = elim (Bool-cases (x == t)) [
                | inl w ↦ inr (λ z. ground arith)
                | inr w ↦ inl (==→ne x t w)
              ] in
              let same : entry_at (with_child s t i c q) x j ≡ entry_at s x j =
                others x j (omega arith) hj apart in
              let old = v.child x j rx hj (ap is_valid (sym same) ∙ e) in
              let ne = old-ne (address_of (entry_at s x j)) (omega (arith, old.1)) in
              let is_other : (address_of (entry_at s x j) == c) ≡ false = ground arith in
              subst (ChildAt new_rank new_parent x j) (sym same)
                (old.0, rw (is_other, is_old) old.1, rw (is_other) old.2)
        ]
  ]

  with_child_space : IsSpace (with_child s t i c q) pgd
  unfolding new_rank
  with_child_space = record {
    rank = new_rank;
    parent = new_parent;
    pages = subst IsPages (sym same_pmm) f.pages;
    root = new_rank_old pgd (old-ne pgd (omega (arith, v.root))) ∙ v.root;
    in_use = λ x r.
        subst (λ (p : Pmm). InUse p x) (sym same_pmm)
          (elim (Bool-cases (x == c)) [
            | inl e ↦ subst (InUse q) (sym (==→eq x c e)) f.taken
            | inr e ↦ (f.kept x (v.in_use x (ground arith))).0
          ]);
    not_null = λ x r. elim (Bool-cases (x == c)) [
      | inl e ↦ λ z. f.not_null (sym (==→eq x c e) ∙ z)
      | inr e ↦ v.not_null x (ground arith)
    ];
    child = new_child;
  }

  -- A walk into the new table finds nothing.
  found_by_child : (n level vaddr : ℕ) → found_by n level (with_child s t i c q) c vaddr ≡ 0
  unfolding leaf_loop
  found_by_child zero level vaddr =
      let e : (c == 0) ≡ false = (let ne = f.not_null in ground arith) in
      rw e (child_empty (table_index vaddr 3) (table_index-lt vaddr 3))
  found_by_child (suc n) level vaddr =
      let e = child_empty (table_index vaddr level) (table_index-lt vaddr level) in
      found_by_stops n level (with_child s t i c q) c vaddr (ground (arith, e))

  found_by_same :
      (n level x vaddr : ℕ)
      → v.rank x ≡ suc n
      → found_by n level (with_child s t i c q) x vaddr ≡ found_by n level s x vaddr
  unfolding leaf_loop
  found_by_same zero level x vaddr r =
      let e : (x == 0) ≡ false = (let ne = v.not_null x (omega arith) in ground arith) in
      let not_t : x ≢ t = λ z. absurd (omega (arith, r, inner, ap v.rank z)) in
      rw e (others x (table_index vaddr 3) (omega arith) (table_index-lt vaddr 3) (inl not_t))
  found_by_same (suc n) level x vaddr r =
      let j = table_index vaddr level in
      let hj = table_index-lt vaddr level in
      elim (Bool-cases (is_valid (on_way s x vaddr level))) [
        | inl e ↦
            let old = v.child x j (omega arith) hj e in
            let same = valid_others x j (omega arith) hj e in
            found_by_goes n level (with_child s t i c q) x vaddr (ap is_valid same ∙ e)
              (ap is_table same ∙ old.0)
            ∙ ap (λ (k : ℕ). found_by n (level + 1) (with_child s t i c q) (address_of k) vaddr)
                same
            ∙ found_by_same n (level + 1) (address_of (on_way s x vaddr level)) vaddr
                (omega (arith, old.1))
            ∙ sym (found_by_goes n level s x vaddr e old.0)
        | inr e ↦ invalid n level x vaddr r e ∙ sym (found_by_stops n level s x vaddr e)
      ]
    where
      invalid :
          (n level x vaddr : ℕ)
          → v.rank x ≡ suc (suc n)
          → is_valid (on_way s x vaddr level) ≡ false
          → found_by (suc n) level (with_child s t i c q) x vaddr ≡ 0
      invalid n level x vaddr r e =
          let j = table_index vaddr level in
          let hj = table_index-lt vaddr level in
          elim (Bool-cases (x == t && j == i)) [
            | inl here ↦
                let at : entry_at (with_child s t i c q) x j ≡ c + 3 =
                  ap (λ (k : ℕ). entry_at (with_child s t i c q) k j)
                    (let w : x ≡ t = ground arith in w)
                  ∙ ap (entry_at (with_child s t i c q) t) (let w : j ≡ i = ground arith in w)
                  ∙ new_entry in
                found_by_goes n level (with_child s t i c q) x vaddr (ground (arith, at, c_page))
                  (ground (arith, at, c_page))
                ∙ ap (λ (k : ℕ). found_by n (level + 1) (with_child s t i c q) (address_of k) vaddr)
                    at
                ∙ ap (λ (k : ℕ). found_by n (level + 1) (with_child s t i c q) k vaddr) leads_to
                ∙ found_by_child n (level + 1) vaddr
            | inr away ↦
                let apart : (x ≢ t) ⊎ (j ≢ i) = elim (Bool-cases (x == t)) [
                  | inl w ↦ inr (λ z. ground arith)
                  | inr w ↦ inl (==→ne x t w)
                ] in
                found_by_stops n level (with_child s t i c q) x vaddr
                  (ap is_valid (others x j (omega arith) hj apart) ∙ e)
          ]

  abbrev with_child_grown : Grown s pgd v (with_child s t i c q)
  unfolding with_child_space new_rank
  with_child_grown =
      let nn = v.not_null pgd (omega (arith, v.root)) in
      record {
        space = with_child_space;
        rank_kept = λ x r. new_rank_old x (old-ne x r);
        kept = λ x j r hj e. valid_others x j r hj e;
        translates = λ vaddr.
            vmm_leaf_entry_lem (with_child s t i c q) pgd vaddr nn
            ∙ found_by_same 3 0 pgd vaddr v.root
            ∙ sym (vmm_leaf_entry_lem s pgd vaddr nn);
      }

  pub with_child-Below : Below s pgd t i c v (with_child s t i c q)
  unfolding with_child_space with_child_grown new_rank
  with_child-Below =
      let e = new_entry in
      let p = c_page in
      record {
        grown = with_child_grown;
        not_null = f.not_null;
        rank = ground arith;
        valid = ground (arith, e, p);
        table = ground (arith, e, p);
        address = ap address_of e ∙ leads_to;
      }
