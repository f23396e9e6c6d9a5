-- ===== src/Vmm/Leaf.antt =====
-- Writes to an entry of a last table, as vmm_map_page and vmm_unmap_page of kernel/mm/vmm.c end.
use armonios.Prelude.{
  ℕ, zero, suc, ◌+◌, ◌/◌, ◌≤◌, ◌<◌, ◌≡◌, ◌≢◌, ◌⊎◌, refl, sym, ap, ◌∙◌, inl, inr, false, not, ◌||◌,
  arith, if◌then◌else◌, Bool-cases, ◌==◌, ==→eq, ==→ne,
}
use armonios.Pmm.{page_size}
use armonios.Vmm.{
  Vmm, table_entries, is_valid, is_table, address_of, address_bits, entry_at, set_entry,
  table_index, leaf_loop, vmm_leaf_entry,
}
use armonios.Vmm.Space.{
  IsSpace, table-OnPage, table_index-lt, entry_at-set_entry_same, entry_at-set_entry_other,
}
use armonios.Vmm.Walk.{on_way, leaf_loop_cases, vmm_leaf_entry_lem}
use armonios.Vmm.Walk.{
  leaf_loop_goes, leaf_loop_stops, rank-leaf_loop, same_way, same_page, same_page_index, last_entry,
}

-- Entry `i` of the last table `last` becomes `d`.
module _ (s : Vmm) (pgd : ℕ) (v : IsSpace s pgd) (last i d : ℕ) (rank_last : v.rank last ≡ 1)
    (hi : i < table_entries) where
  elsewhere :
      (x j : ℕ)
      → 0 < v.rank x
      → j < table_entries
      → (x ≢ last) ⊎ (j ≢ i)
      → entry_at (set_entry s last i d) x j ≡ entry_at s x j
  elsewhere x j r hj apart =
      entry_at-set_entry_other s last i d x j (table-OnPage s pgd last v (omega arith))
        (table-OnPage s pgd x v r) hi hj apart

  inner_kept :
      (x j : ℕ)
      → 1 < v.rank x
      → j < table_entries
      → entry_at (set_entry s last i d) x j ≡ entry_at s x j
  inner_kept x j r hj =
      elsewhere x j (omega arith) hj (inl (λ e. absurd (omega (arith, r, rank_last, ap v.rank e))))

  pub set_last-IsSpace : IsSpace (set_entry s last i d) pgd
  unfolding set_entry
  set_last-IsSpace = record {
    rank = v.rank;
    parent = v.parent;
    pages = v.pages;
    root = v.root;
    in_use = v.in_use;
    not_null = v.not_null;
    child = λ x j r hj e.
        let same = inner_kept x j r hj in
        let old = v.child x j r hj (ap is_valid (sym same) ∙ e) in
        (
          ap is_table same ∙ old.0,
          ap (λ (k : ℕ). v.rank (address_of k) + 1) same ∙ old.1,
          ap (λ (k : ℕ). v.parent (address_of k)) same ∙ old.2,
        );
  }

  leaf_loop_kept :
      (n level x vaddr : ℕ)
      → v.rank x ≡ suc n
      → leaf_loop n level (set_entry s last i d) x vaddr ≡ leaf_loop n level s x vaddr
  unfolding leaf_loop
  leaf_loop_kept zero level x vaddr r = refl
  leaf_loop_kept (suc n) level x vaddr r =
      let same =
        inner_kept x (table_index vaddr level) (omega arith) (table_index-lt vaddr level) in
      elim (leaf_loop_cases s pgd v n level x vaddr r) [
        | inl c ↦
            leaf_loop_stops n level (set_entry s last i d) x vaddr (ap is_valid same ∙ c.0)
            ∙ sym c.1
        | inr c ↦
            let old =
              v.child x (table_index vaddr level) (omega arith) (table_index-lt vaddr level) c.0 in
            leaf_loop_goes n level (set_entry s last i d) x vaddr (ap is_valid same ∙ c.0)
              (ap is_table same ∙ old.0)
            ∙ ap (λ (k : ℕ). leaf_loop n (level + 1) (set_entry s last i d) (address_of k) vaddr)
                same
            ∙ leaf_loop_kept n (level + 1) (address_of (on_way s x vaddr level)) vaddr c.2
            ∙ sym c.1
      ]

-- Addresses on one page have one walk.
pub leaf_loop_page :
    (n level : ℕ) (s : Vmm) (t vaddr other : ℕ)
    → level + n ≤ 4
    → vaddr / page_size ≡ other / page_size
    → leaf_loop n level s t vaddr ≡ leaf_loop n level s t other
unfolding leaf_loop
leaf_loop_page zero level s t vaddr other le e = refl
leaf_loop_page (suc n) level s t vaddr other le e =
    let same = same_page_index vaddr other level (omega arith) e in
    rw same (
      ap
        (λ (k : ℕ).
          if not (is_valid (on_way s t other level)) || not (is_table (on_way s t other level))
          then 0
          else k)
        (leaf_loop_page n (level + 1) s (address_of (on_way s t other level)) vaddr other
          (omega arith) e))

-- Walks to two pages do not end at one entry.
apart_entries :
    (s : Vmm) (pgd : ℕ) (v : IsSpace s pgd) (vaddr other last : ℕ)
    → vaddr < address_bits
    → other < address_bits
    → last ≢ 0
    → leaf_loop 3 0 s pgd vaddr ≡ last
    → other / page_size ≢ vaddr / page_size
    → (leaf_loop 3 0 s pgd other ≢ last) ⊎ (table_index other 3 ≢ table_index vaddr 3)
apart_entries s pgd v vaddr other last hv ho ne at far =
    elim (Bool-cases (leaf_loop 3 0 s pgd other == last)) [
      | inr e ↦ inl (==→ne (leaf_loop 3 0 s pgd other) last e)
      | inl e ↦
          let ends : leaf_loop 3 0 s pgd other ≡ last = ==→eq (leaf_loop 3 0 s pgd other) last e in
          let way =
            same_way s pgd v 3 0 pgd pgd other vaddr v.root v.root (λ z. ne (sym ends ∙ z))
              (ends ∙ sym at) in
          inr (λ fourth. far (
            same_page other vaddr ho hv (λ k lt. elim (Bool-cases (k == 3)) [
              | inl w ↦
                  ap (table_index other) (==→eq k 3 w)
                  ∙ fourth
                  ∙ ap (table_index vaddr) (sym (==→eq k 3 w))
              | inr w ↦ way.1 k (omega arith) (ground arith)
            ])))
    ]

-- A write to the entry of one page changes the entries of the addresses on it alone.
pub vmm_leaf_entry-set_entry :
    (s : Vmm) (pgd : ℕ) (v : IsSpace s pgd) (vaddr other d last : ℕ)
    → vaddr < address_bits
    → other < address_bits
    → last ≢ 0
    → leaf_loop 3 0 s pgd vaddr ≡ last
    → vmm_leaf_entry (set_entry s last (table_index vaddr 3) d) pgd other
      ≡ (if other / page_size == vaddr / page_size then d else vmm_leaf_entry s pgd other)
vmm_leaf_entry-set_entry s pgd v vaddr other d last hv ho ne at =
    let i = table_index vaddr 3 in
    let hi = table_index-lt vaddr 3 in
    let nn = v.not_null pgd (omega (arith, v.root)) in
    let rank_last : v.rank last ≡ 1 =
      ap v.rank (sym at) ∙ rank-leaf_loop s pgd v 3 0 pgd vaddr v.root (λ z. ne (sym at ∙ z)) in
    let l = leaf_loop 3 0 s pgd other in
    let kept = leaf_loop_kept s pgd v last i d rank_last hi 3 0 pgd other v.root in
    vmm_leaf_entry_lem (set_entry s last i d) pgd other nn
    ∙ ap (last_entry (set_entry s last i d) other) kept
    ∙ elim (Bool-cases (other / page_size == vaddr / page_size)) [
      | inl e ↦
          let page : other / page_size ≡ vaddr / page_size =
            ==→eq (other / page_size) (vaddr / page_size) e in
          let ends : l ≡ last = leaf_loop_page 3 0 s pgd other vaddr (omega arith) page ∙ at in
          let full : (last == 0) ≡ false = ground arith in
          ap (last_entry (set_entry s last i d) other) ends
          ∙ rw (e, full)
              (ap (entry_at (set_entry s last i d) last)
                  (same_page_index other vaddr 3 (omega arith) page)
                ∙ entry_at-set_entry_same s last i d)
      | inr e ↦ rw e (
          elim (Bool-cases (l == 0)) [
            | inl z ↦ rw z refl
            | inr z ↦
                let rank_l = rank-leaf_loop s pgd v 3 0 pgd other v.root (==→ne l 0 z) in
                rw z (
                  elsewhere s pgd v last i d rank_last hi l (table_index other 3) (omega arith)
                    (table_index-lt other 3)
                    (apart_entries s pgd v vaddr other last hv ho ne at
                      (==→ne (other / page_size) (vaddr / page_size) e)))
          ]
          ∙ sym (vmm_leaf_entry_lem s pgd other nn))
    ]
