-- ===== src/Vmm/Descend.antt =====
-- The search for a last table, and the descriptors, of kernel/mm/vmm.c.
use mathlib.Core.Path.{subst}
use armonios.Prelude.{
  ℕ, zero, suc, ◌+◌, ◌%◌, ◌<◌, ◌≡◌, ◌≢◌, ◌⊎◌, refl, sym, ap, ◌∙◌, inl, inr, true, false, arith,
  Bool-cases, ◌==◌,
}
use armonios.Pmm.{page_size}
use armonios.Vmm.{
  Vmm, is_valid, is_table, address_of, address_bits, entry_at, table_index, leaf_loop, next_table,
}
use armonios.Vmm.Space.{IsSpace, table_index-lt}
use armonios.Vmm.Walk.{Grown}
use armonios.Vmm.{page_descriptor, flag_of, descend}
use armonios.Vmm.Walk.{leaf_loop_goes, Grown-refl, Grown-trans}
use armonios.Vmm.Next.{next_table-Below}

-- A descriptor is valid, of a page, and holds the page's address.
pub page_descriptor_lem :
    (paddr flags : ℕ)
    → paddr < address_bits
    → paddr % page_size ≡ 0
    → (is_valid (page_descriptor paddr flags) ≡ true)
      × (is_table (page_descriptor paddr flags) ≡ true)
      × (address_of (page_descriptor paddr flags) ≡ paddr)
unfolding page_descriptor
page_descriptor_lem paddr flags hp page = elim (Bool-cases (flag_of flags 8)) [
  | inl a ↦ rw a (ground arith, ground arith, ground arith)
  | inr a ↦ rw a (ground arith, ground arith, ground arith)
]

-- What a search for the last table leaves: the table, found by a walk, or no free page.
unfoldable pub Descended : (s : Vmm) (pgd : ℕ) → IsSpace s pgd → ℕ → ℕ → ℕ → ℕ → ℕ → Vmm → Type 0
Descended s pgd v n level t vaddr last s' =
    (g : Grown s pgd v s') × (((last ≡ 0) × (s'.pmm.free_pages ≡ 0))
      ⊎ ((last ≢ 0) × (leaf_loop n level s' t vaddr ≡ last)))

pub descend-Descended :
    (n level : ℕ) (s : Vmm) (pgd t vaddr : ℕ) (v : IsSpace s pgd)
    → v.rank t ≡ suc n
    → Descended s pgd v n level t vaddr (descend n level s t vaddr).0 (descend n level s t vaddr).1
unfolding Descended descend leaf_loop
descend-Descended zero level s pgd t vaddr v r =
    (Grown-refl s pgd v, inr (v.not_null t (omega arith), refl))
descend-Descended (suc n) level s pgd t vaddr v r =
    let i = table_index vaddr level in
    let hi = table_index-lt vaddr level in
    elim (next_table-Below s pgd t i v (omega arith) hi) [
      | inl q ↦
          let z : ((next_table s t i).0 == 0) ≡ true = ground (arith, q.0) in
          rw z (
            subst (Grown s pgd v) (sym q.1) (Grown-refl s pgd v),
            inl (refl, ap (λ (u : Vmm). u.pmm.free_pages) q.1 ∙ q.2),
          )
      | inr b ↦
          let z : ((next_table s t i).0 == 0) ≡ false = (let ne = b.not_null in ground arith) in
          let rest =
            descend-Descended n (level + 1) (next_table s t i).1 pgd (next_table s t i).0 vaddr
              b.grown.space (omega (arith, b.rank, r)) in
          rw z (
            Grown-trans b.grown rest.0,
            elim rest.1 [
              | inl e ↦ inl e
              | inr e ↦
                  let s2 =
                    (descend n (level + 1) (next_table s t i).1 (next_table s t i).0 vaddr).1 in
                  let same : entry_at s2 t i ≡ entry_at (next_table s t i).1 t i =
                    rest.0.kept t i (omega (arith, r, b.grown.rank_kept t (omega arith))) hi
                      b.valid in
                  inr (
                    e.0,
                    leaf_loop_goes n level s2 t vaddr (ap is_valid same ∙ b.valid)
                          (ap is_table same ∙ b.table)
                        ∙ ap (λ (k : ℕ). leaf_loop n (level + 1) s2 (address_of k) vaddr) same
                        ∙ ap (λ (k : ℕ). leaf_loop n (level + 1) s2 k vaddr) b.address
                        ∙ e.1,
                  )
            ],
          )
    ]
