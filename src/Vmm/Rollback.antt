-- ===== src/Vmm/Rollback.antt =====
-- The rollback of vmm_map_range in kernel/mm/vmm.c.
use armonios.Prelude.{
  ℕ, zero, suc, ◌+◌, ◌*◌, ◌/◌, ◌%◌, ◌≤◌, ◌<◌, ◌≡◌, ◌≢◌, ◌⊎◌, refl, ap, ◌∙◌, inl, inr, Bool, true,
  false, not, ◌||◌, ◌&&◌, arith, Bool-cases, ◌==◌, ltb, ==→eq, ==→ne,
}
use armonios.Pmm.{page_size}
use armonios.Vmm.{Vmm, is_valid, address_bits, entry_at, set_entry, table_index, vmm_leaf_entry}
use armonios.Vmm.Space.{IsSpace}
use armonios.Vmm.{leaf_table, vmm_unmap_page}
use armonios.Vmm.{rollback_loop}
use armonios.Vmm.Remap.{vmm_leaf_entry_page}
use armonios.Vmm.Unmap.{vmm_unmap_page_lem}

-- Address `a` lies on the pages `from` to before `to`, counted from the page of `vaddr`.
abbrev pub inside : ℕ → ℕ → ℕ → ℕ → Bool
inside vaddr from to a = not (ltb a (vaddr + from * page_size)) && ltb a (vaddr + to * page_size)

-- What an unmapped page leaves at `a`.
abbrev Unmapped : Vmm → ℕ → ℕ → ℕ → Vmm → Type 0
Unmapped s pgd vaddr a s' =
    ((a / page_size ≢ vaddr / page_size) × (vmm_leaf_entry s' pgd a ≡ vmm_leaf_entry s pgd a))
    ⊎ ((a / page_size ≡ vaddr / page_size) × (is_valid (vmm_leaf_entry s' pgd a) ≡ false))

vmm_unmap_page-pmm : (s : Vmm) (pgd vaddr : ℕ) → (vmm_unmap_page s pgd vaddr).1.pmm ≡ s.pmm
unfolding vmm_unmap_page set_entry
vmm_unmap_page-pmm s pgd vaddr =
    let level3 = leaf_table s pgd vaddr in
    elim (Bool-cases (pgd == 0 || not (vaddr % page_size == 0))) [
      | inl a ↦ rw a refl
      | inr a ↦ rw a (elim (Bool-cases (level3 == 0)) [
        | inl b ↦ rw b refl
        | inr b ↦ rw b (elim (Bool-cases (is_valid (entry_at s level3 (table_index vaddr 3)))) [
          | inl c ↦ rw c refl
          | inr c ↦ rw c refl
        ])
      ])
    ]

unmap_one :
    (s : Vmm) (pgd vaddr a : ℕ)
    → IsSpace s pgd
    → vaddr < address_bits
    → vaddr % page_size ≡ 0
    → a < address_bits
    → IsSpace (vmm_unmap_page s pgd vaddr).1 pgd
      × Unmapped s pgd vaddr a (vmm_unmap_page s pgd vaddr).1
unmap_one s pgd vaddr a v hv on ha =
    let r = vmm_unmap_page_lem s pgd vaddr a v hv ha in
    (
      r.0,
      elim (Bool-cases (a / page_size == vaddr / page_size)) [
        | inl here ↦
            let page = ==→eq (a / page_size) (vaddr / page_size) here in
            inr (
              page,
              elim r.1 [
                | inl q ↦ elim q.2 [
                  | inl off ↦ absurd (off on)
                  | inr free ↦
                      ap (λ (t : Vmm). is_valid (vmm_leaf_entry t pgd a)) q.1
                      ∙ ap is_valid (vmm_leaf_entry_page s pgd v a vaddr page)
                      ∙ free
                ]
                | inr q ↦
                    let e : vmm_leaf_entry (vmm_unmap_page s pgd vaddr).1 pgd a ≡ 0 =
                      q.3.entries ∙ rw here refl in
                    ap is_valid e
              ],
            )
        | inr away ↦ inl (
          ==→ne (a / page_size) (vaddr / page_size) away,
          elim r.1 [
            | inl q ↦ ap (λ (t : Vmm). vmm_leaf_entry t pgd a) q.1
            | inr q ↦ q.3.entries ∙ rw away refl
          ],
        )
      ],
    )

-- The rollback unmaps the pages `r` to before `r + n`, and keeps the allocator.
pub rollback_lem :
    (n r offset : ℕ) (s : Vmm) (pgd vaddr a : ℕ)
    → offset ≡ r * page_size
    → IsSpace s pgd
    → vaddr % page_size ≡ 0
    → vaddr + (r + n) * page_size ≤ address_bits
    → a < address_bits
    → let s' = rollback_loop n offset s pgd vaddr in
      IsSpace s' pgd
      × (s'.pmm ≡ s.pmm)
      × (((inside vaddr r (r + n) a ≡ false) × (vmm_leaf_entry s' pgd a ≡ vmm_leaf_entry s pgd a))
          ⊎ ((inside vaddr r (r + n) a ≡ true) × (is_valid (vmm_leaf_entry s' pgd a) ≡ false)))
unfolding rollback_loop
rollback_lem zero r offset s pgd vaddr a o v on high ha = (v, refl, inl (ground arith, refl))
rollback_lem (suc n) r offset s pgd vaddr a o v on high ha =
    let at = vaddr + offset in
    let u = unmap_one s pgd at a v (omega arith) (omega arith) ha in
    let t = (vmm_unmap_page s pgd at).1 in
    let rest =
      rollback_lem n (r + 1) (offset + page_size) t pgd vaddr a (omega arith) u.0 on (omega arith)
        ha in
    (
      rest.0,
      rest.1 ∙ vmm_unmap_page-pmm s pgd at,
      elim rest.2 [
        | inl q ↦ elim u.1 [
          | inl w ↦ inl (ground (arith, w.0, q.0), q.1 ∙ w.1)
          | inr w ↦ inr (ground (arith, w.0, q.0), ap is_valid q.1 ∙ w.1)
        ]
        | inr q ↦ inr (ground (arith, q.0), q.1)
      ],
    )
