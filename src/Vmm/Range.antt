-- ===== src/Vmm/Range.antt =====
-- The loop of vmm_map_range in kernel/mm/vmm.c: all pages are mapped, or none.
use mathlib.Core.Path.{subst}
use armonios.Prelude.{
  ℕ, zero, suc, ◌+◌, ◌-◌, ◌*◌, ◌/◌, ◌%◌, ◌≤◌, ◌<◌, ◌≡◌, ◌⊎◌, refl, sym, ap, ◌∙◌, inl, inr, Bool,
  true, false, arith, if◌then◌else◌, Bool-cases, ◌==◌, ==→eq,
}
use armonios.Pmm.{Pmm, page_size}
use armonios.Vmm.{Vmm, is_valid, address_bits, vmm_leaf_entry}
use armonios.Vmm.Space.{IsSpace}
use armonios.Vmm.{page_descriptor, vmm_map_page, vmm_virt_to_phys}
use armonios.Vmm.Remap.{translate}
use armonios.Vmm.{rollback_loop, map_loop, page_align_down}
use armonios.Vmm.Remap.{vmm_leaf_entry_page}
use armonios.Vmm.Map.{Unmappable, MapOutcome, vmm_map_page_lem}
use armonios.Vmm.Rollback.{inside, rollback_lem}

-- `s` is `s0` with the first `m` pages of a range mapped, none of which `s0` maps.
pub record Partly (s0 : Vmm) (pgd vaddr paddr flags m : ℕ) (s : Vmm) : Type 0 where
  pub space : IsSpace s pgd
  pub new_pages :
      (a : ℕ)
      → a < address_bits
      → inside vaddr 0 m a ≡ true
      → vmm_leaf_entry s pgd a ≡ page_descriptor (paddr + (page_align_down a - vaddr)) flags
  pub old_pages :
      (a : ℕ)
      → a < address_bits
      → inside vaddr 0 m a ≡ false
      → vmm_leaf_entry s pgd a ≡ vmm_leaf_entry s0 pgd a
  pub were_free :
      (a : ℕ)
      → a < address_bits
      → inside vaddr 0 m a ≡ true
      → is_valid (vmm_leaf_entry s0 pgd a) ≡ false

Partly-suc :
    (s0 : Vmm) (pgd vaddr paddr flags m : ℕ) (s s' : Vmm)
    → Partly s0 pgd vaddr paddr flags m s
    → vaddr % page_size ≡ 0
    → IsSpace s' pgd
    → is_valid (vmm_leaf_entry s pgd (vaddr + m * page_size)) ≡ false
    → ((a : ℕ)
        → a < address_bits
        → vmm_leaf_entry s' pgd a ≡ (
            if a / page_size == (vaddr + m * page_size) / page_size
            then page_descriptor (paddr + m * page_size) flags
            else vmm_leaf_entry s pgd a))
    → Partly s0 pgd vaddr paddr flags (m + 1) s'
Partly-suc s0 pgd vaddr paddr flags m s s' p on v free entries = record {
  space = v;
  new_pages = λ a ha i.
      entries a ha ∙ elim (Bool-cases (a / page_size == (vaddr + m * page_size) / page_size)) [
        | inl here ↦
            let d : m * page_size ≡ page_align_down a - vaddr = ground arith in rw (here, d) refl
        | inr away ↦ rw away (p.new_pages a ha (ground arith))
      ];
  old_pages = λ a ha i.
      let away : (a / page_size == (vaddr + m * page_size) / page_size) ≡ false = ground arith in
      entries a ha ∙ rw away (p.old_pages a ha (ground arith));
  were_free = λ a ha i. elim (Bool-cases (a / page_size == (vaddr + m * page_size) / page_size)) [
    | inl here ↦
        ap is_valid (
          sym (p.old_pages a ha (ground arith))
          ∙ vmm_leaf_entry_page s pgd p.space a (vaddr + m * page_size)
              (==→eq (a / page_size) ((vaddr + m * page_size) / page_size) here))
        ∙ free
    | inr away ↦ p.were_free a ha (ground arith)
  ];
}

translate_invalid : (a e : ℕ) → is_valid e ≡ false → translate a e ≡ 0
unfolding translate
translate_invalid a e h = rw h refl

-- The range is not mapped, for want of a page or since a page of it was mapped before, and each
-- address is translated as before.
pub record Failed (s0 : Vmm) (pgd vaddr m : ℕ) (s : Vmm) : Type 0 where
  pub space : IsSpace s pgd
  pub reason :
      (s.pmm.free_pages ≡ 0)
      ⊎ ((a : ℕ) × (a < address_bits)
          × (inside vaddr 0 m a ≡ true)
          × (is_valid (vmm_leaf_entry s0 pgd a) ≡ true))
  pub translates : (a : ℕ) → a < address_bits → vmm_virt_to_phys s pgd a ≡ vmm_virt_to_phys s0 pgd a

-- A page fails to be mapped after `m` of them: they are unmapped.
undone_at :
    (s0 : Vmm) (pgd vaddr paddr flags m k : ℕ) (s t : Vmm)
    → Partly s0 pgd vaddr paddr flags m s
    → vaddr % page_size ≡ 0
    → paddr % page_size ≡ 0
    → m < k
    → vaddr + k * page_size ≤ address_bits
    → IsSpace t pgd
    → Unmappable s pgd (vaddr + m * page_size) (paddr + m * page_size) t
    → ((a : ℕ) → a < address_bits → vmm_leaf_entry t pgd a ≡ vmm_leaf_entry s pgd a)
    → Failed s0 pgd vaddr k (rollback_loop m 0 t pgd vaddr)
unfolding vmm_virt_to_phys translate
undone_at s0 pgd vaddr paddr flags m k s t p on pon more high v why same =
    let back = λ (a : ℕ) (ha : a < address_bits).
      rollback_lem m 0 0 t pgd vaddr a refl v on (omega arith) ha in
    let any = back 0 (omega arith) in
    let at = vaddr + m * page_size in
    record {
      space = any.0;
      reason = elim why [
        | inl off ↦ absurd (off (omega arith))
        | inr w ↦ elim w [
          | inl off ↦ absurd (off (omega arith))
          | inr x ↦ elim x [
            | inl taken ↦ inr (
              at,
              omega arith,
              ground arith,
              ap is_valid (sym (p.old_pages at (omega arith) (ground arith))) ∙ taken,
            )
            | inr none_free ↦ inl (ap (λ (q : Pmm). q.free_pages) any.1 ∙ none_free)
          ]
        ]
      ];
      translates = λ a ha. elim (back a ha).2 [
        | inl q ↦ ap (translate a) (q.1 ∙ same a ha ∙ p.old_pages a ha (ground (arith, q.0)))
        | inr q ↦
            translate_invalid a (vmm_leaf_entry (rollback_loop m 0 t pgd vaddr) pgd a) q.1
            ∙ sym (
                translate_invalid a (vmm_leaf_entry s0 pgd a)
                  (p.were_free a ha (ground (arith, q.0))))
      ];
    }

-- The cases of vmm_map_page_lem by its result.
module _ (s : Vmm) (pgd at to flags a : ℕ) (r : Bool × Vmm) where
  entries_of :
      r.0 ≡ true
      → MapOutcome s pgd at to flags a r
      → vmm_leaf_entry r.1 pgd a ≡ (
          if a / page_size == at / page_size
          then page_descriptor to flags
          else vmm_leaf_entry s pgd a)
  entries_of ok o = elim o.1 [ inl q ↦ absurd (ground (arith, ok, q.0)) | inr q ↦ q.2.entries ]

  free_before :
      r.0 ≡ true → MapOutcome s pgd at to flags a r → is_valid (vmm_leaf_entry s pgd at) ≡ false
  free_before ok o = elim o.1 [ inl q ↦ absurd (ground (arith, ok, q.0)) | inr q ↦ q.1 ]

  reason_of : r.0 ≡ false → MapOutcome s pgd at to flags a r → Unmappable s pgd at to r.1
  reason_of bad o = elim o.1 [ inl q ↦ q.1 | inr q ↦ absurd (ground (arith, bad, q.0)) ]

  same_of :
      r.0 ≡ false
      → MapOutcome s pgd at to flags a r
      → vmm_leaf_entry r.1 pgd a ≡ vmm_leaf_entry s pgd a
  same_of bad o = elim o.1 [ inl q ↦ q.2 | inr q ↦ absurd (ground (arith, bad, q.0)) ]

pub map_loop_lem :
    (n m k offset : ℕ) (s0 : Vmm) (pgd vaddr paddr flags : ℕ) (s : Vmm)
    → k ≡ m + n
    → offset ≡ m * page_size
    → Partly s0 pgd vaddr paddr flags m s
    → vaddr % page_size ≡ 0
    → paddr % page_size ≡ 0
    → vaddr + k * page_size ≤ address_bits
    → paddr + k * page_size ≤ address_bits
    → let (ok, s') = map_loop n offset s pgd vaddr paddr flags in
      ((ok ≡ true) × Partly s0 pgd vaddr paddr flags k s')
      ⊎ ((ok ≡ false) × Failed s0 pgd vaddr k s')
unfolding map_loop
map_loop_lem zero m k offset s0 pgd vaddr paddr flags s sum o p on pon high phigh = inl (
  refl,
  subst (λ (j : ℕ). Partly s0 pgd vaddr paddr flags j s) (let e : m ≡ k = omega arith in e) p,
)
map_loop_lem (suc n) m k offset s0 pgd vaddr paddr flags s sum o p on pon high phigh =
    let at = vaddr + m * page_size in
    let to = paddr + m * page_size in
    let r = vmm_map_page s pgd at to flags in
    let l = λ (a : ℕ) (ha : a < address_bits).
      vmm_map_page_lem s pgd at to flags a p.space (omega arith) (omega arith) ha in
    let any = l at (omega arith) in
    let count : m * page_size / page_size ≡ m = omega arith in
    rw o (elim (Bool-cases r.0) [
      | inl ok ↦
          let entries =
            λ (a : ℕ) (ha : a < address_bits). entries_of s pgd at to flags a r ok (l a ha) in
          let free = free_before s pgd at to flags at r ok any in
          rw ok (
            map_loop_lem n (m + 1) k (m * page_size + page_size) s0 pgd vaddr paddr flags r.1
              (omega arith) (omega arith)
              (Partly-suc s0 pgd vaddr paddr flags m s r.1 p on any.0 free entries) on pon high
              phigh)
      | inr bad ↦
          rw (bad, count)
            (inr (
              refl,
              undone_at s0 pgd vaddr paddr flags m k s r.1 p on pon (omega arith) high any.0
                  (reason_of s pgd at to flags at r bad any)
                  (λ a ha. same_of s pgd at to flags a r bad (l a ha)),
            ))
    ])
