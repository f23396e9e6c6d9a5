-- ===== src/Vmm/MapRange.antt =====
-- vmm_map_range of kernel/mm/vmm.c: all pages of a range are mapped, or none.
use armonios.Prelude.{
  ℕ, ◌+◌, ◌-◌, ◌*◌, ◌/◌, ◌%◌, ◌≤◌, ◌<◌, ◌≡◌, ◌≢◌, ◌⊎◌, refl, sym, ap, ◌∙◌, inl, inr, some, u64_max,
  Bool, true, false, not, ◌&&◌, arith, if◌then◌else◌, Bool-cases, ◌==◌, ltb, ==→eq, ==→ne,
}
use armonios.Pmm.{page_size}
use armonios.Vmm.{Vmm, is_valid, address_bits, vmm_leaf_entry}
use armonios.Vmm.Space.{IsSpace}
use armonios.Vmm.{vmm_virt_to_phys}
use armonios.Vmm.Descend.{page_descriptor_lem}
use armonios.Vmm.Remap.{translate}
use armonios.Vmm.{map_loop, page_span, page_align_down, page_align_up, vmm_map_range}
use armonios.Vmm.Rollback.{inside}
use armonios.Vmm.Range.{Partly, map_loop_lem}

-- Address `a` lies on a page that has a byte of the range.
abbrev pub covered : ℕ → ℕ → ℕ → Bool
covered vaddr size a =
    not (size == 0)
    && (not (ltb a (page_align_down vaddr)) && ltb (page_align_down a) (vaddr + size))

-- Why no page of a range is mapped: its ends lie differently on their pages, a page of it was mapped
-- before, or no page is free.
abbrev pub RangeRefused : Vmm → ℕ → ℕ → ℕ → ℕ → Vmm → Type 0
RangeRefused s pgd vaddr paddr size s' =
    (vaddr % page_size ≢ paddr % page_size)
    ⊎ (s'.pmm.free_pages ≡ 0)
    ⊎ ((b : ℕ) × (b < address_bits)
        × (covered vaddr size b ≡ true)
        × (is_valid (vmm_leaf_entry s pgd b) ≡ true))

page_span_lem :
    (offset size : ℕ)
    → offset < page_size
    → 0 < size
    → offset + size ≤ address_bits
    → page_span offset size ≡ some ((offset + size + (page_size - 1)) / page_size * page_size)
unfolding page_span
page_span_lem offset size ho hs high =
    let a : (size == 0) ≡ false = ground arith in
    let b : ltb offset page_size ≡ true = ground arith in
    let c : ltb (u64_max - offset) size ≡ false = ground arith in
    let d : ltb (u64_max - (page_size - 1)) (offset + size) ≡ false = ground arith in
    let e : page_align_up (offset + size)
        ≡ (offset + size + (page_size - 1)) / page_size * page_size =
      omega arith in
    elim (Bool-cases ((offset + size) % page_size == 0)) [
      | inl w ↦ rw (a, b, c, w, e) refl
      | inr w ↦ rw (a, b, c, w, d, e) refl
    ]

-- What a range that is mapped does to `a`.
mapped_translates :
    (s s' : Vmm) (pgd vaddr paddr flags k a : ℕ)
    → Partly s pgd vaddr paddr flags k s'
    → vaddr % page_size ≡ 0
    → paddr % page_size ≡ 0
    → paddr + k * page_size ≤ address_bits
    → a < address_bits
    → vmm_virt_to_phys s' pgd a
      ≡ (if inside vaddr 0 k a then paddr + (a - vaddr) else vmm_virt_to_phys s pgd a)
unfolding vmm_virt_to_phys translate
mapped_translates s s' pgd vaddr paddr flags k a p on pon high ha =
    elim (Bool-cases (inside vaddr 0 k a)) [
      | inl i ↦
          let to = paddr + (page_align_down a - vaddr) in
          let d = page_descriptor_lem to flags (ground arith) (ground arith) in
          rw i (ap (translate a) (p.new_pages a ha i) ∙ rw (d.0, d.1, d.2) (ground arith))
      | inr o ↦ rw o (ap (translate a) (p.old_pages a ha o))
    ]

nothing_yet :
    (s : Vmm) (pgd vaddr paddr flags : ℕ) → IsSpace s pgd → Partly s pgd vaddr paddr flags 0 s
nothing_yet s pgd vaddr paddr flags v = record {
  space = v;
  new_pages = λ a ha i. absurd (ground arith);
  old_pages = λ a ha i. refl;
  were_free = λ a ha i. absurd (ground arith);
}

covered_lem :
    (vaddr size a : ℕ)
    → 0 < size
    → inside (page_align_down vaddr) 0 ((vaddr % page_size + size + (page_size - 1)) / page_size) a
      ≡ covered vaddr size a
covered_lem vaddr size a pos = ground arith

-- vmm_map_range of a range below 2 ^ 48 to one below 2 ^ 48 keeps the address space. It fails only for
-- the reasons of `RangeRefused`, and then each address is translated as before. Otherwise exactly the
-- pages that the range touches are translated to the pages from that of `paddr` on, in order, and all
-- other addresses as before.
pub vmm_map_range_lem :
    (s : Vmm) (pgd vaddr paddr size flags a : ℕ)
    → IsSpace s pgd
    → vaddr + size ≤ address_bits
    → paddr + size ≤ address_bits
    → a < address_bits
    → let (ok, s') = vmm_map_range s pgd vaddr paddr size flags in
      IsSpace s' pgd
      × (((ok ≡ true)
            × (vmm_virt_to_phys s' pgd a ≡ (
                if covered vaddr size a
                then page_align_down paddr + (a - page_align_down vaddr)
                else vmm_virt_to_phys s pgd a)))
          ⊎ ((ok ≡ false)
              × RangeRefused s pgd vaddr paddr size s'
              × (vmm_virt_to_phys s' pgd a ≡ vmm_virt_to_phys s pgd a)))
unfolding vmm_map_range
vmm_map_range_lem s pgd vaddr paddr size flags a v high phigh ha =
    let nn = v.not_null pgd (omega (arith, v.root)) in
    let z : (pgd == 0) ≡ false = ground arith in
    let lo = page_align_down vaddr in
    let plo = page_align_down paddr in
    let total = (vaddr % page_size + size + (page_size - 1)) / page_size in
    elim (Bool-cases (vaddr % page_size == paddr % page_size)) [
      | inr off ↦
          rw (z, off) (v, inr (refl, inl (==→ne (vaddr % page_size) (paddr % page_size) off), refl))
      | inl on ↦ elim (Bool-cases (size == 0)) [
        | inl empty ↦ rw (z, on, empty) (v, inl (refl, refl))
        | inr bytes ↦
            let span =
              page_span_lem (vaddr % page_size) size (omega arith) (ground arith) (omega arith) in
            let off : vaddr % page_size ≡ paddr % page_size =
              ==→eq (vaddr % page_size) (paddr % page_size) on in
            let pos : 0 < size = ground arith in
            let top : plo + total * page_size ≤ address_bits = omega (arith, off, pos) in
            let fits : ltb (u64_max - total * page_size) lo ≡ false = ground arith in
            let pfits : ltb (u64_max - total * page_size) plo ≡ false = ground arith in
            let count : total * page_size / page_size ≡ total = omega arith in
            let first : Partly s pgd lo plo flags 0 s = nothing_yet s pgd lo plo flags v in
            rw (z, on, bytes, span, fits, pfits, count)
              (elim (map_loop_lem total 0 total 0 s pgd lo plo flags s (omega arith) (omega arith)
                first (omega arith) (omega arith) (omega (arith, pos)) top) [
                  | inl r ↦
                      let same : inside lo 0 total a ≡ covered vaddr size a =
                        covered_lem vaddr size a (ground arith) in
                      (
                        r.1.space,
                        inl (
                          r.0,
                          mapped_translates s (map_loop total 0 s pgd lo plo flags).1 pgd lo plo
                                flags total a r.1 (omega arith) (omega arith) top ha
                              ∙ ap
                                  (λ (c : Bool).
                                    if c then plo + (a - lo) else vmm_virt_to_phys s pgd a)
                                  (same ∙ rw bytes refl),
                        ),
                      )
                  | inr r ↦ (
                    r.1.space,
                    inr (
                      r.0,
                      elim r.1.reason [
                        | inl none_free ↦ inr (inl none_free)
                        | inr w ↦ inr (
                            inr (
                              w.0,
                              w.1,
                              sym (covered_lem vaddr size w.0 (ground arith) ∙ rw bytes refl) ∙ w.2,
                              w.3,
                            ))
                      ],
                      r.1.translates a ha,
                    ),
                  )
                ])
      ]
    ]
