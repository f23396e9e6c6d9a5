-- ===== src/Vmm/Pages.antt =====
-- The pages that kernel/mm/vmm.c takes for its tables.
use armonios.Prelude.{
  ℕ, ◌+◌, ◌*◌, ◌%◌, ◌≤◌, ◌<◌, ◌≡◌, ◌≢◌, ◌⊎◌, refl, ap, ◌∙◌, inl, inr, true, arith, Bool-cases,
}
use armonios.Pmm.{Pmm, is_used, page_size, pmm_alloc_page}
use armonios.Pmm.Inv.{IsValid}
use armonios.Pmm.Alloc.{SentinelReserved, Allocated, pmm_alloc_page_lem}
use armonios.Pmm.Ranges.{in_range}
use armonios.Vmm.{address_bits}

-- A valid allocator of whole pages that descriptors can address, and 0 can mean failure.
pub record IsPages (p : Pmm) : Type 0 where
  pub valid : IsValid p
  pub reserved : SentinelReserved p
  pub on_page : p.mem_base % page_size ≡ 0
  pub high : p.mem_base + p.total_pages * page_size ≤ address_bits

-- Page `a` has been handed out.
abbrev pub InUse : Pmm → ℕ → Type 0
InUse p a = (k : ℕ) × (k < p.total_pages) × (a ≡ p.mem_base + k * page_size) × (is_used p k ≡ true)

pub record Fresh (p : Pmm) (a : ℕ) (q : Pmm) : Type 0 where
  pub pages : IsPages q
  pub not_null : a ≢ 0
  pub taken : InUse q a
  pub kept : (b : ℕ) → InUse p b → InUse q b × (b ≢ a)

pub page_bounds :
    (p : Pmm) (a : ℕ) → IsPages p → InUse p a → (a % page_size ≡ 0) × (a + page_size ≤ address_bits)
page_bounds p a v u = (omega (arith, v.on_page, u.2), omega (arith, v.high, u.1, u.2))

still_used : (p q : Pmm) (k j a : ℕ) → Allocated p 1 k a q → is_used p j ≡ true → is_used q j ≡ true
still_used p q k j a r used = elim (Bool-cases (in_range k 1 j)) [
  | inl e ↦ r.marked j ∙ rw e refl
  | inr e ↦ r.marked j ∙ rw e used
]

fresh_lem : (p : Pmm) (k a : ℕ) (q : Pmm) → IsPages p → Allocated p 1 k a q → Fresh p a q
fresh_lem p k a q v r =
    let here : in_range k 1 k ≡ true = ground arith in
    record {
      pages = record {
        valid = r.valid;
        reserved = λ e. still_used p q k 0 a r (v.reserved (omega (arith, e, r.layout.base)));
        on_page = omega (arith, v.on_page, r.layout.base);
        high = rw (r.layout.base, r.layout.total) v.high;
      };
      not_null = r.not_null;
      taken = (
        k,
        omega (arith, r.within, r.layout.total),
        rw (r.layout.base) r.address,
        r.marked k ∙ rw here refl,
      );
      kept = λ b u. (
        (
          u.0,
          omega (arith, u.1, r.layout.total),
          rw (r.layout.base) u.2,
          still_used p q k u.0 a r u.3,
        ),
        λ e.
            let same : u.0 ≡ k = omega (arith, u.2, r.address, e) in
            absurd (ground (arith, r.were_clear k here, ap (is_used p) same, u.3)),
      );
    }

-- pmm_alloc_page hands out a page that was not in use, or none is free.
pub pmm_alloc_page-Fresh :
    (p : Pmm)
    → IsPages p
    → let (a, q) = pmm_alloc_page p in ((a ≡ 0) × (q ≡ p) × (p.free_pages ≡ 0)) ⊎ Fresh p a q
pmm_alloc_page-Fresh p v = elim (pmm_alloc_page_lem p v.valid v.reserved) [
  | inl r ↦ inl r
  | inr r ↦ inr (fresh_lem p r.0 (pmm_alloc_page p).0 (pmm_alloc_page p).1 v r.1)
]
