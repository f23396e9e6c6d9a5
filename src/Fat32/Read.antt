-- ===== src/Fat32/Read.antt =====
-- kernel/fat32.c: the clusters that fat32_read passes over, and its result.
use armonios.Prelude.{
  ℕ, zero, suc, ◌+◌, ◌-◌, ◌*◌, ◌<◌, ◌≤◌, ◌≡◌, refl, ap, true, false, some, arith, ltb, Bool-cases,
  inl, inr, List, [], ◌∷◌, length,
}
use armonios.Fat32.{Volume, Fat32, SectorIo}
use armonios.Fat32.Sectors.{Disk}
use armonios.Fat32.Chain.{IsChain, last, link}
use armonios.Fat32.Content.{skip_clusters}
use armonios.Fat32.ReadSectors.{IsVolume}
use armonios.Fat32.ReadFile.{cluster_bytes, chain_byte, table_next, next_cluster_gives, longer}

module _ {C : Type 0} {io : SectorIo C} (d : Disk io) (v : Volume) (g : ℕ → ℕ → ℕ) where
  -- Place `p` of the chain `cs` is place `q`, in the first cluster, of the chain `rest` from `c` on.
  pub record Skipped (p q c : ℕ) (cs rest : List ℕ) (fs : Fat32 C) : Type 0 where
    pub volume : IsVolume d v g fs
    pub chain : IsChain v (table_next v g) c rest
    pub inside : q < cluster_bytes v
    pub left : length rest * cluster_bytes v + p ≡ length cs * cluster_bytes v + q
    pub bytes : (i : ℕ) → chain_byte v g cs (p + i) ≡ chain_byte v g rest (q + i)

  Skipped-cons :
      (p q c first : ℕ) (cs rest : List ℕ) (fs : Fat32 C)
      → cluster_bytes v ≤ p
      → Skipped (p - cluster_bytes v) q c cs rest fs
      → Skipped p q c (first ∷ cs) rest fs
  unfolding chain_byte
  Skipped-cons p q c first cs rest fs le s = record {
    volume = s.volume;
    chain = s.chain;
    inside = s.inside;
    left = let a = longer (length cs) (cluster_bytes v) in let b = s.left in omega arith;
    bytes = λ i.
        let f : ltb (p + i) (cluster_bytes v) ≡ false = ground arith in
        let e : p + i - cluster_bytes v ≡ p - cluster_bytes v + i = omega arith in
        rw (f, e) (s.bytes i);
  }

  Skipped-none :
      (p c : ℕ) (cs : List ℕ) (fs : Fat32 C)
      → IsVolume d v g fs
      → IsChain v (table_next v g) c cs
      → p < cluster_bytes v
      → Skipped p p c cs cs fs
  Skipped-none p c cs fs h chain lt = record {
    volume = h;
    chain = chain;
    inside = lt;
    left = refl;
    bytes = λ i. refl;
  }

  pub skip_clusters_skips :
      (fuel p c : ℕ) (cs : List ℕ) (fs : Fat32 C)
      → IsVolume d v g fs
      → IsChain v (table_next v g) c cs
      → 0 < cluster_bytes v
      → p ≤ fuel
      → p < length cs * cluster_bytes v
      → (q : ℕ) × (c' : ℕ) × (rest : List ℕ) × (fs' : Fat32 C) × (skip_clusters io fuel p c fs
          ≡ some (q, c', fs'))
        × Skipped p q c' cs rest fs'
  unfolding skip_clusters
  skip_clusters_skips zero p c cs fs h chain some_bytes enough lt =
      (p, c, cs, fs, refl, Skipped-none p c cs fs h chain (omega arith))
  skip_clusters_skips (suc fuel) p c _ fs h (last _ c_in ends) some_bytes enough lt =
      let size = ap (λ (w : Volume). cluster_bytes w) h.volume in
      let here : ltb p (cluster_bytes fs.volume) ≡ true = ground arith in
      (
        p,
        c,
        c ∷ [],
        fs,
        rw here refl,
        Skipped-none p c (c ∷ []) fs h (last c c_in ends) (omega arith),
      )
  skip_clusters_skips (suc fuel) p c _ fs h (link _ cs c_in next_in apart rest) some_bytes enough
        lt =
      let size = ap (λ (w : Volume). cluster_bytes w) h.volume in
      elim (Bool-cases (ltb p (cluster_bytes fs.volume))) [
        | inl here ↦ (
          p,
          c,
          c ∷ cs,
          fs,
          rw here refl,
          Skipped-none p c (c ∷ cs) fs h (link c cs c_in next_in apart rest) (ground arith),
        )
        | inr there ↦
            let (fs1, n, h1) = next_cluster_gives d v g fs c h c_in next_in in
            let more = longer (length cs) (cluster_bytes v) in
            let past : cluster_bytes v ≤ p = ground arith in
            let (q, c', cs', fs2, e, s) =
              skip_clusters_skips fuel (p - cluster_bytes v) (table_next v g c) cs fs1 h1 rest
                some_bytes (omega arith) (omega arith) in
            (q, c', cs', fs2, rw (there, n, size) e, Skipped-cons p q c' c cs cs' fs2 past s)
      ]
