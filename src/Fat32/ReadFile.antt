-- ===== src/Fat32/ReadFile.antt =====
-- kernel/fat32.c: fat32_read gives the bytes of a file's chain.
use mathlib.Core.Path.{subst}
use armonios.Prelude.{
  ℕ, zero, suc, ◌+◌, ◌-◌, ◌*◌, ◌%◌, ◌<◌, ◌≤◌, ◌≡◌, refl, ap, ◌∙◌, sym, true, false, some, arith,
  ltb, ◌==◌, Bool-cases, inl, inr, if◌then◌else◌, List, [], ◌∷◌, ◌++◌, min, length, ◌||◌,
}
use armonios.Fat32.{
  Volume, Fat32, SectorIo, fat32_sector_size, cluster_is_data, cluster_is_eoc, fat_sector, fat_le32,
  entry_offset, entry_values,
}
use armonios.Fat32.Sectors.{Disk}
use armonios.Fat32.Write.{fat_entry}
use armonios.Fat32.Sectors.{IsMounted-kept}
use armonios.Fat32.Chain.{IsChain, last, link}
use armonios.Fat32.Release.{read_fat_entry_next}
use armonios.Fat32.Content.{Copying, copy_clusters, copy_sectors, next_cluster}
use armonios.Fat32.ReadSectors.{
  bytes_from-same, cluster_byte, IsVolume, Copied, Copied-zero, Copied-join, copy_sectors_copies,
}

abbrev pub cluster_bytes : Volume → ℕ
cluster_bytes v = v.sectors_per_cluster * fat32_sector_size

-- byte `p` of the clusters of a list, on the disk `g`
unfoldable pub chain_byte : Volume → (ℕ → ℕ → ℕ) → List ℕ → ℕ → ℕ
chain_byte v g [] p = 0
chain_byte v g (c ∷ cs) p =
    let rest = chain_byte v g cs (p - cluster_bytes v) in
    if ltb p (cluster_bytes v) then cluster_byte v g c p else rest

-- the table of the disk `g`
unfoldable pub table_next : Volume → (ℕ → ℕ → ℕ) → ℕ → ℕ
table_next v g c = fat_le32 (g (fat_sector v 0 c)) (entry_offset c) % entry_values

pub longer : (n k : ℕ) → suc n * k ≡ k + n * k
longer n k = grind arith

min_left : (a b : ℕ) → a ≤ b → min a b ≡ a
min_left a b le = omega arith

module _ {C : Type 0} {io : SectorIo C} (d : Disk io) (v : Volume) (g : ℕ → ℕ → ℕ) where
  fat_entry-next :
      (fs : Fat32 C) (c : ℕ) → IsVolume d v g fs → fat_entry d fs 0 c ≡ table_next v g c
  unfolding fat_entry table_next
  fat_entry-next fs c h =
      ap
        (λ (k : ℕ → ℕ → ℕ). fat_le32 (k (fat_sector fs.volume 0 c)) (entry_offset c) % entry_values)
        h.content
      ∙ ap (λ (w : Volume). fat_le32 (g (fat_sector w 0 c)) (entry_offset c) % entry_values)
          h.volume

  pub next_cluster_gives :
      (fs : Fat32 C) (c : ℕ)
      → IsVolume d v g fs
      → cluster_is_data v c ≡ true
      → cluster_is_data v (table_next v g c) ≡ true
      → (fs' : Fat32 C) × (next_cluster io fs c ≡ some (table_next v g c, fs')) × IsVolume d v g fs'
  unfolding next_cluster
  next_cluster_gives fs c h c_in next_in =
      let e = fat_entry-next fs c h in
      let r = h.ready in
      let on : cluster_is_data fs.volume c ≡ true =
        ap (λ (w : Volume). cluster_is_data w c) h.volume ∙ c_in in
      let values = r.geometry.values in
      let fs' : Fat32 C = record fs { sector = d.content fs.context (fat_sector fs.volume 0 c) } in
      let on2 : cluster_is_data fs.volume (fat_entry d fs 0 c) ≡ true =
        ap (λ (w : Volume). cluster_is_data w (fat_entry d fs 0 c)) h.volume
        ∙ ap (cluster_is_data v) e
        ∙ next_in in
      let n = read_fat_entry_next d fs c r on (ground arith) in
      let same_count = ap (λ (w : Volume). w.cluster_count) h.volume in
      let goes : (cluster_is_eoc (table_next v g c) || ltb (table_next v g c) 2) ≡ false =
        ground arith in
      (
        fs',
        rw (n, e, goes) refl,
        record {
          ready = IsMounted-kept d fs fs' refl refl r;
          volume = h.volume;
          content = h.content;
        },
      )

  -- the bytes of the first cluster of a chain, and those of the others
  Copied-first :
      (c p m : ℕ) (cs : List ℕ) (s t : Copying io)
      → p + m ≤ cluster_bytes v
      → Copied d v g (cluster_byte v g c) p m s t
      → Copied d v g (chain_byte v g (c ∷ cs)) p m s t
  unfolding chain_byte
  Copied-first c p m cs s t le x = record {
    stays = x.stays;
    remaining = x.remaining;
    copied =
        x.copied
        ∙ ap (λ (l : List ℕ). s.copied ++ l)
            (bytes_from-same (cluster_byte v g c) (chain_byte v g (c ∷ cs)) p p m
              (λ i lt. let e : ltb (p + i) (cluster_bytes v) ≡ true = ground arith in rw e refl));
  }

  Copied-rest :
      (c p q m : ℕ) (cs : List ℕ) (s t : Copying io)
      → p ≡ cluster_bytes v + q
      → Copied d v g (chain_byte v g cs) q m s t
      → Copied d v g (chain_byte v g (c ∷ cs)) p m s t
  unfolding chain_byte
  Copied-rest c p q m cs s t e x = record {
    stays = x.stays;
    remaining = x.remaining;
    copied =
        x.copied
        ∙ ap (λ (l : List ℕ). s.copied ++ l)
            (bytes_from-same (chain_byte v g cs) (chain_byte v g (c ∷ cs)) q p m (λ i lt.
              let f : ltb (p + i) (cluster_bytes v) ≡ false = ground arith in
              let h : p + i - cluster_bytes v ≡ q + i = omega arith in rw (f, h) refl));
  }

  -- the volume's buffer is no part of what is copied
  Copied-after :
      (f : ℕ → ℕ) (p m : ℕ) (fs : Fat32 C) (s t : Copying io)
      → Copied d v g f p m (record s { volume = fs }) t
      → Copied d v g f p m s t
  Copied-after f p m fs s t x = record {
    stays = x.stays;
    remaining = x.remaining;
    copied = x.copied;
  }

  -- the part of the copy in the first cluster
  first_cluster :
      (skip c m : ℕ) (cs : List ℕ) (s : Copying io)
      → IsVolume d v g s.volume
      → cluster_is_data v c ≡ true
      → skip < cluster_bytes v
      → m ≡ min s.remaining (cluster_bytes v - skip)
      → (t : Copying io) × (copy_sectors io s.volume.volume.sectors_per_cluster 0 c skip s ≡ some t)
        × Copied d v g (chain_byte v g (c ∷ cs)) skip m s t
  first_cluster skip c m cs s h c_in low count =
      let same = ap (λ (w : Volume). w.sectors_per_cluster) h.volume in
      let bytes : s.volume.volume.sectors_per_cluster * fat32_sector_size ≡ cluster_bytes v =
        omega arith in
      let (t, x, y) =
        copy_sectors_copies d s.volume.volume.sectors_per_cluster 0 c skip m v g s h c_in
          (omega arith) (omega arith)
          (count ∙ ap (λ (k : ℕ). min s.remaining (k - skip)) (sym bytes)) in
      let start : 0 * fat32_sector_size + skip ≡ skip = omega arith in
      (
        t,
        x,
        Copied-first c skip m cs s t (ground arith)
            (subst (λ (p : ℕ). Copied d v g (cluster_byte v g c) p m s t) start y),
      )

  pub copy_clusters_copies :
      (fuel skip c : ℕ) (cs : List ℕ) (s : Copying io)
      → IsVolume d v g s.volume
      → IsChain v (table_next v g) c cs
      → s.remaining ≤ fuel
      → skip < cluster_bytes v
      → s.remaining + skip ≤ length cs * cluster_bytes v
      → (t : Copying io) × (copy_clusters io fuel skip c s ≡ some t)
        × Copied d v g (chain_byte v g cs) skip s.remaining s t
  unfolding copy_clusters
  copy_clusters_copies zero skip c cs s h chain enough low fits =
      let z : s.remaining ≡ 0 = omega arith in
      (
        s,
        refl,
        subst (λ (k : ℕ). Copied d v g (chain_byte v g cs) skip k s s) (sym z)
            (Copied-zero d v g (chain_byte v g cs) skip s h),
      )
  copy_clusters_copies (suc fuel) skip c _ s h (last _ c_in ends) enough low fits =
      elim (Bool-cases (s.remaining == 0)) [
        | inl e ↦
            let z : s.remaining ≡ 0 = ground arith in
            (
              s,
              rw e refl,
              subst (λ (k : ℕ). Copied d v g (chain_byte v g (c ∷ [])) skip k s s) (sym z)
                  (Copied-zero d v g (chain_byte v g (c ∷ [])) skip s h),
            )
        | inr e ↦
            let (t, x, y) =
              first_cluster skip c s.remaining [] s h c_in low
                (let a = min_left s.remaining (cluster_bytes v - skip) (omega arith) in sym a) in
            let r = y.remaining in
            let z : (t.remaining == 0) ≡ true = ground arith in (t, rw (e, x, z) refl, y)
      ]
  copy_clusters_copies (suc fuel) skip c _ s h (link _ cs c_in next_in apart rest) enough low fits =
      elim (Bool-cases (s.remaining == 0)) [
        | inl e ↦
            let z : s.remaining ≡ 0 = ground arith in
            (
              s,
              rw e refl,
              subst (λ (k : ℕ). Copied d v g (chain_byte v g (c ∷ cs)) skip k s s) (sym z)
                  (Copied-zero d v g (chain_byte v g (c ∷ cs)) skip s h),
            )
        | inr e ↦
            let m = min s.remaining (cluster_bytes v - skip) in
            let (t, x, y) = first_cluster skip c m cs s h c_in low refl in
            let r = y.remaining in
            elim (Bool-cases (t.remaining == 0)) [
              | inl z ↦
                  let all : m ≡ s.remaining = ground arith in
                  (
                    t,
                    rw (e, x, z) refl,
                    subst (λ (k : ℕ). Copied d v g (chain_byte v g (c ∷ cs)) skip k s t) all y,
                  )
              | inr z ↦
                  let (fs', n, hv) = next_cluster_gives t.volume c y.stays c_in next_in in
                  let more = longer (length cs) (cluster_bytes v) in
                  let whole : m ≡ cluster_bytes v - skip = ground arith in
                  let (u, x2, y2) =
                    copy_clusters_copies fuel 0 (table_next v g c) cs (record t { volume = fs' }) hv
                      rest (omega arith) (omega arith) (omega arith) in
                  let all : m + t.remaining ≡ s.remaining = omega arith in
                  (
                    u,
                    rw (e, x, z, n) x2,
                    subst (λ (k : ℕ). Copied d v g (chain_byte v g (c ∷ cs)) skip k s u) all
                        (Copied-join d v g (chain_byte v g (c ∷ cs)) skip m t.remaining s t u y (
                          Copied-rest c (skip + m) 0 t.remaining cs t u (omega arith)
                            (Copied-after (chain_byte v g cs) 0 t.remaining fs' t u y2))),
                  )
            ]
      ]
