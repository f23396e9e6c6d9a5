-- ===== src/Fat32/Write.antt =====
-- kernel/fat32.c: write_fat_entry puts one value in every copy of the table and nothing else.
use armonios.Prelude.{
  ℕ, zero, suc, ◌+◌, ◌%◌, ◌<◌, ◌≤◌, ◌≡◌, ◌≢◌, ◌⊎◌, refl, ap, ◌∙◌, sym, Bool, true, false, arith,
  ◌==◌, Bool-cases, inl, inr, ==→eq, ==→ne, ◌||◌, ◌&&◌, not,
}
use armonios.Fat32.{
  Volume, Fat32, SectorIo, entry_values, fat_le32, put_le32, fat_sector, entry_offset,
  cluster_is_eoc, cluster_is_data,
}
use armonios.Fat32.Table.{write_copy, write_copies, write_fat_entry}
use armonios.Fat32.Geometry.{
  fat_sector_lem, entry_apart, copies_apart, le32-put_le32, le32-put_le32_other,
}
use armonios.Fat32.Sectors.{Disk, IsReady, IsReady-IsMounted, read_sector_lem, write_sector_lem}

-- what write_fat_entry stores: no cluster, the end of a chain or a cluster of the volume
abbrev pub is_storable : Volume → ℕ → Bool
is_storable v value = value == 0 || cluster_is_eoc value || cluster_is_data v value

module _ {C : Type 0} {io : SectorIo C} (d : Disk io) where
  -- the entry of a cluster in copy `k` of the table, as it stands on the disk
  unfoldable pub fat_entry : Fat32 C → ℕ → ℕ → ℕ
  fat_entry fs k cluster =
      fat_le32 (d.content fs.context (fat_sector fs.volume k cluster)) (entry_offset cluster)
      % entry_values

  -- `fs'` has `value` for `cluster` in the copies from `lo` to below `hi`, and is `fs` elsewhere.
  pub record Wrote (fs fs' : Fat32 C) (lo hi cluster value : ℕ) : Type 0 where
    pub volume : fs'.volume ≡ fs.volume
    pub mounted : fs'.mounted ≡ fs.mounted
    pub writable : fs'.writable ≡ fs.writable
    pub inside :
        (k : ℕ)
        → k < fs.volume.fat_count
        → lo ≤ k
        → k < hi
        → fat_entry fs' k cluster ≡ value % entry_values
    pub outside :
        (k c : ℕ)
        → k < fs.volume.fat_count
        → c < fs.volume.cluster_count + 2
        → (c ≢ cluster) ⊎ (k < lo) ⊎ (hi ≤ k)
        → fat_entry fs' k c ≡ fat_entry fs k c
    pub beyond :
        (lba : ℕ)
        → (lba < fs.volume.fat_start_lba) ⊎ (fs.volume.data_start_lba ≤ lba)
        → d.content fs'.context lba ≡ d.content fs.context lba

  pub IsReady-kept :
      (fs fs' : Fat32 C)
      → fs'.volume ≡ fs.volume
      → fs'.mounted ≡ fs.mounted
      → fs'.writable ≡ fs.writable
      → IsReady d fs
      → IsReady d fs'
  IsReady-kept fs fs' v m w r = record {
    geometry = rw v r.geometry;
    fits = rw v r.fits;
    mounted = m ∙ r.mounted;
    writable = w ∙ r.writable;
  }

  -- Two clusters of one sector are of one copy, at places that share no byte.
  shared_sector :
      (fs : Fat32 C) (k j c cluster : ℕ)
      → IsReady d fs
      → k < fs.volume.fat_count
      → j < fs.volume.fat_count
      → c < fs.volume.cluster_count + 2
      → cluster < fs.volume.cluster_count + 2
      → fat_sector fs.volume j c ≡ fat_sector fs.volume k cluster
      → (c ≢ cluster) ⊎ (j < k) ⊎ (k + 1 ≤ j)
      → (entry_offset cluster + 4 ≤ entry_offset c) ⊎ (entry_offset c + 4 ≤ entry_offset cluster)
  shared_sector fs k j c cluster r hk hj hc hcl same apart = elim (Bool-cases (j == k)) [
    | inl e ↦
        let jk : j ≡ k = ==→eq j k e in
        let ne : cluster ≢ c = λ x. elim apart [
          | inl n ↦ absurd (n (sym x))
          | inr n ↦ elim n [ inl l ↦ absurd (omega arith) | inr l ↦ absurd (omega arith) ]
        ] in
        entry_apart fs.volume k cluster c r.geometry hk hcl hc ne
          (sym same ∙ ap (λ (n : ℕ). fat_sector fs.volume n c) jk)
    | inr e ↦
        absurd (copies_apart fs.volume j k c cluster r.geometry hj hk hc hcl (==→ne j k e) same)
  ]

  write_copy_lem :
      (fs : Fat32 C) (k cluster value : ℕ)
      → IsReady d fs
      → k < fs.volume.fat_count
      → cluster < fs.volume.cluster_count + 2
      → (fs' : Fat32 C) × (write_copy io fs k cluster value ≡ (true, fs'))
        × Wrote fs fs' k (k + 1) cluster value
  unfolding write_copy fat_entry
  write_copy_lem fs k cluster value r hk hc =
      let p = fat_sector_lem fs.volume k cluster r.geometry hk hc in
      let f = r.fits in
      let lba = fat_sector fs.volume k cluster in
      let old = d.content fs.context lba in
      let s = put_le32 old (entry_offset cluster) (value % entry_values) in
      let fs1 : Fat32 C = record fs { sector = s } in
      let r1 : IsReady d fs1 = IsReady-kept fs fs1 refl refl refl r in
      let at : lba < d.blocks = omega (arith, p.3) in
      let c' = (io.write fs.context lba s).1 in
      let e : fat_le32 s (entry_offset cluster) ≡ value % entry_values =
        le32-put_le32 old (entry_offset cluster) (value % entry_values) (omega arith) in
      let fs2 : Fat32 C = record fs1 { context = c' } in
      (
        fs2,
        rw (read_sector_lem d fs lba (IsReady-IsMounted d fs r) (omega arith))
            (write_sector_lem d fs1 lba s r1 (omega arith)),
        record {
          volume = refl;
          mounted = refl;
          writable = refl;
          inside = λ j hj low high.
              let same : j ≡ k = omega arith in
              rw same (
                ap (λ (t : ℕ → ℕ). fat_le32 t (entry_offset cluster) % entry_values)
                  (d.stored fs.context lba s at)
                ∙ ap (λ (n : ℕ). n % entry_values) e
                ∙ omega arith);
          outside = λ j c hj hcc apart. elim (Bool-cases (fat_sector fs.volume j c == lba)) [
            | inl same ↦
                let here : fat_sector fs.volume j c ≡ lba = ==→eq _ lba same in
                ap (λ (n : ℕ). fat_le32 (d.content c' n) (entry_offset c) % entry_values) here
                ∙ ap (λ (t : ℕ → ℕ). fat_le32 t (entry_offset c) % entry_values)
                    (d.stored fs.context lba s at)
                ∙ ap (λ (n : ℕ). n % entry_values)
                    (le32-put_le32_other old (entry_offset cluster) (value % entry_values)
                      (entry_offset c) (shared_sector fs k j c cluster r hk hj hcc hc here apart))
                ∙ ap (λ (n : ℕ). fat_le32 (d.content fs.context n) (entry_offset c) % entry_values)
                    (sym here)
            | inr ne ↦
                ap (λ (t : ℕ → ℕ). fat_le32 t (entry_offset c) % entry_values)
                  (d.kept fs.context lba (fat_sector fs.volume j c) s at (==→ne _ lba ne))
          ];
          beyond = λ x out.
              d.kept fs.context lba x s at
                (λ same. elim out [ inl l ↦ absurd (omega arith) | inr l ↦ absurd (omega arith) ]);
        },
      )

  Wrote-join :
      (fs fs1 fs2 : Fat32 C) (k m cluster value : ℕ)
      → cluster < fs.volume.cluster_count + 2
      → k + 1 ≤ m
      → Wrote fs fs1 k (k + 1) cluster value
      → Wrote fs1 fs2 (k + 1) m cluster value
      → Wrote fs fs2 k m cluster value
  Wrote-join fs fs1 fs2 k m cluster value hc km a b = record {
    volume = b.volume ∙ a.volume;
    mounted = b.mounted ∙ a.mounted;
    writable = b.writable ∙ a.writable;
    inside = λ j hj low high. elim (Bool-cases (j == k)) [
      | inl e ↦
          let jk : j ≡ k = ==→eq j k e in
          b.outside j cluster (rw a.volume hj) (rw a.volume hc) (inr (inl (omega arith)))
          ∙ a.inside j hj low (omega arith)
      | inr e ↦ let ne = ==→ne j k e in b.inside j (rw a.volume hj) (omega arith) high
    ];
    outside = λ j c hj hcc apart.
        b.outside j c (rw a.volume hj) (rw a.volume hcc) (elim apart [
          | inl n ↦ inl n
          | inr n ↦ inr (elim n [ inl l ↦ inl (omega arith) | inr l ↦ inr l ])
        ])
        ∙ a.outside j c hj hcc (elim apart [
          | inl n ↦ inl n
          | inr n ↦ inr (elim n [ inl l ↦ inl l | inr l ↦ inr (omega arith) ])
        ]);
    beyond = λ x out. b.beyond x (rw a.volume out) ∙ a.beyond x out;
  }

  write_copies_lem :
      (n k m cluster value : ℕ) (fs : Fat32 C)
      → IsReady d fs
      → k + n ≡ m
      → m ≤ fs.volume.fat_count
      → cluster < fs.volume.cluster_count + 2
      → (fs' : Fat32 C) × (write_copies io n k cluster value fs ≡ (true, fs'))
        × Wrote fs fs' k m cluster value
  unfolding write_copies
  write_copies_lem zero k m cluster value fs r to hk hc = (
    fs,
    refl,
    record {
      volume = refl;
      mounted = refl;
      writable = refl;
      inside = λ j hj low high. absurd (omega arith);
      outside = λ j c hj hcc apart. refl;
      beyond = λ x out. refl;
    },
  )
  write_copies_lem (suc n) k m cluster value fs r to hk hc =
      let (fs1, e, w) = write_copy_lem fs k cluster value r (omega arith) hc in
      let r1 = IsReady-kept fs fs1 w.volume w.mounted w.writable r in
      let (fs2, e2, w2) =
        write_copies_lem n (k + 1) m cluster value fs1 r1 (omega arith) (rw w.volume hk)
          (rw w.volume hc) in
      (fs2, rw e e2, Wrote-join fs fs1 fs2 k m cluster value hc (omega arith) w w2)

  pub write_fat_entry_stores :
      (fs : Fat32 C) (cluster value : ℕ)
      → IsReady d fs
      → cluster_is_data fs.volume cluster ≡ true
      → is_storable fs.volume value ≡ true
      → (fs' : Fat32 C) × (write_fat_entry io fs cluster value ≡ (true, fs'))
        × Wrote fs fs' 0 fs.volume.fat_count cluster value
  unfolding write_fat_entry
  write_fat_entry_stores fs cluster value r data_cluster storable =
      let (fs', e, w) =
        write_copies_lem fs.volume.fat_count 0 fs.volume.fat_count cluster value fs r (omega arith)
          (omega arith) (ground arith) in
      let w1 = r.writable in
      let guard : (not fs.writable
            || not (cluster_is_data fs.volume cluster)
            || not (value == 0)
              && not (cluster_is_eoc value)
              && not (cluster_is_data fs.volume value))
          ≡ false =
        ground arith in
      (fs', rw guard e, w)

  -- the buffer is no part of the volume
  pub Wrote-sector :
      (fs fs' : Fat32 C) (s : ℕ → ℕ) (lo hi cluster value : ℕ)
      → Wrote (record fs { sector = s }) fs' lo hi cluster value
      → Wrote fs fs' lo hi cluster value
  unfolding fat_entry
  Wrote-sector fs fs' s lo hi cluster value w = record {
    volume = w.volume;
    mounted = w.mounted;
    writable = w.writable;
    inside = w.inside;
    outside = w.outside;
    beyond = w.beyond;
  }
