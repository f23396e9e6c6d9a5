-- ===== src/Fat32/Allocate.antt =====
-- kernel/fat32.c: find_free_cluster and allocate_cluster.
use armonios.Prelude.{
  ℕ, zero, suc, ◌+◌, ◌<◌, ◌≤◌, ◌≡◌, ◌≢◌, ◌⊎◌, refl, ap, ◌∙◌, true, false, arith, ◌==◌, Bool-cases,
  inl, inr, ==→eq, ==→ne, ◌&&◌, not, if◌then◌else◌,
}
use armonios.Fat32.{
  Volume, Fat32, SectorIo, fat_sector, cluster_bad, cluster_eoc, cluster_is_eoc, cluster_is_data,
  is_rejected,
}
use armonios.Fat32.Table.{
  read_fat_entry, find_free_loop, find_free_cluster, allocate_cluster, link_after,
}
use armonios.Fat32.Sectors.{Disk, IsReady, IsReady-IsMounted}
use armonios.Fat32.Write.{fat_entry, Wrote, IsReady-kept, write_fat_entry_stores, Wrote-sector}
use armonios.Fat32.Release.{read_fat_entry_gives, read_fat_entry_next}

-- `x` is free, and no cluster below it is free or bad.
pub record IsFirstFree (v : Volume) (next : ℕ → ℕ) (x : ℕ) : Type 0 where
  pub in_volume : cluster_is_data v x ≡ true
  pub free : next x ≡ 0
  pub below : (y : ℕ) → 2 ≤ y → y < x → (next y ≢ 0) × (next y ≢ cluster_bad)

module _ {C : Type 0} {io : SectorIo C} (d : Disk io) where
  IsFirstFree-sector :
      (fs : Fat32 C) (s : ℕ → ℕ) (x : ℕ)
      → IsFirstFree fs.volume (fat_entry d fs 0) x
      → IsFirstFree fs.volume (fat_entry d (record fs { sector = s }) 0) x
  unfolding fat_entry
  IsFirstFree-sector fs s x f = f

  find_free_loop_finds :
      (n cluster x : ℕ) (fs : Fat32 C)
      → IsReady d fs
      → 2 ≤ cluster
      → cluster + n ≡ fs.volume.cluster_count + 2
      → cluster ≤ x
      → IsFirstFree fs.volume (fat_entry d fs 0) x
      → (s : ℕ → ℕ) × (find_free_loop io n cluster fs ≡ (x, record fs { sector = s }))
  unfolding find_free_loop is_rejected
  find_free_loop_finds zero cluster x fs r low to le f =
      let i = f.in_volume in absurd (ground arith)
  find_free_loop_finds (suc n) cluster x fs r low to le f =
      let i = f.in_volume in
      let at : cluster_is_data fs.volume cluster ≡ true = ground arith in
      let s = d.content fs.context (fat_sector fs.volume 0 cluster) in
      let fs1 : Fat32 C = record fs { sector = s } in
      let g = read_fat_entry_gives d fs cluster false (IsReady-IsMounted d fs r) at in
      elim (Bool-cases (cluster == x)) [
        | inl e ↦
            let here : cluster ≡ x = ==→eq cluster x e in
            let z : fat_entry d fs 0 cluster ≡ 0 = ap (fat_entry d fs 0) here ∙ f.free in
            (s, rw (g, z) (ap (λ (t : ℕ). (t, fs1)) here))
        | inr e ↦
            let ne = ==→ne cluster x e in
            let p = f.below cluster low (omega arith) in
            let not_bad : (fat_entry d fs 0 cluster == cluster_bad) ≡ false = ground arith in
            let not_free : (fat_entry d fs 0 cluster == 0) ≡ false = ground arith in
            let (s2, e2) =
              find_free_loop_finds n (cluster + 1) x fs1 (IsReady-kept d fs fs1 refl refl refl r)
                (omega arith) (omega arith) (omega arith) (IsFirstFree-sector fs s x f) in
            (s2, rw (g, not_bad, not_free) e2)
      ]

  -- `fs'` is `fs` with the entry `x` the end of a chain and, where `prev` is one, `x` after `prev`.
  pub record Linked (fs fs' : Fat32 C) (prev x : ℕ) : Type 0 where
    pub volume : fs'.volume ≡ fs.volume
    pub mounted : fs'.mounted ≡ fs.mounted
    pub writable : fs'.writable ≡ fs.writable
    pub entries :
        (k y : ℕ)
        → k < fs.volume.fat_count
        → y < fs.volume.cluster_count + 2
        → fat_entry d fs' k y ≡ (
            if y == x
            then cluster_eoc
            else if not (prev == 0) && y == prev
            then x
            else fat_entry d fs k y)
    pub beyond :
        (lba : ℕ)
        → (lba < fs.volume.fat_start_lba) ⊎ (fs.volume.data_start_lba ≤ lba)
        → d.content fs'.context lba ≡ d.content fs.context lba

  Linked-head :
      (fs fs' : Fat32 C) (x : ℕ)
      → Wrote d fs fs' 0 fs.volume.fat_count x cluster_eoc
      → Linked fs fs' 0 x
  Linked-head fs fs' x w = record {
    volume = w.volume;
    mounted = w.mounted;
    writable = w.writable;
    entries = λ k y hk hy. elim (Bool-cases (y == x)) [
      | inl e ↦ rw (==→eq y x e) (let h = w.inside k hk (omega arith) hk in ground (arith, h))
      | inr e ↦ let h = w.outside k y hk hy (inl (==→ne y x e)) in ground (arith, h)
    ];
    beyond = w.beyond;
  }

  Linked-tail :
      (fs fs1 fs2 : Fat32 C) (prev x : ℕ)
      → prev ≢ 0
      → prev < fs.volume.cluster_count + 2
      → x < cluster_bad
      → x ≢ prev
      → Wrote d fs fs1 0 fs.volume.fat_count prev x
      → Wrote d fs1 fs2 0 fs1.volume.fat_count x cluster_eoc
      → Linked fs fs2 prev x
  Linked-tail fs fs1 fs2 prev x some_prev hp hx ne a b = record {
    volume = b.volume ∙ a.volume;
    mounted = b.mounted ∙ a.mounted;
    writable = b.writable ∙ a.writable;
    entries = λ k y hk hy. elim (Bool-cases (y == x)) [
      | inl e ↦
          rw (==→eq y x e) (
            let h = b.inside k (rw a.volume hk) (omega arith) (rw a.volume hk) in ground (arith, h))
      | inr e ↦
          let h = b.outside k y (rw a.volume hk) (rw a.volume hy) (inl (==→ne y x e)) in
          elim (Bool-cases (y == prev)) [
            | inl p ↦
                let yp = ==→eq y prev p in
                let g = ap (fat_entry d fs1 k) yp ∙ a.inside k hk (omega arith) hk in
                ground (arith, h, g)
            | inr p ↦ let g = a.outside k y hk hy (inl (==→ne y prev p)) in ground (arith, h, g)
          ]
    ];
    beyond = λ lba out. b.beyond lba (rw a.volume out) ∙ a.beyond lba out;
  }

  link_after_links :
      (fs : Fat32 C) (prev x : ℕ)
      → IsReady d fs
      → cluster_is_data fs.volume prev ≡ true
      → cluster_is_eoc (fat_entry d fs 0 prev) ≡ true
      → cluster_is_data fs.volume x ≡ true
      → fat_entry d fs 0 x ≡ 0
      → (fs' : Fat32 C) × (link_after io prev x (read_fat_entry io fs prev true) ≡ (x, fs'))
        × Linked fs fs' prev x
  link_after_links fs prev x r prev_in ends x_in free =
      let v = r.geometry.values in
      let e1 = read_fat_entry_next d fs prev (IsReady-IsMounted d fs r) prev_in (ground arith) in
      let fs1 : Fat32 C = record fs {
        sector = d.content fs.context (fat_sector fs.volume 0 prev);
      } in
      let r1 : IsReady d fs1 = IsReady-kept d fs fs1 refl refl refl r in
      let (fs2, e2, w) = write_fat_entry_stores d fs1 prev x r1 prev_in (ground arith) in
      let r2 = IsReady-kept d fs1 fs2 w.volume w.mounted w.writable r1 in
      let (fs3, e3, w3) = write_fat_entry_stores d fs2 x cluster_eoc r2 (rw w.volume x_in) refl in
      let ne : x ≢ prev =
        λ same. let e = ap (fat_entry d fs 0) same in absurd (ground (arith, e)) in
      (
        fs3,
        rw (e1, ends, e2, e3) refl,
        Linked-tail fs fs2 fs3 prev x (ground arith) (ground arith) (ground arith) ne
            (Wrote-sector d fs fs2 _ 0 fs.volume.fat_count prev x w) w3,
      )

  fat_entry-sector :
      (fs : Fat32 C) (s : ℕ → ℕ) (x : ℕ)
      → fat_entry d (record fs { sector = s }) 0 x ≡ fat_entry d fs 0 x
  unfolding fat_entry
  fat_entry-sector fs s x = refl

  Linked-sector :
      (fs fs' : Fat32 C) (s : ℕ → ℕ) (prev x : ℕ)
      → Linked (record fs { sector = s }) fs' prev x
      → Linked fs fs' prev x
  unfolding fat_entry
  Linked-sector fs fs' s prev x l = record {
    volume = l.volume;
    mounted = l.mounted;
    writable = l.writable;
    entries = l.entries;
    beyond = l.beyond;
  }

  -- On a mounted volume that can be written, of a disk that works, where the first free cluster has no
  -- bad cluster below it, the call takes
  -- it: alone as a chain of one, or after a cluster that ends a chain. Nothing else changes.
  pub allocate_cluster_lem :
      (fs : Fat32 C) (prev x : ℕ)
      → IsReady d fs
      → IsFirstFree fs.volume (fat_entry d fs 0) x
      → (prev ≡ 0)
        ⊎ ((cluster_is_data fs.volume prev ≡ true)
            × (cluster_is_eoc (fat_entry d fs 0 prev) ≡ true))
      → (fs' : Fat32 C) × (allocate_cluster io fs prev ≡ (x, fs')) × Linked fs fs' prev x
  unfolding allocate_cluster find_free_cluster
  allocate_cluster_lem fs prev x r f at =
      let i = f.in_volume in
      let v = r.geometry.values in
      let (s, found) =
        find_free_loop_finds fs.volume.cluster_count 2 x fs r (omega arith) (omega arith)
          (ground arith) f in
      let fs1 : Fat32 C = record fs { sector = s } in
      let r1 : IsReady d fs1 = IsReady-kept d fs fs1 refl refl refl r in
      let some_x : (x == 0) ≡ false = ground arith in
      elim at [
        | inl head ↦
            let none_before : (prev == 0) ≡ true = ground arith in
            let (fs2, e2, w) = write_fat_entry_stores d fs1 x cluster_eoc r1 i refl in
            (
              fs2,
              rw (found, some_x, none_before, e2) refl,
              rw head (
                  Linked-head fs fs2 x
                    (Wrote-sector d fs fs2 s 0 fs.volume.fat_count x cluster_eoc w)),
            )
        | inr (prev_in, ends) ↦
            let some_prev : (prev == 0) ≡ false = ground arith in
            let (fs2, e2, l) =
              link_after_links fs1 prev x r1 prev_in
                (ap cluster_is_eoc (fat_entry-sector fs s prev) ∙ ends) i
                (fat_entry-sector fs s x ∙ f.free) in
            (fs2, rw (found, some_x, some_prev) e2, Linked-sector fs fs2 s prev x l)
      ]
