-- ===== src/Fat32/Bad.antt =====
-- kernel/fat32.c: find_free_cluster at a cluster that is marked bad.
use armonios.Prelude.{
  ℕ, zero, suc, ◌+◌, ◌<◌, ◌≤◌, ◌≡◌, ◌≢◌, refl, ap, ◌∙◌, true, false, arith, ◌==◌, Bool-cases, inl,
  inr, ==→eq, ==→ne,
}
use armonios.Fat32.{Fat32, SectorIo, fat_sector, cluster_bad, cluster_is_data, is_rejected}
use armonios.Fat32.Table.{find_free_loop, find_free_cluster, allocate_cluster}
use armonios.Fat32.Sectors.{Disk, IsMounted}
use armonios.Fat32.Write.{fat_entry}
use armonios.Fat32.Sectors.{IsMounted-kept}
use armonios.Fat32.Release.{read_fat_entry_gives}

module _ {C : Type 0} {io : SectorIo C} (d : Disk io) where
  find_free_loop_stops :
      (n cluster b : ℕ) (next : ℕ → ℕ) (fs : Fat32 C)
      → IsMounted d fs
      → ((y : ℕ) → fat_entry d fs 0 y ≡ next y)
      → 2 ≤ cluster
      → cluster + n ≡ fs.volume.cluster_count + 2
      → cluster ≤ b
      → next b ≡ cluster_bad
      → ((y : ℕ) → 2 ≤ y → y < b → next y ≢ 0)
      → (find_free_loop io n cluster fs).0 ≡ 0
  unfolding find_free_loop is_rejected fat_entry
  find_free_loop_stops zero cluster b next fs r same low to le bad below = refl
  find_free_loop_stops (suc n) cluster b next fs r same low to le bad below =
      let at : cluster_is_data fs.volume cluster ≡ true = ground arith in
      let s = d.content fs.context (fat_sector fs.volume 0 cluster) in
      let fs1 : Fat32 C = record fs { sector = s } in
      let g = read_fat_entry_gives d fs cluster false r at in
      let e = same cluster in
      elim (Bool-cases (cluster == b)) [
        | inl here ↦
            let z : fat_entry d fs 0 cluster ≡ cluster_bad =
              e ∙ ap next (==→eq cluster b here) ∙ bad in
            rw (g, z) refl
        | inr ne ↦
            let taken = below cluster low (let h = ==→ne cluster b ne in omega arith) in
            let not_free : (fat_entry d fs 0 cluster == 0) ≡ false = ground arith in
            let rest =
              find_free_loop_stops n (cluster + 1) b next fs1 (IsMounted-kept d fs fs1 refl refl r)
                same (omega arith) (omega arith) (let h = ==→ne cluster b ne in omega arith) bad
                below in
            elim (Bool-cases (fat_entry d fs 0 cluster == cluster_bad)) [
              | inl z ↦ rw (g, z) refl
              | inr z ↦ rw (g, z, not_free) rest
            ]
      ]

  -- On a mounted volume of a disk that works, a cluster marked bad ends the search: where no cluster
  -- below it is free, none is allocated, whatever free clusters there are above it.
  pub allocate_cluster_bad :
      (fs : Fat32 C) (prev b : ℕ)
      → IsMounted d fs
      → 2 ≤ b
      → fat_entry d fs 0 b ≡ cluster_bad
      → ((y : ℕ) → 2 ≤ y → y < b → fat_entry d fs 0 y ≢ 0)
      → (allocate_cluster io fs prev).0 ≡ 0
  unfolding allocate_cluster find_free_cluster
  allocate_cluster_bad fs prev b r low bad below =
      let e =
        find_free_loop_stops fs.volume.cluster_count 2 b (fat_entry d fs 0) fs r (λ y. refl)
          (omega arith) (omega arith) low bad below in
      let z : ((find_free_loop io fs.volume.cluster_count 2 fs).0 == 0) ≡ true =
        ground (arith, e) in
      rw z refl
