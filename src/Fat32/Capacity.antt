-- ===== src/Fat32/Capacity.antt =====
-- kernel/fat32.c: file_chain_capacity on the chain of a file.
use armonios.Prelude.{
  ℕ, zero, suc, ◌+◌, ◌*◌, ◌≤◌, ◌≡◌, refl, ap, ◌∙◌, true, false, some, none, arith, ltb, Bool-cases,
  inl, inr, if◌then◌else◌, List, length, u32_max,
}
use armonios.Fat32.{Fat32, SectorIo, fat32_sector_size, cluster_is_eoc, fat_sector}
use armonios.Fat32.Table.{capacity_loop, file_chain_capacity}
use armonios.Fat32.Sectors.{Disk, IsMounted}
use armonios.Fat32.Write.{fat_entry}
use armonios.Fat32.Sectors.{IsMounted-kept}
use armonios.Fat32.Release.{read_fat_entry_next}
use armonios.Fat32.Chain.{IsChain, last, link, IsChain-length, head-data}

one_more : (a n k : ℕ) → a + k + n * k ≡ a + suc n * k
one_more a n k = grind arith

module _ {C : Type 0} {io : SectorIo C} (d : Disk io) where
  capacity_loop_counts :
      (n total c : ℕ) (cs : List ℕ) (next : ℕ → ℕ) (fs : Fat32 C)
      → IsMounted d fs
      → ((y : ℕ) → fat_entry d fs 0 y ≡ next y)
      → IsChain fs.volume next c cs
      → length cs ≤ n
      → (capacity_loop io n total c fs).0 ≡ (
          if ltb u32_max (total + length cs * (fs.volume.sectors_per_cluster * fat32_sector_size))
          then none
          else some (total + length cs * (fs.volume.sectors_per_cluster * fat32_sector_size)))
  unfolding capacity_loop fat_entry
  capacity_loop_counts zero total c _ next fs r same (last _ c_in ends) h = absurd (omega arith)
  capacity_loop_counts zero total c _ next fs r same (link _ cs c_in next_in apart rest) h =
      absurd (omega arith)
  capacity_loop_counts (suc n) total c _ next fs r same (last _ c_in ends) h =
      let e = same c in
      let g = read_fat_entry_next d fs c r c_in (ground arith) in
      let done : cluster_is_eoc (fat_entry d fs 0 c) ≡ true = ap cluster_is_eoc e ∙ ends in
      let t = total + fs.volume.sectors_per_cluster * fat32_sector_size in
      elim (Bool-cases (ltb u32_max t)) [
        | inl over ↦ rw over (ground arith)
        | inr fine ↦ rw (fine, g, done) (ground arith)
      ]
  capacity_loop_counts (suc n) total c _ next fs r same (link _ cs c_in next_in apart rest) h =
      let e = same c in
      let v = r.geometry.values in
      let g = read_fat_entry_next d fs c r c_in (ground arith) in
      let goes : cluster_is_eoc (fat_entry d fs 0 c) ≡ false = ground arith in
      let t = total + fs.volume.sectors_per_cluster * fat32_sector_size in
      let fs1 : Fat32 C = record fs { sector = d.content fs.context (fat_sector fs.volume 0 c) } in
      let ih =
        capacity_loop_counts n t (next c) cs next fs1 (IsMounted-kept d fs fs1 refl refl r) same
          rest (omega arith) in
      let sum = one_more total (length cs) (fs.volume.sectors_per_cluster * fat32_sector_size) in
      elim (Bool-cases (ltb u32_max t)) [
        | inl over ↦ rw over (
            let over2 : ltb u32_max
                  (total + suc (length cs) * (fs.volume.sectors_per_cluster * fat32_sector_size))
                ≡ true =
              ground (arith, sum) in
            rw over2 refl)
        | inr fine ↦ rw (fine, g, goes, e, ih) (rw sum refl)
      ]

  -- On a disk that works, the capacity of a chain is the bytes of all its clusters, and there is none
  -- where these are more than 32 bits count.
  pub file_chain_capacity_lem :
      (fs : Fat32 C) (c : ℕ) (cs : List ℕ)
      → IsMounted d fs
      → IsChain fs.volume (fat_entry d fs 0) c cs
      → (file_chain_capacity io fs c).0 ≡ (
          if ltb u32_max (length cs * (fs.volume.sectors_per_cluster * fat32_sector_size))
          then none
          else some (length cs * (fs.volume.sectors_per_cluster * fat32_sector_size)))
  unfolding file_chain_capacity
  file_chain_capacity_lem fs c cs r chain =
      let at = head-data fs.volume (fat_entry d fs 0) c cs chain in
      let k = fs.volume.sectors_per_cluster * fat32_sector_size in
      let plain : 0 + length cs * k ≡ length cs * k = omega arith in
      rw at (
        capacity_loop_counts fs.volume.cluster_count 0 c cs (fat_entry d fs 0) fs r (λ y. refl)
          chain (IsChain-length fs.volume (fat_entry d fs 0) c cs chain)
        ∙ ap (λ (t : ℕ). if ltb u32_max t then none else some t) plain)
