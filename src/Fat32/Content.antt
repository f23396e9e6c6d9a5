-- ===== src/Fat32/Content.antt =====
-- kernel/fat32.c: fat32_read. The bytes put into the buffer are a list; `none` is the result -1. Reading
-- changes nothing but the buffer of the volume, which the result leaves out.
use armonios.Prelude.{
  ℕ, zero, suc, ◌+◌, ◌-◌, ◌*◌, Bool, true, false, not, ◌||◌, Option, none, some, if◌then◌else◌, ltb,
  leb, ◌==◌, min, List, [], ◌∷◌, ◌++◌, add32,
}
use armonios.Fat32.{
  Fat32, Fat32File, SectorIo, fat32_sector_size, cluster_is_eoc, cluster_to_lba, read_sector,
}
use armonios.Fat32.Table.{read_fat_entry}

-- the `n` bytes from place `at` on
unfoldable pub bytes_from : (ℕ → ℕ) → ℕ → ℕ → List ℕ
bytes_from s at zero = []
bytes_from s at (suc n) = s at ∷ bytes_from s (at + 1) n

module _ {C : Type 0} (io : SectorIo C) where
  -- what the loops carry: the bytes copied, `remaining`, and the volume
  pub record Copying : Type 0 where
    pub copied : List ℕ
    pub remaining : ℕ
    pub volume : Fat32 C

  -- one sector's part of the copy, from the sector read or not; `rest` is the rounds that follow
  abbrev pub copy_part :
      (ℕ → Copying → Option Copying) → ℕ → Copying → Bool × Fat32 C → Option Copying
  copy_part rest cluster_offset s (false, fs) = none
  copy_part rest cluster_offset s (true, fs) =
      let count = min (fat32_sector_size - cluster_offset) s.remaining in
      rest 0 record {
        copied = s.copied ++ bytes_from fs.sector cluster_offset count;
        remaining = s.remaining - count;
        volume = fs;
      }

  -- The loop over the sectors of a cluster from `sector` on, with `n` left in the cluster.
  unfoldable pub copy_sectors : ℕ → ℕ → ℕ → ℕ → Copying → Option Copying
  copy_sectors zero sector cluster cluster_offset s = some s
  copy_sectors (suc n) sector cluster cluster_offset s =
      let skipped = copy_sectors n (sector + 1) cluster (cluster_offset - fat32_sector_size) s in
      let copied =
        copy_part (copy_sectors n (sector + 1) cluster) cluster_offset s
          (read_sector io s.volume (add32 (cluster_to_lba s.volume.volume cluster) sector)) in
      if s.remaining == 0
      then some s
      else if leb fat32_sector_size cluster_offset
      then skipped
      else copied

  -- the cluster that follows, unless the chain ends
  abbrev pub next_in : Option ℕ × Fat32 C → Option (ℕ × Fat32 C)
  next_in (none, fs) = none
  next_in (some next, fs) = if cluster_is_eoc next || ltb next 2 then none else some (next, fs)

  unfoldable pub next_cluster : Fat32 C → ℕ → Option (ℕ × Fat32 C)
  next_cluster fs cluster = next_in (read_fat_entry io fs cluster true)

  abbrev pub copy_on :
      (ℕ → Copying → Option Copying) → Copying → Option (ℕ × Fat32 C) → Option Copying
  copy_on rest s none = none
  copy_on rest s (some (next, fs)) = rest next (record s { volume = fs })

  -- the end of a round of the copying loop
  abbrev pub copy_next : (ℕ → Copying → Option Copying) → ℕ → Option Copying → Option Copying
  copy_next rest cluster none = none
  copy_next rest cluster (some s) =
      let r = copy_on rest s (next_cluster s.volume cluster) in
      if s.remaining == 0 then some s else r

  -- The copying loop, on fuel: each round copies a byte at least.
  unfoldable pub copy_clusters : ℕ → ℕ → ℕ → Copying → Option Copying
  copy_clusters zero skip cluster s = some s
  copy_clusters (suc fuel) skip cluster s =
      let r =
        copy_next (copy_clusters fuel 0) cluster
          (copy_sectors s.volume.volume.sectors_per_cluster 0 cluster skip s) in
      if s.remaining == 0 then some s else r

  abbrev pub skip_on :
      (ℕ → Fat32 C → Option (ℕ × ℕ × Fat32 C)) → Option (ℕ × Fat32 C) → Option (ℕ × ℕ × Fat32 C)
  skip_on rest none = none
  skip_on rest (some (next, fs)) = rest next fs

  -- The loop that passes over whole clusters, on fuel: what is left to skip, and the cluster.
  unfoldable pub skip_clusters : ℕ → ℕ → ℕ → Fat32 C → Option (ℕ × ℕ × Fat32 C)
  skip_clusters zero skip cluster fs = some (skip, cluster, fs)
  skip_clusters (suc fuel) skip cluster fs =
      let size = fs.volume.sectors_per_cluster * fat32_sector_size in
      let r = skip_on (skip_clusters fuel (skip - size)) (next_cluster fs cluster) in
      if ltb skip size then some (skip, cluster, fs) else r

  abbrev pub copied_of : Option Copying → Option (List ℕ)
  copied_of none = none
  copied_of (some s) = some s.copied

  abbrev pub read_at : ℕ → Option (ℕ × ℕ × Fat32 C) → Option (List ℕ)
  read_at wanted none = none
  read_at wanted (some (skip, cluster, fs)) =
      copied_of
        (copy_clusters wanted skip cluster record { copied = []; remaining = wanted; volume = fs })

  unfoldable pub fat32_read : Fat32 C → Fat32File → ℕ → ℕ → Option (List ℕ)
  fat32_read fs file offset capacity =
      let wanted = min (file.size - offset) capacity in
      if not fs.mounted || ltb file.size offset
      then none
      else if wanted == 0
      then some []
      else if ltb file.first_cluster 2
      then none
      else read_at wanted (skip_clusters offset offset file.first_cluster fs)
