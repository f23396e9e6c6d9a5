-- ===== src/Fat32/Table.antt =====
-- kernel/fat32.c: the entries of the table of clusters, and the chains that they link.
use armonios.Prelude.{
  ℕ, zero, suc, ◌+◌, ◌*◌, ◌%◌, Bool, true, false, not, ◌&&◌, ◌||◌, Option, none, some,
  if◌then◌else◌, ltb, ◌==◌, u32_max,
}
use armonios.Fat32.{
  Fat32, SectorIo, fat32_sector_size, entry_values, cluster_eoc, fat_le32, put_le32, cluster_is_eoc,
  cluster_is_data, fat_sector, entry_offset, read_sector, write_sector, is_rejected,
}

module _ {C : Type 0} (io : SectorIo C) where
  -- what read_fat_entry makes of the sector it has read, or could not read
  abbrev pub entry_in : ℕ → Bool → Bool × Fat32 C → Option ℕ × Fat32 C
  entry_in cluster chain (false, fs) = (none, fs)
  entry_in cluster chain (true, fs) =
      let value = fat_le32 fs.sector (entry_offset cluster) % entry_values in
      (if is_rejected fs.volume chain value then none else some value, fs)

  -- The value put into `*next`, or none for the result -1; the first copy of the table is read.
  unfoldable pub read_fat_entry : Fat32 C → ℕ → Bool → Option ℕ × Fat32 C
  read_fat_entry fs cluster chain =
      if not (cluster_is_data fs.volume cluster)
      then (none, fs)
      else entry_in cluster chain (read_sector io fs (fat_sector fs.volume 0 cluster))

  -- the write of one copy, once its sector was read or could not be
  abbrev pub patched : ℕ → ℕ → ℕ → Bool × Fat32 C → Bool × Fat32 C
  patched lba cluster value (false, fs) = (false, fs)
  patched lba cluster value (true, fs) =
      let s = put_le32 fs.sector (entry_offset cluster) (value % entry_values) in
      write_sector io (record fs { sector = s }) lba s

  unfoldable pub write_copy : Fat32 C → ℕ → ℕ → ℕ → Bool × Fat32 C
  write_copy fs copy cluster value =
      let lba = fat_sector fs.volume copy cluster in
      patched lba cluster value (read_sector io fs lba)

  -- goes on after a step that succeeded
  abbrev pub after : Bool × Fat32 C → (Fat32 C → Bool × Fat32 C) → Bool × Fat32 C
  after (false, fs) rest = (false, fs)
  after (true, fs) rest = rest fs

  -- The loop from copy `copy` on, with `n` rounds left.
  unfoldable pub write_copies : ℕ → ℕ → ℕ → ℕ → Fat32 C → Bool × Fat32 C
  write_copies zero copy cluster value fs = (true, fs)
  write_copies (suc n) copy cluster value fs =
      after (write_copy fs copy cluster value) (write_copies n (copy + 1) cluster value)

  unfoldable pub write_fat_entry : Fat32 C → ℕ → ℕ → Bool × Fat32 C
  write_fat_entry fs cluster value =
      if not fs.writable
        || not (cluster_is_data fs.volume cluster)
        || not (value == 0) && not (cluster_is_eoc value) && not (cluster_is_data fs.volume value)
      then (false, fs)
      else write_copies fs.volume.fat_count 0 cluster value fs

  -- one round of the search, with `rest` for the rounds that follow
  abbrev pub free_at : (ℕ → Fat32 C → ℕ × Fat32 C) → ℕ → Option ℕ × Fat32 C → ℕ × Fat32 C
  free_at rest cluster (none, fs) = (0, fs)
  free_at rest cluster (some value, fs) =
      let r = rest (cluster + 1) fs in if value == 0 then (cluster, fs) else r

  unfoldable pub find_free_loop : ℕ → ℕ → Fat32 C → ℕ × Fat32 C
  find_free_loop zero cluster fs = (0, fs)
  find_free_loop (suc n) cluster fs =
      free_at (find_free_loop n) cluster (read_fat_entry fs cluster false)

  -- 0 where there is no free cluster or a sector cannot be read
  unfoldable pub find_free_cluster : Fat32 C → ℕ × Fat32 C
  find_free_cluster fs = find_free_loop fs.volume.cluster_count 2 fs

  abbrev pub or_zero : ℕ → Bool × Fat32 C → ℕ × Fat32 C
  or_zero cluster (false, fs) = (0, fs)
  or_zero cluster (true, fs) = (cluster, fs)

  -- the two writes that link `new_cluster` after `prev`, from the entry of `prev`
  abbrev pub link_after : ℕ → ℕ → Option ℕ × Fat32 C → ℕ × Fat32 C
  link_after prev new_cluster (none, fs) = (0, fs)
  link_after prev new_cluster (some value, fs) =
      if not (cluster_is_eoc value)
      then (0, fs)
      else or_zero new_cluster (
          after (write_fat_entry fs prev new_cluster)
            (λ (s : Fat32 C). write_fat_entry s new_cluster cluster_eoc))

  abbrev pub allocate_at : ℕ → ℕ × Fat32 C → ℕ × Fat32 C
  allocate_at prev (new_cluster, fs) =
      if new_cluster == 0
      then (0, fs)
      else if not (prev == 0)
      then link_after prev new_cluster (read_fat_entry fs prev true)
      else or_zero new_cluster (write_fat_entry fs new_cluster cluster_eoc)

  unfoldable pub allocate_cluster : Fat32 C → ℕ → ℕ × Fat32 C
  allocate_cluster fs prev = allocate_at prev (find_free_cluster fs)

  -- one round of free_cluster_chain, with `rest` for the rounds that follow
  abbrev pub release_at : (ℕ → Fat32 C → Bool × Fat32 C) → ℕ → Option ℕ × Fat32 C → Bool × Fat32 C
  release_at rest cluster (none, fs) = (false, fs)
  release_at rest cluster (some next, fs) =
      after (write_fat_entry fs cluster 0)
        (λ (s : Fat32 C). let r = rest next s in if cluster_is_eoc next then (true, s) else r)

  unfoldable pub free_chain_loop : ℕ → ℕ → Fat32 C → Bool × Fat32 C
  free_chain_loop zero cluster fs = (false, fs)
  free_chain_loop (suc n) cluster fs =
      if not (cluster_is_data fs.volume cluster)
      then (false, fs)
      else release_at (free_chain_loop n) cluster (read_fat_entry fs cluster true)

  unfoldable pub free_cluster_chain : Fat32 C → ℕ → Bool × Fat32 C
  free_cluster_chain fs first_cluster = free_chain_loop fs.volume.cluster_count first_cluster fs

  -- one round of file_chain_capacity; `total` counts this round's cluster already
  abbrev pub count_at :
      (ℕ → Fat32 C → Option ℕ × Fat32 C) → ℕ → Option ℕ × Fat32 C → Option ℕ × Fat32 C
  count_at rest total (none, fs) = (none, fs)
  count_at rest total (some next, fs) =
      let r = rest next fs in if cluster_is_eoc next then (some total, fs) else r

  unfoldable pub capacity_loop : ℕ → ℕ → ℕ → Fat32 C → Option ℕ × Fat32 C
  capacity_loop zero total cluster fs = (none, fs)
  capacity_loop (suc n) total cluster fs =
      let t = total + fs.volume.sectors_per_cluster * fat32_sector_size in
      if ltb u32_max t
      then (none, fs)
      else count_at (capacity_loop n t) t (read_fat_entry fs cluster true)

  -- what is put into `*capacity`
  unfoldable pub file_chain_capacity : Fat32 C → ℕ → Option ℕ × Fat32 C
  file_chain_capacity fs first_cluster =
      if not (cluster_is_data fs.volume first_cluster)
      then (none, fs)
      else capacity_loop fs.volume.cluster_count 0 first_cluster fs
