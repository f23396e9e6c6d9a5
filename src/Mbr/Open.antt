-- ===== src/Mbr/Open.antt =====
-- The view that mbr_open_fat32_partition of drivers/storage/mbr.c opens.
use armonios.Prelude.{
  ℕ, ◌+◌, ◌≤◌, ◌<◌, ◌≡◌, sym, ap, ◌∙◌, true, not, ◌&&◌, List, [], Option, none, some, arith,
  if◌then◌else◌, leb, ◌==◌, u64_max, Bool-cases, inl, inr,
}
use armonios.BlockDevice.Flags.{is_read_only}
use armonios.BlockDevice.{
  Device, failed, block_device_read, block_device_write, block_device_view_init, call_read,
  call_write,
}
use armonios.BlockDevice.View.{block_device_view_init_read, block_device_view_init_write}
use armonios.Mbr.{
  Partition, mbr_find_fat32_partition, mbr_open_fat32_partition, view_of, sector_size,
}
use armonios.Mbr.Find.{found_usable}

module _ {W : Type 0} where
  view_of_lem :
      (d v : Device W) (p : Partition) (o : Option Partition)
      → (view_of d o).0 ≡ some p
      → (view_of d o).1 ≡ some v
      → (o ≡ some p) × (block_device_view_init (some d) p.start_lba p.sector_count 0 ≡ some v)
  view_of_lem d v p none h k = absurd (ground arith)
  view_of_lem d v p (some q) h k =
      let same : q ≡ p = ground arith in
      (
        h,
        ap (λ (r : Partition). block_device_view_init (some d) r.start_lba r.sector_count 0)
              (sym same)
            ∙ k,
      )

  -- A view is opened only on a partition that the sector read names.
  opened :
      (d v : Device W) (p : Partition) (w w' : W)
      → mbr_open_fat32_partition (some d) w ≡ (some p, some v, w')
      → (mbr_find_fat32_partition (block_device_read (some d) 0 1 true w).1 ≡ some p)
        × (block_device_view_init (some d) p.start_lba p.sector_count 0 ≡ some v)
  unfolding mbr_open_fat32_partition
  opened d v p w w' h =
      let status = (block_device_read (some d) 0 1 true w).0 in
      elim (Bool-cases (not (d.block_size == sector_size))) [
        | inl wrong ↦ absurd (ground arith)
        | inr right ↦ elim (Bool-cases (not (status == 0))) [
          | inl bad ↦ absurd (ground arith)
          | inr good ↦
              let found = mbr_find_fat32_partition (block_device_read (some d) 0 1 true w).1 in
              let part : (view_of d found).0 ≡ some p = ground arith in
              let view : (view_of d found).1 ≡ some v = ground arith in
              view_of_lem d v p found part view
        ]
      ]

  -- If mbr_open_fat32_partition opens a view, the partition lies on the device behind its first
  -- sector, and a read of at least one block of the view reads the partition's blocks if all of them
  -- are in the partition, and otherwise fails with no effect.
  pub mbr_open_fat32_partition_read :
      (d v : Device W) (p : Partition) (first n : ℕ) (w w' u : W)
      → d.block_count ≤ u64_max
      → mbr_open_fat32_partition (some d) w ≡ (some p, some v, w')
      → 0 < n
      → (0 < p.start_lba)
        × (p.start_lba + p.sector_count ≤ d.block_count)
        × (block_device_read (some v) first n true u ≡ (
            if leb (first + n) p.sector_count
            then call_read d.read u (p.start_lba + first) n
            else (failed, [], u)))
  mbr_open_fat32_partition_read d v p first n w w' u big h some_blocks =
      let o = opened d v p w w' h in
      let sector = (block_device_read (some d) 0 1 true w).1 in
      let r =
        block_device_view_init_read d v p.start_lba p.sector_count 0 first n u big o.1
          some_blocks in
      ((found_usable sector p o.0).0, r.0, r.1)

  -- A write of at least one block through a view that mbr_open_fat32_partition opened writes the
  -- partition's blocks, if all of them are in the partition and the device is not read-only.
  -- Otherwise it fails with no effect. The partition lies behind the first sector.
  pub mbr_open_fat32_partition_write :
      (d v : Device W) (p : Partition) (first n : ℕ) (bytes : List ℕ) (w w' u : W)
      → d.block_count ≤ u64_max
      → mbr_open_fat32_partition (some d) w ≡ (some p, some v, w')
      → 0 < n
      → (0 < p.start_lba)
        × (block_device_write (some v) first n (some bytes) u ≡ (
            if leb (first + n) p.sector_count && not (is_read_only d.flags)
            then call_write d.write u (p.start_lba + first) n bytes
            else (failed, u)))
  mbr_open_fat32_partition_write d v p first n bytes w w' u big h some_blocks =
      let o = opened d v p w w' h in
      let sector = (block_device_read (some d) 0 1 true w).1 in
      (
        (found_usable sector p o.0).0,
        block_device_view_init_write d v p.start_lba p.sector_count 0 first n bytes u big o.1
              some_blocks
            ∙ ground arith,
      )
