-- ===== src/Mbr/Tests.antt =====
-- A device whose first sector names one FAT32 partition, of 50 sectors from sector 8 on.
use armonios.Prelude.{
  ℕ, ◌<◌, ◌≡◌, ◌⊎◌, refl, arith, true, false, not, ◌&&◌, List, [], ◌∷◌, ◌++◌, some, none, replicate,
  if◌then◌else◌, leb, ◌==◌,
}
use armonios.BlockDevice.{
  Device, failed, call_write, block_device_read, block_device_range_valid, block_device_write,
  block_device_init, block_device_view_init, view_device,
}
use armonios.BlockDevice.Flags.{is_read_only}
use armonios.Mbr.{
  Partition, mbr_find_fat32_partition, find_loop, is_skipped, mbr_open_fat32_partition,
  partition_count,
}
use armonios.Mbr.Find.{is_signed, NoneUsable, Chosen, mbr_find_fat32_partition_lem}
use armonios.Mbr.Open.{mbr_open_fat32_partition_write}

-- the bytes of each block
abbrev Media : Type 0
Media = ℕ → List ℕ

abbrev disk : Device Media
disk = record {
  read = some (λ w first n. (0, w first, w));
  write = some (λ w first n bytes. (0, λ b. if b == first then bytes else w b));
  flush = none;
  block_count = 100;
  block_size = 512;
  flags = 0;
}

abbrev sector : List ℕ
sector =
    replicate 446 0
    ++ (0x80 ∷ 0 ∷ 0 ∷ 0 ∷ 0x0c ∷ 0 ∷ 0 ∷ 0 ∷ 8 ∷ 0 ∷ 0 ∷ 0 ∷ 50 ∷ 0 ∷ 0 ∷ 0 ∷ [])
    ++ replicate 48 0
    ++ (0x55 ∷ 0xaa ∷ [])

abbrev media : Media
media b = if b == 0 then sector else []

abbrev partition : Partition
partition = record { start_lba = 8; sector_count = 50; type_of = 0x0c }

abbrev view : Device Media
view = view_device disk 8 50 0

partition_opens : mbr_open_fat32_partition (some disk) media ≡ (some partition, some view, media)
unfolding mbr_open_fat32_partition block_device_read block_device_range_valid
    mbr_find_fat32_partition find_loop is_skipped block_device_view_init block_device_init
partition_opens = refl

mbr_find_fat32_partition_lem_example :
    (((is_signed sector ≡ false) ⊎ NoneUsable sector 0 partition_count)
      × (mbr_find_fat32_partition sector ≡ none))
    ⊎ ((is_signed sector ≡ true)
        × ((i : ℕ) × Chosen sector 0 partition_count (mbr_find_fat32_partition sector) i))
mbr_find_fat32_partition_lem_example = mbr_find_fat32_partition_lem sector

mbr_open_fat32_partition_write_example :
    (0 < 8)
    × (block_device_write (some view) 50 1 (some (7 ∷ [])) media ≡ (
        if leb 51 50 && not (is_read_only 0)
        then call_write disk.write media 58 1 (7 ∷ [])
        else (failed, media)))
mbr_open_fat32_partition_write_example =
    mbr_open_fat32_partition_write disk view partition 50 1 (7 ∷ []) media media media (omega arith)
      partition_opens (omega arith)
