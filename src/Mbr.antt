-- ===== src/Mbr.antt =====
-- drivers/storage/mbr.c: the first FAT32 partition of a partition table, and the view of it.
-- A sector is the list of its bytes; the bitwise or of shifted bytes is their sum.
pub mod Find
pub mod Open
mod Tests
use armonios.Prelude.{
  ℕ, zero, suc, ◌+◌, ◌-◌, ◌*◌, Bool, true, false, not, ◌&&◌, ◌||◌, List, Option, none, some,
  if◌then◌else◌, ltb, ◌==◌, get_or, u32_max,
}
use armonios.BlockDevice.{Device, block_device_read, block_device_view_init}

abbrev pub table_offset : ℕ
table_offset = 446

abbrev pub entry_size : ℕ
entry_size = 16

abbrev pub partition_count : ℕ
partition_count = 4

abbrev pub sector_size : ℕ
sector_size = 512

-- `mbr_partition_t`
pub record Partition : Type 0 where
  pub start_lba : ℕ
  pub sector_count : ℕ
  pub type_of : ℕ

abbrev pub mbr_le32 : List ℕ → ℕ → ℕ
mbr_le32 s at =
    get_or s at 0
    + 256 * get_or s (at + 1) 0
    + 65536 * get_or s (at + 2) 0
    + 16777216 * get_or s (at + 3) 0

abbrev pub mbr_type_is_fat32 : ℕ → Bool
mbr_type_is_fat32 t = t == 0x0b || t == 0x0c || t == 0x1b || t == 0x1c

-- where entry `index` begins
abbrev pub entry_at : ℕ → ℕ
entry_at index = table_offset + index * entry_size

abbrev pub entry_of : List ℕ → ℕ → Partition
entry_of s index =
    let at = entry_at index in
    record {
      start_lba = mbr_le32 s (at + 8);
      sector_count = mbr_le32 s (at + 12);
      type_of = get_or s (at + 4) 0;
    }

-- The tests by which the loop passes over an entry.
unfoldable pub is_skipped : List ℕ → ℕ → Bool
is_skipped s index =
    let boot = get_or s (entry_at index) 0 in
    let p = entry_of s index in
    not (boot == 0) && not (boot == 0x80)
    || not (mbr_type_is_fat32 p.type_of)
    || (p.start_lba == 0 || p.sector_count == 0 || ltb (u32_max - (p.sector_count - 1)) p.start_lba)

-- The loop from `index` on, with `n` rounds left.
unfoldable pub find_loop : List ℕ → ℕ → ℕ → Option Partition
find_loop s index zero = none
find_loop s index (suc n) =
    let rest = find_loop s (index + 1) n in
    if is_skipped s index then rest else some (entry_of s index)

unfoldable pub mbr_find_fat32_partition : List ℕ → Option Partition
unfolding find_loop
mbr_find_fat32_partition s =
    if not (get_or s 510 0 == 0x55) || not (get_or s 511 0 == 0xaa)
    then none
    else find_loop s 0 partition_count

module _ {W : Type 0} where
  -- the end of mbr_open_fat32_partition, from what was found in the sector
  abbrev pub view_of : Device W → Option Partition → Option Partition × Option (Device W)
  view_of d none = (none, none)
  view_of d (some p) = (some p, block_device_view_init (some d) p.start_lba p.sector_count 0)

  -- What is put into `*partition`, the device of the view on success, and the media.
  unfoldable pub mbr_open_fat32_partition :
      Option (Device W) → W → Option Partition × Option (Device W) × W
  mbr_open_fat32_partition none w = (none, none, w)
  mbr_open_fat32_partition (some d) w =
      let (status, sector, w') = block_device_read (some d) 0 1 true w in
      if not (d.block_size == sector_size)
      then (none, none, w)
      else if not (status == 0)
      then (none, none, w')
      else (
        (view_of d (mbr_find_fat32_partition sector)).0,
        (view_of d (mbr_find_fat32_partition sector)).1,
        w',
      )
