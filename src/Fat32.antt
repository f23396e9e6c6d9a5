-- ===== src/Fat32.antt =====
-- kernel/fat32.c: the volume, its sectors and the table of clusters. A sector is the function that
-- gives its bytes. The callbacks that read and write a sector are the interface `SectorIo`; a read
-- that fails leaves the buffer as it was. The pointers that the callers pass are not null.
pub mod Table
pub mod Geometry
pub mod Sectors
pub mod Write
pub mod Chain
pub mod Release
pub mod Allocate
pub mod Extend
pub mod Bad
pub mod Directory
pub mod Kept
pub mod Open
pub mod Delete
pub mod Boot
pub mod Mount
pub mod RoundTrip
pub mod Content
pub mod ReadSectors
pub mod ReadFile
pub mod Read
pub mod ReadResult
pub mod Capacity
mod Tests
use armonios.Prelude.{
  ℕ, zero, suc, ◌+◌, ◌-◌, ◌*◌, ◌/◌, ◌%◌, ◌^◌, Bool, true, false, not, ◌&&◌, ◌||◌, Option, none,
  some, if◌then◌else◌, ltb, leb, ◌==◌, add32, mul32, u32_max,
}

abbrev pub fat32_sector_size : ℕ
fat32_sector_size = 512

-- FAT32_CLUSTER_MASK + 1
abbrev pub entry_values : ℕ
entry_values = 2 ^ 28

abbrev pub cluster_eoc : ℕ
cluster_eoc = 0x0ffffff8

abbrev pub cluster_bad : ℕ
cluster_bad = 0x0ffffff7

-- fat32_read_sector_fn_t and fat32_write_sector_fn_t over the context's values
pub record SectorIo (C : Type 0) : Type 0 where
  pub read : C → ℕ → Option (ℕ → ℕ)
  pub write : C → ℕ → (ℕ → ℕ) → Bool × C

-- what fat32_mount takes from the boot sector
pub record Volume : Type 0 where
  pub sectors_per_cluster : ℕ
  pub reserved_sectors : ℕ
  pub fat_count : ℕ
  pub sectors_per_fat : ℕ
  pub total_sectors : ℕ
  pub fat_start_lba : ℕ
  pub data_start_lba : ℕ
  pub root_cluster : ℕ
  pub cluster_count : ℕ

-- `fat32_fs_t`; `writable` tells whether the write callback is there
pub record Fat32 (C : Type 0) : Type 0 where
  pub context : C
  pub volume : Volume
  pub sector : ℕ → ℕ
  pub mounted : Bool
  pub writable : Bool

-- `fat32_file_t`
pub record Fat32File : Type 0 where
  pub first_cluster : ℕ
  pub dir_lba : ℕ
  pub dir_offset : ℕ
  pub capacity : ℕ
  pub size : ℕ

abbrev pub fat_le16 : (ℕ → ℕ) → ℕ → ℕ
fat_le16 s at = s at + 256 * s (at + 1)

unfoldable pub fat_le32 : (ℕ → ℕ) → ℕ → ℕ
fat_le32 s at = s at + 256 * s (at + 1) + 65536 * s (at + 2) + 16777216 * s (at + 3)

unfoldable pub put_le32 : (ℕ → ℕ) → ℕ → ℕ → ℕ → ℕ
put_le32 s at value k =
    if k == at
    then value % 256
    else if k == at + 1
    then value / 256 % 256
    else if k == at + 2
    then value / 65536 % 256
    else if k == at + 3
    then value / 16777216 % 256
    else s k

abbrev pub cluster_is_eoc : ℕ → Bool
cluster_is_eoc cluster = leb cluster_eoc cluster

abbrev pub cluster_is_data : Volume → ℕ → Bool
cluster_is_data v cluster = leb 2 cluster && ltb (cluster - 2) v.cluster_count

unfoldable pub cluster_to_lba : Volume → ℕ → ℕ
cluster_to_lba v cluster = add32 v.data_start_lba (mul32 (cluster - 2) v.sectors_per_cluster)

-- The sector of a cluster's entry in copy `copy` of the table, and the entry's place in it.
unfoldable pub fat_sector : Volume → ℕ → ℕ → ℕ
fat_sector v copy cluster =
    add32 (add32 v.fat_start_lba (mul32 copy v.sectors_per_fat))
      (mul32 cluster 4 / fat32_sector_size)

unfoldable pub entry_offset : ℕ → ℕ
entry_offset cluster = mul32 cluster 4 % fat32_sector_size

-- the tests of read_fat_entry on a value
unfoldable pub is_rejected : Volume → Bool → ℕ → Bool
is_rejected v chain value =
    value == cluster_bad || chain && not (cluster_is_eoc value) && not (cluster_is_data v value)

module _ {C : Type 0} where
  -- the buffer after the callback
  abbrev pub filled : Fat32 C → Option (ℕ → ℕ) → Bool × Fat32 C
  filled fs none = (false, fs)
  filled fs (some s) = (true, record fs { sector = s })

  unfoldable pub read_sector : SectorIo C → Fat32 C → ℕ → Bool × Fat32 C
  read_sector io fs lba =
      if fs.mounted && leb fs.volume.total_sectors lba
      then (false, fs)
      else filled fs (io.read fs.context lba)

  unfoldable pub write_sector : SectorIo C → Fat32 C → ℕ → (ℕ → ℕ) → Bool × Fat32 C
  write_sector io fs lba buffer =
      if not fs.writable || not fs.mounted || leb fs.volume.total_sectors lba
      then (false, fs)
      else let (ok, c) = io.write fs.context lba buffer in (ok, record fs { context = c })
