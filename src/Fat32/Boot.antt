-- ===== src/Fat32/Boot.antt =====
-- The boot sector of a volume, as fat32_mount of kernel/fat32.c reads it.
-- A division by zero, which the source's tests keep out before it divides, is 0 here, and then a later
-- test fails. The tests for a volume or a table of no sectors are implied by later ones.
use native.Mathlib.Nat.{le-div_iff_mul-le, one-le-pow}
use armonios.Prelude.{
  ℕ, zero, suc, ◌+◌, ◌-◌, ◌*◌, ◌/◌, ◌^◌, ◌<◌, ◌≤◌, ◌≡◌, refl, sym, ap, ◌∙◌, Bool, true, false,
  add32, mul32, arith, leb, ltb, ◌==◌, ==→eq, Bool-cases, inl, inr, ◌||◌, ◌&&◌, not, if◌then◌else◌,
  u32_max, all_to, all_to_at,
}
use Prim.Native.Nat.{bit_and}
use armonios.Fat32.{Volume, cluster_bad, fat_le16, fat_le32, fat32_sector_size}

-- 0 in the 16-bit field sends to the 32-bit one
abbrev pub total_of : (ℕ → ℕ) → ℕ
total_of s = if fat_le16 s 19 == 0 then fat_le32 s 32 else fat_le16 s 19

-- the tests on the fields alone
unfoldable pub fields_fit : (ℕ → ℕ) → Bool
fields_fit s =
    let spc = s 13 in
    let reserved = fat_le16 s 14 in
    let fat_count = s 16 in
    let spf = fat_le32 s 36 in
    not (
      not (fat_le16 s 11 == fat32_sector_size)
      || spc == 0
      || ltb 128 spc
      || not (bit_and spc (spc - 1) == 0)
      || reserved == 0
      || fat_count == 0
      || not (fat_le16 s 17 == 0)
      || total_of s == 0
      || spf == 0
      || ltb ((u32_max - reserved) / fat_count) spf)

-- the tests on the count of clusters
unfoldable pub count_fits : ℕ → ℕ → ℕ → Bool
count_fits count spf root = not (
    count == 0
    || ltb (cluster_bad - 2) count
    || ltb spf ((count + 2 + 127) / 128)
    || ltb root 2
    || leb count (root - 2))

-- the sizes of a volume, from its boot sector
abbrev pub sizes_of : (ℕ → ℕ) → Volume
sizes_of s =
    let spc = s 13 in
    let reserved = fat_le16 s 14 in
    let data_start = add32 reserved (mul32 (s 16) (fat_le32 s 36)) in
    record {
      sectors_per_cluster = spc;
      reserved_sectors = reserved;
      fat_count = s 16;
      sectors_per_fat = fat_le32 s 36;
      total_sectors = total_of s;
      fat_start_lba = reserved;
      data_start_lba = data_start;
      root_cluster = fat_le32 s 44;
      cluster_count = (total_of s - data_start) / spc;
    }

unfoldable pub volume_fits : (ℕ → ℕ) → Bool
volume_fits s =
    let v = sizes_of s in
    fields_fit s
    && ltb v.data_start_lba v.total_sectors
    && count_fits v.cluster_count v.sectors_per_fat v.root_cluster

-- every value of a sector is a byte
abbrev pub IsBytes : (ℕ → ℕ) → Type 0
IsBytes s = (k : ℕ) → s k < 256

pub total_of-le : (s : ℕ → ℕ) → IsBytes s → total_of s ≤ u32_max
unfolding fat_le32
total_of-le s b = elim (Bool-cases (fat_le16 s 19 == 0)) [
  | inl e ↦ rw e (omega (arith, b 32, b 33, b 34, b 35))
  | inr e ↦ rw e (omega (arith, b 19, b 20))
]

-- 1, 2, 4, …, 128
abbrev pub IsClusterSize : ℕ → Type 0
IsClusterSize n = (k : ℕ) × ((k < 8) × (n ≡ 2 ^ k))

-- where the clusters begin, with no bound on the numbers
abbrev pub data_of : (ℕ → ℕ) → ℕ
data_of s = fat_le16 s 14 + s 16 * fat_le32 s 36

abbrev pub clusters_of : (ℕ → ℕ) → ℕ
clusters_of s = (total_of s - data_of s) / s 13

-- The boot sector of a FAT32 volume of 512-byte sectors.
pub record IsFat32Boot (s : ℕ → ℕ) : Type 0 where
  pub sector_size : fat_le16 s 11 ≡ 512
  pub cluster_size : IsClusterSize (s 13)
  pub reserved : 0 < fat_le16 s 14
  pub copies : 0 < s 16
  pub no_fixed_root : fat_le16 s 17 ≡ 0
  pub table : 0 < fat_le32 s 36
  pub room : data_of s < total_of s
  pub clusters : 0 < clusters_of s
  pub numbers : clusters_of s + 2 ≤ cluster_bad
  pub entries : clusters_of s + 2 ≤ fat_le32 s 36 * 128
  pub root : 2 ≤ fat_le32 s 44
  pub root_in : fat_le32 s 44 < clusters_of s + 2

-- A volume with the sizes that its boot sector gives.
pub record HasSizes (s : ℕ → ℕ) (v : Volume) : Type 0 where
  pub cluster_size : v.sectors_per_cluster ≡ s 13
  pub reserved : v.reserved_sectors ≡ fat_le16 s 14
  pub copies : v.fat_count ≡ s 16
  pub table : v.sectors_per_fat ≡ fat_le32 s 36
  pub total : v.total_sectors ≡ total_of s
  pub first_copy : v.fat_start_lba ≡ fat_le16 s 14
  pub start : v.data_start_lba ≡ data_of s
  pub root : v.root_cluster ≡ fat_le32 s 44
  pub clusters : v.cluster_count ≡ clusters_of s

-- the tests of `sectors_per_cluster`
abbrev is_cluster_size : ℕ → Bool
is_cluster_size n = not (n == 0 || ltb 128 n || not (bit_and n (n - 1) == 0))

is_power_below : ℕ → ℕ → Bool
is_power_below zero n = false
is_power_below (suc k) n = n == 2 ^ k || is_power_below k n

power_of : (k n : ℕ) → is_power_below k n ≡ true → (j : ℕ) × ((j < k) × (n ≡ 2 ^ j))
unfolding is_power_below
power_of zero n h = absurd (ground arith)
power_of (suc k) n h = elim (Bool-cases (n == 2 ^ k)) [
  | inl e ↦ (k, (omega arith, ==→eq n (2 ^ k) e))
  | inr e ↦ let r = power_of k n (ground arith) in (r.0, (omega (arith, r.1.0), r.1.1))
]

cluster_size_table :
    (all_to (λ n. if is_cluster_size n then is_power_below 8 n else true) 256 ≡ true)
    × (all_to (λ k. is_cluster_size (2 ^ k)) 8 ≡ true)
unfolding all_to is_power_below
cluster_size_table = (refl, refl)

is_cluster_size-IsClusterSize : (n : ℕ) → n < 256 → is_cluster_size n ≡ true → IsClusterSize n
is_cluster_size-IsClusterSize n byte h =
    let t =
      all_to_at (λ m. if is_cluster_size m then is_power_below 8 m else true) 256 n byte
        cluster_size_table.0 in
    power_of 8 n (ap (λ b. if b then is_power_below 8 n else true) (sym h) ∙ t)

IsClusterSize-is_cluster_size : (n : ℕ) → IsClusterSize n → is_cluster_size n ≡ true
IsClusterSize-is_cluster_size n (k, (h, e)) =
    ap is_cluster_size e ∙ all_to_at (λ j. is_cluster_size (2 ^ j)) 8 k h cluster_size_table.1

pub cluster_size_pos : (n : ℕ) → IsClusterSize n → 0 < n
cluster_size_pos n (k, (h, e)) = omega (arith, e, one-le-pow k 2 (omega arith))

-- The guard of the product against 32 bits.
table_guard :
    (reserved copies table : ℕ)
    → 0 < copies
    → reserved ≤ u32_max
    → ltb ((u32_max - reserved) / copies) table ≡ false
    → reserved + copies * table ≤ u32_max
table_guard reserved copies table pos small h =
    let le : table ≤ (u32_max - reserved) / copies = ground arith in
    omega (arith, (le-div_iff_mul-le pos).0 le)

table_guard_false :
    (reserved copies table : ℕ)
    → 0 < copies
    → reserved + copies * table ≤ u32_max
    → ltb ((u32_max - reserved) / copies) table ≡ false
table_guard_false reserved copies table pos fits =
    let le : table ≤ (u32_max - reserved) / copies =
      (le-div_iff_mul-le {y = u32_max - reserved} pos).1 (omega arith) in
    ground arith

no_wrap :
    (reserved copies table : ℕ)
    → reserved + copies * table ≤ u32_max
    → add32 reserved (mul32 copies table) ≡ reserved + copies * table
no_wrap reserved copies table fits = omega arith

pub data_start_same :
    (s : ℕ → ℕ) → IsBytes s → IsFat32Boot s → (sizes_of s).data_start_lba ≡ data_of s
data_start_same s b v =
    no_wrap (fat_le16 s 14) (s 16) (fat_le32 s 36) (omega (arith, v.room, total_of-le s b))

pub cluster_count_same :
    (s : ℕ → ℕ) → IsBytes s → IsFat32Boot s → (sizes_of s).cluster_count ≡ clusters_of s
cluster_count_same s b v = ap (λ (d : ℕ). (total_of s - d) / s 13) (data_start_same s b v)

pub HasSizes-sizes_of : (s : ℕ → ℕ) → IsBytes s → IsFat32Boot s → HasSizes s (sizes_of s)
HasSizes-sizes_of s b v = record {
  cluster_size = refl;
  reserved = refl;
  copies = refl;
  table = refl;
  total = refl;
  first_copy = refl;
  start = data_start_same s b v;
  root = refl;
  clusters = cluster_count_same s b v;
}

-- The tests of fat32_mount pass on the boot sector of a FAT32 volume.
pub IsFat32Boot-volume_fits : (s : ℕ → ℕ) → IsBytes s → IsFat32Boot s → volume_fits s ≡ true
unfolding volume_fits fields_fit count_fits
IsFat32Boot-volume_fits s b v =
    let size = IsClusterSize-is_cluster_size (s 13) v.cluster_size in
    let start = data_start_same s b v in
    let count = cluster_count_same s b v in
    let room = v.room in
    let guard =
      table_guard_false (fat_le16 s 14) (s 16) (fat_le32 s 36) v.copies
        (omega (arith, total_of-le s b)) in
    ground arith

-- They pass on no other.
pub volume_fits-IsFat32Boot : (s : ℕ → ℕ) → IsBytes s → volume_fits s ≡ true → IsFat32Boot s
unfolding volume_fits fields_fit count_fits
volume_fits-IsFat32Boot s b fits =
    let size : is_cluster_size (s 13) ≡ true = ground arith in
    let copies : 0 < s 16 = ground arith in
    let small : fat_le16 s 14 ≤ u32_max = omega (arith, b 14, b 15) in
    let guard : ltb ((u32_max - fat_le16 s 14) / s 16) (fat_le32 s 36) ≡ false = ground arith in
    let start =
      no_wrap (fat_le16 s 14) (s 16) (fat_le32 s 36)
        (table_guard (fat_le16 s 14) (s 16) (fat_le32 s 36) copies small guard) in
    let count : (sizes_of s).cluster_count ≡ clusters_of s =
      ap (λ (d : ℕ). (total_of s - d) / s 13) start in
    record {
      sector_size = ground arith;
      cluster_size = is_cluster_size-IsClusterSize (s 13) (b 13) size;
      reserved = ground arith;
      copies = copies;
      no_fixed_root = ground arith;
      table = ground arith;
      room = ground arith;
      clusters = ground arith;
      numbers = ground arith;
      entries = ground arith;
      root = ground arith;
      root_in = ground arith;
    }
