-- ===== src/Fat32/Geometry.antt =====
-- kernel/fat32.c: the places of a mounted volume, and where the entries of its clusters stand.
use armonios.Prelude.{
  ℕ, ◌+◌, ◌*◌, ◌/◌, ◌<◌, ◌≤◌, ◌≡◌, ◌≢◌, ◌⊎◌, inl, inr, arith, u32_max, Bool-cases, ltb, ltb→lt,
  ltb→le,
}
use armonios.Fat32.{Volume, cluster_bad, fat_le32, put_le32, fat_sector, entry_offset}

-- The copies of the table follow the reserved sectors, the clusters follow the copies, and a copy
-- has an entry for each cluster.
pub record IsGeometry (v : Volume) : Type 0 where
  pub some_spc : 0 < v.sectors_per_cluster
  pub some_fat : 0 < v.fat_count
  pub copies : v.fat_start_lba + v.fat_count * v.sectors_per_fat ≡ v.data_start_lba
  pub clusters : v.data_start_lba + v.cluster_count * v.sectors_per_cluster ≤ v.total_sectors
  pub entries : v.cluster_count + 2 ≤ v.sectors_per_fat * 128
  pub values : v.cluster_count + 2 ≤ cluster_bad
  pub total : v.total_sectors ≤ u32_max

pub copy_end : (a b c : ℕ) → a < b → a * c + c ≤ b * c
copy_end a b c lt = grind arith

pub fat_sector_lem :
    (v : Volume) (copy cluster : ℕ)
    → IsGeometry v
    → copy < v.fat_count
    → cluster < v.cluster_count + 2
    → (fat_sector v copy cluster ≡ v.fat_start_lba + copy * v.sectors_per_fat + cluster / 128)
      × (cluster / 128 < v.sectors_per_fat)
      × (fat_sector v copy cluster < v.data_start_lba)
      × (v.data_start_lba ≤ v.total_sectors)
unfolding fat_sector
fat_sector_lem v copy cluster g hc hk =
    let e = copy_end copy v.fat_count v.sectors_per_fat hc in
    let c = g.copies in
    let d = g.clusters in
    let f = g.entries in
    let h = g.values in let t = g.total in (omega arith, omega arith, omega arith, omega arith)

-- The entries of two clusters of one copy stand in two sectors or at places that share no byte.
pub entry_apart :
    (v : Volume) (copy a b : ℕ)
    → IsGeometry v
    → copy < v.fat_count
    → a < v.cluster_count + 2
    → b < v.cluster_count + 2
    → a ≢ b
    → fat_sector v copy a ≡ fat_sector v copy b
    → (entry_offset a + 4 ≤ entry_offset b) ⊎ (entry_offset b + 4 ≤ entry_offset a)
unfolding entry_offset
entry_apart v copy a b g hc ha hb ne same =
    let va = g.values in
    let ea = (fat_sector_lem v copy a g hc ha).0 in
    let eb = (fat_sector_lem v copy b g hc hb).0 in
    let block : a / 128 ≡ b / 128 = omega arith in
    elim (Bool-cases (ltb a b)) [
      | inl l ↦ inl (let h = ltb→lt a b l in omega arith)
      | inr l ↦ inr (let h = ltb→le a b l in omega arith)
    ]

-- The sectors of two copies differ.
pub copies_apart :
    (v : Volume) (c d a b : ℕ)
    → IsGeometry v
    → c < v.fat_count
    → d < v.fat_count
    → a < v.cluster_count + 2
    → b < v.cluster_count + 2
    → c ≢ d
    → fat_sector v c a ≢ fat_sector v d b
copies_apart v c d a b g hc hd ha hb ne same =
    let ea = fat_sector_lem v c a g hc ha in
    let eb = fat_sector_lem v d b g hd hb in
    elim (Bool-cases (ltb c d)) [
      | inl l ↦ let e = copy_end c d v.sectors_per_fat (ltb→lt c d l) in absurd (omega arith)
      | inr l ↦
          let h = ltb→le c d l in
          let e = copy_end d c v.sectors_per_fat (omega arith) in absurd (omega arith)
    ]

pub le32-put_le32 :
    (s : ℕ → ℕ) (at value : ℕ) → value ≤ u32_max → fat_le32 (put_le32 s at value) at ≡ value
unfolding fat_le32 put_le32
le32-put_le32 s at value h = ground arith

pub le32-put_le32_other :
    (s : ℕ → ℕ) (at value other : ℕ)
    → (at + 4 ≤ other) ⊎ (other + 4 ≤ at)
    → fat_le32 (put_le32 s at value) other ≡ fat_le32 s other
unfolding fat_le32 put_le32
le32-put_le32_other s at value other h = ground arith
