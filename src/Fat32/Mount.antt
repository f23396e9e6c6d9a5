-- ===== src/Fat32/Mount.antt =====
-- kernel/fat32.c: fat32_mount and what it makes sure of.
use native.Mathlib.Nat.{div-mul-le_self}
use armonios.Prelude.{
  ℕ, ◌+◌, ◌-◌, ◌*◌, ◌<◌, ◌≤◌, ◌≡◌, ◌≢◌, ◌⊎◌, refl, ap, ◌∙◌, sym, Bool, true, false, some, add32,
  arith, ltb, Bool-cases, inl, inr, ltb→lt, ltb→le,
}
use armonios.Fat32.{Volume, Fat32, SectorIo, cluster_is_data, cluster_to_lba, read_sector}
use armonios.Fat32.Geometry.{IsGeometry, copy_end}
use armonios.Fat32.Boot.{
  sizes_of, volume_fits, total_of, data_of, IsBytes, total_of-le, IsFat32Boot, HasSizes,
  HasSizes-sizes_of, data_start_same, cluster_count_same, cluster_size_pos, volume_fits-IsFat32Boot,
  IsFat32Boot-volume_fits,
}

module _ {C : Type 0} where
  abbrev pub mount_from : Fat32 C → Bool → Bool × Fat32 C
  mount_from fs false = (false, fs)
  mount_from fs true = (true, record fs { volume = sizes_of fs.sector; mounted = true })

  abbrev pub mount_in : Bool × Fat32 C → Bool × Fat32 C
  mount_in (false, fs) = (false, fs)
  mount_in (true, fs) = mount_from fs (volume_fits fs.sector)

  unfoldable pub fat32_mount : SectorIo C → Fat32 C → C → Bool × Fat32 C
  fat32_mount io fs context =
      let start = record fs { context = context; mounted = false; writable = false } in
      mount_in (read_sector io start 0)

sizes_of-IsGeometry : (s : ℕ → ℕ) → IsBytes s → IsFat32Boot s → IsGeometry (sizes_of s)
sizes_of-IsGeometry s b v =
    let start = data_start_same s b v in
    let count = cluster_count_same s b v in
    let q = div-mul-le_self (total_of s - data_of s) (s 13) in
    let room = v.room in
    record {
      some_spc = cluster_size_pos (s 13) v.cluster_size;
      some_fat = v.copies;
      copies = sym start;
      clusters = let p = ap (λ (n : ℕ). n * s 13) count in omega arith;
      entries = omega (arith, count, v.entries);
      values = omega (arith, count, v.numbers);
      total = total_of-le s b;
    }

sizes_of-root :
    (s : ℕ → ℕ)
    → IsBytes s
    → IsFat32Boot s
    → cluster_is_data (sizes_of s) (sizes_of s).root_cluster ≡ true
sizes_of-root s b v =
    let count = cluster_count_same s b v in let low = v.root in let high = v.root_in in ground arith

pub cluster_place :
    (v : Volume) (c k : ℕ)
    → IsGeometry v
    → cluster_is_data v c ≡ true
    → k < v.sectors_per_cluster
    → (add32 (cluster_to_lba v c) k ≡ v.data_start_lba + (c - 2) * v.sectors_per_cluster + k)
      × (v.data_start_lba + (c - 2) * v.sectors_per_cluster + k < v.total_sectors)
unfolding cluster_to_lba
cluster_place v c k g c_in lt =
    let e = copy_end (c - 2) v.cluster_count v.sectors_per_cluster (ground arith) in
    let h = g.clusters in let t = g.total in (omega arith, omega arith)

cluster_place_apart :
    (v : Volume) (c c' k k' : ℕ)
    → k < v.sectors_per_cluster
    → 2 ≤ c
    → c < c'
    → v.data_start_lba + (c - 2) * v.sectors_per_cluster + k
      ≢ v.data_start_lba + (c' - 2) * v.sectors_per_cluster + k'
cluster_place_apart v c c' k k' hk low lt same =
    let e = copy_end (c - 2) (c' - 2) v.sectors_per_cluster (omega arith) in absurd (omega arith)

-- The sectors of the clusters: inside the volume, past the table, and each of one cluster alone.
pub record IsPlaced (v : Volume) : Type 0 where
  pub inside :
      (c k : ℕ)
      → cluster_is_data v c ≡ true
      → k < v.sectors_per_cluster
      → (v.data_start_lba ≤ add32 (cluster_to_lba v c) k)
        × (add32 (cluster_to_lba v c) k < v.total_sectors)
  pub apart :
      (c c' k k' : ℕ)
      → cluster_is_data v c ≡ true
      → cluster_is_data v c' ≡ true
      → k < v.sectors_per_cluster
      → k' < v.sectors_per_cluster
      → add32 (cluster_to_lba v c) k ≡ add32 (cluster_to_lba v c') k'
      → (c ≡ c') × (k ≡ k')

IsGeometry-IsPlaced : (v : Volume) → IsGeometry v → IsPlaced v
IsGeometry-IsPlaced v g = record {
  inside = λ c k c_in hk.
      let p = cluster_place v c k g c_in hk in (omega (arith, p.0), omega (arith, p.0, p.1));
  apart = λ c c' k k' c_in c'_in hk hk' same.
      let p = (cluster_place v c k g c_in hk).0 in
      let q = (cluster_place v c' k' g c'_in hk').0 in
      let low : 2 ≤ c = ground arith in
      let low' : 2 ≤ c' = ground arith in
      let there = sym p ∙ same ∙ q in
      elim (Bool-cases (ltb c c')) [
        | inl l ↦ absurd (cluster_place_apart v c c' k k' hk low (ltb→lt c c' l) there)
        | inr l ↦ elim (Bool-cases (ltb c' c)) [
          | inl m ↦ absurd (cluster_place_apart v c' c k' k hk' low' (ltb→lt c' c m) (sym there))
          | inr m ↦
              let a = ltb→le c c' l in
              let b = ltb→le c' c m in
              let e : c ≡ c' = omega arith in
              let f = ap (λ (x : ℕ). (x - 2) * v.sectors_per_cluster) e in (e, omega arith)
        ]
      ];
}

module _ {C : Type 0} where
  -- A boot sector of bytes that can be read is taken exactly when it is one of a FAT32 volume: 512
  -- bytes a sector; 1, 2, 4, … or 128 sectors a cluster; reserved sectors, copies of the table and
  -- sectors in it; no entries in a fixed root; these sectors before the end of the volume; at least one
  -- cluster behind them, and not more than a table and its numbers take; the root one of the clusters.
  -- The volume mounted has these sizes, with no wrap in 32 bits, and cannot be written yet. The copies
  -- of its table stand between the reserved sectors and the clusters with an entry for each cluster,
  -- and each sector of a cluster is inside the volume, past the table and no other cluster's, also in
  -- 32-bit arithmetic.
  pub fat32_mount_lem :
      (io : SectorIo C) (fs : Fat32 C) (c : C) (s : ℕ → ℕ)
      → io.read c 0 ≡ some s
      → IsBytes s
      → (IsFat32Boot s
          × ((fat32_mount io fs c).0 ≡ true)
          × ((fat32_mount io fs c).1.mounted ≡ true)
          × ((fat32_mount io fs c).1.writable ≡ false)
          × HasSizes s (fat32_mount io fs c).1.volume
          × IsGeometry (fat32_mount io fs c).1.volume
          × IsPlaced (fat32_mount io fs c).1.volume
          × (cluster_is_data
                (fat32_mount io fs c).1.volume
                (fat32_mount io fs c).1.volume.root_cluster
              ≡ true))
        ⊎ ((¬ IsFat32Boot s)
            × ((fat32_mount io fs c).0 ≡ false)
            × ((fat32_mount io fs c).1.mounted ≡ false))
  unfolding fat32_mount read_sector
  fat32_mount_lem io fs c s e b = elim (Bool-cases (volume_fits s)) [
    | inl t ↦
        let v = volume_fits-IsFat32Boot s b t in
        let g = sizes_of-IsGeometry s b v in
        let m : fat32_mount io fs c ≡ (
          true,
          record fs {
            context = c;
            volume = sizes_of s;
            sector = s;
            mounted = true;
            writable = false;
          },
        ) =
          rw (e, t) refl in
        inl (
          rw m (
            v,
            refl,
            refl,
            refl,
            HasSizes-sizes_of s b v,
            g,
            IsGeometry-IsPlaced _ g,
            sizes_of-root s b v,
          ))
    | inr t ↦
        let m : fat32_mount io fs c
            ≡ (false, record fs { context = c; sector = s; mounted = false; writable = false }) =
          rw (e, t) refl in
        let bad : ¬ IsFat32Boot s = λ v. absurd (ground (arith, IsFat32Boot-volume_fits s b v)) in
        inr (rw m (bad, refl, refl))
  ]
