-- ===== src/Fat32/Tests.antt =====
-- A volume of 61 clusters with two copies of its table, on a disk of 64 sectors.
use armonios.Prelude.{
  ℕ, ◌-◌, min, ◌*◌, ◌%◌, ◌/◌, ◌^◌, ◌<◌, ◌≡◌, ◌≢◌, ◌⊎◌, refl, ap, true, false, some, none, arith,
  ◌==◌, Bool-cases, inl, inr, ==→eq, ==→ne, ◌||◌, ◌&&◌, if◌then◌else◌, [], ◌∷◌,
}
use armonios.Fat32.{
  Fat32File, Volume, Fat32, SectorIo, cluster_bad, cluster_eoc, cluster_is_eoc, cluster_is_data,
  fat_sector, put_le32, fat_le32, entry_offset,
}
use armonios.Fat32.Table.{
  write_fat_entry, read_fat_entry, free_cluster_chain, allocate_cluster, file_chain_capacity,
}
use armonios.Fat32.Geometry.{IsGeometry}
use armonios.Fat32.Sectors.{Disk, IsReady, IsReady-IsMounted}
use armonios.Fat32.Write.{fat_entry, is_storable}
use armonios.Fat32.Chain.{member, IsChain, last, link}
use armonios.Fat32.Release.{Freed, free_cluster_chain_lem}
use armonios.Fat32.Allocate.{IsFirstFree, Linked, allocate_cluster_lem}
use armonios.Fat32.Extend.{allocate_cluster_extends}
use armonios.Fat32.Bad.{allocate_cluster_bad}
use armonios.Fat32.RoundTrip.{write_fat_entry_lem}
use armonios.Fat32.Boot.{volume_fits, fields_fit, count_fits, IsFat32Boot, HasSizes}
use armonios.Fat32.Mount.{fat32_mount, fat32_mount_lem, IsPlaced}
use armonios.Fat32.Content.{bytes_from, fat32_read}
use armonios.Fat32.ReadFile.{chain_byte}
use armonios.Fat32.ReadResult.{fat32_read_lem}
use armonios.Prelude.{ltb, replicate}
use armonios.Fat32.{read_sector, is_rejected, cluster_to_lba}
use armonios.Fat32.Table.{capacity_loop}
use armonios.Fat32.Directory.{
  fat32_open_root, open_clusters, open_sectors, open_entry, scan_entries, name_matches,
  make_short_name, name_loop, put_char, opened, fat32_delete,
}
use armonios.Fat32.Delete.{Deleted, fat32_delete_lem}

abbrev Media : Type 0
Media = ℕ → ℕ → ℕ

abbrev media_io : SectorIo Media
media_io = record {
  read = λ c lba. some (c lba);
  write = λ c lba s. (true, λ (x : ℕ). if x == lba then s else c x);
}

media_stored : (c : Media) (lba : ℕ) (s : ℕ → ℕ) → lba < 64 → (media_io.write c lba s).1 lba ≡ s
media_stored c lba s h = let e : (lba == lba) ≡ true = ground arith in rw e refl

media_kept :
    (c : Media) (lba other : ℕ) (s : ℕ → ℕ)
    → lba < 64
    → other ≢ lba
    → (media_io.write c lba s).1 other ≡ c other
media_kept c lba other s h ne = let e : (other == lba) ≡ false = ground arith in rw e refl

abbrev media_disk : Disk media_io
media_disk = record {
  blocks = 64;
  content = λ c lba. c lba;
  reads = λ c lba h. refl;
  writes = λ c lba s h. refl;
  stored = media_stored;
  kept = media_kept;
}

abbrev small_volume : Volume
small_volume = record {
  sectors_per_cluster = 1;
  reserved_sectors = 1;
  fat_count = 2;
  sectors_per_fat = 1;
  total_sectors = 64;
  fat_start_lba = 1;
  data_start_lba = 3;
  root_cluster = 2;
  cluster_count = 61;
}

-- the directory's chain 2, the file's chain 3, 4, and a bad cluster 6
table_sector : ℕ → ℕ
table_sector =
    put_le32 (put_le32 (put_le32 (put_le32 (λ k. 0) 8 cluster_eoc) 12 4) 16 cluster_eoc) 24
      cluster_bad

abbrev small_fs : Fat32 Media
small_fs = record {
  context = λ lba. if lba == 1 || lba == 2 then table_sector else (λ k. 0);
  volume = small_volume;
  sector = λ k. 0;
  mounted = true;
  writable = true;
}

abbrev small_ready : IsReady media_disk small_fs
small_ready = record {
  geometry = record {
    some_spc = omega arith;
    some_fat = omega arith;
    copies = refl;
    clusters = omega arith;
    entries = omega arith;
    values = omega arith;
    total = omega arith;
  };
  fits = omega arith;
  mounted = refl;
  writable = refl;
}

entry_2 : fat_entry media_disk small_fs 0 2 ≡ cluster_eoc
unfolding fat_entry fat_sector entry_offset fat_le32 put_le32 table_sector
entry_2 = refl

entry_3 : fat_entry media_disk small_fs 0 3 ≡ 4
unfolding fat_entry fat_sector entry_offset fat_le32 put_le32 table_sector
entry_3 = refl

entry_4 : fat_entry media_disk small_fs 0 4 ≡ cluster_eoc
unfolding fat_entry fat_sector entry_offset fat_le32 put_le32 table_sector
entry_4 = refl

entry_5 : fat_entry media_disk small_fs 0 5 ≡ 0
unfolding fat_entry fat_sector entry_offset fat_le32 put_le32 table_sector
entry_5 = refl

small-IsChain : IsChain small_volume (fat_entry media_disk small_fs 0) 3 (3 ∷ 4 ∷ [])
unfolding member fat_entry fat_sector entry_offset fat_le32 put_le32 table_sector
small-IsChain = link 3 (4 ∷ []) refl refl refl (last 4 refl refl)

-- cluster 5 is the first free one
small-IsFirstFree : IsFirstFree small_volume (fat_entry media_disk small_fs 0) 5
small-IsFirstFree = record {
  in_volume = refl;
  free = entry_5;
  below = λ y low high. elim (Bool-cases (y == 2)) [
    | inl a ↦ rw (==→eq y 2 a) (let e = entry_2 in (omega arith, omega arith))
    | inr a ↦ elim (Bool-cases (y == 3)) [
      | inl b ↦ rw (==→eq y 3 b) (let e = entry_3 in (omega arith, omega arith))
      | inr b ↦
          let c : y ≡ 4 = let p = ==→ne y 2 a in let q = ==→ne y 3 b in omega arith in
          rw c (let e = entry_4 in (omega arith, omega arith))
    ]
  ];
}

free_cluster_chain_lem_example :
    (fs' : Fat32 Media) × (free_cluster_chain media_io small_fs 3 ≡ (true, fs'))
    × Freed media_disk small_fs fs' (3 ∷ 4 ∷ [])
free_cluster_chain_lem_example =
    free_cluster_chain_lem media_disk small_fs 3 (3 ∷ 4 ∷ []) small_ready small-IsChain

allocate_cluster_lem_example :
    (fs' : Fat32 Media) × (allocate_cluster media_io small_fs 4 ≡ (5, fs'))
    × Linked media_disk small_fs fs' 4 5
allocate_cluster_lem_example =
    allocate_cluster_lem media_disk small_fs 4 5 small_ready small-IsFirstFree
      (inr (refl, ap cluster_is_eoc entry_4))

copies_agree :
    (y : ℕ) → y < 63 → fat_entry media_disk small_fs 1 y ≡ fat_entry media_disk small_fs 0 y
unfolding fat_entry fat_sector
copies_agree y h = let a : y * 4 % 2 ^ 32 / 512 ≡ 0 = omega arith in rw a refl

allocate_cluster_extends_example :
    IsChain small_volume
      (fat_entry media_disk (allocate_cluster media_io small_fs 4).1 1)
      3
      (3 ∷ 4 ∷ 5 ∷ [])
unfolding member
allocate_cluster_extends_example =
    allocate_cluster_extends media_disk small_fs 4 5 3 (3 ∷ 4 ∷ []) small_ready small-IsFirstFree 1
      (omega arith) copies_agree small-IsChain refl (ap cluster_is_eoc entry_4)

write_fat_entry_lem_example :
    ((cluster_is_data small_volume 5 ≡ true)
      × (is_storable small_volume 7 ≡ true)
      × ((write_fat_entry media_io small_fs 5 7).0 ≡ true)
      × ((read_fat_entry media_io (write_fat_entry media_io small_fs 5 7).1 5 true).0
          ≡ (if 7 == 0 then none else some 7))
      × ((read_fat_entry media_io (write_fat_entry media_io small_fs 5 7).1 4 true).0
          ≡ (read_fat_entry media_io small_fs 4 true).0))
    ⊎ (((cluster_is_data small_volume 5 && is_storable small_volume 7) ≡ false)
        × (write_fat_entry media_io small_fs 5 7 ≡ (false, small_fs)))
write_fat_entry_lem_example =
    write_fat_entry_lem media_disk small_fs 5 7 4 true small_ready (omega arith) (omega arith) refl

-- the same volume with clusters 3 and 4 marked bad
abbrev worn_fs : Fat32 Media
worn_fs = record small_fs {
  context = λ lba. put_le32 (put_le32 (λ k. 0) 8 cluster_eoc) 12 cluster_bad;
}

worn_bad : fat_entry media_disk worn_fs 0 3 ≡ cluster_bad
unfolding fat_entry fat_sector entry_offset fat_le32 put_le32
worn_bad = refl

worn_2 : fat_entry media_disk worn_fs 0 2 ≡ cluster_eoc
unfolding fat_entry fat_sector entry_offset fat_le32 put_le32
worn_2 = refl

abbrev worn_ready : IsReady media_disk worn_fs
worn_ready = record {
  geometry = small_ready.geometry;
  fits = small_ready.fits;
  mounted = refl;
  writable = refl;
}

allocate_cluster_bad_example : (allocate_cluster media_io worn_fs 0).0 ≡ 0
allocate_cluster_bad_example =
    allocate_cluster_bad media_disk worn_fs 0 3 (IsReady-IsMounted media_disk worn_fs worn_ready)
      (omega arith) worn_bad
      (λ y low high. let c : y ≡ 2 = omega arith in rw c (let e = worn_2 in omega arith))

-- a boot sector of the volume
abbrev boot_sector : ℕ → ℕ
boot_sector k =
    if k == 12
    then 2
    else if k == 13
    then 1
    else if k == 14
    then 1
    else if k == 16
    then 2
    else if k == 19
    then 64
    else if k == 36
    then 1
    else if k == 44
    then 2
    else 0

boot_fits : volume_fits boot_sector ≡ true
unfolding volume_fits fields_fit count_fits fat_le32
boot_fits = refl

abbrev boot_disk : Media
boot_disk lba = boot_sector

fat32_mount_lem_example :
    (IsFat32Boot boot_sector
      × ((fat32_mount media_io small_fs boot_disk).0 ≡ true)
      × ((fat32_mount media_io small_fs boot_disk).1.mounted ≡ true)
      × ((fat32_mount media_io small_fs boot_disk).1.writable ≡ false)
      × HasSizes boot_sector (fat32_mount media_io small_fs boot_disk).1.volume
      × IsGeometry (fat32_mount media_io small_fs boot_disk).1.volume
      × IsPlaced (fat32_mount media_io small_fs boot_disk).1.volume
      × (cluster_is_data
            (fat32_mount media_io small_fs boot_disk).1.volume
            (fat32_mount media_io small_fs boot_disk).1.volume.root_cluster
          ≡ true))
    ⊎ ((¬ IsFat32Boot boot_sector)
        × ((fat32_mount media_io small_fs boot_disk).0 ≡ false)
        × ((fat32_mount media_io small_fs boot_disk).1.mounted ≡ false))
fat32_mount_lem_example =
    fat32_mount_lem media_io small_fs boot_disk boot_sector refl (λ k. ground arith)

abbrev small_file : Fat32File
small_file = record { first_cluster = 3; dir_lba = 3; dir_offset = 0; capacity = 1024; size = 600 }

-- the last byte of the first cluster and the two that follow it
fat32_read_lem_example :
    fat32_read media_io small_fs small_file 511 3
    ≡ some (
        bytes_from
          (chain_byte small_volume (media_disk.content small_fs.context) (3 ∷ 4 ∷ []))
          511
          (min (600 - 511) 3))
fat32_read_lem_example =
    fat32_read_lem media_disk small_fs small_file 511 3 (3 ∷ 4 ∷ [])
      (IsReady-IsMounted media_disk small_fs small_ready) small-IsChain (omega arith)

-- a directory with one file, A, whose chain is 3, 4
dir_sector : ℕ → ℕ
dir_sector k =
    if k == 0 then 65 else if ltb k 11 then 32 else if k == 26 then 3 else if k == 28 then 9 else 0

abbrev dir_fs : Fat32 Media
dir_fs = record small_fs {
  context = λ lba.
      if lba == 1 || lba == 2 then table_sector else if lba == 3 then dir_sector else (λ k. 0);
}

abbrev dir_file : Fat32File
dir_file = record { first_cluster = 3; dir_lba = 3; dir_offset = 0; capacity = 1024; size = 9 }

abbrev dir_ready : IsReady media_disk dir_fs
dir_ready = record {
  geometry = small_ready.geometry;
  fits = small_ready.fits;
  mounted = refl;
  writable = refl;
}

dir-IsChain : IsChain small_volume (fat_entry media_disk dir_fs 0) 3 (3 ∷ 4 ∷ [])
unfolding member fat_entry fat_sector entry_offset fat_le32 put_le32 table_sector
dir-IsChain = link 3 (4 ∷ []) refl refl refl (last 4 refl refl)

short_name_a : make_short_name (97 ∷ []) ≡ some (65 ∷ replicate 10 32)
unfolding make_short_name name_loop put_char
short_name_a = refl

root_opened : (fat32_open_root media_io dir_fs (97 ∷ [])).0 ≡ opened dir_file
unfolding fat32_open_root open_clusters open_sectors open_entry scan_entries name_matches
    make_short_name name_loop put_char file_chain_capacity capacity_loop read_fat_entry read_sector
    is_rejected fat_sector entry_offset fat_le32 put_le32 table_sector dir_sector cluster_to_lba
root_opened = refl

fat32_delete_lem_example :
    (fs' : Fat32 Media) × (fat32_delete media_io dir_fs (97 ∷ []) ≡ (true, fs'))
    × Deleted media_disk dir_fs fs' dir_file (3 ∷ 4 ∷ [])
fat32_delete_lem_example =
    fat32_delete_lem media_disk dir_fs (97 ∷ []) (65 ∷ replicate 10 32) dir_file (3 ∷ 4 ∷ [])
      dir_ready short_name_a root_opened (inl (omega arith, dir-IsChain))
