-- ===== src/Fat32/Open.antt =====
-- kernel/fat32.c: fat32_open_root changes nothing but the buffer, and the entry of the file that it
-- finds stands in a cluster.
use armonios.Prelude.{
  ℕ, zero, suc, ◌+◌, ◌<◌, ◌≤◌, ◌≡◌, refl, ap, ◌∙◌, Bool, true, false, Option, some, none, arith,
  leb, ltb, not, ◌&&◌, ◌==◌, Bool-cases, inl, inr, if◌then◌else◌, List, add32,
}
use armonios.Fat32.{
  Volume, Fat32, Fat32File, SectorIo, fat_le32, read_sector, cluster_is_data, cluster_to_lba,
}
use armonios.Fat32.Table.{read_fat_entry, file_chain_capacity}
use armonios.Fat32.Geometry.{IsGeometry}
use armonios.Fat32.Mount.{cluster_place}
use armonios.Fat32.Directory.{
  Scan, at_end, at_entry, passed, scan_entries, Search, missing, opened, searching, with_capacity,
  entry_first, open_entry, open_scanned, open_sector, open_sectors, open_next, open_on,
  open_clusters, open_named, fat32_open_root, make_short_name,
}
use armonios.Fat32.Kept.{
  Kept, Kept-refl, Kept-trans, read_sector-Kept, read_fat_entry-Kept, capacity-Kept,
}

-- whether the entry of a file that was found stands in a cluster
abbrev pub InClusters : Volume → Search → Type 0
InClusters v missing = Unit {0}
InClusters v searching = Unit {0}
InClusters v (opened file) = (v.data_start_lba ≤ file.dir_lba) × (file.dir_lba < v.total_sectors)

module _ {C : Type 0} where
  -- a search that began at `fs` and has changed only the buffer
  pub record Searched (fs : Fat32 C) (r : Search × Fat32 C) : Type 0 where
    pub keeps : Kept fs r.1
    pub place : InClusters fs.volume r.0

  missing-Searched : (fs s : Fat32 C) → Kept fs s → Searched fs (missing, s)
  missing-Searched fs s k = record { keeps = k; place = record {} }

  with_capacity-Searched :
      (io : SectorIo C) (fs : Fat32 C) (file : Fat32File) (r : Option ℕ × Fat32 C)
      → Kept fs r.1
      → InClusters fs.volume (opened file)
      → Searched fs (with_capacity io file r)
  with_capacity-Searched io fs file (none, s) k p = missing-Searched fs s k
  with_capacity-Searched io fs file (some n, s) k p = elim (Bool-cases (ltb n file.size)) [
    | inl e ↦ rw e (missing-Searched fs s k)
    | inr e ↦ rw e (record { keeps = k; place = p })
  ]

  Searched-if :
      (fs : Fat32 C) (b : Bool) (x y : Search × Fat32 C)
      → Searched fs x
      → Searched fs y
      → Searched fs (if b then x else y)
  Searched-if fs true x y p q = p
  Searched-if fs false x y p q = q

  Searched-later :
      (fs s : Fat32 C) (r : Search × Fat32 C) → Kept fs s → Searched s r → Searched fs r
  Searched-later fs s (missing, t) k x = missing-Searched fs t (Kept-trans fs s t k x.keeps)
  Searched-later fs s (searching, t) k x = record {
    keeps = Kept-trans fs s t k x.keeps;
    place = record {};
  }
  Searched-later fs s (opened file, t) k x = record {
    keeps = Kept-trans fs s t k x.keeps;
    place =
        let a = ap (λ (v : Volume). v.data_start_lba) k.volume in
        let b = ap (λ (v : Volume). v.total_sectors) k.volume in
        (omega (arith, x.place.0), omega (arith, x.place.1));
  }

  open_entry-Searched :
      (io : SectorIo C) (fs : Fat32 C) (lba offset : ℕ)
      → fs.volume.data_start_lba ≤ lba
      → lba < fs.volume.total_sectors
      → Searched fs (open_entry io fs lba offset)
  unfolding open_entry
  open_entry-Searched io fs lba offset low high =
      let first = entry_first fs.sector offset in
      let file : Fat32File = record {
        first_cluster = first;
        dir_lba = lba;
        dir_offset = offset;
        capacity = 0;
        size = fat_le32 fs.sector (offset + 28);
      } in
      Searched-if fs (not (file.size == 0) && ltb first 2) (missing, fs) _
        (missing-Searched fs fs (Kept-refl fs))
        (Searched-if fs (leb 2 first) (with_capacity io file (file_chain_capacity io fs first))
          (opened file, fs)
          (with_capacity-Searched io fs file (file_chain_capacity io fs first)
            (capacity-Kept io fs first) (low, high))
          (record { keeps = Kept-refl fs; place = (low, high) }))

  open_scanned-Searched :
      (io : SectorIo C) (rest : Fat32 C → Search × Fat32 C) (lba : ℕ) (fs : Fat32 C) (x : Scan)
      → Searched fs (rest fs)
      → fs.volume.data_start_lba ≤ lba
      → lba < fs.volume.total_sectors
      → Searched fs (open_scanned io rest lba fs x)
  open_scanned-Searched io rest lba fs at_end later low high = missing-Searched fs fs (Kept-refl fs)
  open_scanned-Searched io rest lba fs (at_entry offset) later low high =
      open_entry-Searched io fs lba offset low high
  open_scanned-Searched io rest lba fs passed later low high = later

  open_sector-Searched :
      (io : SectorIo C) (rest : Fat32 C → Search × Fat32 C) (lba : ℕ) (wanted : List ℕ)
      (fs : Fat32 C) (r : Bool × Fat32 C)
      → Kept fs r.1
      → Searched r.1 (rest r.1)
      → fs.volume.data_start_lba ≤ lba
      → lba < fs.volume.total_sectors
      → Searched fs (open_sector io rest lba wanted r)
  open_sector-Searched io rest lba wanted fs (false, s) k later low high = missing-Searched fs s k
  open_sector-Searched io rest lba wanted fs (true, s) k later low high =
      let a = ap (λ (v : Volume). v.data_start_lba) k.volume in
      let b = ap (λ (v : Volume). v.total_sectors) k.volume in
      Searched-later fs s (open_scanned io rest lba s (scan_entries 16 s.sector wanted 0)) k (
        open_scanned-Searched io rest lba s (scan_entries 16 s.sector wanted 0) later (omega arith)
          (omega arith))

  open_sectors-Searched :
      (io : SectorIo C) (n sector cluster : ℕ) (wanted : List ℕ) (v : Volume) (fs : Fat32 C)
      → IsGeometry v
      → fs.volume ≡ v
      → cluster_is_data v cluster ≡ true
      → sector + n ≡ v.sectors_per_cluster
      → Searched fs (open_sectors io n sector cluster wanted fs)
  unfolding open_sectors
  open_sectors-Searched io zero sector cluster wanted v fs g same c_in to = record {
    keeps = Kept-refl fs;
    place = record {};
  }
  open_sectors-Searched io (suc n) sector cluster wanted v fs g same c_in to =
      let lba = add32 (cluster_to_lba fs.volume cluster) sector in
      let (p, q) = cluster_place v cluster sector g c_in (omega arith) in
      let e = ap (λ (w : Volume). add32 (cluster_to_lba w cluster) sector) same in
      let a = ap (λ (w : Volume). w.data_start_lba) same in
      let b = ap (λ (w : Volume). w.total_sectors) same in
      let k = read_sector-Kept io fs lba in
      open_sector-Searched io (open_sectors io n (sector + 1) cluster wanted) lba wanted fs
        (read_sector io fs lba) k
        (open_sectors-Searched io n (sector + 1) cluster wanted v (read_sector io fs lba).1 g
          (k.volume ∙ same) c_in (omega arith))
        (omega arith) (omega arith)

  open_next-Searched :
      (io : SectorIo C) (rest : ℕ → Fat32 C → Search × Fat32 C) (v : Volume) (fs : Fat32 C)
      (r : Option ℕ × Fat32 C)
      → ((next : ℕ) (s : Fat32 C) → s.volume ≡ v → Searched s (rest next s))
      → fs.volume ≡ v
      → Kept fs r.1
      → Searched fs (open_next io rest r)
  open_next-Searched io rest v fs (none, s) later same k = missing-Searched fs s k
  open_next-Searched io rest v fs (some next, s) later same k =
      Searched-later fs s (rest next s) k (later next s (k.volume ∙ same))

  open_on-Searched :
      (io : SectorIo C) (rest : ℕ → Fat32 C → Search × Fat32 C) (v : Volume) (cluster : ℕ)
      (fs : Fat32 C) (r : Search × Fat32 C)
      → ((next : ℕ) (s : Fat32 C) → s.volume ≡ v → Searched s (rest next s))
      → fs.volume ≡ v
      → Searched fs r
      → Searched fs (open_on io rest cluster r)
  open_on-Searched io rest v cluster fs (missing, s) later same x = x
  open_on-Searched io rest v cluster fs (opened file, s) later same x = x
  open_on-Searched io rest v cluster fs (searching, s) later same x =
      Searched-later fs s (open_next io rest (read_fat_entry io s cluster true)) x.keeps (
        open_next-Searched io rest v s (read_fat_entry io s cluster true) later
          (x.keeps.volume ∙ same) (read_fat_entry-Kept io s cluster true))

  open_clusters-Searched :
      (io : SectorIo C) (n cluster : ℕ) (wanted : List ℕ) (v : Volume) (fs : Fat32 C)
      → IsGeometry v
      → fs.volume ≡ v
      → Searched fs (open_clusters io n cluster wanted fs)
  unfolding open_clusters
  open_clusters-Searched io zero cluster wanted v fs g same = missing-Searched fs fs (Kept-refl fs)
  open_clusters-Searched io (suc n) cluster wanted v fs g same =
      elim (Bool-cases (cluster_is_data fs.volume cluster)) [
        | inl e ↦
            let c_in = ap (λ (w : Volume). cluster_is_data w cluster) same in
            rw e (
              open_on-Searched io (λ next s. open_clusters io n next wanted s) v cluster fs
                (open_sectors io fs.volume.sectors_per_cluster 0 cluster wanted fs)
                (λ next s at. open_clusters-Searched io n next wanted v s g at) same
                (open_sectors-Searched io fs.volume.sectors_per_cluster 0 cluster wanted v fs g same
                  (ground (arith, c_in))
                  (let h = ap (λ (w : Volume). w.sectors_per_cluster) same in omega arith)))
        | inr e ↦ rw e (missing-Searched fs fs (Kept-refl fs))
      ]

  open_named-Searched :
      (io : SectorIo C) (fs : Fat32 C) (wanted : Option (List ℕ))
      → IsGeometry fs.volume
      → Searched fs (open_named io fs wanted)
  open_named-Searched io fs none g = missing-Searched fs fs (Kept-refl fs)
  open_named-Searched io fs (some wanted) g =
      open_clusters-Searched io fs.volume.cluster_count fs.volume.root_cluster wanted fs.volume fs g
        refl

  pub fat32_open_root-Searched :
      (io : SectorIo C) (fs : Fat32 C) (name : List ℕ)
      → IsGeometry fs.volume
      → Searched fs (fat32_open_root io fs name)
  unfolding fat32_open_root
  fat32_open_root-Searched io fs name g =
      Searched-if fs _ _ _ (missing-Searched fs fs (Kept-refl fs))
        (open_named-Searched io fs (make_short_name name) g)
