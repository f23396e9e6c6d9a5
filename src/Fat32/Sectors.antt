-- ===== src/Fat32/Sectors.antt =====
-- kernel/fat32.c: what the callbacks of a volume promise where the disk works, and the sectors read
-- and written through them.
use armonios.Prelude.{ℕ, ◌<◌, ◌≤◌, ◌≡◌, ◌≢◌, refl, ◌∙◌, true, false, some, arith, leb}
use armonios.Fat32.{Fat32, SectorIo, read_sector, write_sector}
use armonios.Fat32.Geometry.{IsGeometry}

-- A disk of `blocks` sectors that works: a sector reads as it was last written.
pub record Disk {C : Type 0} (io : SectorIo C) : Type 0 where
  pub blocks : ℕ
  pub content : C → ℕ → ℕ → ℕ
  pub reads : (c : C) (lba : ℕ) → lba < blocks → io.read c lba ≡ some (content c lba)
  pub writes : (c : C) (lba : ℕ) (s : ℕ → ℕ) → lba < blocks → (io.write c lba s).0 ≡ true
  pub stored : (c : C) (lba : ℕ) (s : ℕ → ℕ) → lba < blocks → content (io.write c lba s).1 lba ≡ s
  pub kept :
      (c : C) (lba other : ℕ) (s : ℕ → ℕ)
      → lba < blocks
      → other ≢ lba
      → content (io.write c lba s).1 other ≡ content c other

module _ {C : Type 0} {io : SectorIo C} where
  -- A mounted volume on a disk that has its sectors.
  pub record IsMounted (d : Disk io) (fs : Fat32 C) : Type 0 where
    pub geometry : IsGeometry fs.volume
    pub fits : fs.volume.total_sectors ≤ d.blocks
    pub mounted : fs.mounted ≡ true

  -- A mounted volume that can be written.
  pub record IsReady (d : Disk io) (fs : Fat32 C) : Type 0 where
    pub geometry : IsGeometry fs.volume
    pub fits : fs.volume.total_sectors ≤ d.blocks
    pub mounted : fs.mounted ≡ true
    pub writable : fs.writable ≡ true

  pub IsReady-IsMounted : (d : Disk io) (fs : Fat32 C) → IsReady d fs → IsMounted d fs
  IsReady-IsMounted d fs r = record { geometry = r.geometry; fits = r.fits; mounted = r.mounted }

  pub IsMounted-kept :
      (d : Disk io) (fs fs' : Fat32 C)
      → fs'.volume ≡ fs.volume
      → fs'.mounted ≡ fs.mounted
      → IsMounted d fs
      → IsMounted d fs'
  IsMounted-kept d fs fs' v m r = record {
    geometry = rw v r.geometry;
    fits = rw v r.fits;
    mounted = m ∙ r.mounted;
  }

  pub read_sector_lem :
      (d : Disk io) (fs : Fat32 C) (lba : ℕ)
      → IsMounted d fs
      → lba < fs.volume.total_sectors
      → read_sector io fs lba ≡ (true, record fs { sector = d.content fs.context lba })
  unfolding read_sector
  read_sector_lem d fs lba r lt =
      let f = r.fits in
      let e : leb fs.volume.total_sectors lba ≡ false = ground arith in
      rw (r.mounted, e, d.reads fs.context lba (omega arith)) refl

  pub write_sector_lem :
      (d : Disk io) (fs : Fat32 C) (lba : ℕ) (s : ℕ → ℕ)
      → IsReady d fs
      → lba < fs.volume.total_sectors
      → write_sector io fs lba s ≡ (true, record fs { context = (io.write fs.context lba s).1 })
  unfolding write_sector
  write_sector_lem d fs lba s r lt =
      let f = r.fits in
      let e : leb fs.volume.total_sectors lba ≡ false = ground arith in
      rw (r.mounted, r.writable, e, d.writes fs.context lba s (omega arith)) refl
