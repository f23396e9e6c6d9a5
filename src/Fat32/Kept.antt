-- ===== src/Fat32/Kept.antt =====
-- kernel/fat32.c: what reads a sector or an entry of the table changes nothing but the buffer.
use armonios.Prelude.{
  ℕ, zero, suc, ◌+◌, ◌*◌, ◌≡◌, refl, ◌∙◌, Bool, true, false, Option, some, none, leb, ltb, ◌&&◌,
  Bool-cases, inl, inr, u32_max,
}
use armonios.Fat32.{
  Fat32, SectorIo, filled, read_sector, cluster_is_data, cluster_is_eoc, fat32_sector_size,
  fat_sector,
}
use armonios.Fat32.Table.{entry_in, read_fat_entry, count_at, capacity_loop, file_chain_capacity}

module _ {C : Type 0} where
  -- `fs'` is `fs` but for the buffer.
  pub record Kept (fs fs' : Fat32 C) : Type 0 where
    pub context : fs'.context ≡ fs.context
    pub volume : fs'.volume ≡ fs.volume
    pub mounted : fs'.mounted ≡ fs.mounted
    pub writable : fs'.writable ≡ fs.writable

  pub Kept-refl : (fs : Fat32 C) → Kept fs fs
  Kept-refl fs = record { context = refl; volume = refl; mounted = refl; writable = refl }

  pub Kept-trans : (a b c : Fat32 C) → Kept a b → Kept b c → Kept a c
  Kept-trans a b c x y = record {
    context = y.context ∙ x.context;
    volume = y.volume ∙ x.volume;
    mounted = y.mounted ∙ x.mounted;
    writable = y.writable ∙ x.writable;
  }

  filled-Kept : (fs : Fat32 C) (o : Option (ℕ → ℕ)) → Kept fs (filled fs o).1
  filled-Kept fs none = Kept-refl fs
  filled-Kept fs (some s) = record {
    context = refl;
    volume = refl;
    mounted = refl;
    writable = refl;
  }

  pub read_sector-Kept :
      (io : SectorIo C) (fs : Fat32 C) (lba : ℕ) → Kept fs (read_sector io fs lba).1
  unfolding read_sector
  read_sector-Kept io fs lba = elim (Bool-cases (fs.mounted && leb fs.volume.total_sectors lba)) [
    | inl e ↦ rw e (Kept-refl fs)
    | inr e ↦ rw e (filled-Kept fs (io.read fs.context lba))
  ]

  entry_in-Kept :
      (io : SectorIo C) (c : ℕ) (chain : Bool) (fs : Fat32 C) (r : Bool × Fat32 C)
      → Kept fs r.1
      → Kept fs (entry_in io c chain r).1
  entry_in-Kept io c chain fs (false, s) k = k
  entry_in-Kept io c chain fs (true, s) k = k

  pub read_fat_entry-Kept :
      (io : SectorIo C) (fs : Fat32 C) (c : ℕ) (chain : Bool)
      → Kept fs (read_fat_entry io fs c chain).1
  unfolding read_fat_entry
  read_fat_entry-Kept io fs c chain = elim (Bool-cases (cluster_is_data fs.volume c)) [
    | inl e ↦
        rw e (entry_in-Kept io c chain fs _ (read_sector-Kept io fs (fat_sector fs.volume 0 c)))
    | inr e ↦ rw e (Kept-refl fs)
  ]

  count_at-Kept :
      (io : SectorIo C) (rest : ℕ → Fat32 C → Option ℕ × Fat32 C) (total : ℕ) (fs : Fat32 C)
      (r : Option ℕ × Fat32 C)
      → ((next : ℕ) (s : Fat32 C) → Kept s (rest next s).1)
      → Kept fs r.1
      → Kept fs (count_at io rest total r).1
  count_at-Kept io rest total fs (none, s) later k = k
  count_at-Kept io rest total fs (some next, s) later k = elim (Bool-cases (cluster_is_eoc next)) [
    | inl e ↦ rw e k
    | inr e ↦ rw e (Kept-trans fs s (rest next s).1 k (later next s))
  ]

  capacity_loop-Kept :
      (io : SectorIo C) (n total c : ℕ) (fs : Fat32 C) → Kept fs (capacity_loop io n total c fs).1
  unfolding capacity_loop
  capacity_loop-Kept io zero total c fs = Kept-refl fs
  capacity_loop-Kept io (suc n) total c fs =
      elim (Bool-cases (ltb u32_max (total + fs.volume.sectors_per_cluster * fat32_sector_size))) [
        | inl e ↦ rw e (Kept-refl fs)
        | inr e ↦ rw e (
            count_at-Kept io
              (capacity_loop io n (total + fs.volume.sectors_per_cluster * fat32_sector_size))
              (total + fs.volume.sectors_per_cluster * fat32_sector_size) fs
              (read_fat_entry io fs c true)
              (λ next s.
                capacity_loop-Kept io n (total + fs.volume.sectors_per_cluster * fat32_sector_size)
                  next s)
              (read_fat_entry-Kept io fs c true))
      ]

  pub capacity-Kept :
      (io : SectorIo C) (fs : Fat32 C) (c : ℕ) → Kept fs (file_chain_capacity io fs c).1
  unfolding file_chain_capacity
  capacity-Kept io fs c = elim (Bool-cases (cluster_is_data fs.volume c)) [
    | inl e ↦ rw e (capacity_loop-Kept io fs.volume.cluster_count 0 c fs)
    | inr e ↦ rw e (Kept-refl fs)
  ]
