-- ===== src/Fat32/Delete.antt =====
-- kernel/fat32.c: fat32_delete releases the chain of a file and marks its entry as free.
use mathlib.Core.Path.{subst}
use armonios.Prelude.{
  ℕ, ◌+◌, ◌%◌, ◌⊎◌, ◌<◌, ◌≤◌, ◌≡◌, ◌≢◌, refl, ap, ◌∙◌, sym, true, false, some, arith, leb, not,
  ◌||◌, ◌==◌, inl, inr, if◌then◌else◌, List, [],
}
use armonios.Fat32.{
  Volume, Fat32, Fat32File, SectorIo, fat_sector, fat_le32, entry_offset, entry_values,
}
use armonios.Fat32.Geometry.{fat_sector_lem}
use armonios.Fat32.Sectors.{Disk, IsReady, IsReady-IsMounted, read_sector_lem, write_sector_lem}
use armonios.Fat32.Write.{fat_entry, IsReady-kept}
use armonios.Fat32.Chain.{member, IsChain, IsChain-same}
use armonios.Fat32.Release.{Freed, free_cluster_chain_lem}
use armonios.Fat32.Directory.{
  Search, opened, fat32_open_root, make_short_name, mark_deleted, delete_in, fat32_delete,
}
use armonios.Fat32.Kept.{Kept}
use armonios.Fat32.Open.{InClusters, fat32_open_root-Searched}

module _ {C : Type 0} {io : SectorIo C} (d : Disk io) where
  -- a sector with the first byte of the entry at `offset` that of a deleted one
  abbrev pub without_entry : (ℕ → ℕ) → ℕ → ℕ → ℕ
  without_entry s offset k = if k == offset then 0xe5 else s k

  -- `fs'` is `fs` with the entry of the file marked as deleted and the clusters `cs` free.
  pub record Deleted (fs fs' : Fat32 C) (file : Fat32File) (cs : List ℕ) : Type 0 where
    pub volume : fs'.volume ≡ fs.volume
    pub entries :
        (k x : ℕ)
        → k < fs.volume.fat_count
        → x < fs.volume.cluster_count + 2
        → fat_entry d fs' k x ≡ (if member x cs then 0 else fat_entry d fs k x)
    pub directory :
        d.content fs'.context file.dir_lba
        ≡ without_entry (d.content fs.context file.dir_lba) file.dir_offset
    pub others :
        (lba : ℕ)
        → fs.volume.data_start_lba ≤ lba
        → lba ≢ file.dir_lba
        → d.content fs'.context lba ≡ d.content fs.context lba

  mark_deleted_marks :
      (fs fs1 : Fat32 C) (file : Fat32File) (cs : List ℕ)
      → IsReady d fs
      → IsReady d fs1
      → Freed d fs fs1 cs
      → fs.volume.data_start_lba ≤ file.dir_lba
      → file.dir_lba < fs.volume.total_sectors
      → (fs' : Fat32 C) × (mark_deleted io file fs1 ≡ (true, fs')) × Deleted fs fs' file cs
  unfolding mark_deleted fat_entry
  mark_deleted_marks fs fs1 file cs r r1 f low high =
      let total = ap (λ (v : Volume). v.total_sectors) f.volume in
      let fits = r1.fits in
      let at : file.dir_lba < d.blocks = omega arith in
      let old = d.content fs1.context file.dir_lba in
      let s = without_entry old file.dir_offset in
      let fs2 : Fat32 C = record fs1 { sector = s } in
      let r2 : IsReady d fs2 = IsReady-kept d fs1 fs2 refl refl refl r1 in
      let fs3 : Fat32 C = record fs2 { context = (io.write fs1.context file.dir_lba s).1 } in
      (
        fs3,
        rw (read_sector_lem d fs1 file.dir_lba (IsReady-IsMounted d fs1 r1) (omega arith))
            (write_sector_lem d fs2 file.dir_lba s r2 (omega arith)),
        record {
          volume = f.volume;
          entries = λ k x hk hx.
              let p = fat_sector_lem fs1.volume k x r1.geometry (rw f.volume hk) (rw f.volume hx) in
              let start = ap (λ (v : Volume). v.data_start_lba) f.volume in
              let apart : fat_sector fs1.volume k x ≢ file.dir_lba =
                λ e. absurd (omega (arith, p.2)) in
              ap (λ (t : ℕ → ℕ). fat_le32 t (entry_offset x) % entry_values)
                (d.kept fs1.context file.dir_lba (fat_sector fs1.volume k x) s at apart)
              ∙ f.entries k x hk hx;
          directory =
              d.stored fs1.context file.dir_lba s at
              ∙ ap (λ (t : ℕ → ℕ). without_entry t file.dir_offset)
                  (f.beyond file.dir_lba (inr low));
          others = λ lba le ne. d.kept fs1.context file.dir_lba lba s at ne ∙ f.beyond lba (inr le);
        },
      )

  fat_entry-Kept :
      (fs fs1 : Fat32 C) (k x : ℕ) → Kept fs fs1 → fat_entry d fs1 k x ≡ fat_entry d fs k x
  unfolding fat_entry
  fat_entry-Kept fs fs1 k x q =
      ap
        (λ (c : C).
          fat_le32 (d.content c (fat_sector fs1.volume k x)) (entry_offset x) % entry_values)
        q.context
      ∙ ap
          (λ (v : Volume).
            fat_le32 (d.content fs.context (fat_sector v k x)) (entry_offset x) % entry_values)
          q.volume

  Freed-from :
      (fs fs1 fs2 : Fat32 C) (cs : List ℕ) → Kept fs fs1 → Freed d fs1 fs2 cs → Freed d fs fs2 cs
  Freed-from fs fs1 fs2 cs q f = record {
    volume = f.volume ∙ q.volume;
    mounted = f.mounted ∙ q.mounted;
    writable = f.writable ∙ q.writable;
    entries = λ k x hk hx.
        f.entries k x (rw q.volume hk) (rw q.volume hx)
        ∙ ap (λ (t : ℕ). if member x cs then 0 else t) (fat_entry-Kept fs fs1 k x q);
    beyond = λ lba out. f.beyond lba (rw q.volume out) ∙ ap (λ (c : C). d.content c lba) q.context;
  }

  Freed-none : (fs fs1 : Fat32 C) → Kept fs fs1 → Freed d fs fs1 []
  unfolding member
  Freed-none fs fs1 q = record {
    volume = q.volume;
    mounted = q.mounted;
    writable = q.writable;
    entries = λ k x hk hx. fat_entry-Kept fs fs1 k x q;
    beyond = λ lba out. ap (λ (c : C). d.content c lba) q.context;
  }

  -- the chain of a file that has clusters, or none for a file that has not
  abbrev pub HasChain : Fat32 C → Fat32File → List ℕ → Type 0
  HasChain fs file cs =
      ((2 ≤ file.first_cluster) × IsChain fs.volume (fat_entry d fs 0) file.first_cluster cs)
      ⊎ ((file.first_cluster < 2) × (cs ≡ []))

  delete_in_deletes :
      (fs fs1 : Fat32 C) (file : Fat32File) (cs : List ℕ)
      → IsReady d fs
      → Kept fs fs1
      → fs.volume.data_start_lba ≤ file.dir_lba
      → file.dir_lba < fs.volume.total_sectors
      → HasChain fs file cs
      → (fs' : Fat32 C) × (delete_in io (opened file, fs1) ≡ (true, fs')) × Deleted fs fs' file cs
  delete_in_deletes fs fs1 file cs r q low high (inl (some_first, chain)) =
      let r1 = IsReady-kept d fs fs1 q.volume q.mounted q.writable r in
      let chain1 : IsChain fs1.volume (fat_entry d fs1 0) file.first_cluster cs =
        subst (λ (v : Volume). IsChain v (fat_entry d fs1 0) file.first_cluster cs) (sym q.volume)
          (IsChain-same fs.volume (fat_entry d fs 0) (fat_entry d fs1 0) file.first_cluster cs
            (λ x m. fat_entry-Kept fs fs1 0 x q) chain) in
      let (fs2, e, f1) = free_cluster_chain_lem d fs1 file.first_cluster cs r1 chain1 in
      let f = Freed-from fs fs1 fs2 cs q f1 in
      let r2 = IsReady-kept d fs fs2 f.volume f.mounted f.writable r in
      let (fs3, x, y) = mark_deleted_marks fs fs2 file cs r r2 f low high in
      let t : leb 2 file.first_cluster ≡ true = ground arith in (fs3, rw (t, e) x, y)
  delete_in_deletes fs fs1 file cs r q low high (inr (no_first, nil)) =
      let r1 = IsReady-kept d fs fs1 q.volume q.mounted q.writable r in
      let (fs3, x, y) =
        mark_deleted_marks fs fs1 file cs r r1 (rw nil (Freed-none fs fs1 q)) low high in
      let t : leb 2 file.first_cluster ≡ false = ground arith in (fs3, rw t x, y)

  delete_in-opened :
      (file : Fat32File) (r : Search × Fat32 C)
      → r.0 ≡ opened file
      → delete_in io r ≡ delete_in io (opened file, r.1)
  delete_in-opened file (x, s) e = ap (λ (y : Search). delete_in io (y, s)) e

  -- On a mounted volume that can be written, of a disk that works, deleting a file of a good name that fat32_open_root finds succeeds: the clusters of its
  -- chain, if it has one, become free in every copy of the table and its entry that of a deleted
  -- file. Every other entry of the table, every other byte of the directory's sector and every
  -- other sector of a cluster stays.
  pub fat32_delete_lem :
      (fs : Fat32 C) (name wanted : List ℕ) (file : Fat32File) (cs : List ℕ)
      → IsReady d fs
      → make_short_name name ≡ some wanted
      → (fat32_open_root io fs name).0 ≡ opened file
      → HasChain fs file cs
      → (fs' : Fat32 C) × (fat32_delete io fs name ≡ (true, fs')) × Deleted fs fs' file cs
  unfolding fat32_delete
  fat32_delete_lem fs name wanted file cs r named found chain =
      let s = fat32_open_root-Searched io fs name r.geometry in
      let (low, high) : InClusters fs.volume (opened file) =
        subst (λ (x : Search). InClusters fs.volume x) found s.place in
      let (fs', e, y) =
        delete_in_deletes fs (fat32_open_root io fs name).1 file cs r s.keeps low high chain in
      let m = r.mounted in
      let w = r.writable in
      let guard : (not fs.mounted || not fs.writable) ≡ false = ground arith in
      (fs', rw (guard, named) (delete_in-opened file (fat32_open_root io fs name) found ∙ e), y)
