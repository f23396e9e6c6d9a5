-- ===== src/Fat32/ReadResult.antt =====
-- kernel/fat32.c: the result of fat32_read.
use armonios.Prelude.{
  ℕ, ◌+◌, ◌-◌, ◌*◌, ◌<◌, ◌≤◌, ◌≡◌, refl, ap, ◌∙◌, sym, true, false, some, none, arith, ltb, ◌==◌,
  Bool-cases, inl, inr, if◌then◌else◌, List, [], min, length, ◌||◌, not,
}
use armonios.Fat32.{Fat32, Fat32File, SectorIo}
use armonios.Fat32.Sectors.{Disk, IsMounted}
use armonios.Fat32.Write.{fat_entry}
use armonios.Fat32.Chain.{IsChain, head-data}
use armonios.Fat32.Content.{bytes_from, Copying, skip_clusters, fat32_read, read_at}
use armonios.Fat32.ReadSectors.{bytes_from-same, IsVolume}
use armonios.Fat32.ReadFile.{cluster_bytes, chain_byte, table_next, copy_clusters_copies}
use armonios.Fat32.Read.{skip_clusters_skips}

module _ {C : Type 0} {io : SectorIo C} (d : Disk io) where
  -- the part of fat32_read behind its tests
  read_at_gives :
      (fs : Fat32 C) (c offset wanted : ℕ) (cs : List ℕ)
      → IsMounted d fs
      → IsChain fs.volume (fat_entry d fs 0) c cs
      → 0 < wanted
      → offset + wanted ≤ length cs * cluster_bytes fs.volume
      → read_at io wanted (skip_clusters io offset offset c fs)
        ≡ some (bytes_from (chain_byte fs.volume (d.content fs.context) cs) offset wanted)
  unfolding fat_entry table_next
  read_at_gives fs c offset wanted cs r chain some_wanted fits =
      let v = fs.volume in
      let g = d.content fs.context in
      let h : IsVolume d v g fs = record { ready = r; volume = refl; content = refl } in
      let spc = r.geometry.some_spc in
      let (q, c', rest, fs1, e, s) =
        skip_clusters_skips d v g offset offset c cs fs h chain (omega arith) (omega arith)
          (omega arith) in
      let left = s.left in
      let start : Copying io = record { copied = []; remaining = wanted; volume = fs1 } in
      let (t, x, y) =
        copy_clusters_copies d v g wanted q c' rest start s.volume s.chain (omega arith) s.inside
          (omega arith) in
      let same =
        bytes_from-same (chain_byte v g rest) (chain_byte v g cs) q offset wanted
          (λ i lt. sym (s.bytes i)) in
      rw (e, x) (ap (λ (l : List ℕ). some l) (y.copied ∙ same))

  -- On a mounted volume of a disk that works, a read of a file whose chain holds its size gives the
  -- bytes of the clusters of the chain, in the chain's order, from `offset` on: as many as the
  -- buffer holds, up to the end of the file. It fails exactly for an offset behind the end.
  pub fat32_read_lem :
      (fs : Fat32 C) (file : Fat32File) (offset capacity : ℕ) (cs : List ℕ)
      → IsMounted d fs
      → IsChain fs.volume (fat_entry d fs 0) file.first_cluster cs
      → file.size ≤ length cs * cluster_bytes fs.volume
      → fat32_read io fs file offset capacity ≡ (
          if ltb file.size offset
          then none
          else some (
              bytes_from
                (chain_byte fs.volume (d.content fs.context) cs)
                offset
                (min (file.size - offset) capacity)))
  unfolding fat32_read bytes_from
  fat32_read_lem fs file offset capacity cs r chain fits =
      let first = head-data fs.volume (fat_entry d fs 0) file.first_cluster cs chain in
      let low : ltb file.first_cluster 2 ≡ false = ground arith in
      let wanted = min (file.size - offset) capacity in
      elim (Bool-cases (ltb file.size offset)) [
        | inl e ↦
            let guard : (not fs.mounted || ltb file.size offset) ≡ true = ground arith in
            rw (guard, e) refl
        | inr e ↦
            let m = r.mounted in
            let guard : (not fs.mounted || ltb file.size offset) ≡ false = ground arith in
            elim (Bool-cases (wanted == 0)) [
              | inl z ↦ let n : wanted ≡ 0 = ground arith in rw (guard, e, n) refl
              | inr z ↦
                  rw (guard, e, z, low)
                    (read_at_gives fs file.first_cluster offset wanted cs r chain (ground arith)
                      (ground arith))
            ]
      ]
