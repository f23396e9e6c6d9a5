-- ===== src/Fat32/Release.antt =====
-- kernel/fat32.c: read_fat_entry on a chain, and free_cluster_chain.
use armonios.Prelude.{
  ℕ, zero, suc, ◌+◌, ◌<◌, ◌≤◌, ◌≡◌, ◌⊎◌, refl, ap, ◌∙◌, Bool, true, false, some, none, arith, ◌==◌,
  Bool-cases, inl, inr, ==→eq, ==→ne, ◌||◌, if◌then◌else◌, List, [], ◌∷◌, length,
}
use armonios.Fat32.{Fat32, SectorIo, fat_sector, cluster_is_eoc, cluster_is_data, is_rejected}
use armonios.Fat32.Table.{read_fat_entry, free_chain_loop, free_cluster_chain}
use armonios.Fat32.Geometry.{fat_sector_lem}
use armonios.Fat32.Sectors.{Disk, IsReady, IsMounted, IsReady-IsMounted, read_sector_lem}
use armonios.Fat32.Write.{fat_entry, Wrote, IsReady-kept, write_fat_entry_stores, Wrote-sector}
use armonios.Fat32.Chain.{
  member, IsChain, last, link, IsChain-same, IsChain-length, member-in_volume,
}

module _ {C : Type 0} {io : SectorIo C} (d : Disk io) where
  pub read_fat_entry_gives :
      (fs : Fat32 C) (c : ℕ) (chain : Bool)
      → IsMounted d fs
      → cluster_is_data fs.volume c ≡ true
      → read_fat_entry io fs c chain ≡ (
        if is_rejected fs.volume chain (fat_entry d fs 0 c)
            then none
            else some (fat_entry d fs 0 c),
        record fs { sector = d.content fs.context (fat_sector fs.volume 0 c) },
      )
  unfolding read_fat_entry fat_entry
  read_fat_entry_gives fs c chain r in_volume =
      let f = r.geometry.some_fat in
      let p = fat_sector_lem fs.volume 0 c r.geometry f (ground arith) in
      rw (in_volume, read_sector_lem d fs (fat_sector fs.volume 0 c) r (omega arith)) refl

  pub read_fat_entry_next :
      (fs : Fat32 C) (c : ℕ)
      → IsMounted d fs
      → cluster_is_data fs.volume c ≡ true
      → (cluster_is_eoc (fat_entry d fs 0 c) || cluster_is_data fs.volume (fat_entry d fs 0 c))
        ≡ true
      → read_fat_entry io fs c true ≡ (
        some (fat_entry d fs 0 c),
        record fs { sector = d.content fs.context (fat_sector fs.volume 0 c) },
      )
  unfolding is_rejected
  read_fat_entry_next fs c r in_volume fine =
      let v = r.geometry.values in
      let e : is_rejected fs.volume true (fat_entry d fs 0 c) ≡ false = ground arith in
      rw (read_fat_entry_gives fs c true r in_volume, e) refl

  -- `fs'` is `fs` with the clusters `cs` free in every copy of the table.
  pub record Freed (fs fs' : Fat32 C) (cs : List ℕ) : Type 0 where
    pub volume : fs'.volume ≡ fs.volume
    pub mounted : fs'.mounted ≡ fs.mounted
    pub writable : fs'.writable ≡ fs.writable
    pub entries :
        (k x : ℕ)
        → k < fs.volume.fat_count
        → x < fs.volume.cluster_count + 2
        → fat_entry d fs' k x ≡ (if member x cs then 0 else fat_entry d fs k x)
    pub beyond :
        (lba : ℕ)
        → (lba < fs.volume.fat_start_lba) ⊎ (fs.volume.data_start_lba ≤ lba)
        → d.content fs'.context lba ≡ d.content fs.context lba

  Freed-cons :
      (fs fs1 fs2 : Fat32 C) (c : ℕ) (cs : List ℕ)
      → c < fs.volume.cluster_count + 2
      → Wrote d fs fs1 0 fs.volume.fat_count c 0
      → Freed fs1 fs2 cs
      → Freed fs fs2 (c ∷ cs)
  unfolding member
  Freed-cons fs fs1 fs2 c cs hc w f = record {
    volume = f.volume ∙ w.volume;
    mounted = f.mounted ∙ w.mounted;
    writable = f.writable ∙ w.writable;
    entries = λ k x hk hx.
        let e = f.entries k x (rw w.volume hk) (rw w.volume hx) in
        elim (Bool-cases (x == c)) [
          | inl same ↦
              let xc : x ≡ c = ==→eq x c same in
              let z : fat_entry d fs1 k x ≡ 0 = rw xc (w.inside k hk (omega arith) hk) in
              ground (arith, e, z)
          | inr ne ↦
              let z : fat_entry d fs1 k x ≡ fat_entry d fs k x =
                w.outside k x hk hx (inl (==→ne x c ne)) in
              ground (arith, e, z)
        ];
    beyond = λ lba out. f.beyond lba (rw w.volume out) ∙ w.beyond lba out;
  }

  Freed-nil : (fs : Fat32 C) → Freed fs fs []
  unfolding member
  Freed-nil fs = record {
    volume = refl;
    mounted = refl;
    writable = refl;
    entries = λ k x hk hx. refl;
    beyond = λ lba out. refl;
  }

  free_chain_loop_frees :
      (n c : ℕ) (cs : List ℕ) (fs : Fat32 C)
      → IsReady d fs
      → IsChain fs.volume (fat_entry d fs 0) c cs
      → length cs ≤ n
      → (fs' : Fat32 C) × (free_chain_loop io n c fs ≡ (true, fs')) × Freed fs fs' cs
  unfolding free_chain_loop
  free_chain_loop_frees zero c _ fs r (last _ in_volume ends) h = absurd (omega arith)
  free_chain_loop_frees zero c _ fs r (link _ cs in_volume next_in apart rest) h =
      absurd (omega arith)
  free_chain_loop_frees (suc n) c _ fs r (last _ in_volume ends) h =
      let fs1 : Fat32 C = record fs { sector = d.content fs.context (fat_sector fs.volume 0 c) } in
      let e1 = read_fat_entry_next fs c (IsReady-IsMounted d fs r) in_volume (ground arith) in
      let r1 : IsReady d fs1 = IsReady-kept d fs fs1 refl refl refl r in
      let (fs2, e2, w) = write_fat_entry_stores d fs1 c 0 r1 in_volume refl in
      (
        fs2,
        rw (in_volume, e1, e2, ends) refl,
        Freed-cons fs fs2 fs2 c [] (ground arith)
            (Wrote-sector d fs fs2 _ 0 fs.volume.fat_count c 0 w) (Freed-nil fs2),
      )
  free_chain_loop_frees (suc n) c _ fs r (link _ cs in_volume next_in apart rest) h =
      let fs1 : Fat32 C = record fs { sector = d.content fs.context (fat_sector fs.volume 0 c) } in
      let e1 = read_fat_entry_next fs c (IsReady-IsMounted d fs r) in_volume (ground arith) in
      let r1 : IsReady d fs1 = IsReady-kept d fs fs1 refl refl refl r in
      let (fs2, e2, w1) = write_fat_entry_stores d fs1 c 0 r1 in_volume refl in
      let w = Wrote-sector d fs fs2 _ 0 fs.volume.fat_count c 0 w1 in
      let r2 = IsReady-kept d fs fs2 w.volume w.mounted w.writable r in
      let some_fat = r.geometry.some_fat in
      let chain : IsChain fs.volume (fat_entry d fs2 0) (fat_entry d fs 0 c) cs =
        IsChain-same fs.volume (fat_entry d fs 0) (fat_entry d fs2 0) (fat_entry d fs 0 c) cs
          (λ x m.
            w.outside 0 x some_fat
              (member-in_volume fs.volume (fat_entry d fs 0) (fat_entry d fs 0 c) cs x rest m)
              (inl (λ same. let e = ap (λ (t : ℕ). member t cs) same in ground (arith, e))))
          rest in
      let (fs3, e3, f) =
        free_chain_loop_frees n (fat_entry d fs 0 c) cs fs2 r2 (rw w.volume chain) (omega arith) in
      let v = r.geometry.values in
      let goes : cluster_is_eoc (fat_entry d fs 0 c) ≡ false = ground arith in
      (fs3, rw (in_volume, e1, e2, goes) e3, Freed-cons fs fs2 fs3 c cs (ground arith) w f)

  -- On a mounted volume that can be written, of a disk that works, a chain is released whole: the call succeeds, each of the
  -- chain's clusters is free in every copy of the table, every other entry of every copy and every
  -- sector outside the table is as before.
  pub free_cluster_chain_lem :
      (fs : Fat32 C) (c : ℕ) (cs : List ℕ)
      → IsReady d fs
      → IsChain fs.volume (fat_entry d fs 0) c cs
      → (fs' : Fat32 C) × (free_cluster_chain io fs c ≡ (true, fs')) × Freed fs fs' cs
  unfolding free_cluster_chain
  free_cluster_chain_lem fs c cs r chain =
      free_chain_loop_frees fs.volume.cluster_count c cs fs r chain
        (IsChain-length fs.volume (fat_entry d fs 0) c cs chain)
