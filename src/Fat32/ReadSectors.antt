-- ===== src/Fat32/ReadSectors.antt =====
-- kernel/fat32.c: the bytes of a cluster, and the loop of fat32_read over its sectors.
use mathlib.Core.Path.{subst}
use mathlib.Core.List.{append_assoc, append-nil}
use armonios.Prelude.{
  ℕ, zero, suc, ◌+◌, ◌-◌, ◌*◌, ◌/◌, ◌%◌, ◌<◌, ◌≤◌, ◌≡◌, ◌⊎◌, refl, ap, ◌∙◌, sym, true, some, arith,
  leb, ◌==◌, Bool-cases, inl, inr, List, ◌∷◌, ◌++◌, min, add32,
}
use armonios.Fat32.{
  Volume, Fat32, SectorIo, fat32_sector_size, cluster_is_data, cluster_to_lba, read_sector,
}
use armonios.Fat32.Sectors.{Disk, IsMounted, read_sector_lem}
use armonios.Fat32.Sectors.{IsMounted-kept}
use armonios.Fat32.Mount.{cluster_place}
use armonios.Fat32.Content.{bytes_from, Copying, copy_sectors}

pub bytes_from-append :
    (f : ℕ → ℕ) (p a b : ℕ) → bytes_from f p (a + b) ≡ bytes_from f p a ++ bytes_from f (p + a) b
unfolding bytes_from
bytes_from-append f p zero b =
    let a : 0 + b ≡ b = omega arith in let q : p + 0 ≡ p = omega arith in rw (a, q) refl
bytes_from-append f p (suc a) b =
    let e : suc a + b ≡ suc (a + b) = omega arith in
    let g : p + 1 + a ≡ p + suc a = omega arith in
    rw e (ap (λ (t : List ℕ). f p ∷ t) (bytes_from-append f (p + 1) a b ∙ rw g refl))

pub bytes_from-same :
    (f g : ℕ → ℕ) (p q n : ℕ)
    → ((i : ℕ) → i < n → f (p + i) ≡ g (q + i))
    → bytes_from f p n ≡ bytes_from g q n
unfolding bytes_from
bytes_from-same f g p q zero same = refl
bytes_from-same f g p q (suc n) same =
    let e : p + 0 ≡ p = omega arith in
    let h : q + 0 ≡ q = omega arith in
    let first : f p ≡ g q = ap f (sym e) ∙ same 0 (omega arith) ∙ ap g h in
    rw
      (
        first,
        bytes_from-same f g (p + 1) (q + 1) n (λ i lt.
            let a : p + 1 + i ≡ p + suc i = omega arith in
            let b : q + 1 + i ≡ q + suc i = omega arith in
            ap f a ∙ same (suc i) (omega arith) ∙ ap g (sym b)),
      )
      refl

after_sector :
    (n r offset m : ℕ)
    → offset < fat32_sector_size
    → m ≡ min r (suc n * fat32_sector_size - offset)
    → m - min (fat32_sector_size - offset) r
      ≡ min (r - min (fat32_sector_size - offset) r) (n * fat32_sector_size - 0)
after_sector n r offset m lt e =
    let a : suc n * fat32_sector_size ≡ n * fat32_sector_size + fat32_sector_size = omega arith in
    let f : m ≡ min r (n * fat32_sector_size + fat32_sector_size - offset) = e ∙ rw a refl in
    ground arith

-- byte `q` of a cluster, on the disk `g`
unfoldable pub cluster_byte : Volume → (ℕ → ℕ → ℕ) → ℕ → ℕ → ℕ
cluster_byte v g c q =
    g (v.data_start_lba + (c - 2) * v.sectors_per_cluster + q / fat32_sector_size)
      (q % fat32_sector_size)

module _ {C : Type 0} {io : SectorIo C} (d : Disk io) where
  -- `fs` is the volume `v` of the disk `g`.
  pub record IsVolume (v : Volume) (g : ℕ → ℕ → ℕ) (fs : Fat32 C) : Type 0 where
    pub ready : IsMounted d fs
    pub volume : fs.volume ≡ v
    pub content : d.content fs.context ≡ g

  -- `t` is `s` with `m` bytes more, from place `p` of `f` on.
  pub record Copied (v : Volume) (g : ℕ → ℕ → ℕ) (f : ℕ → ℕ) (p m : ℕ) (s t : Copying io)
      : Type 0 where
    pub stays : IsVolume v g t.volume
    pub remaining : t.remaining + m ≡ s.remaining
    pub copied : t.copied ≡ s.copied ++ bytes_from f p m

  pub Copied-zero :
      (v : Volume) (g : ℕ → ℕ → ℕ) (f : ℕ → ℕ) (p : ℕ) (s : Copying io)
      → IsVolume v g s.volume
      → Copied v g f p 0 s s
  unfolding bytes_from
  Copied-zero v g f p s h = record {
    stays = h;
    remaining = omega arith;
    copied = sym (append-nil s.copied);
  }

  pub Copied-join :
      (v : Volume) (g : ℕ → ℕ → ℕ) (f : ℕ → ℕ) (p a b : ℕ) (s t u : Copying io)
      → Copied v g f p a s t
      → Copied v g f (p + a) b t u
      → Copied v g f p (a + b) s u
  Copied-join v g f p a b s t u x y = record {
    stays = y.stays;
    remaining = let r = x.remaining in let q = y.remaining in omega arith;
    copied =
        y.copied
        ∙ ap (λ (l : List ℕ). l ++ bytes_from f (p + a) b) x.copied
        ∙ append_assoc s.copied (bytes_from f p a) (bytes_from f (p + a) b)
        ∙ ap (λ (l : List ℕ). s.copied ++ l) (sym (bytes_from-append f p a b));
  }

  -- the sector that a round reads
  read_place :
      (v : Volume) (g : ℕ → ℕ → ℕ) (fs : Fat32 C) (cluster sector : ℕ)
      → IsVolume v g fs
      → cluster_is_data v cluster ≡ true
      → sector < v.sectors_per_cluster
      → read_sector io fs (add32 (cluster_to_lba fs.volume cluster) sector) ≡ (
        true,
        record fs {
          sector = g (v.data_start_lba + (cluster - 2) * v.sectors_per_cluster + sector);
        },
      )
  read_place v g fs cluster sector h c_in lt =
      let (p, q) =
        cluster_place fs.volume cluster sector h.ready.geometry
          (ap (λ (w : Volume). cluster_is_data w cluster) h.volume ∙ c_in) (rw h.volume lt) in
      let at : fs.volume.data_start_lba + (cluster - 2) * fs.volume.sectors_per_cluster + sector
          ≡ v.data_start_lba + (cluster - 2) * v.sectors_per_cluster + sector =
        ap (λ (w : Volume). w.data_start_lba + (cluster - 2) * w.sectors_per_cluster + sector)
          h.volume in
      ap (read_sector io fs) p
      ∙ read_sector_lem d fs _ h.ready q
      ∙ ap (λ (t : ℕ → ℕ). (true, record fs { sector = t }))
          (ap (d.content fs.context) at
            ∙ ap
                (λ (k : ℕ → ℕ → ℕ).
                  k (v.data_start_lba + (cluster - 2) * v.sectors_per_cluster + sector))
                h.content)

  IsVolume-sector :
      (v : Volume) (g : ℕ → ℕ → ℕ) (fs : Fat32 C) (t : ℕ → ℕ)
      → IsVolume v g fs
      → IsVolume v g (record fs { sector = t })
  IsVolume-sector v g fs t h = record {
    ready = IsMounted-kept d fs (record fs { sector = t }) refl refl h.ready;
    volume = h.volume;
    content = h.content;
  }

  -- where nothing is copied, the place is any
  Copied-moved :
      (v : Volume) (g : ℕ → ℕ → ℕ) (f : ℕ → ℕ) (p q m : ℕ) (s t : Copying io)
      → (p ≡ q) ⊎ (m ≡ 0)
      → Copied v g f p m s t
      → Copied v g f q m s t
  unfolding bytes_from
  Copied-moved v g f p q m s t (inl e) x = subst (λ (k : ℕ). Copied v g f k m s t) e x
  Copied-moved v g f p q m s t (inr e) x = record {
    stays = x.stays;
    remaining = x.remaining;
    copied =
        let a : bytes_from f p m ≡ bytes_from f q m = rw e refl in
        x.copied ∙ ap (λ (l : List ℕ). s.copied ++ l) a;
  }

  -- the bytes of one sector, from place `offset` in it
  one_sector :
      (sector cluster offset count : ℕ) (v : Volume) (g : ℕ → ℕ → ℕ) (s : Copying io)
      → IsVolume v g s.volume
      → offset + count ≤ fat32_sector_size
      → count ≤ s.remaining
      → Copied v g (cluster_byte v g cluster) (sector * fat32_sector_size + offset) count s record {
        copied =
            s.copied
            ++ bytes_from
                (g (v.data_start_lba + (cluster - 2) * v.sectors_per_cluster + sector))
                offset
                count;
        remaining = s.remaining - count;
        volume = record s.volume {
          sector = g (v.data_start_lba + (cluster - 2) * v.sectors_per_cluster + sector);
        };
      }
  unfolding cluster_byte
  one_sector sector cluster offset count v g s h low le = record {
    stays = IsVolume-sector v g s.volume _ h;
    remaining = omega arith;
    copied =
        ap (λ (l : List ℕ). s.copied ++ l)
          (bytes_from-same (g (v.data_start_lba + (cluster - 2) * v.sectors_per_cluster + sector))
            (cluster_byte v g cluster) offset (sector * fat32_sector_size + offset) count
            (λ i lt.
              let a : (sector * fat32_sector_size + offset + i) / fat32_sector_size ≡ sector =
                omega arith in
              let b : (sector * fat32_sector_size + offset + i) % fat32_sector_size ≡ offset + i =
                omega arith in
              rw (a, b) refl));
  }

  pub copy_sectors_copies :
      (n sector cluster offset m : ℕ) (v : Volume) (g : ℕ → ℕ → ℕ) (s : Copying io)
      → IsVolume v g s.volume
      → cluster_is_data v cluster ≡ true
      → sector + n ≡ v.sectors_per_cluster
      → offset ≤ n * fat32_sector_size
      → m ≡ min s.remaining (n * fat32_sector_size - offset)
      → (t : Copying io) × (copy_sectors io n sector cluster offset s ≡ some t)
        × Copied v g (cluster_byte v g cluster) (sector * fat32_sector_size + offset) m s t
  unfolding copy_sectors
  copy_sectors_copies zero sector cluster offset m v g s h c_in to low count_m =
      let z : m ≡ 0 = ground arith in
      (s, refl, rw z (Copied-zero v g (cluster_byte v g cluster) _ s h))
  copy_sectors_copies (suc n) sector cluster offset m v g s h c_in to low count_m =
      elim (Bool-cases (s.remaining == 0)) [
        | inl e ↦
            let z : m ≡ 0 = ground arith in
            (s, rw e refl, rw z (Copied-zero v g (cluster_byte v g cluster) _ s h))
        | inr e ↦ elim (Bool-cases (leb fat32_sector_size offset)) [
          | inl f ↦
              let (t, x, y) =
                copy_sectors_copies n (sector + 1) cluster (offset - fat32_sector_size) m v g s h
                  c_in (omega arith) (ground arith) (ground arith) in
              let same : (sector + 1) * fat32_sector_size + (offset - fat32_sector_size)
                  ≡ sector * fat32_sector_size + offset =
                ground arith in
              (
                t,
                rw (e, f) x,
                subst (λ (p : ℕ). Copied v g (cluster_byte v g cluster) p m s t) same y,
              )
          | inr f ↦
              let count = min (fat32_sector_size - offset) s.remaining in
              let lba = v.data_start_lba + (cluster - 2) * v.sectors_per_cluster + sector in
              let r = read_place v g s.volume cluster sector h c_in (omega arith) in
              let s1 : Copying io = record {
                copied = s.copied ++ bytes_from (g lba) offset count;
                remaining = s.remaining - count;
                volume = record s.volume { sector = g lba };
              } in
              let (t, x, y) =
                copy_sectors_copies n (sector + 1) cluster 0 (m - count) v g s1
                  (IsVolume-sector v g s.volume (g lba) h) c_in (omega arith) (omega arith)
                  (after_sector n s.remaining offset m (ground arith) count_m) in
              let first =
                one_sector sector cluster offset count v g s h (ground arith) (ground arith) in
              let all : count + (m - count) ≡ m = ground arith in
              (
                t,
                rw (e, f, r) x,
                subst
                    (λ (k : ℕ).
                      Copied v g (cluster_byte v g cluster) (sector * fat32_sector_size + offset) k
                        s t)
                    all
                    (Copied-join v g (cluster_byte v g cluster)
                      (sector * fat32_sector_size + offset) count (m - count) s s1 t first
                      (Copied-moved v g (cluster_byte v g cluster) _ _ (m - count) s1 t
                        (ground arith) y)),
              )
        ]
      ]
