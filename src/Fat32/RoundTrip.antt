-- ===== src/Fat32/RoundTrip.antt =====
-- kernel/fat32.c: read_fat_entry after write_fat_entry.
use armonios.Prelude.{
  ℕ, ◌+◌, ◌<◌, ◌≤◌, ◌≡◌, ◌≢◌, ◌⊎◌, refl, ap, ◌∙◌, sym, Bool, true, false, Option, some, none, arith,
  ◌==◌, Bool-cases, inl, inr, ◌||◌, ◌&&◌, not, if◌then◌else◌,
}
use armonios.Fat32.{
  Volume, Fat32, SectorIo, cluster_bad, entry_values, cluster_is_eoc, cluster_is_data, is_rejected,
}
use armonios.Fat32.Table.{read_fat_entry, write_fat_entry}
use armonios.Fat32.Sectors.{Disk, IsReady, IsReady-IsMounted}
use armonios.Fat32.Write.{fat_entry, IsReady-kept, is_storable, write_fat_entry_stores}
use armonios.Fat32.Release.{read_fat_entry_gives}

storable_reads :
    (v : Volume) (value : ℕ)
    → v.cluster_count + 2 ≤ cluster_bad
    → is_storable v value ≡ true
    → (if is_rejected v true value then none else some value)
      ≡ (if value == 0 then none else some value)
unfolding is_rejected
storable_reads v value count storable = ground arith

-- the guard of write_fat_entry
unstorable :
    {C : Type 0} (io : SectorIo C) (fs : Fat32 C) (c value : ℕ)
    → (cluster_is_data fs.volume c && is_storable fs.volume value) ≡ false
    → write_fat_entry io fs c value ≡ (false, fs)
unfolding write_fat_entry
unstorable io fs c value off =
    let guard : (not fs.writable
          || not (cluster_is_data fs.volume c)
          || not (value == 0)
            && not (cluster_is_eoc value)
            && not (cluster_is_data fs.volume value))
        ≡ true =
      ground arith in
    rw guard refl

module _ {C : Type 0} {io : SectorIo C} (d : Disk io) where
  read_again :
      (fs fs' : Fat32 C) (y : ℕ) (chain : Bool) (e : ℕ)
      → IsReady d fs'
      → fs'.volume ≡ fs.volume
      → cluster_is_data fs.volume y ≡ true
      → fat_entry d fs' 0 y ≡ e
      → (read_fat_entry io fs' y chain).0 ≡ (if is_rejected fs.volume chain e then none else some e)
  read_again fs fs' y chain e r v y_in same =
      ap (λ (p : Option ℕ × Fat32 C). p.0)
        (read_fat_entry_gives d fs' y chain (IsReady-IsMounted d fs' r) (rw v y_in))
      ∙ rw (same, v) refl

  -- On a mounted volume that can be written, of a disk that works, for a value below 2 ^ 28: the entry
  -- of a cluster reads as the value just written to it, where 0 is no next cluster and so fails, and
  -- that of any other cluster reads as before. What is no cluster of the volume is not written, and no value
  -- that is neither 0, the end of a chain nor a cluster.
  pub write_fat_entry_lem :
      (fs : Fat32 C) (c value y : ℕ) (chain : Bool)
      → IsReady d fs
      → value < entry_values
      → y ≢ c
      → cluster_is_data fs.volume y ≡ true
      → ((cluster_is_data fs.volume c ≡ true)
          × (is_storable fs.volume value ≡ true)
          × ((write_fat_entry io fs c value).0 ≡ true)
          × ((read_fat_entry io (write_fat_entry io fs c value).1 c true).0
              ≡ (if value == 0 then none else some value))
          × ((read_fat_entry io (write_fat_entry io fs c value).1 y chain).0
              ≡ (read_fat_entry io fs y chain).0))
        ⊎ (((cluster_is_data fs.volume c && is_storable fs.volume value) ≡ false)
            × (write_fat_entry io fs c value ≡ (false, fs)))
  write_fat_entry_lem fs c value y chain r small ne y_in =
      elim (Bool-cases (cluster_is_data fs.volume c && is_storable fs.volume value)) [
        | inl t ↦
            let c_in : cluster_is_data fs.volume c ≡ true = ground arith in
            let storable : is_storable fs.volume value ≡ true = ground arith in
            let (fs2, e, w) = write_fat_entry_stores d fs c value r c_in storable in
            let r2 = IsReady-kept d fs fs2 w.volume w.mounted w.writable r in
            let f = r.geometry.some_fat in
            let v = r.geometry.values in
            let here : fat_entry d fs2 0 c ≡ value = w.inside 0 f (omega arith) f ∙ omega arith in
            let there = w.outside 0 y f (ground arith) (inl ne) in
            let value_fits : (if is_rejected fs.volume true value then none else some value)
                ≡ (if value == 0 then none else some value) =
              storable_reads fs.volume value v storable in
            inl (
              rw e (
                c_in,
                storable,
                refl,
                read_again fs fs2 c true value r2 w.volume c_in here ∙ value_fits,
                read_again fs fs2 y chain _ r2 w.volume y_in there
                    ∙ sym (read_again fs fs y chain _ r refl y_in refl),
              ))
        | inr t ↦ inr (t, unstorable io fs c value t)
      ]
