-- ===== src/Fat32/Directory.antt =====
-- kernel/fat32.c: names, fat32_open_root and fat32_delete. A C string is the list of its bytes, ended
-- by the end of the list or a zero byte; a `char` has no sign.
use armonios.Prelude.{
  ℕ, zero, suc, ◌+◌, ◌-◌, ◌*◌, ◌/◌, ◌%◌, Bool, true, false, not, ◌&&◌, ◌||◌, Option, none, some,
  if◌then◌else◌, ltb, leb, ◌==◌, List, [], ◌∷◌, get_or, set, replicate, add32,
}
use armonios.Fat32.{
  Fat32, Fat32File, SectorIo, fat_le16, fat_le32, cluster_is_data, cluster_to_lba, read_sector,
  write_sector,
}
use armonios.Fat32.Table.{after, read_fat_entry, free_cluster_chain, file_chain_capacity}

abbrev pub ascii_upper : ℕ → ℕ
ascii_upper c = if leb b'a' c && leb c b'z' then c - 32 else c

-- the array `out` with the variables of the loop of make_short_name
pub record ShortName : Type 0 where
  pub out : List ℕ
  pub base : ℕ
  pub ext : ℕ
  pub in_ext : Bool

abbrev pub is_barred : ℕ → Bool
is_barred c =
    leb c b' '
    || c == b'"'
    || c == b'*'
    || c == b'+'
    || c == b','
    || c == b':'
    || c == b';'
    || c == b'<'
    || c == b'='
    || c == b'>'
    || c == b'?'
    || c == b'['
    || c == b'\\'
    || c == b']'
    || c == b'|'

unfoldable pub put_char : ShortName → ℕ → Option ShortName
put_char s c =
    if c == b'/'
    then none
    else if c == b'.'
    then (if s.in_ext || s.base == 0 then none else some (record s { in_ext = true }))
    else if is_barred c
    then none
    else if not s.in_ext
    then (if leb 8 s.base
        then none
        else some (record s { out = set s.out s.base c; base = s.base + 1 }))
    else if leb 3 s.ext
    then none
    else some (record s { out = set s.out (8 + s.ext) c; ext = s.ext + 1 })

abbrev pub put_on : (ShortName → Option ShortName) → Option ShortName → Option ShortName
put_on rest none = none
put_on rest (some s) = rest s

unfoldable pub name_loop : List ℕ → ShortName → Option ShortName
name_loop [] s = some s
name_loop (x ∷ xs) s =
    let r = put_on (name_loop xs) (put_char s (ascii_upper x)) in if x == 0 then some s else r

abbrev pub name_of : Option ShortName → Option (List ℕ)
name_of none = none
name_of (some s) = if s.base == 0 || s.in_ext && s.ext == 0 then none else some s.out

abbrev pub skip_slash : List ℕ → List ℕ
skip_slash [] = []
skip_slash (x ∷ xs) = if x == b'/' then xs else x ∷ xs

-- the eleven bytes, or none for the result -1
unfoldable pub make_short_name : List ℕ → Option (List ℕ)
make_short_name name =
    if get_or name 0 0 == 0 || get_or (skip_slash name) 0 0 == 0
    then none
    else name_of (
        name_loop (skip_slash name)
          record { out = replicate 11 b' '; base = 0; ext = 0; in_ext = false })

-- kmemcmp(entry, wanted, 11) == 0, from place `at` on
unfoldable pub name_matches : (ℕ → ℕ) → ℕ → List ℕ → Bool
name_matches s at [] = true
name_matches s at (x ∷ xs) = let rest = name_matches s (at + 1) xs in s at == x && rest

-- how a scan of entries ends: at the end of the directory, at an entry, or with all passed
pub data Scan : Type 0 where
  at_end : Scan
  at_entry : ℕ → Scan
  passed : Scan

-- the tests by which the scan passes over an entry
abbrev pub is_passed : (ℕ → ℕ) → List ℕ → ℕ → Bool
is_passed s wanted offset =
    let attr = s (offset + 11) in
    s offset == 0xe5 || attr == 0x0f || attr / 16 % 2 == 1 || not (name_matches s offset wanted)

-- The loop over the entries of a sector from `offset` on, with `n` rounds left.
unfoldable pub scan_entries : ℕ → (ℕ → ℕ) → List ℕ → ℕ → Scan
scan_entries zero s wanted offset = passed
scan_entries (suc n) s wanted offset =
    let rest = scan_entries n s wanted (offset + 32) in
    if s offset == 0 then at_end else if is_passed s wanted offset then rest else at_entry offset

-- what a search has found so far: no such file, a file, or nothing yet
pub data Search : Type 0 where
  missing : Search
  opened : Fat32File → Search
  searching : Search

abbrev pub entry_first : (ℕ → ℕ) → ℕ → ℕ
entry_first s offset = fat_le16 s (offset + 20) * 65536 + fat_le16 s (offset + 26)

module _ {C : Type 0} (io : SectorIo C) where
  -- the tests on the capacity of a file's chain
  abbrev pub with_capacity : Fat32File → Option ℕ × Fat32 C → Search × Fat32 C
  with_capacity file (none, fs) = (missing, fs)
  with_capacity file (some capacity, fs) =
      (if ltb capacity file.size then missing else opened (record file { capacity = capacity }), fs)

  -- the file of the entry at `offset` of sector `lba`, which is in the buffer
  unfoldable pub open_entry : Fat32 C → ℕ → ℕ → Search × Fat32 C
  open_entry fs lba offset =
      let first = entry_first fs.sector offset in
      let size = fat_le32 fs.sector (offset + 28) in
      let file : Fat32File = record {
        first_cluster = first;
        dir_lba = lba;
        dir_offset = offset;
        capacity = 0;
        size = size;
      } in
      if not (size == 0) && ltb first 2
      then (missing, fs)
      else if leb 2 first
      then with_capacity file (file_chain_capacity io fs first)
      else (opened file, fs)

  abbrev pub open_scanned : (Fat32 C → Search × Fat32 C) → ℕ → Fat32 C → Scan → Search × Fat32 C
  open_scanned rest lba fs at_end = (missing, fs)
  open_scanned rest lba fs (at_entry offset) = open_entry fs lba offset
  open_scanned rest lba fs passed = rest fs

  abbrev pub open_sector :
      (Fat32 C → Search × Fat32 C) → ℕ → List ℕ → Bool × Fat32 C → Search × Fat32 C
  open_sector rest lba wanted (false, fs) = (missing, fs)
  open_sector rest lba wanted (true, fs) =
      open_scanned rest lba fs (scan_entries 16 fs.sector wanted 0)

  -- The loop over the sectors of a cluster from `sector` on, with `n` rounds left.
  unfoldable pub open_sectors : ℕ → ℕ → ℕ → List ℕ → Fat32 C → Search × Fat32 C
  open_sectors zero sector cluster wanted fs = (searching, fs)
  open_sectors (suc n) sector cluster wanted fs =
      let lba = add32 (cluster_to_lba fs.volume cluster) sector in
      open_sector (open_sectors n (sector + 1) cluster wanted) lba wanted (read_sector io fs lba)

  abbrev pub open_next : (ℕ → Fat32 C → Search × Fat32 C) → Option ℕ × Fat32 C → Search × Fat32 C
  open_next rest (none, fs) = (missing, fs)
  open_next rest (some next, fs) = rest next fs

  abbrev pub open_on : (ℕ → Fat32 C → Search × Fat32 C) → ℕ → Search × Fat32 C → Search × Fat32 C
  open_on rest cluster (missing, fs) = (missing, fs)
  open_on rest cluster (opened file, fs) = (opened file, fs)
  open_on rest cluster (searching, fs) = open_next rest (read_fat_entry io fs cluster true)

  -- The loop over the clusters of the directory, with `n` rounds left.
  unfoldable pub open_clusters : ℕ → ℕ → List ℕ → Fat32 C → Search × Fat32 C
  open_clusters zero cluster wanted fs = (missing, fs)
  open_clusters (suc n) cluster wanted fs =
      if not (cluster_is_data fs.volume cluster)
      then (missing, fs)
      else open_on (λ next s. open_clusters n next wanted s) cluster
          (open_sectors fs.volume.sectors_per_cluster 0 cluster wanted fs)

  abbrev pub open_named : Fat32 C → Option (List ℕ) → Search × Fat32 C
  open_named fs none = (missing, fs)
  open_named fs (some wanted) =
      open_clusters fs.volume.cluster_count fs.volume.root_cluster wanted fs

  -- `opened` with what is put into `*file`, or `missing` for the result -1
  unfoldable pub fat32_open_root : Fat32 C → List ℕ → Search × Fat32 C
  fat32_open_root fs name =
      if not fs.mounted then (missing, fs) else open_named fs (make_short_name name)

  abbrev pub mark_in : Fat32File → Bool × Fat32 C → Bool × Fat32 C
  mark_in file (false, fs) = (false, fs)
  mark_in file (true, fs) =
      let s = λ (k : ℕ). if k == file.dir_offset then 0xe5 else fs.sector k in
      write_sector io (record fs { sector = s }) file.dir_lba s

  -- the end of fat32_delete: the entry becomes a free one
  unfoldable pub mark_deleted : Fat32File → Fat32 C → Bool × Fat32 C
  mark_deleted file fs = mark_in file (read_sector io fs file.dir_lba)

  abbrev pub delete_in : Search × Fat32 C → Bool × Fat32 C
  delete_in (missing, fs) = (false, fs)
  delete_in (searching, fs) = (false, fs)
  delete_in (opened file, fs) =
      if leb 2 file.first_cluster
      then after io (free_cluster_chain io fs file.first_cluster) (mark_deleted file)
      else mark_deleted file fs

  abbrev pub delete_named : Fat32 C → List ℕ → Option (List ℕ) → Bool × Fat32 C
  delete_named fs name none = (false, fs)
  delete_named fs name (some wanted) = delete_in (fat32_open_root fs name)

  unfoldable pub fat32_delete : Fat32 C → List ℕ → Bool × Fat32 C
  fat32_delete fs name =
      if not fs.mounted || not fs.writable
      then (false, fs)
      else delete_named fs name (make_short_name name)
