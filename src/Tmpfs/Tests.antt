-- ===== src/Tmpfs/Tests.antt =====
-- kernel/tmpfs.c: a table with the file "a" and one with the file "b" of three bytes.
use armonios.Prelude.{
  ℕ, ◌+◌, ◌-◌, ◌<◌, ◌≡◌, refl, true, false, ◌&&◌, List, [], ◌∷◌, some, arith, if◌then◌else◌, ltb,
  leb, length, get_or, min, replicate, length-replicate,
}
use armonios.Tmpfs.{
  File, name_equals, find_in, is_match, is_none, tmpfs_reset, tmpfs_create, tmpfs_write, tmpfs_read,
  max_file_size, tmpfs_find_file,
}
use armonios.Tmpfs.Files.{Distinct, lookup, tmpfs_reset_lem}
use armonios.Tmpfs.Create.{accepts, has_free, fresh_file, tmpfs_create_lem}
use armonios.Tmpfs.Data.{IsFile, tmpfs_write_read}

abbrev name_a : List ℕ
name_a = b'a' ∷ []

abbrev name_b : List ℕ
name_b = b'b' ∷ []

unfoldable with_a : List File
with_a = (tmpfs_create tmpfs_reset (some name_a)).1

unfoldable file_b : File
file_b = record { name = name_b; content = replicate max_file_size 0; size = 3; used = true }

with_b : lookup (file_b ∷ []) name_b ≡ some file_b
unfolding find_in is_match name_equals tmpfs_find_file file_b
with_b = refl

file_b-IsFile : IsFile file_b
unfolding file_b
file_b-IsFile = record { array = length-replicate {A = ℕ} max_file_size 0; sized = omega arith }

with_a-Distinct : Distinct with_a
unfolding with_a
with_a-Distinct = (tmpfs_create_lem tmpfs_reset name_a name_a tmpfs_reset_lem.0).0

tmpfs_create_lem_example :
    let (done, fs') = tmpfs_create tmpfs_reset (some name_a) in
    Distinct fs'
    × (done ≡ is_none (lookup tmpfs_reset name_a) && (accepts name_a && has_free tmpfs_reset))
    × (lookup fs' name_b ≡ (
        if done && name_equals name_a name_b
        then some (fresh_file name_a)
        else lookup tmpfs_reset name_b))
    × ((fresh_file name_a).size ≡ 0)
tmpfs_create_lem_example = tmpfs_create_lem tmpfs_reset name_a name_b tmpfs_reset_lem.0

tmpfs_write_read_example :
    let (done, count, fs') = tmpfs_write (file_b ∷ []) (some name_b) 2 (some (7 ∷ 8 ∷ [])) 2 true in
    (done ≡ true)
    × (count ≡ min 2 (max_file_size - 2))
    × ((bytes : List ℕ) × (tmpfs_read fs' (some name_b) 2 count true ≡ some bytes)
        × (length bytes ≡ count)
        × ((k : ℕ) → k < count → get_or bytes k 0 ≡ get_or (7 ∷ 8 ∷ []) k 0))
    × ((g : File) × (lookup fs' name_b ≡ some g)
        × IsFile g
        × (g.size ≡ (if ltb file_b.size (2 + count) then 2 + count else file_b.size))
        × ((k : ℕ)
            → (leb 2 k && ltb k (2 + count)) ≡ false
            → get_or g.content k 0 ≡ get_or file_b.content k 0))
tmpfs_write_read_example =
    tmpfs_write_read (file_b ∷ []) name_b 2 (7 ∷ 8 ∷ []) 2 file_b with_b file_b-IsFile (omega arith)

apart : name_equals name_b name_a ≡ false
unfolding name_equals
apart = refl
