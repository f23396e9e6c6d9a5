-- ===== src/Tmpfs/Data.antt =====
-- tmpfs_write and tmpfs_read of kernel/tmpfs.c: what is written is read back, within 256 bytes.
use mathlib.Core.Option
use armonios.Prelude.{
  ℕ, zero, suc, ◌+◌, ◌-◌, ◌≤◌, ◌<◌, ◌≡◌, refl, ap, ◌∙◌, inl, inr, Bool, true, false, not, ◌&&◌,
  ◌||◌, List, Option, none, some, arith, if◌then◌else◌, ltb, leb, ◌==◌, length, get_or, set,
  length-set, get_or-set_self, get_or-set_ne, Bool-cases, min, ==→eq, ==→ne,
}
use armonios.Tmpfs.{
  and_then, File, max_file_size, name_equals, change_in, copy_in, copy_out, clamp, write_file,
  read_file, tmpfs_write, tmpfs_read, tmpfs_find_file, is_none,
}
use armonios.Tmpfs.Names.{name_equals_self}
use armonios.Tmpfs.Files.{lookup, find_in-change_in, KeepsName, text-empty}

length-copy_in :
    (n i offset : ℕ) (buffer content : List ℕ)
    → length (copy_in n i offset buffer content) ≡ length content
unfolding copy_in
length-copy_in zero i offset buffer content = refl
length-copy_in (suc n) i offset buffer content =
    length-copy_in n (i + 1) offset buffer (set content (offset + i) (get_or buffer i 0))
    ∙ length-set content (offset + i) (get_or buffer i 0)

get_or-set :
    (xs : List ℕ) (i k v : ℕ)
    → i < length xs
    → get_or (set xs i v) k 0 ≡ (if i == k then v else get_or xs k 0)
get_or-set xs i k v h = elim (Bool-cases (i == k)) [
  | inl e ↦ rw e (rw (← ==→eq i k e) (get_or-set_self xs i v 0 h))
  | inr e ↦ rw e (get_or-set_ne xs i k v 0 (==→ne i k e))
]

-- The write loop changes the bytes of its range to those of the buffer, and no other.
get_or-copy_in :
    (n i offset k : ℕ) (buffer content : List ℕ)
    → offset + i + n ≤ length content
    → get_or (copy_in n i offset buffer content) k 0 ≡ (
        if leb (offset + i) k && ltb k (offset + i + n)
        then get_or buffer (k - offset) 0
        else get_or content k 0)
unfolding copy_in
get_or-copy_in zero i offset k buffer content h = ground arith
get_or-copy_in (suc n) i offset k buffer content h =
    let next = set content (offset + i) (get_or buffer i 0) in
    let len = length-set content (offset + i) (get_or buffer i 0) in
    ground (
      arith,
      get_or-copy_in n (i + 1) offset k buffer next,
      get_or-set content (offset + i) k (get_or buffer i 0),
    )

length-copy_out : (n at : ℕ) (content : List ℕ) → length (copy_out n at content) ≡ n
unfolding copy_out
length-copy_out zero at content = refl
length-copy_out (suc n) at content = ap suc (length-copy_out n (at + 1) content)

get_or-copy_out :
    (n at k : ℕ) (content : List ℕ)
    → k < n
    → get_or (copy_out n at content) k 0 ≡ get_or content (at + k) 0
unfolding copy_out
get_or-copy_out zero at k content h = absurd (omega arith)
get_or-copy_out (suc n) at zero content h = ap (λ j. get_or content j 0) (omega arith)
get_or-copy_out (suc n) at (suc k) content h =
    get_or-copy_out n (at + 1) k content (omega arith) ∙ ap (λ j. get_or content j 0) (omega arith)

-- a file with the whole array and a size inside it
pub record IsFile (f : File) : Type 0 where
  pub array : length f.content ≡ max_file_size
  pub sized : f.size ≤ max_file_size

-- Writing to a file at an offset inside the array keeps it well formed, extends it to the end of
-- what is written, and changes the bytes of that range alone.
write_file_lem :
    (f : File) (offset size k : ℕ) (buffer : List ℕ)
    → IsFile f
    → offset ≤ max_file_size
    → let g = write_file offset buffer size f in
      let count = min size (max_file_size - offset) in
      IsFile g
      × (g.size ≡ (if ltb f.size (offset + count) then offset + count else f.size))
      × (get_or g.content k 0 ≡ (
          if leb offset k && ltb k (offset + count)
          then get_or buffer (k - offset) 0
          else get_or f.content k 0))
unfolding write_file
write_file_lem f offset size k buffer v h =
    let count = clamp size (max_file_size - offset) in
    let array = v.array in
    let same : count ≡ min size (max_file_size - offset) = ground arith in
    (
      record {
        array = length-copy_in count 0 offset buffer f.content ∙ v.array;
        sized = ground arith;
      },
      ap (λ (c : ℕ). if ltb f.size (offset + c) then offset + c else f.size) same,
      get_or-copy_in count 0 offset k buffer f.content (ground arith) ∙ ground arith,
    )

keeps_name : (offset : ℕ) (buffer : List ℕ) (size : ℕ) → KeepsName (write_file offset buffer size)
unfolding write_file
keeps_name offset buffer size f = (refl, refl)

lookup-change_in :
    (fs : List File) (name other : List ℕ) (g : File → File)
    → KeepsName g
    → is_none (lookup fs name) ≡ false
    → lookup (change_in fs name g) other
      ≡ (if name_equals name other then Option.map g (lookup fs name) else lookup fs other)
unfolding tmpfs_find_file
lookup-change_in fs name other g keeps found =
    ground (arith, find_in-change_in fs name other g keeps, text-empty name other)

tmpfs_write_found :
    (fs : List File) (name other : List ℕ) (offset : ℕ) (buffer : List ℕ) (size : ℕ) (f : File)
    → lookup fs name ≡ some f
    → offset ≤ max_file_size
    → let (done, count, fs') = tmpfs_write fs (some name) offset (some buffer) size true in
      (done ≡ true)
      × (count ≡ min size (max_file_size - offset))
      × (lookup fs' other ≡ (
          if name_equals name other
          then some (write_file offset buffer size f)
          else lookup fs other))
unfolding tmpfs_write
tmpfs_write_found fs name other offset buffer size f found h =
    let in_range : ltb max_file_size offset ≡ false = ground arith in
    let present : is_none (lookup fs name) ≡ false = rw found in
    rw (found, in_range)
      (
        refl,
        ground arith,
        lookup-change_in fs name other (write_file offset buffer size)
              (keeps_name offset buffer size) present
            ∙ ap
                (λ (o : Option File).
                  if name_equals name other
                  then Option.map (write_file offset buffer size) o
                  else lookup fs other)
                found,
      )

tmpfs_read_found :
    (fs : List File) (name : List ℕ) (offset capacity : ℕ) (g : File)
    → lookup fs name ≡ some g
    → offset + capacity ≤ g.size
    → tmpfs_read fs (some name) offset capacity true ≡ some (copy_out capacity offset g.content)
unfolding tmpfs_read read_file
tmpfs_read_found fs name offset capacity g found h =
    let inside : ltb g.size offset ≡ false = ground arith in
    let all : clamp capacity (g.size - offset) ≡ capacity = ground arith in rw (found, inside, all)

read_behind :
    (offset k c : ℕ) (buffer : List ℕ) (other : ℕ)
    → k < c
    → (if leb offset (offset + k) && ltb (offset + k) (offset + c)
        then get_or buffer (offset + k - offset) 0
        else other)
      ≡ get_or buffer k 0
read_behind offset k c buffer other lt =
    let inside : (leb offset (offset + k) && ltb (offset + k) (offset + c)) ≡ true = ground arith in
    let back : offset + k - offset ≡ k = omega arith in rw (inside, back)

-- Writing to an existing file at an offset of at most 256 reports the bytes that fit; a read of
-- as many bytes at that offset gives back what was written, the file is as long as before or as
-- far as the write reached, and every other byte of it is what it was.
pub tmpfs_write_read :
    (fs : List File) (name : List ℕ) (offset : ℕ) (buffer : List ℕ) (size : ℕ) (f : File)
    → lookup fs name ≡ some f
    → IsFile f
    → offset ≤ max_file_size
    → let (done, count, fs') = tmpfs_write fs (some name) offset (some buffer) size true in
      (done ≡ true)
      × (count ≡ min size (max_file_size - offset))
      × ((bytes : List ℕ) × (tmpfs_read fs' (some name) offset count true ≡ some bytes)
          × (length bytes ≡ count)
          × ((k : ℕ) → k < count → get_or bytes k 0 ≡ get_or buffer k 0))
      × ((g : File) × (lookup fs' name ≡ some g)
          × IsFile g
          × (g.size ≡ (if ltb f.size (offset + count) then offset + count else f.size))
          × ((k : ℕ)
              → (leb offset k && ltb k (offset + count)) ≡ false
              → get_or g.content k 0 ≡ get_or f.content k 0))
tmpfs_write_read fs name offset buffer size f found v h =
    let w = tmpfs_write_found fs name name offset buffer size f found h in
    let g = write_file offset buffer size f in
    let stored : lookup (tmpfs_write fs (some name) offset (some buffer) size true).2 name
        ≡ some g =
      w.2 ∙ rw (name_equals_self name) in
    let c = min size (max_file_size - offset) in
    let done = λ (k : ℕ). write_file_lem f offset size k buffer v h in
    rw w.1 (
      w.0,
      refl,
      (
        copy_out c offset g.content,
        tmpfs_read_found (tmpfs_write fs (some name) offset (some buffer) size true).2 name offset c
            g stored (let z = (done 0).1 in ground arith),
        length-copy_out c offset g.content,
        λ k lt.
            get_or-copy_out c offset k g.content lt
            ∙ (done (offset + k)).2
            ∙ read_behind offset k c buffer _ lt,
      ),
      (g, stored, (done 0).0, (done 0).1, λ k out. (done k).2 ∙ rw out),
    )

-- A write to one file leaves every read of the others as it was.
pub tmpfs_read_other :
    (fs : List File) (name other : List ℕ) (offset : ℕ) (buffer : List ℕ) (size at capacity : ℕ)
    (has_count has_pointers : Bool)
    → name_equals name other ≡ false
    → let (done, count, fs') = tmpfs_write fs (some name) offset (some buffer) size has_count in
      tmpfs_read fs' (some other) at capacity has_pointers
      ≡ tmpfs_read fs (some other) at capacity has_pointers
unfolding tmpfs_write tmpfs_read
tmpfs_read_other fs name other offset buffer size at capacity hc hp apart =
    elim (Bool-cases (is_none (lookup fs name) || not hc || ltb max_file_size offset)) [
      | inl refused ↦ rw refused
      | inr done ↦
          let present : is_none (lookup fs name) ≡ false = ground arith in
          rw done (
            ap
              (λ (o : Option File).
                and_then o (λ f. if not hp then none else read_file at capacity f))
              (lookup-change_in fs name other (write_file offset buffer size)
                  (keeps_name offset buffer size) present
                ∙ rw apart))
    ]
