-- ===== src/Tmpfs.antt =====
-- kernel/tmpfs.c: the fixed table of temporary files.
-- A C string is the list of its bytes; the end of the list, or a zero byte in it, ends the string.
-- A pointer that may be null is an `Option`. The pointer that tmpfs_find_file returns is the first
-- slot that matches, and what is done through it is done to that slot.
pub mod Names
pub mod Files
pub mod Create
pub mod Data
mod Tests
use armonios.Prelude.{
  ℕ, zero, suc, ◌+◌, ◌-◌, ◌<◌, Bool, true, false, not, ◌&&◌, ◌||◌, List, [], ◌∷◌, Option, none,
  some, if◌then◌else◌, ltb, leb, ◌==◌, get_or, set, replicate,
}

abbrev pub max_files : ℕ
max_files = 8

abbrev pub max_file_size : ℕ
max_file_size = 256

abbrev pub max_name : ℕ
max_name = 32

-- `tmpfs_file_t`: the arrays `name` and `data`, the size, and whether the slot is used
pub record File : Type 0 where
  pub name : List ℕ
  pub content : List ℕ
  pub size : ℕ
  pub used : Bool

unfoldable pub empty_file : File
empty_file = record {
  name = replicate max_name 0;
  content = replicate max_file_size 0;
  size = 0;
  used = false;
}

unfoldable pub tmpfs_clear_file : File → File
tmpfs_clear_file f = empty_file

unfoldable pub name_equals : List ℕ → List ℕ → Bool
name_equals [] [] = true
name_equals [] (y ∷ ys) = 0 == y
name_equals (x ∷ xs) [] = x == 0
name_equals (x ∷ xs) (y ∷ ys) =
    let rest = name_equals xs ys in
    if x == 0 || y == 0 then x == y else if x == y then rest else false

-- whether a string has no bytes
abbrev pub is_empty : List ℕ → Bool
is_empty [] = true
is_empty (x ∷ xs) = x == 0

-- the test of tmpfs_find_file on one slot
unfoldable pub is_match : File → List ℕ → Bool
is_match f name = f.used && name_equals f.name name

unfoldable pub find_in : List File → List ℕ → Option File
find_in [] name = none
find_in (f ∷ fs) name = let rest = find_in fs name in if is_match f name then some f else rest

-- The slot that tmpfs_find_file points at, or none.
unfoldable pub tmpfs_find_file : List File → Option (List ℕ) → Option File
tmpfs_find_file fs none = none
tmpfs_find_file fs (some name) = if is_empty name then none else find_in fs name

-- Changes the slot that tmpfs_find_file points at.
unfoldable pub change_in : List File → List ℕ → (File → File) → List File
change_in [] name g = []
change_in (f ∷ fs) name g =
    let rest = f ∷ change_in fs name g in if is_match f name then g f ∷ fs else rest

-- The loop of tmpfs_copy_name from index `i` on: whether it succeeds, and the array.
unfoldable pub copy_name_loop : ℕ → List ℕ → List ℕ → Bool × List ℕ
copy_name_loop i dest [] = (true, set dest i 0)
copy_name_loop i dest (c ∷ name) =
    let rest = copy_name_loop (i + 1) (set dest i c) name in
    if c == 0 then (true, set dest i 0) else if leb max_name (i + 1) then (false, dest) else rest

unfoldable pub tmpfs_copy_name : List ℕ → List ℕ → Bool × List ℕ
tmpfs_copy_name dest name = if is_empty name then (false, dest) else copy_name_loop 0 dest name

-- What tmpfs_create does to the first free slot: it is cleared, gets what was copied of the name,
-- and is used exactly if all of the name fitted.
unfoldable pub fill_slot : List ℕ → File → Bool × File
fill_slot name f =
    let cleared = tmpfs_clear_file f in
    let (fits, dest) = tmpfs_copy_name cleared.name name in
    (fits, record cleared { name = dest; used = fits })

unfoldable pub create_in : List File → List ℕ → Bool × List File
create_in [] name = (false, [])
create_in (f ∷ fs) name =
    let here = fill_slot name f in
    let later = create_in fs name in
    if f.used then (later.0, f ∷ later.1) else (here.0, here.1 ∷ fs)

unfoldable pub tmpfs_reset : List File
tmpfs_reset = replicate max_files empty_file

abbrev pub is_none {ℓ} : {A : Type ℓ} → Option A → Bool
is_none none = true
is_none (some a) = false

unfoldable pub tmpfs_create : List File → Option (List ℕ) → Bool × List File
tmpfs_create fs none = (false, fs)
tmpfs_create fs (some name) =
    if is_empty name || not (is_none (find_in fs name)) then (false, fs) else create_in fs name

unfoldable pub tmpfs_delete : List File → Option (List ℕ) → Bool × List File
tmpfs_delete fs none = (false, fs)
tmpfs_delete fs (some name) =
    if is_none (tmpfs_find_file fs (some name))
    then (false, fs)
    else (true, change_in fs name tmpfs_clear_file)

-- for (i = 0; i < count; i++) file->data[offset + i] = buffer[i], with `n` rounds left
unfoldable pub copy_in : ℕ → ℕ → ℕ → List ℕ → List ℕ → List ℕ
copy_in zero i offset buffer content = content
copy_in (suc n) i offset buffer content =
    copy_in n (i + 1) offset buffer (set content (offset + i) (get_or buffer i 0))

-- for (i = 0; i < count; i++) buffer[i] = file->data[offset + i]: the bytes put into the buffer
unfoldable pub copy_out : ℕ → ℕ → List ℕ → List ℕ
copy_out zero at content = []
copy_out (suc n) at content = get_or content at 0 ∷ copy_out n (at + 1) content

abbrev pub clamp : ℕ → ℕ → ℕ
clamp count room = if ltb room count then room else count

unfoldable pub write_file : ℕ → List ℕ → ℕ → File → File
write_file offset buffer size f =
    let count = clamp size (max_file_size - offset) in
    record f {
      content = copy_in count 0 offset buffer f.content;
      size = if ltb f.size (offset + count) then offset + count else f.size;
    }

-- The result is the status, the count left in `*bytes_written` (if that pointer is not null), and
-- the table.
unfoldable pub tmpfs_write :
    List File → Option (List ℕ) → ℕ → Option (List ℕ) → ℕ → Bool → Bool × ℕ × List File
tmpfs_write fs none offset buffer size has_count = (false, 0, fs)
tmpfs_write fs (some name) offset none size has_count = (false, 0, fs)
tmpfs_write fs (some name) offset (some buffer) size has_count =
    if is_none (tmpfs_find_file fs (some name)) || not has_count || ltb max_file_size offset
    then (false, 0, fs)
    else (
      true,
      clamp size (max_file_size - offset),
      change_in fs name (write_file offset buffer size),
    )

-- The bytes that a read of one file puts into the buffer, or failure past its end.
unfoldable pub read_file : ℕ → ℕ → File → Option (List ℕ)
read_file offset capacity f =
    if ltb f.size offset
    then none
    else some (copy_out (clamp capacity (f.size - offset)) offset f.content)

abbrev pub and_then {ℓ κ} : {A : Type ℓ} {B : Type κ} → Option A → (A → Option B) → Option B
and_then none g = none
and_then (some a) g = g a

-- The bytes read (their number is `*bytes_read`), or failure.
unfoldable pub tmpfs_read : List File → Option (List ℕ) → ℕ → ℕ → Bool → Option (List ℕ)
tmpfs_read fs name offset capacity has_pointers =
    and_then (tmpfs_find_file fs name)
      (λ f. if not has_pointers then none else read_file offset capacity f)

unfoldable pub tmpfs_stat : List File → Option (List ℕ) → Option ℕ
tmpfs_stat fs name = and_then (tmpfs_find_file fs name) (λ f. some f.size)
