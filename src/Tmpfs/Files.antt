-- ===== src/Tmpfs/Files.antt =====
-- The table of kernel/tmpfs.c as a map from names to files: create, delete and change.
use mathlib.Core.Option
use mathlib.Core.Path.{ap₂}
use armonios.Prelude.{
  ℕ, zero, suc, ◌≡◌, refl, inl, inr, Bool, true, false, not, ◌&&◌, List, [], ◌∷◌, Option, none,
  some, arith, if◌then◌else◌, length, replicate, length-replicate, Bool-cases,
}
use armonios.Tmpfs.{
  File, empty_file, tmpfs_clear_file, name_equals, is_empty, is_match, find_in, change_in, is_none,
  max_name, max_files, tmpfs_reset, tmpfs_delete, tmpfs_find_file,
}
use armonios.Tmpfs.Names.{name_equals_trans, name_equals_symm}

-- a change of a file that leaves its name and its being used
abbrev pub KeepsName : (File → File) → Type 0
KeepsName g = (f : File) → ((g f).name ≡ f.name) × ((g f).used ≡ f.used)

pub is_match_other :
    (f : File) (name other : List ℕ)
    → is_match f name ≡ true
    → is_match f other ≡ name_equals name other
unfolding is_match
is_match_other f name other h = ground (arith, name_equals_trans f.name name other)

pub is_match_change :
    (f : File) (g : File → File) (other : List ℕ)
    → ((g f).name ≡ f.name) × ((g f).used ≡ f.used)
    → is_match (g f) other ≡ is_match f other
unfolding is_match
is_match_change f g other keeps =
    ap₂ (λ (n : List ℕ) (u : Bool). u && name_equals n other) keeps.0 keeps.1

-- A change through a found pointer is seen under the names equal to the one looked up, and under
-- no other.
pub find_in-change_in :
    (fs : List File) (name other : List ℕ) (g : File → File)
    → KeepsName g
    → find_in (change_in fs name g) other
      ≡ (if name_equals name other then Option.map g (find_in fs name) else find_in fs other)
unfolding find_in change_in
find_in-change_in [] name other g keeps = ground arith
find_in-change_in (f ∷ fs) name other g keeps = elim (Bool-cases (is_match f name)) [
  | inl hit ↦
      rw (hit, is_match_change f g other (keeps f), is_match_other f name other hit) (ground arith)
  | inr miss ↦ rw miss (
      ground (
        arith,
        is_match_other f other name,
        name_equals_symm name other,
        find_in-change_in fs name other g keeps,
      ))
]

-- No two used slots have equal names.
unfoldable pub Distinct : List File → Type 0
Distinct [] = Unit {0}
Distinct (f ∷ fs) = (f.used ≡ true → find_in fs f.name ≡ none) × Distinct fs

pub find_in_same :
    (fs : List File) (a b : List ℕ) → name_equals a b ≡ true → find_in fs a ≡ find_in fs b
unfolding find_in is_match
find_in_same [] a b same = refl
find_in_same (f ∷ fs) a b same = ground (
  arith,
  name_equals_trans f.name a b,
  name_equals_trans f.name b a,
  name_equals_symm a b,
  find_in_same fs a b same,
)

pub is_match-empty_file : (name : List ℕ) → is_match empty_file name ≡ false
unfolding is_match empty_file
is_match-empty_file name = refl

pub is_match_used :
    (f : File) (name : List ℕ)
    → is_match f name ≡ true
    → (f.used ≡ true) × (name_equals f.name name ≡ true)
unfolding is_match
is_match_used f name h = ground arith

-- Clearing the slot found under a name takes away the files with equal names and no other.
pub find_in-delete :
    (fs : List File) (name other : List ℕ)
    → Distinct fs
    → find_in (change_in fs name tmpfs_clear_file) other
      ≡ (if name_equals name other then none else find_in fs other)
unfolding find_in change_in tmpfs_clear_file Distinct
find_in-delete [] name other d = ground arith
find_in-delete (f ∷ fs) name other d = elim (Bool-cases (is_match f name)) [
  | inl hit ↦
      let u = is_match_used f name hit in
      rw (hit, is_match-empty_file other, is_match_other f name other hit)
        (ground (arith, d.0, find_in_same fs f.name name u.1, find_in_same fs name other))
  | inr miss ↦ rw miss (
      ground (
        arith,
        is_match_other f other name,
        name_equals_symm name other,
        find_in-delete fs name other d.1,
      ))
]

-- a change that gives no slot a new name
abbrev pub NoNewName : (File → File) → Type 0
NoNewName g = (f : File) → (g f).used ≡ true → ((g f).name ≡ f.name) × (f.used ≡ true)

pub find_in-none :
    (f : File) (fs : List File) (other : List ℕ)
    → find_in (f ∷ fs) other ≡ none
    → (is_match f other ≡ false) × (find_in fs other ≡ none)
unfolding find_in
find_in-none f fs other h = ground arith

pub is_match_new :
    (f : File) (g : File → File) (other : List ℕ)
    → NoNewName g
    → is_match f other ≡ false
    → is_match (g f) other ≡ false
unfolding is_match
is_match_new f g other keeps miss = elim (Bool-cases (g f).used) [
  | inl u ↦ let k = keeps f u in rw (u, k.0) (rw k.1 at miss)
  | inr u ↦ rw u
]

pub find_in-change_in-none :
    (fs : List File) (name other : List ℕ) (g : File → File)
    → NoNewName g
    → find_in fs other ≡ none
    → find_in (change_in fs name g) other ≡ none
unfolding change_in find_in
find_in-change_in-none [] name other g keeps h = refl
find_in-change_in-none (f ∷ fs) name other g keeps h =
    let (miss, rest) = find_in-none f fs other h in
    elim (Bool-cases (is_match f name)) [
      | inl hit ↦ rw (hit, is_match_new f g other keeps miss) rest
      | inr other_slot ↦ rw (other_slot, miss) (find_in-change_in-none fs name other g keeps rest)
    ]

pub Distinct-change_in :
    (fs : List File) (name : List ℕ) (g : File → File)
    → NoNewName g
    → Distinct fs
    → Distinct (change_in fs name g)
unfolding Distinct change_in
Distinct-change_in [] name g keeps d = d
Distinct-change_in (f ∷ fs) name g keeps d = elim (Bool-cases (is_match f name)) [
  | inl hit ↦ rw hit ((λ u. let k = keeps f u in rw k.0 (d.0 k.1)), d.1)
  | inr miss ↦ rw miss (
    (λ u. find_in-change_in-none fs name f.name g keeps (d.0 u)),
    Distinct-change_in fs name g keeps d.1,
  )
]

pub empty_name : length empty_file.name ≡ max_name
unfolding empty_file
empty_name = length-replicate {A = ℕ} max_name 0

-- A lookup through the interface: no file has the null name or the empty one.
abbrev pub lookup : List File → List ℕ → Option File
lookup fs name = tmpfs_find_file fs (some name)

pub text-empty : (a b : List ℕ) → name_equals a b ≡ true → is_empty a ≡ is_empty b
unfolding name_equals
text-empty [] [] h = refl
text-empty [] (y ∷ ys) h = ground arith
text-empty (x ∷ xs) [] h = ground arith
text-empty (x ∷ xs) (y ∷ ys) h = ground arith

clear_no_name : NoNewName tmpfs_clear_file
unfolding tmpfs_clear_file empty_file
clear_no_name f u = cc

-- tmpfs_delete keeps the names distinct. It succeeds exactly if the name finds a file, and then the
-- names equal to it find none, and every other name finds what it did.
pub tmpfs_delete_lem :
    (fs : List File) (name other : List ℕ)
    → Distinct fs
    → let (done, fs') = tmpfs_delete fs (some name) in
      Distinct fs'
      × (done ≡ not (is_none (lookup fs name)))
      × (lookup fs' other ≡ (if name_equals name other then none else lookup fs other))
unfolding tmpfs_delete tmpfs_find_file
tmpfs_delete_lem fs name other d = elim (Bool-cases (is_empty name)) [
  | inl e ↦ rw e (d, refl, ground (arith, text-empty name other))
  | inr e ↦ elim (Bool-cases (is_none (find_in fs name))) [
    | inl absent ↦ rw (e, absent) (d, refl, ground (arith, find_in_same fs name other))
    | inr present ↦
        rw (e, present)
          (
            Distinct-change_in fs name tmpfs_clear_file clear_no_name d,
            refl,
            ground (arith, find_in-delete fs name other d, text-empty name other),
          )
  ]
]

Distinct-replicate : (n : ℕ) → Distinct (replicate n empty_file)
unfolding Distinct empty_file
Distinct-replicate zero = tt
Distinct-replicate (suc n) = ((λ u. cc), Distinct-replicate n)

find_in-replicate : (n : ℕ) (name : List ℕ) → find_in (replicate n empty_file) name ≡ none
unfolding find_in
find_in-replicate zero name = refl
find_in-replicate (suc n) name = rw (is_match-empty_file name) (find_in-replicate n name)

-- After tmpfs_reset no name finds a file.
pub tmpfs_reset_lem : Distinct tmpfs_reset × ((name : List ℕ) → lookup tmpfs_reset name ≡ none)
unfolding tmpfs_reset tmpfs_find_file
tmpfs_reset_lem =
    (Distinct-replicate max_files, λ name. ground (arith, find_in-replicate max_files name))
