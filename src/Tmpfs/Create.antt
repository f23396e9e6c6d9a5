-- ===== src/Tmpfs/Create.antt =====
-- tmpfs_create of kernel/tmpfs.c: which names it accepts and what they find afterwards.
use armonios.Prelude.{
  ℕ, ◌≡◌, refl, sym, ap, ◌∙◌, inl, inr, Bool, true, false, not, ◌&&◌, List, [], ◌∷◌, none, some,
  arith, if◌then◌else◌, ltb, length, Bool-cases,
}
use armonios.Tmpfs.{
  File, empty_file, tmpfs_clear_file, name_equals, is_empty, is_match, find_in, tmpfs_copy_name,
  fill_slot, create_in, is_none, max_name, tmpfs_create, tmpfs_find_file,
}
use armonios.Tmpfs.Names.{
  text, name_equals_symm, name_equals_congr, text→name_equals, tmpfs_copy_name_lem,
  tmpfs_copy_name_fits,
}
use armonios.Tmpfs.Files.{
  is_match_other, Distinct, find_in_same, find_in-none, empty_name, lookup, text-empty,
}

-- whether a name is accepted, and the file that is then made
abbrev pub fits : List ℕ → Bool
fits name = (tmpfs_copy_name empty_file.name name).0

abbrev pub fresh_file : List ℕ → File
fresh_file name = record empty_file {
  name = (tmpfs_copy_name empty_file.name name).1;
  used = fits name;
}

is_match_fresh :
    (name other : List ℕ) → is_match (fresh_file name) other ≡ fits name && name_equals name other
unfolding is_match
is_match_fresh name other = elim (Bool-cases (fits name)) [
  | inl ok ↦
      let same = tmpfs_copy_name_lem name empty_file.name empty_name ok in
      rw ok (name_equals_congr (tmpfs_copy_name empty_file.name name).1 name other same)
  | inr no_room ↦ rw no_room
]

is_match_unused : (f : File) (other : List ℕ) → f.used ≡ false → is_match f other ≡ false
unfolding is_match
is_match_unused f other h = ap (λ u. u && name_equals f.name other) h

create_in_nil : (name : List ℕ) → create_in [] name ≡ (false, [])
unfolding create_in
create_in_nil name = refl

is_match_miss :
    (f : File) (name : List ℕ)
    → f.used ≡ true
    → is_match f name ≡ false
    → name_equals f.name name ≡ false
unfolding is_match
is_match_miss f name u miss = ground arith

create_in_used :
    (f : File) (fs : List File) (name : List ℕ)
    → f.used ≡ true
    → create_in (f ∷ fs) name ≡ ((create_in fs name).0, f ∷ (create_in fs name).1)
unfolding create_in
create_in_used f fs name h =
    ap
      (λ (u : Bool).
        if u
        then ((create_in fs name).0, f ∷ (create_in fs name).1)
        else ((fill_slot name f).0, (fill_slot name f).1 ∷ fs))
      h

create_in_free :
    (f : File) (fs : List File) (name : List ℕ)
    → f.used ≡ false
    → create_in (f ∷ fs) name ≡ (fits name, fresh_file name ∷ fs)
unfolding create_in fill_slot tmpfs_clear_file
create_in_free f fs name h =
    ap
      (λ (u : Bool).
        if u
        then ((create_in fs name).0, f ∷ (create_in fs name).1)
        else (fits name, fresh_file name ∷ fs))
      h

-- Creation in a table that has no file of the name: if it succeeds the names equal to it find the
-- new file; every other name finds what it did.
pub find_in-create_in :
    (fs : List File) (name other : List ℕ)
    → find_in fs name ≡ none
    → find_in (create_in fs name).1 other ≡ (
        if (create_in fs name).0 && name_equals name other
        then some (fresh_file name)
        else find_in fs other)
unfolding find_in
find_in-create_in [] name other absent = rw (create_in_nil name) refl
find_in-create_in (f ∷ fs) name other absent = elim (Bool-cases f.used) [
  | inl u ↦
      let (miss, rest) = find_in-none f fs name absent in
      rw (create_in_used f fs name u) (
        ground (
          arith,
          find_in-create_in fs name other rest,
          is_match_other f other name,
          name_equals_symm name other,
        ))
  | inr u ↦
      rw (create_in_free f fs name u, is_match_fresh name other, is_match_unused f other u) refl
]

Distinct-create_in :
    (fs : List File) (name : List ℕ)
    → find_in fs name ≡ none
    → Distinct fs
    → Distinct (create_in fs name).1
unfolding Distinct
Distinct-create_in [] name absent d = rw (create_in_nil name) tt
Distinct-create_in (f ∷ fs) name absent d = elim (Bool-cases f.used) [
  | inl u ↦
      let (miss, rest) = find_in-none f fs name absent in
      rw (create_in_used f fs name u) (
        (λ v.
            find_in-create_in fs name f.name rest
            ∙ ground (arith, is_match_miss f name u miss, name_equals_symm name f.name, d.0 v)),
        Distinct-create_in fs name rest d.1,
      )
  | inr u ↦ rw (create_in_free f fs name u) (
    (λ v.
        find_in_same fs (fresh_file name).name name (
          text→name_equals (fresh_file name).name name
            (tmpfs_copy_name_lem name empty_file.name empty_name v))
        ∙ (find_in-none f fs name absent).1),
    d.1,
  )
]

-- a name of 1 to 31 bytes, and a slot that is not used
abbrev pub accepts : List ℕ → Bool
accepts name = not (is_empty name) && ltb (length (text name)) max_name

pub has_free : List File → Bool
has_free [] = false
has_free (f ∷ fs) = if f.used then has_free fs else true

create_in_done : (fs : List File) (name : List ℕ) → (create_in fs name).0 ≡ fits name && has_free fs
unfolding has_free
create_in_done [] name = rw (create_in_nil name) (ground arith)
create_in_done (f ∷ fs) name = elim (Bool-cases f.used) [
  | inl u ↦
      rw (create_in_used f fs name u)
        (create_in_done fs name ∙ ap (λ b. fits name && (if b then has_free fs else true)) (sym u))
  | inr u ↦ rw (create_in_free f fs name u) (ground arith)
]

-- A table whose used slots have distinct names stays so under tmpfs_create, which succeeds exactly
-- for a name of 1 to 31 bytes that no file has, while a slot is free; then the new file is found
-- under the names equal to it, and every other name finds what it did. The new file has size 0.
pub tmpfs_create_lem :
    (fs : List File) (name other : List ℕ)
    → Distinct fs
    → let (done, fs') = tmpfs_create fs (some name) in
      Distinct fs'
      × (done ≡ is_none (lookup fs name) && (accepts name && has_free fs))
      × (lookup fs' other
          ≡ (if done && name_equals name other then some (fresh_file name) else lookup fs other))
      × ((fresh_file name).size ≡ 0)
unfolding tmpfs_create tmpfs_find_file empty_file
tmpfs_create_lem fs name other d = elim (Bool-cases (is_empty name)) [
  | inl e ↦ rw e (d, refl, refl, refl)
  | inr e ↦ elim (Bool-cases (is_none (find_in fs name))) [
    | inl absent ↦
        let none_found : find_in fs name ≡ none = ground arith in
        let can = tmpfs_copy_name_fits name empty_file.name in
        rw (e, none_found)
          (
            Distinct-create_in fs name none_found d,
            create_in_done fs name ∙ ap (λ b. b && has_free fs) (can ∙ rw e),
            ground (arith, find_in-create_in fs name other none_found, text-empty name other),
            refl,
          )
    | inr present ↦ rw (e, present) (d, refl, refl, refl)
  ]
]
