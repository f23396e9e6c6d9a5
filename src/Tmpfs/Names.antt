-- ===== src/Tmpfs/Names.antt =====
-- tmpfs_name_equals and tmpfs_copy_name of kernel/tmpfs.c: names are equal as C strings.
use mathlib.Core.List.{append_assoc}
use armonios.Prelude.{
  length-append, ℕ, suc, ◌+◌, ◌<◌, ◌≡◌, refl, sym, ap, ◌∙◌, inl, inr, true, false, ◌&&◌, List, [],
  ◌∷◌, ◌++◌, not, ltb, arith, if◌then◌else◌, leb, ◌==◌, set, length, Bool-cases,
}
use armonios.Tmpfs.{name_equals, is_empty, copy_name_loop, tmpfs_copy_name, max_name}

-- the bytes of a C string, up to its end
unfoldable pub text : List ℕ → List ℕ
text [] = []
text (x ∷ xs) = let rest = x ∷ text xs in if x == 0 then [] else rest

name_equals→text : (a b : List ℕ) → name_equals a b ≡ true → text a ≡ text b
unfolding name_equals text
name_equals→text [] [] h = refl
name_equals→text [] (y ∷ ys) h = ground arith
name_equals→text (x ∷ xs) [] h = ground arith
name_equals→text (x ∷ xs) (y ∷ ys) h = ground (arith, name_equals→text xs ys)

pub text→name_equals : (a b : List ℕ) → text a ≡ text b → name_equals a b ≡ true
unfolding name_equals text
text→name_equals [] [] h = refl
text→name_equals [] (y ∷ ys) h = ground arith
text→name_equals (x ∷ xs) [] h = ground arith
text→name_equals (x ∷ xs) (y ∷ ys) h = ground (arith, text→name_equals xs ys)

-- Names that are equal are equal to the same names.
pub name_equals_congr : (a b c : List ℕ) → text a ≡ text b → name_equals a c ≡ name_equals b c
name_equals_congr a b c h = elim (Bool-cases (name_equals a c)) [
  | inl e ↦ e ∙ sym (text→name_equals b c (sym h ∙ name_equals→text a c e))
  | inr e ↦ elim (Bool-cases (name_equals b c)) [
    | inl e' ↦ text→name_equals a c (h ∙ name_equals→text b c e') ∙ sym e'
    | inr e' ↦ e ∙ sym e'
  ]
]

pub name_equals_trans :
    (a b c : List ℕ) → name_equals a b ≡ true → name_equals a c ≡ name_equals b c
name_equals_trans a b c h = name_equals_congr a b c (name_equals→text a b h)

pub name_equals_symm : (a b : List ℕ) → name_equals a b ≡ true → name_equals b a ≡ true
name_equals_symm a b h = text→name_equals b a (sym (name_equals→text a b h))

pub name_equals_self : (a : List ℕ) → name_equals a a ≡ true
name_equals_self a = text→name_equals a a refl

text-append : (done ys : List ℕ) → text done ≡ done → text (done ++ ys) ≡ done ++ text ys
unfolding text
text-append [] ys h = refl
text-append (x ∷ xs) ys h = elim (Bool-cases (x == 0)) [
  | inl e ↦ absurd (omega (arith, ap length (rw e at h)))
  | inr e ↦ rw e (ap (λ t. x ∷ t) (text-append xs ys (cons_tail (rw e at h))))
]
  where
    cons_tail : {a b : ℕ} {u v : List ℕ} → a ∷ u ≡ b ∷ v → u ≡ v
    cons_tail q = cc

set-append_length :
    (done rest : List ℕ) (r v : ℕ) → set (done ++ r ∷ rest) (length done) v ≡ done ++ v ∷ rest
set-append_length [] rest r v = refl
set-append_length (x ∷ xs) rest r v = ap (λ t. x ∷ t) (set-append_length xs rest r v)

-- Behind the bytes already copied the array gets the rest of the name.
copy_name_loop_lem :
    (name done rest : List ℕ) (r : ℕ)
    → text done ≡ done
    → length done + suc (length rest) ≡ max_name
    → (copy_name_loop (length done) (done ++ r ∷ rest) name).0 ≡ true
    → text (copy_name_loop (length done) (done ++ r ∷ rest) name).1 ≡ done ++ text name
unfolding copy_name_loop text
copy_name_loop_lem [] done rest r clean len h =
    rw (set-append_length done rest r 0) (text-append done (0 ∷ rest) clean)
copy_name_loop_lem (c ∷ name) done [] r clean len h = elim (Bool-cases (c == 0)) [
  | inl e ↦ rw (e, set-append_length done [] r 0) (text-append done (0 ∷ []) clean)
  | inr e ↦
      let full : leb max_name (length done + 1) ≡ true = ground arith in cc (rw (e, full) at h)
]
copy_name_loop_lem (c ∷ name) done (q ∷ rest) r clean len h = elim (Bool-cases (c == 0)) [
  | inl e ↦ rw (e, set-append_length done (q ∷ rest) r 0) (text-append done (0 ∷ q ∷ rest) clean)
  | inr e ↦
      let one = done ++ c ∷ [] in
      let fits : leb max_name (length done + 1) ≡ false = ground arith in
      let at : length done + 1 ≡ length one = sym (length-append done (c ∷ [])) in
      let split : set (done ++ r ∷ q ∷ rest) (length done) c ≡ one ++ q ∷ rest =
        set-append_length done (q ∷ rest) r c ∙ sym (append_assoc done (c ∷ []) (q ∷ rest)) in
      let clean' : text one ≡ one = text-append done (c ∷ []) clean ∙ rw e in
      rw (e, fits, at, split)
        (copy_name_loop_lem name one rest q clean' (omega (arith, at))
            (rw (e, fits, at, split) at h)
          ∙ append_assoc done (c ∷ []) (text name))
]

-- A copy that succeeds stores the name.
pub tmpfs_copy_name_lem :
    (name dest : List ℕ)
    → length dest ≡ max_name
    → (tmpfs_copy_name dest name).0 ≡ true
    → text (tmpfs_copy_name dest name).1 ≡ text name
unfolding tmpfs_copy_name text
tmpfs_copy_name_lem name [] len h = absurd (omega arith)
tmpfs_copy_name_lem name (r ∷ rest) len h = elim (Bool-cases (is_empty name)) [
  | inl e ↦ cc (rw e at h)
  | inr e ↦ rw e (copy_name_loop_lem name [] rest r refl (omega arith) (rw e at h))
]

copy_name_loop_fits :
    (name dest : List ℕ) (i : ℕ)
    → i < max_name
    → (copy_name_loop i dest name).0 ≡ ltb (i + length (text name)) max_name
unfolding copy_name_loop text
copy_name_loop_fits [] dest i h = ground arith
copy_name_loop_fits (c ∷ name) dest i h = elim (Bool-cases (c == 0)) [
  | inl e ↦ rw e (ground arith)
  | inr e ↦ elim (Bool-cases (leb max_name (i + 1))) [
    | inl full ↦ rw (e, full) (ground arith)
    | inr fits ↦
        rw (e, fits) (copy_name_loop_fits name (set dest i c) (i + 1) (ground arith) ∙ ground arith)
  ]
]

-- tmpfs_copy_name accepts the names of 1 to 31 bytes.
pub tmpfs_copy_name_fits :
    (name dest : List ℕ)
    → (tmpfs_copy_name dest name).0 ≡ not (is_empty name) && ltb (length (text name)) max_name
unfolding tmpfs_copy_name
tmpfs_copy_name_fits name dest = elim (Bool-cases (is_empty name)) [
  | inl e ↦ rw e
  | inr e ↦ rw e (copy_name_loop_fits name dest 0 (omega arith) ∙ ground arith)
]
