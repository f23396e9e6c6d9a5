-- ===== src/Fat32/Extend.antt =====
-- kernel/fat32.c: allocate_cluster at the end of a file's chain.
use mathlib.Core.Path.{subst}
use armonios.Prelude.{
  ℕ, ◌+◌, ◌<◌, ◌≤◌, ◌≡◌, ap, ◌∙◌, sym, true, false, arith, ◌==◌, Bool-cases, inl, inr, ==→eq,
  if◌then◌else◌, List, [], ◌∷◌, ◌++◌,
}
use armonios.Fat32.{
  Volume, Fat32, SectorIo, cluster_bad, cluster_eoc, cluster_is_eoc, cluster_is_data,
}
use armonios.Fat32.Table.{allocate_cluster}
use armonios.Fat32.Sectors.{Disk, IsReady}
use armonios.Fat32.Write.{fat_entry}
use armonios.Fat32.Chain.{member, member-data, IsChain, last, link}
use armonios.Fat32.Allocate.{IsFirstFree, allocate_cluster_lem}

member-append :
    (c x : ℕ) (cs : List ℕ)
    → member c cs ≡ false
    → (c == x) ≡ false
    → member c (cs ++ (x ∷ [])) ≡ false
unfolding member
member-append c x [] apart ne = ground arith
member-append c x (y ∷ ys) apart ne =
    let h : member c ys ≡ false = ground arith in let t = member-append c x ys h ne in ground arith

-- A chain whose last cluster is linked to a free cluster is the chain with that cluster at its end.
pub IsChain-extended :
    (v : Volume) (next next' : ℕ → ℕ) (c prev x : ℕ) (cs : List ℕ)
    → v.cluster_count + 2 ≤ cluster_bad
    → IsChain v next c cs
    → member prev cs ≡ true
    → cluster_is_eoc (next prev) ≡ true
    → cluster_is_data v x ≡ true
    → next x ≡ 0
    → ((y : ℕ)
        → cluster_is_data v y ≡ true
        → next' y ≡ (if y == x then cluster_eoc else if y == prev then x else next y))
    → IsChain v next' c (cs ++ (x ∷ []))
unfolding member
IsChain-extended v next next' _ prev x _ count (last c c_in ends) at prev_ends x_in free new =
    let same : prev ≡ c = ground arith in
    let ne : (c == x) ≡ false = elim (Bool-cases (c == x)) [
      | inl e ↦ let h = ap next (==→eq c x e) in absurd (ground (arith, h))
      | inr e ↦ e
    ] in
    let to : next' c ≡ x = let h = new c c_in in ground (arith, h) in
    let end : next' x ≡ cluster_eoc = let h = new x x_in in ground (arith, h) in
    link c (x ∷ []) c_in (ap (cluster_is_data v) to ∙ x_in) (ground arith)
      (subst (λ (n : ℕ). IsChain v next' n (x ∷ [])) (sym to) (last x x_in (ap cluster_is_eoc end)))
IsChain-extended v next next' _ prev x _ count (link c cs c_in next_in apart rest) at prev_ends x_in
      free new =
    let far : (c == prev) ≡ false = elim (Bool-cases (c == prev)) [
      | inl e ↦ let h = ap next (==→eq c prev e) in absurd (ground (arith, h))
      | inr e ↦ e
    ] in
    let ne : (c == x) ≡ false = elim (Bool-cases (c == x)) [
      | inl e ↦ let h = ap next (==→eq c x e) in absurd (ground (arith, h))
      | inr e ↦ e
    ] in
    let keeps : next' c ≡ next c = let h = new c c_in in ground (arith, h) in
    let on : member prev cs ≡ true = ground arith in
    link c (cs ++ (x ∷ [])) c_in (ap (cluster_is_data v) keeps ∙ next_in)
      (member-append c x cs apart ne)
      (subst (λ (n : ℕ). IsChain v next' n (cs ++ (x ∷ []))) (sym keeps)
        (IsChain-extended v next next' (next c) prev x cs count rest on prev_ends x_in free new))

module _ {C : Type 0} {io : SectorIo C} (d : Disk io) where
  -- On a mounted volume that can be written, of a disk that works, where the first free cluster has no
  -- bad cluster below it, a file whose
  -- chain ends at `prev` has that cluster at the end of its chain after the call, in every copy of
  -- the table that agreed with the first.
  pub allocate_cluster_extends :
      (fs : Fat32 C) (prev x c : ℕ) (cs : List ℕ)
      → IsReady d fs
      → IsFirstFree fs.volume (fat_entry d fs 0) x
      → (k : ℕ) → k < fs.volume.fat_count
      → ((y : ℕ) → y < fs.volume.cluster_count + 2 → fat_entry d fs k y ≡ fat_entry d fs 0 y)
      → IsChain fs.volume (fat_entry d fs 0) c cs
      → member prev cs ≡ true
      → cluster_is_eoc (fat_entry d fs 0 prev) ≡ true
      → IsChain fs.volume (fat_entry d (allocate_cluster io fs prev).1 k) c (cs ++ (x ∷ []))
  allocate_cluster_extends fs prev x c cs r f k hk same chain at ends =
      let p = member-data fs.volume (fat_entry d fs 0) c cs prev chain at in
      let (fs2, e, l) = allocate_cluster_lem d fs prev x r f (inr (p, ends)) in
      rw e (
        IsChain-extended fs.volume (fat_entry d fs 0) (fat_entry d fs2 k) c prev x cs
          r.geometry.values chain at ends f.in_volume f.free
          (λ y y_in.
            let h = l.entries k y hk (ground arith) in
            let g = same y (ground arith) in ground (arith, h, g)))
