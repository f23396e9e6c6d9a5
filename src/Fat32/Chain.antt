-- ===== src/Fat32/Chain.antt =====
-- kernel/fat32.c: the chain of clusters of a file, as the list of its clusters.
use mathlib.Core.Path.{subst}
use armonios.Prelude.{
  ℕ, zero, suc, ◌+◌, ◌<◌, ◌≤◌, ◌≡◌, refl, ap, ◌∙◌, sym, Bool, true, false, arith, ltb, ◌==◌,
  Bool-cases, inl, inr, ==→eq, if◌then◌else◌, List, [], ◌∷◌, length,
}
use armonios.Fat32.{Volume, cluster_is_eoc, cluster_is_data}

unfoldable pub member : ℕ → List ℕ → Bool
member x [] = false
member x (y ∷ ys) = let rest = member x ys in if x == y then true else rest

-- The clusters `cs` that the table `next` links from `c` to the end of a chain, each once.
pub data IsChain (v : Volume) (next : ℕ → ℕ) : ℕ → List ℕ → Type 0 where
  last :
      (c : ℕ)
      → cluster_is_data v c ≡ true
      → cluster_is_eoc (next c) ≡ true
      → IsChain v next c (c ∷ [])
  link :
      (c : ℕ) (cs : List ℕ)
      → cluster_is_data v c ≡ true
      → cluster_is_data v (next c) ≡ true
      → member c cs ≡ false
      → IsChain v next (next c) cs
      → IsChain v next c (c ∷ cs)

pub IsChain-same :
    (v : Volume) (f g : ℕ → ℕ) (c : ℕ) (cs : List ℕ)
    → ((x : ℕ) → member x cs ≡ true → g x ≡ f x)
    → IsChain v f c cs
    → IsChain v g c cs
unfolding member
IsChain-same v f g _ _ same (last c in_volume ends) =
    last c in_volume (ap cluster_is_eoc (same c (ground arith)) ∙ ends)
IsChain-same v f g _ _ same (link c r in_volume next_in apart rest) =
    let e : g c ≡ f c = same c (ground arith) in
    link c r in_volume (ap (cluster_is_data v) e ∙ next_in) apart (
      subst (λ (n : ℕ). IsChain v g n r) (sym e)
        (IsChain-same v f g (f c) r (λ x m. same x (ground arith)) rest))

pub head-data :
    (v : Volume) (next : ℕ → ℕ) (c : ℕ) (cs : List ℕ)
    → IsChain v next c cs
    → cluster_is_data v c ≡ true
head-data v next _ _ (last c in_volume ends) = in_volume
head-data v next _ _ (link c cs in_volume next_in apart rest) = in_volume

pub member-data :
    (v : Volume) (next : ℕ → ℕ) (c : ℕ) (cs : List ℕ) (x : ℕ)
    → IsChain v next c cs
    → member x cs ≡ true
    → cluster_is_data v x ≡ true
unfolding member
member-data v next _ _ x (last c in_volume ends) m = ground arith
member-data v next _ _ x (link c cs in_volume next_in apart rest) m = elim (Bool-cases (x == c)) [
  | inl same ↦ ground arith
  | inr ne ↦ member-data v next (next c) cs x rest (ground arith)
]

pub member-in_volume :
    (v : Volume) (next : ℕ → ℕ) (c : ℕ) (cs : List ℕ) (x : ℕ)
    → IsChain v next c cs
    → member x cs ≡ true
    → x < v.cluster_count + 2
member-in_volume v next c cs x chain m = let h = member-data v next c cs x chain m in ground arith

-- how many of the clusters from 2 to `n + 1` are in the list
tally : ℕ → List ℕ → ℕ
tally zero cs = 0
tally (suc n) cs = tally n cs + (if member (n + 2) cs then 1 else 0)

tally-le : (n : ℕ) (cs : List ℕ) → tally n cs ≤ n
unfolding tally
tally-le zero cs = omega arith
tally-le (suc n) cs = let h = tally-le n cs in ground arith

tally-cons :
    (n c : ℕ) (cs : List ℕ)
    → member c cs ≡ false
    → 2 ≤ c
    → tally n (c ∷ cs) ≡ tally n cs + (if ltb c (n + 2) then 1 else 0)
unfolding tally member
tally-cons zero c cs apart low = ground arith
tally-cons (suc n) c cs apart low =
    let h = tally-cons n c cs apart low in
    elim (Bool-cases (n + 2 == c)) [
      | inl e ↦ let f : member (n + 2) cs ≡ false = rw (==→eq (n + 2) c e) apart in ground arith
      | inr e ↦ ground arith
    ]

chain_tally :
    (v : Volume) (next : ℕ → ℕ) (c : ℕ) (cs : List ℕ)
    → IsChain v next c cs
    → length cs ≤ tally v.cluster_count cs
unfolding member
chain_tally v next _ _ (last c in_volume ends) =
    let e = tally-cons v.cluster_count c [] refl (ground arith) in ground arith
chain_tally v next _ _ (link c cs in_volume next_in apart rest) =
    let h = chain_tally v next (next c) cs rest in
    let e = tally-cons v.cluster_count c cs apart (ground arith) in ground arith

-- A chain is no longer than the volume has clusters.
pub IsChain-length :
    (v : Volume) (next : ℕ → ℕ) (c : ℕ) (cs : List ℕ)
    → IsChain v next c cs
    → length cs ≤ v.cluster_count
IsChain-length v next c cs chain =
    let a = chain_tally v next c cs chain in let b = tally-le v.cluster_count cs in omega arith
