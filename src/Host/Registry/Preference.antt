-- ===== src/Host/Registry/Preference.antt =====
-- Which of several routes to one target is selected, and which routes the Brokers are shown.
use Prim.Native.Nat.{Ordering}
use verser.Base.{
  ◌≤◌, ◌≡◌, refl, sym, subst, ◌⊎◌, inl, inr, Text, text_eq, text_eq_iff, Bool, true, false, List,
  [], ◌∷◌, arith, count, All, Exists, All-imp, Bool-cases, if◌then◌else◌,
}
use verser.Common.Federation.{includes}
use verser.Host.Registry.{Candidate}
use verser.Host.Registry.Selection.{first_of_each, sort_candidates, select_candidates}
use verser.Host.Registry.Sorting.{
  identity, IsPreferred, IsPreferred-refl, IsSorted, sort-IsSorted, sort-All_back, sort-Exists,
  count-sort,
}

-- Whether a candidate has an identity.
abbrev pub has_identity : Text → Candidate → Bool
has_identity k c = text_eq (identity c) k

abbrev Represents : Candidate → Candidate → Type 0
Represents c s = (identity s ≡ identity c) × IsPreferred s c

-- A candidate is represented, or its identity was seen before.
abbrev Covers : List Text → List Candidate → Candidate → Type 0
Covers seen cs c = (includes seen (identity c) ≡ true) ⊎ Exists (Represents c) cs

first_skip :
    (seen : List Text) (c : Candidate) (cs : List Candidate)
    → includes seen (identity c) ≡ true
    → first_of_each seen (c ∷ cs) ≡ first_of_each seen cs
unfolding first_of_each
first_skip seen c cs h = rw h refl

first_take :
    (seen : List Text) (c : Candidate) (cs : List Candidate)
    → includes seen (identity c) ≡ false
    → first_of_each seen (c ∷ cs) ≡ c ∷ first_of_each (identity c ∷ seen) cs
unfolding first_of_each
first_take seen c cs h = rw h refl

cover_later :
    (seen : List Text) (c : Candidate) (rest : List Candidate) (d : Candidate)
    → IsPreferred c d
    → Covers (identity c ∷ seen) rest d
    → Covers seen (c ∷ rest) d
cover_later seen c rest d p (inr h) = inr (inr h)
cover_later seen c rest d p (inl h) = elim (Bool-cases (text_eq (identity c) (identity d))) [
  | inl same ↦ inr (inl ((text_eq_iff _ _).0 same, p))
  | inr other ↦ inl (ground (arith, other))
]

cover_each :
    (seen : List Text) (c : Candidate) (rest ds : List Candidate)
    → All (IsPreferred c) ds
    → All (Covers (identity c ∷ seen) rest) ds
    → All (Covers seen (c ∷ rest)) ds
cover_each seen c rest [] p h = tt
cover_each seen c rest (d ∷ ds) p h =
    (cover_later seen c rest d p.0 h.0, cover_each seen c rest ds p.1 h.1)

first_of_each-Covers :
    (seen : List Text) (cs : List Candidate)
    → IsSorted cs
    → All (Covers seen (first_of_each seen cs)) cs
first_of_each-Covers seen [] s = tt
first_of_each-Covers seen (c ∷ cs) s = elim (Bool-cases (includes seen (identity c))) [
  | inl old ↦
      subst (λ xs. All (Covers seen xs) (c ∷ cs)) (sym (first_skip seen c cs old))
        (inl old, first_of_each-Covers seen cs s.1)
  | inr new ↦
      subst (λ xs. All (Covers seen xs) (c ∷ cs)) (sym (first_take seen c cs new))
        (
          inr (inl (refl, IsPreferred-refl c)),
          cover_each seen c _ cs s.0 (first_of_each-Covers (identity c ∷ seen) cs s.1),
        )
]

-- No identity comes twice, and none that was seen.
first_of_each-count :
    (k : Text) (seen : List Text) (cs : List Candidate)
    → count (has_identity k) (first_of_each seen cs) ≤ (if includes seen k then 0 else 1)
first_of_each-count k seen [] = unfold first_of_each in ground arith
first_of_each-count k seen (c ∷ cs) = elim (Bool-cases (includes seen (identity c))) [
  | inl old ↦ rw (first_skip seen c cs old) (first_of_each-count k seen cs)
  | inr new ↦ rw (first_take seen c cs new) (
      ground (arith, new, text_eq_iff (identity c) k, first_of_each-count k (identity c ∷ seen) cs))
]

module _ (locale_compare : Text → Text → Ordering) where
  -- By identity: each candidate is represented by a selected one that is at least as good, and of an
  -- identity at most one is selected.
  pub select_candidates-Represents :
      (cs : List Candidate)
      → All
          (λ c.
            Exists
              (λ s. (identity s ≡ identity c) × IsPreferred s c)
              (select_candidates locale_compare cs))
          cs
        × ((k : Text) → count (has_identity k) (select_candidates locale_compare cs) ≤ 1)
  unfolding select_candidates
  select_candidates-Represents cs = (
    sort-All_back locale_compare _ cs (
        All-imp selected (sort_candidates locale_compare cs) (
          first_of_each-Covers [] (sort_candidates locale_compare cs)
            (sort-IsSorted locale_compare cs))),
    λ k.
        rw
          (count-sort locale_compare (has_identity k)
            (first_of_each [] (sort_candidates locale_compare cs)))
          (first_of_each-count k [] (sort_candidates locale_compare cs)),
  )
    where
      selected :
          (c : Candidate)
          → Covers [] (first_of_each [] (sort_candidates locale_compare cs)) c
          → Exists (Represents c) (
              sort_candidates locale_compare (first_of_each [] (sort_candidates locale_compare cs)))
      selected c (inl h) = absurd (cc)
      selected c (inr h) = sort-Exists locale_compare (Represents c) _ h
