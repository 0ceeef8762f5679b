-- ===== src/Host/Registry/Sorting.antt =====
-- Sorting candidates: whatever the order of texts is, a local route comes before an imported one, and
-- among these one with fewer hops.
use Prim.Native.Nat.{Ordering}
use verser.Base.{
  ◌≤◌, ◌<◌, ◌≡◌, ◌≢◌, refl, ◌⊎◌, ◌↔◌, inl, inr, Text, Bool, List, [], ◌∷◌, arith, count, All,
  Exists, All-imp,
}
use verser.Host.Registry.{Candidate}
use verser.Host.Registry.Degraded.{routed_domain}
use verser.Host.Registry.Selection.{
  route_identity, source_rank, compare_candidates, insert_candidate, sort_candidates,
}

abbrev pub identity : Candidate → Text
identity c = route_identity (routed_domain c.route)

-- At least as good: from a better source, or from the same with no more hops.
abbrev pub IsPreferred : Candidate → Candidate → Type 0
IsPreferred c d =
    (source_rank c.route.source < source_rank d.route.source)
    ⊎ ((source_rank c.route.source ≡ source_rank d.route.source)
        × (c.route.hop_count ≤ d.route.hop_count))

pub IsPreferred-refl : (c : Candidate) → IsPreferred c c
IsPreferred-refl c = inr (refl, omega arith)

pub IsPreferred-trans : (c d e : Candidate) → IsPreferred c d → IsPreferred d e → IsPreferred c e
IsPreferred-trans c d e h k = ground arith

-- Each entry is preferred to all that follow.
abbrev pub IsSorted : List Candidate → Type 0
IsSorted [] = Unit
IsSorted (c ∷ cs) = All (IsPreferred c) cs × IsSorted cs

module _ (locale_compare : Text → Text → Ordering) where
  compare_candidates-gt :
      (c d : Candidate) → compare_candidates locale_compare c d ≡ Ordering.gt → IsPreferred d c
  unfolding compare_candidates source_rank
  compare_candidates-gt c d h = ground arith

  compare_candidates-le :
      (c d : Candidate) → compare_candidates locale_compare c d ≢ Ordering.gt → IsPreferred c d
  unfolding compare_candidates source_rank
  compare_candidates-le c d h = ground arith

  gt_cases :
      (c d : Candidate)
      → ((compare_candidates locale_compare c d ≡ Ordering.gt) × IsPreferred d c)
        ⊎ ((compare_candidates locale_compare c d ≢ Ordering.gt) × IsPreferred c d)
  gt_cases c d = split (compare_candidates locale_compare c d) refl
    where
      split :
          (o : Ordering)
          → compare_candidates locale_compare c d ≡ o
          → ((compare_candidates locale_compare c d ≡ Ordering.gt) × IsPreferred d c)
            ⊎ ((compare_candidates locale_compare c d ≢ Ordering.gt) × IsPreferred c d)
      split Ordering.gt e = inl (e, compare_candidates-gt c d e)
      split Ordering.lt e = inr (λ h. cc, compare_candidates-le c d (λ h. cc))
      split Ordering.eq e = inr (λ h. cc, compare_candidates-le c d (λ h. cc))

  insert_gt :
      (c d : Candidate) (ds : List Candidate)
      → compare_candidates locale_compare c d ≡ Ordering.gt
      → insert_candidate locale_compare c (d ∷ ds) ≡ d ∷ insert_candidate locale_compare c ds
  unfolding insert_candidate
  insert_gt c d ds e = ground arith

  insert_le :
      (c d : Candidate) (ds : List Candidate)
      → compare_candidates locale_compare c d ≢ Ordering.gt
      → insert_candidate locale_compare c (d ∷ ds) ≡ c ∷ d ∷ ds
  unfolding insert_candidate
  insert_le c d ds e = ground arith

  insert-All {ℓ} :
      (P : Candidate → Type ℓ) (c : Candidate) (ds : List Candidate)
      → (P c × All P ds) ↔ All P (insert_candidate locale_compare c ds)
  insert-All P c [] = unfold insert_candidate in (λ h. h, λ h. h)
  insert-All P c (d ∷ ds) = elim (gt_cases c d) [
    | inl (e, _) ↦ rw (insert_gt c d ds e) (
      λ h. (h.1.0, (insert-All P c ds).0 (h.0, h.1.1)),
      λ h. let r = (insert-All P c ds).1 h.1 in (r.0, (h.0, r.1)),
    )
    | inr (e, _) ↦ rw (insert_le c d ds e) (λ h. h, λ h. h)
  ]

  insert-Exists {ℓ} :
      (P : Candidate → Type ℓ) (c : Candidate) (ds : List Candidate)
      → P c ⊎ Exists P ds
      → Exists P (insert_candidate locale_compare c ds)
  insert-Exists P c [] h = unfold insert_candidate in h
  insert-Exists P c (d ∷ ds) h = elim (gt_cases c d) [
    | inl (e, _) ↦ rw (insert_gt c d ds e) (elim h [
      | inl p ↦ inr (insert-Exists P c ds (inl p))
      | inr (inl q) ↦ inl q
      | inr (inr q) ↦ inr (insert-Exists P c ds (inr q))
    ])
    | inr (e, _) ↦ rw (insert_le c d ds e) h
  ]

  insert-IsSorted :
      (c : Candidate) (ds : List Candidate)
      → IsSorted ds
      → IsSorted (insert_candidate locale_compare c ds)
  insert-IsSorted c [] s = unfold insert_candidate in (tt, tt)
  insert-IsSorted c (d ∷ ds) s = elim (gt_cases c d) [
    | inl (e, p) ↦
        rw (insert_gt c d ds e)
          ((insert-All (IsPreferred d) c ds).0 (p, s.0), insert-IsSorted c ds s.1)
    | inr (e, p) ↦
        rw (insert_le c d ds e) ((p, All-imp (λ x h. IsPreferred-trans c d x p h) ds s.0), s)
  ]

  pub sort-IsSorted : (cs : List Candidate) → IsSorted (sort_candidates locale_compare cs)
  unfolding sort_candidates
  sort-IsSorted [] = tt
  sort-IsSorted (c ∷ cs) = insert-IsSorted c _ (sort-IsSorted cs)

  pub sort-All_back {ℓ} :
      (P : Candidate → Type ℓ) (cs : List Candidate)
      → All P (sort_candidates locale_compare cs)
      → All P cs
  unfolding sort_candidates
  sort-All_back P [] h = tt
  sort-All_back P (c ∷ cs) h =
      let r = (insert-All P c (sort_candidates locale_compare cs)).1 h in
      (r.0, sort-All_back P cs r.1)

  pub sort-Exists {ℓ} :
      (P : Candidate → Type ℓ) (cs : List Candidate)
      → Exists P cs
      → Exists P (sort_candidates locale_compare cs)
  unfolding sort_candidates
  sort-Exists P [] h = h
  sort-Exists P (c ∷ cs) (inl h) = insert-Exists P c _ (inl h)
  sort-Exists P (c ∷ cs) (inr h) = insert-Exists P c _ (inr (sort-Exists P cs h))

  count-insert :
      (p : Candidate → Bool) (c : Candidate) (ds : List Candidate)
      → count p (insert_candidate locale_compare c ds) ≡ count p (c ∷ ds)
  count-insert p c [] = unfold insert_candidate in refl
  count-insert p c (d ∷ ds) = elim (gt_cases c d) [
    | inl (e, _) ↦ rw (insert_gt c d ds e) (omega (arith, count-insert p c ds))
    | inr (e, _) ↦ rw (insert_le c d ds e) refl
  ]

  pub count-sort :
      (p : Candidate → Bool) (cs : List Candidate)
      → count p (sort_candidates locale_compare cs) ≡ count p cs
  unfolding sort_candidates
  count-sort p [] = refl
  count-sort p (c ∷ cs) =
      omega (arith, count-insert p c (sort_candidates locale_compare cs), count-sort p cs)
