-- ===== src/Host/Registry/Shown.antt =====
-- Which routes the Brokers are shown.
use Prim.Native.Nat.{Ordering}
use verser.Base.{
  ◌≤◌, ◌≡◌, refl, sym, subst, Text, text_eq, text_eq_iff, Bool, true, false, ◌⊎◌, inl, inr, List,
  [], ◌∷◌, ◌++◌, map, arith, count, All, All-imp, All-left, All-right, All-of_map, Exists,
  Exists-imp, Bool-cases, if◌then◌else◌,
}
use verser.Common.Federation.{RoutedDomain, includes}
use verser.Host.Registry.{Registry, Candidate}
use verser.Host.Registry.Degraded.{routed_domain, get_degraded_broker_routes}
use verser.Host.Registry.Selection.{
  route_identity, merge_routes, select_candidates, get_active_candidates, get_broker_routes,
}
use verser.Host.Registry.Preference.{select_candidates-Represents}
use verser.Host.Registry.Sorting.{identity}

abbrev pub is_route : Text → RoutedDomain → Bool
is_route k r = text_eq (route_identity r) k

-- A route of the list has the same identity.
abbrev pub IsShown : List RoutedDomain → RoutedDomain → Type 0
IsShown rs r = Exists (λ s. route_identity s ≡ route_identity r) rs

abbrev Met : List Text → List RoutedDomain → RoutedDomain → Type 0
Met seen rs r = (includes seen (route_identity r) ≡ true) ⊎ IsShown rs r

merge_skip :
    (seen : List Text) (r : RoutedDomain) (rs : List RoutedDomain)
    → includes seen (route_identity r) ≡ true
    → merge_routes seen (r ∷ rs) ≡ merge_routes seen rs
unfolding merge_routes
merge_skip seen r rs h = rw h refl

merge_take :
    (seen : List Text) (r : RoutedDomain) (rs : List RoutedDomain)
    → includes seen (route_identity r) ≡ false
    → merge_routes seen (r ∷ rs) ≡ r ∷ merge_routes (route_identity r ∷ seen) rs
unfolding merge_routes
merge_take seen r rs h = rw h refl

seen_later :
    (seen : List Text) (r : RoutedDomain) (rest : List RoutedDomain) (d : RoutedDomain)
    → Met (route_identity r ∷ seen) rest d
    → Met seen (r ∷ rest) d
seen_later seen r rest d (inr h) = inr (inr h)
seen_later seen r rest d (inl h) =
    elim (Bool-cases (text_eq (route_identity r) (route_identity d))) [
      | inl same ↦ inr (inl ((text_eq_iff _ _).0 same))
      | inr other ↦ inl (ground (arith, other))
    ]

merge_routes-Met :
    (seen : List Text) (rs : List RoutedDomain) → All (Met seen (merge_routes seen rs)) rs
merge_routes-Met seen [] = tt
merge_routes-Met seen (r ∷ rs) = elim (Bool-cases (includes seen (route_identity r))) [
  | inl old ↦
      subst (λ xs. All (Met seen xs) (r ∷ rs)) (sym (merge_skip seen r rs old))
        (inl old, merge_routes-Met seen rs)
  | inr new ↦
      subst (λ xs. All (Met seen xs) (r ∷ rs)) (sym (merge_take seen r rs new))
        (
          inr (inl refl),
          All-imp (seen_later seen r _) rs (merge_routes-Met (route_identity r ∷ seen) rs),
        )
]

merge_routes-count :
    (k : Text) (seen : List Text) (rs : List RoutedDomain)
    → count (is_route k) (merge_routes seen rs) ≤ (if includes seen k then 0 else 1)
merge_routes-count k seen [] = unfold merge_routes in ground arith
merge_routes-count k seen (r ∷ rs) = elim (Bool-cases (includes seen (route_identity r))) [
  | inl old ↦ rw (merge_skip seen r rs old) (merge_routes-count k seen rs)
  | inr new ↦ rw (merge_take seen r rs new) (
      ground (
        arith,
        new,
        text_eq_iff (route_identity r) k,
        merge_routes-count k (route_identity r ∷ seen) rs,
      ))
]

never_seen : (rs : List RoutedDomain) (r : RoutedDomain) → Met [] rs r → IsShown rs r
never_seen rs r (inl h) = absurd (cc)
never_seen rs r (inr h) = h

-- An identity that an entry has is shown if every entry is.
by_entry {ℓ} :
    {A : Type ℓ} (k : Text) (f : A → RoutedDomain) (out : List RoutedDomain) (xs : List A)
    → All (λ x. IsShown out (f x)) xs
    → Exists (λ x. route_identity (f x) ≡ k) xs
    → Exists (λ s. route_identity s ≡ k) out
by_entry k f out [] h e = elim e [ ]
by_entry k f out (x ∷ xs) h (inl e) = subst (λ j. Exists (λ s. route_identity s ≡ j) out) e h.0
by_entry k f out (x ∷ xs) h (inr e) = by_entry k f out xs h.1 e

module _ (locale_compare : Text → Text → Ordering) where
  -- By identity: each one that an active candidate or a degraded route has is shown, and once.
  pub get_broker_routes-IsShown :
      (g : Registry)
      → All
          (λ c. IsShown (get_broker_routes locale_compare g) (routed_domain c.route))
          (get_active_candidates g)
        × All (IsShown (get_broker_routes locale_compare g)) (get_degraded_broker_routes g)
        × ((k : Text) → count (is_route k) (get_broker_routes locale_compare g) ≤ 1)
  unfolding get_broker_routes
  get_broker_routes-IsShown g = (
    All-imp
        (λ c e.
          by_entry (identity c) (λ d. routed_domain d.route) out chosen
            (All-of_map (IsShown out) (λ c. routed_domain c.route) chosen
              (All-left (IsShown out) (map (λ c. routed_domain c.route) chosen)
                (get_degraded_broker_routes g) shown))
            (Exists-imp (λ s p. p.0) chosen e))
        (get_active_candidates g)
        (select_candidates-Represents locale_compare (get_active_candidates g)).0,
    All-right (IsShown out) (map (λ c. routed_domain c.route) chosen) (get_degraded_broker_routes g)
        shown,
    λ k.
        merge_routes-count k []
          (map (λ c. routed_domain c.route) chosen ++ get_degraded_broker_routes g),
  )
    where
      chosen : List Candidate
      chosen = select_candidates locale_compare (get_active_candidates g)

      out : List RoutedDomain
      out =
          merge_routes [] (map (λ c. routed_domain c.route) chosen ++ get_degraded_broker_routes g)

      shown :
          All
            (IsShown out)
            (map (λ c. routed_domain c.route) chosen ++ get_degraded_broker_routes g)
      shown =
          All-imp (never_seen out)
            (map (λ c. routed_domain c.route) chosen ++ get_degraded_broker_routes g)
            (merge_routes-Met []
              (map (λ c. routed_domain c.route) chosen ++ get_degraded_broker_routes g))
