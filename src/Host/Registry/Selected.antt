-- ===== src/Host/Registry/Selected.antt =====
-- Selection and the routes that Brokers are shown, by target and domain. The code tells these apart by a
-- text that has a NUL between them, so that target ids must have none.
use Prim.Native.Nat.{Ordering}
use verser.Base.{
  ◌≤◌, ◌≡◌, refl, ap, ◌∙◌, ◌⊎◌, inl, inr, Text, text_eq, text_eq_iff, Bool, true, false, ◌&&◌, ◌==◌,
  List, [], ◌∷◌, ◌++◌, map, arith, count, All, All-imp, All-if, All-append, All-map, Exists,
  Exists-imp, Bool-cases,
}
use verser.Common.Federation.{RoutedDomain, includes}
use verser.Host.Registry.{Registry, Candidate}
use verser.Host.Registry.Degraded.{routed_domain, get_degraded_broker_routes}
use verser.Host.Registry.Selection.{
  route_identity, select_candidates, get_active_candidates, get_broker_routes, merge_routes,
}
use verser.Host.Registry.Export.{select_candidates-All}
use verser.Host.Registry.Sorting.{identity, IsPreferred}
use verser.Host.Registry.Preference.{has_identity, select_candidates-Represents}
use verser.Host.Registry.Shown.{IsShown, is_route, get_broker_routes-IsShown}

abbrev pub NoNul : Text → Type 0
NoNul t = All (λ c. (c == 0) ≡ false) t

split_at_nul : (s t a b : Text) → NoNul s → NoNul t → s ++ 0 ∷ a ≡ t ++ 0 ∷ b → (s ≡ t) × (a ≡ b)
split_at_nul [] [] a b hs ht e = (refl, ground (arith, e))
split_at_nul [] (c ∷ t) a b hs ht e = absurd (ground (arith, e, ht.0))
split_at_nul (c ∷ s) [] a b hs ht e = absurd (ground (arith, e, hs.0))
split_at_nul (c ∷ s) (d ∷ t) a b hs ht e =
    let head : c ≡ d = ground (arith, e) in
    let tail : s ++ 0 ∷ a ≡ t ++ 0 ∷ b = ground (arith, e) in
    let (p, q) = split_at_nul s t a b hs.1 ht.1 tail in (ap (λ x. x ∷ s) head ∙ ap (◌∷◌ d) p, q)

-- To the same target and domain.
abbrev pub IsSame : RoutedDomain → RoutedDomain → Type 0
IsSame s r = (s.target_id ≡ r.target_id) × (s.domain ≡ r.domain)

route_identity-IsSame :
    (s r : RoutedDomain)
    → NoNul s.target_id
    → NoNul r.target_id
    → route_identity s ≡ route_identity r
    → IsSame s r
unfolding route_identity
route_identity-IsSame s r hs hr e = split_at_nul s.target_id r.target_id s.domain r.domain hs hr e

abbrev pub goes_to : Text → Text → RoutedDomain → Bool
goes_to target domain r = text_eq r.target_id target && text_eq r.domain domain

identity_of_target :
    (target domain : Text) (r : RoutedDomain)
    → goes_to target domain r ≡ true
    → text_eq (route_identity r) (target ++ 0 ∷ domain) ≡ true
unfolding route_identity
identity_of_target target domain r h =
    let t : r.target_id ≡ target = ground (arith, h, text_eq_iff r.target_id target) in
    let d : r.domain ≡ domain = ground (arith, h, text_eq_iff r.domain domain) in
    (text_eq_iff (r.target_id ++ 0 ∷ r.domain) (target ++ 0 ∷ domain)).1
      (ap (λ x. x ++ 0 ∷ r.domain) t ∙ ap (λ x. target ++ 0 ∷ x) d)

count-le {ℓ} :
    {A : Type ℓ} (p q : A → Bool)
    → ((x : A) → p x ≡ true → q x ≡ true)
    → (xs : List A) → count p xs ≤ count q xs
count-le p q f [] = omega arith
count-le p q f (x ∷ xs) = elim (Bool-cases (p x)) [
  | inl y ↦ ground (arith, y, f x y, count-le p q f xs)
  | inr n ↦ ground (arith, n, count-le p q f xs)
]

Exists-both {ℓ κ μ} :
    {A : Type ℓ} (P : A → Type κ) (Q : A → Type μ) (xs : List A)
    → All P xs
    → Exists Q xs
    → Exists (λ x. P x × Q x) xs
Exists-both P Q [] h e = elim e [ ]
Exists-both P Q (x ∷ xs) h (inl q) = inl (h.0, q)
Exists-both P Q (x ∷ xs) h (inr e) = inr (Exists-both P Q xs h.1 e)

All-both {ℓ κ μ ν} :
    {A : Type ℓ} (P : A → Type κ) (Q : A → Type μ) (R : A → Type ν)
    → ((x : A) → P x → Q x → R x)
    → (xs : List A) → All P xs
    → All Q xs
    → All R xs
All-both P Q R f [] p q = tt
All-both P Q R f (x ∷ xs) p q = (f x p.0 q.0, All-both P Q R f xs p.1 q.1)

own_entries {ℓ} : {A : Type ℓ} (xs : List A) → All (λ y. Exists (λ x. x ≡ y) xs) xs
own_entries [] = tt
own_entries {A} (x ∷ xs) = (inl refl, All-imp (λ (y : A) e. inr e) xs (own_entries xs))

abbrev pub Plain : Candidate → Type 0
Plain c = NoNul c.route.target_id

module _ (locale_compare : Text → Text → Ordering) where
  -- Where no target id has a NUL: for each candidate one is selected that goes to the same target and
  -- domain and is at least as good, so that a local route is never passed over for an imported one, nor
  -- a route for one of the same kind with more hops. Each selected one is a candidate; and for each
  -- target and domain at most one is selected. No property of the order of texts is needed.
  pub select_candidates_lem :
      (cs : List Candidate)
      → All Plain cs
      → All
          (λ c.
            Exists
              (λ s. IsSame (routed_domain s.route) (routed_domain c.route) × IsPreferred s c)
              (select_candidates locale_compare cs))
          cs
        × All (λ s. Exists (λ c. c ≡ s) cs) (select_candidates locale_compare cs)
        × ((target domain : Text)
            → count
                (λ s. goes_to target domain (routed_domain s.route))
                (select_candidates locale_compare cs)
              ≤ 1)
  select_candidates_lem cs plain =
      let (shown, once) = select_candidates-Represents locale_compare cs in
      (
        All-both Plain
            (λ c.
              Exists (λ s. (identity s ≡ identity c) × IsPreferred s c)
                (select_candidates locale_compare cs))
            (λ c.
              Exists (λ s. IsSame (routed_domain s.route) (routed_domain c.route) × IsPreferred s c)
                (select_candidates locale_compare cs))
            (λ c p e.
              Exists-imp
                (λ s h. (
                  route_identity-IsSame (routed_domain s.route) (routed_domain c.route) h.0 p h.1.0,
                  h.1.1,
                ))
                (select_candidates locale_compare cs)
                (Exists-both Plain (λ s. (identity s ≡ identity c) × IsPreferred s c)
                  (select_candidates locale_compare cs)
                  (select_candidates-All locale_compare Plain cs plain) e))
            cs plain shown,
        select_candidates-All locale_compare (λ s. Exists (λ c. c ≡ s) cs) cs (own_entries cs),
        λ target domain. omega (
          arith,
          count-le (λ s. goes_to target domain (routed_domain s.route))
              (has_identity (target ++ 0 ∷ domain))
              (λ s h. identity_of_target target domain (routed_domain s.route) h)
              (select_candidates locale_compare cs),
          once (target ++ 0 ∷ domain),
        ),
      )

merge_routes-All {ℓ} :
    (P : RoutedDomain → Type ℓ) (seen : List Text) (rs : List RoutedDomain)
    → All P rs
    → All P (merge_routes seen rs)
unfolding merge_routes
merge_routes-All P seen [] h = tt
merge_routes-All P seen (r ∷ rs) h =
    All-if P (includes seen (route_identity r)) _ _ (merge_routes-All P seen rs h.1)
      (h.0, merge_routes-All P (route_identity r ∷ seen) rs h.1)

abbrev pub PlainRoute : RoutedDomain → Type 0
PlainRoute r = NoNul r.target_id

-- The route is that of an active candidate, or a degraded one.
abbrev pub IsFrom : List Candidate → List RoutedDomain → RoutedDomain → Type 0
IsFrom active degraded s =
    Exists (λ c. routed_domain c.route ≡ s) active ⊎ Exists (λ r. r ≡ s) degraded

module _ (locale_compare : Text → Text → Ordering) where
  get_broker_routes-All {ℓ} :
      (P : RoutedDomain → Type ℓ) (g : Registry)
      → All (λ c. P (routed_domain c.route)) (get_active_candidates g)
      → All P (get_degraded_broker_routes g)
      → All P (get_broker_routes locale_compare g)
  unfolding get_broker_routes
  get_broker_routes-All P g ha hd = merge_routes-All P [] _ (
      All-append P
        (map (λ c. routed_domain c.route)
          (select_candidates locale_compare (get_active_candidates g)))
        (get_degraded_broker_routes g)
        (All-map P (λ c. routed_domain c.route)
          (select_candidates locale_compare (get_active_candidates g))
          (select_candidates-All locale_compare (λ c. P (routed_domain c.route))
            (get_active_candidates g) ha))
        hd)

  IsShown-IsSame :
      (out : List RoutedDomain) (r : RoutedDomain)
      → All PlainRoute out
      → PlainRoute r
      → IsShown out r
      → Exists (λ s. IsSame s r) out
  IsShown-IsSame out r h p e =
      Exists-imp (λ s x. route_identity-IsSame s r x.0 p x.1) out
        (Exists-both PlainRoute (λ s. route_identity s ≡ route_identity r) out h e)

  -- Where no target id has a NUL: the Brokers are shown each target and domain that an active candidate
  -- or a degraded route has, none that none has, and each of them once.
  pub get_broker_routes_lem :
      (g : Registry)
      → All Plain (get_active_candidates g)
      → All PlainRoute (get_degraded_broker_routes g)
      → All
          (λ c. Exists (λ s. IsSame s (routed_domain c.route)) (get_broker_routes locale_compare g))
          (get_active_candidates g)
        × All
            (λ r. Exists (λ s. IsSame s r) (get_broker_routes locale_compare g))
            (get_degraded_broker_routes g)
        × All
            (IsFrom (get_active_candidates g) (get_degraded_broker_routes g))
            (get_broker_routes locale_compare g)
        × ((target domain : Text)
            → count (goes_to target domain) (get_broker_routes locale_compare g) ≤ 1)
  get_broker_routes_lem g ha hd =
      let (active, degraded, once) = get_broker_routes-IsShown locale_compare g in
      let plain = get_broker_routes-All PlainRoute g ha hd in
      (
        All-both Plain (λ c. IsShown (get_broker_routes locale_compare g) (routed_domain c.route))
            (λ c.
              Exists (λ s. IsSame s (routed_domain c.route)) (get_broker_routes locale_compare g))
            (λ c p e.
              IsShown-IsSame (get_broker_routes locale_compare g) (routed_domain c.route) plain p e)
            (get_active_candidates g) ha active,
        All-both PlainRoute (IsShown (get_broker_routes locale_compare g))
            (λ r. Exists (λ s. IsSame s r) (get_broker_routes locale_compare g))
            (λ r p e. IsShown-IsSame (get_broker_routes locale_compare g) r plain p e)
            (get_degraded_broker_routes g) hd degraded,
        get_broker_routes-All (IsFrom (get_active_candidates g) (get_degraded_broker_routes g)) g
            (All-imp
              (λ c e. inl (
                Exists-imp (λ d q. ap (λ (x : Candidate). routed_domain x.route) q)
                  (get_active_candidates g) e))
              (get_active_candidates g) (own_entries (get_active_candidates g)))
            (All-imp (λ r e. inr e) (get_degraded_broker_routes g)
              (own_entries (get_degraded_broker_routes g))),
        λ target domain. omega (
          arith,
          count-le (goes_to target domain) (is_route (target ++ 0 ∷ domain))
              (λ s h. identity_of_target target domain s h) (get_broker_routes locale_compare g),
          once (target ++ 0 ∷ domain),
        ),
      )
