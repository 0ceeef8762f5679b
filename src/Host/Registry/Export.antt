-- ===== src/Host/Registry/Export.antt =====
-- Which routes a Host advertises to another Host, and why they never come back to it.
use Prim.Native.Nat.{Ordering}
use verser.Base.{
  ◌+◌, ◌≡◌, refl, ◌⊎◌, inl, inr, Text, text_eq, text_eq_iff, ◌||◌, List, [], ◌∷◌, ◌++◌, map, arith,
  All, All-append, All-map, All-imp, All-if, Bool-cases,
}
use verser.Base.Dict.{Dict, Each}
use verser.Errors.{Result, ok}
use verser.Common.Validate.{IsName}
use verser.Common.Federation.{Route, includes}
use verser.Common.Federation.Normal.{IsNormal, create_route_value}
use verser.Host.Registry.{Registry, Candidate, each}
use verser.Host.Registry.Selection.{
  owned, get_active_candidates, append_host_id, compare_candidates, first_of_each, insert_candidate,
  sort_candidates, select_candidates, exported, route_identity,
}
use verser.Host.Registry.Degraded.{routed_domain}
use verser.Host.Registry.Invariant.{IsLocal, IsImported, IsWellFormed}

-- A candidate that the table has is a local route or an imported one.
abbrev pub IsKnown : Registry → Candidate → Type 0
IsKnown g c = IsLocal g.host_id c.route ⊎ IsImported g.host_id g.max_hop_count c.route

owned-All {ℓ} :
    (P : Route → Type ℓ) (d : Dict (List Route)) → Each (All P) d → All (λ c. P c.route) (owned d)
unfolding owned
owned-All P [] h = tt
owned-All P ((k, rs) ∷ d) h =
    All-append (λ c. P c.route) _ (owned d) (All-map (λ c. P c.route) _ rs h.0) (owned-All P d h.1)

pub get_active_candidates-IsKnown :
    (g : Registry) → IsWellFormed g → All (IsKnown g) (get_active_candidates g)
unfolding get_active_candidates
get_active_candidates-IsKnown g w =
    All-append (IsKnown g) (owned g.local_routes) (owned g.imported_routes)
      (All-imp (λ c l. inl l) _ (owned-All (IsLocal g.host_id) g.local_routes w.locals))
      (All-imp (λ c i. inr i) _
        (owned-All (IsImported g.host_id g.max_hop_count) g.imported_routes w.imports))

first_of_each-All {ℓ} :
    (P : Candidate → Type ℓ) (seen : List Text) (cs : List Candidate)
    → All P cs
    → All P (first_of_each seen cs)
unfolding first_of_each
first_of_each-All P seen [] h = tt
first_of_each-All P seen (c ∷ cs) h =
    All-if P (includes seen (route_identity (routed_domain c.route))) _ _
      (first_of_each-All P seen cs h.1)
      (h.0, first_of_each-All P (route_identity (routed_domain c.route) ∷ seen) cs h.1)

-- The two places where an entry may be inserted.
All-place {ℓ} :
    (P : Candidate → Type ℓ) (o : Ordering) (xs ys : List Candidate)
    → All P xs
    → All P ys
    → All P (elim o [ Ordering.gt ↦ xs | _ ↦ ys ])
All-place P Ordering.gt xs ys hx hy = hx
All-place P _ xs ys hx hy = hy

module _ (locale_compare : Text → Text → Ordering) where
  insert_candidate-All {ℓ} :
      (P : Candidate → Type ℓ) (c : Candidate) (cs : List Candidate)
      → P c
      → All P cs
      → All P (insert_candidate locale_compare c cs)
  unfolding insert_candidate
  insert_candidate-All P c [] p h = (p, tt)
  insert_candidate-All P c (d ∷ ds) p h =
      All-place P (compare_candidates locale_compare c d) _ _
        (h.0, insert_candidate-All P c ds p h.1) (p, h)

  pub sort_candidates-All {ℓ} :
      (P : Candidate → Type ℓ) (cs : List Candidate)
      → All P cs
      → All P (sort_candidates locale_compare cs)
  unfolding sort_candidates
  sort_candidates-All P [] h = tt
  sort_candidates-All P (c ∷ cs) h =
      insert_candidate-All P c (sort_candidates locale_compare cs) h.0
        (sort_candidates-All P cs h.1)

  pub select_candidates-All {ℓ} :
      (P : Candidate → Type ℓ) (cs : List Candidate)
      → All P cs
      → All P (select_candidates locale_compare cs)
  unfolding select_candidates
  select_candidates-All P cs h =
      sort_candidates-All P _
        (first_of_each-All P [] (sort_candidates locale_compare cs) (sort_candidates-All P cs h))

includes-append :
    (xs : List Text) (y z : Text) → includes (xs ++ y ∷ []) z ≡ (includes xs z || text_eq y z)
includes-append [] y z = ground arith
includes-append (x ∷ xs) y z = ground (arith, includes-append xs y z)

-- Adding a Host to the path of a route adds it and nothing else.
pub includes-append_host_id :
    (hosts : List Text) (host z : Text)
    → includes (append_host_id hosts host) z ≡ (includes hosts z || text_eq host z)
unfolding append_host_id
includes-append_host_id hosts host z = elim (Bool-cases (includes hosts host)) [
  | inl old ↦ rw old (ground (arith, text_eq_iff host z))
  | inr new ↦ rw new (includes-append hosts host z)
]

append_host_id-IsName :
    (hosts : List Text) (host : Text)
    → All IsName hosts
    → IsName host
    → All IsName (append_host_id hosts host)
unfolding append_host_id
append_host_id-IsName hosts host h n =
    All-if IsName (includes hosts host) hosts (hosts ++ host ∷ []) h
      (All-append IsName hosts (host ∷ []) h (n, tt))

-- The advertisement of a candidate: one hop further, with this Host as the next hop and on the path.
abbrev pub advertisement : Registry → Candidate → Route
advertisement g c = record c.route {
  next_hop_host_id = g.host_id;
  hop_count = c.route.hop_count + 1;
  via_host_ids = append_host_id c.route.via_host_ids g.host_id;
}

IsKnown-IsNormal : (g : Registry) (c : Candidate) → IsKnown g c → IsNormal c.route
IsKnown-IsNormal g c (inl l) = l.normal
IsKnown-IsNormal g c (inr i) = i.normal

pub exported_lem :
    (g : Registry) (c : Candidate)
    → IsName g.host_id
    → IsKnown g c
    → exported g c ≡ ok (advertisement g c)
unfolding exported
exported_lem g c n k =
    let normal = IsKnown-IsNormal g c k in
    create_route_value (advertisement g c) (record {
      target = normal.target;
      domain_name = normal.domain_name;
      origin = normal.origin;
      next = n;
      via = append_host_id-IsName c.route.via_host_ids g.host_id normal.via n;
    })

pub each_ok {ℓ κ μ} :
    {A : Type ℓ} {B : Type κ} (P : A → Type μ) (f : A → Result B) (k : A → B)
    → ((a : A) → P a → f a ≡ ok (k a))
    → (xs : List A) → All P xs
    → each f xs ≡ ok (map k xs)
each_ok P f k p [] h = refl
each_ok P f k p (x ∷ xs) h = rw (p x h.0, each_ok P f k p xs h.1) refl
