-- ===== src/Host/Registry/NoReturn.antt =====
-- Advertised routes are within the limit on hops, do not go back to a Host that they came through,
-- and a Host rejects every route that passed through it.
use Prim.Native.Nat.{Ordering}
use verser.Base.{
  Exists, subst, [], ◌∷◌, ◌+◌, ◌≤◌, ◌≡◌, refl, ap, ◌∙◌, ◌⊎◌, inl, inr, Text, text_eq, text_eq_refl,
  true, false, List, map, Option, some, arith, leb, leb→le, keep_if, All, All-map, All-keep_if,
  All-and-keep_if,
}
use verser.Errors.{ok}
use verser.Common.Federation.{Route, includes}
use verser.Common.Validate.{IsName}
use verser.Host.Registry.{Registry, Candidate, imported_route_rejection, loop_error}
use verser.Host.Registry.Selection.{
  get_active_candidates, select_candidates, may_go_to, exported, get_federated_routes_for_export,
}
use verser.Host.Registry.Invariant.{IsWellFormed}
use verser.Host.Registry.Import.{allowed_or_not, verdict}
use verser.Host.Registry.Export.{
  IsKnown, get_active_candidates-IsKnown, select_candidates-All, includes-append_host_id,
  advertisement, exported_lem, each_ok,
}

-- What holds of each route that is advertised to a peer.
pub record IsAdvertised (g : Registry) (peer : Option Text) (r : Route) : Type 0 where
  pub next : r.next_hop_host_id ≡ g.host_id
  pub hops : r.hop_count ≤ g.max_hop_count
  pub passed : includes r.via_host_ids g.host_id ≡ true
  pub origin : (p : Text) → peer ≡ some p → text_eq r.origin_host_id p ≡ false
  pub away :
      (p : Text) → peer ≡ some p → text_eq g.host_id p ≡ false → includes r.via_host_ids p ≡ false

advertisement-IsAdvertised :
    (g : Registry) (peer : Option Text) (c : Candidate)
    → may_go_to peer c ≡ true
    → leb (c.route.hop_count + 1) g.max_hop_count ≡ true
    → IsAdvertised g peer (advertisement g c)
advertisement-IsAdvertised g peer c m l = record {
  next = refl;
  hops = leb→le (c.route.hop_count + 1) g.max_hop_count l;
  passed =
      includes-append_host_id c.route.via_host_ids g.host_id g.host_id
      ∙ ground (arith, text_eq_refl g.host_id);
  origin = λ p e. ground (arith, ap (λ (o : Option Text). may_go_to o c) e);
  away = λ p e other.
      includes-append_host_id c.route.via_host_ids g.host_id p
      ∙ ground (arith, ap (λ (o : Option Text). may_go_to o c) e);
}

module _ (locale_compare : Text → Text → Ordering) where
  abbrev pub exportable : Option Text → Registry → List Candidate
  exportable peer g =
      keep_if (λ c. leb (c.route.hop_count + 1) g.max_hop_count)
        (keep_if (may_go_to peer) (select_candidates locale_compare (get_active_candidates g)))

  -- A well-formed table can always be exported: the call throws nothing, and each advertised route
  -- names this Host as its next hop and on its path, is within the limit on hops, and neither began
  -- at the peer nor passed through it.
  pub get_federated_routes_for_export_lem :
      (peer : Option Text) (g : Registry)
      → IsWellFormed g
      → (get_federated_routes_for_export locale_compare peer g
          ≡ ok (map (advertisement g) (exportable peer g)))
        × All (IsAdvertised g peer) (map (advertisement g) (exportable peer g))
  unfolding get_federated_routes_for_export
  get_federated_routes_for_export_lem peer g w = (
    each_ok (IsKnown g) (exported g) (advertisement g) (λ c k. exported_lem g c w.host k)
        (exportable peer g) known,
    All-map (IsAdvertised g peer) (advertisement g) (exportable peer g) (
        All-and-keep_if (λ c. may_go_to peer c ≡ true)
          (λ c. IsAdvertised g peer (advertisement g c))
          (λ c. leb (c.route.hop_count + 1) g.max_hop_count)
          (λ c. advertisement-IsAdvertised g peer c) _ allowed),
  )
    where
      selected : List Candidate
      selected = select_candidates locale_compare (get_active_candidates g)

      known : All (IsKnown g) (exportable peer g)
      known = All-keep_if (IsKnown g) _ _ (
          All-keep_if (IsKnown g) (may_go_to peer) selected (
            select_candidates-All locale_compare (IsKnown g) (get_active_candidates g)
              (get_active_candidates-IsKnown g w)))

      allowed : All (λ c. may_go_to peer c ≡ true) (keep_if (may_go_to peer) selected)
      allowed =
          All-and-keep_if (IsKnown g) (λ c. may_go_to peer c ≡ true) (may_go_to peer) (λ c k e. e)
            selected
            (select_candidates-All locale_compare (IsKnown g) (get_active_candidates g)
              (get_active_candidates-IsKnown g w))

on_path-includes :
    (g a : Registry) (c : Candidate)
    → ((includes c.route.via_host_ids a.host_id ≡ true) ⊎ (a.host_id ≡ g.host_id))
    → includes (advertisement g c).via_host_ids a.host_id ≡ true
on_path-includes g a c (inl on_path) =
    ground (arith, includes-append_host_id c.route.via_host_ids g.host_id a.host_id)
on_path-includes g a c (inr e) = ground (
  arith,
  includes-append_host_id c.route.via_host_ids g.host_id a.host_id,
  e,
  text_eq_refl g.host_id,
)

All-found {ℓ κ} :
    {A : Type ℓ} (P : A → Type κ) (x : A) (xs : List A) → All P xs → Exists (λ y. y ≡ x) xs → P x
All-found P x [] h e = elim e [ ]
All-found P x (y ∷ ys) h (inl e) = subst P e h.0
All-found P x (y ∷ ys) h (inr e) = All-found P x ys h.1 e

-- What a Host advertises of a route that it has is a route that each Host on its path rejects as a
-- loop: a Host that the route had passed through before, and the Host itself that advertises it.
pub advertisement_rejected :
    (g a : Registry) (c : Candidate)
    → IsWellFormed g
    → IsName a.host_id
    → Exists (λ d. d ≡ c) (get_active_candidates g)
    → ((includes c.route.via_host_ids a.host_id ≡ true) ⊎ (a.host_id ≡ g.host_id))
    → (r : Route) × (exported g c ≡ ok r)
      × (imported_route_rejection a r ≡ ok (some (loop_error a r)))
advertisement_rejected g a c w n known path = (
  advertisement g c,
  exported_lem g c w.host
      (All-found (IsKnown g) c (get_active_candidates g) (get_active_candidates-IsKnown g w) known),
  allowed_or_not a (advertisement g c) n ∙ looped,
)
  where
    looped : ok (verdict a (advertisement g c)) ≡ ok (some (loop_error a (advertisement g c)))
    looped = ground (arith, on_path-includes g a c path)
