-- ===== src/Host/Registry/Import.antt =====
-- Which advertised routes a Host takes over from another Host.
use verser.Base.{
  ◌≡◌, refl, Text, text_eq, Bool, false, not, ◌&&◌, ◌||◌, List, [], ◌∷◌, inl, inr, map, Option,
  none, some, arith, leb, ltb, keep_if, All, subst, if◌then◌else◌,
}
use verser.Base.Dict.{set, entries}
use verser.Js.{JsValue, string, with_field}
use verser.Errors.{
  VerserError, route_loop, Result, ok, err, Thrown, >>=-eq-ok, >>=-eq-err, ok_injective,
}
use verser.Common.Validate.{IsName, require_text-name}
use verser.Common.Federation.{
  Route, upstream, source_name, includes, create_verser_host_id,
  create_federated_route_registration,
}
use verser.Host.Registry.{
  Registry, Rejection, ImportedUpdate, each, loop_error, hop_error, imported_route_rejection,
  sort_out, import_each, set_imported_routes,
}
use verser.Host.Registry.Fingerprint.{text_lists_eq, route_set_key}

-- The rule for advertisements: not made by this Host, not passed through it, not too far.
abbrev pub is_allowed : Registry → Route → Bool
is_allowed g r =
    not (text_eq r.origin_host_id g.host_id)
    && not (includes r.via_host_ids g.host_id)
    && leb r.hop_count g.max_hop_count

abbrev pub verdict : Registry → Route → Option VerserError
verdict g r =
    if text_eq r.origin_host_id g.host_id || includes r.via_host_ids g.host_id
    then some (loop_error g r)
    else if ltb g.max_hop_count r.hop_count
    then some (hop_error g r)
    else none

pub allowed_or_not :
    (g : Registry) (r : Route) → IsName g.host_id → imported_route_rejection g r ≡ ok (verdict g r)
unfolding imported_route_rejection create_verser_host_id
allowed_or_not g r n = rw (require_text-name g.host_id "host id" n) refl

abbrev pub advertised : JsValue → Result Route
advertised input =
    create_federated_route_registration (with_field "source" (string (source_name upstream)) input)

-- Each rejected route fails the rule, and is reported as a loop.
abbrev pub IsRejection : Registry → Rejection → Type 0
IsRejection g x = (is_allowed g x.route ≡ false) × (x.error.code ≡ route_loop)

-- What the loop makes of the routes that the advertisements give.
abbrev Sorted : Registry → List Route → List Route × List Rejection → Type 0
Sorted g routes (accepted, rejected) =
    (accepted ≡ keep_if (is_allowed g) routes)
    × (map (λ x. x.route) rejected ≡ keep_if (λ r. not (is_allowed g r)) routes)
    × All (IsRejection g) rejected

sort_out-Sorted :
    (g : Registry) (r : Route) (routes : List Route) (loops far : Bool)
    (p : List Route × List Rejection)
    → loops ≡ (text_eq r.origin_host_id g.host_id || includes r.via_host_ids g.host_id)
    → far ≡ ltb g.max_hop_count r.hop_count
    → Sorted g routes p
    → Sorted g (r ∷ routes) (
        sort_out
          (if loops then some (loop_error g r) else if far then some (hop_error g r) else none)
          r
          p)
unfolding sort_out loop_error hop_error
sort_out-Sorted g r routes loops far (accepted, rejected) el ef h = ground arith

step_eq :
    (g : Registry) (input : JsValue) (inputs : List JsValue) {r : Route} {o : Option VerserError}
    {p : List Route × List Rejection}
    → advertised input ≡ ok r
    → imported_route_rejection g r ≡ ok o
    → import_each g inputs ≡ ok p
    → import_each g (input ∷ inputs) ≡ ok (sort_out o r p)
unfolding import_each
step_eq g input inputs er eo ep = rw (er, eo, ep) refl

import_each-Sorted :
    (g : Registry) (inputs : List JsValue) (routes : List Route)
    → IsName g.host_id
    → each advertised inputs ≡ ok routes
    → (p : List Route × List Rejection) × (import_each g inputs ≡ ok p) × Sorted g routes p
unfolding import_each
import_each-Sorted g [] routes n e =
    (([], []), refl, subst (λ rs. Sorted g rs ([], [])) (ok_injective e) (refl, refl, tt))
import_each-Sorted g (input ∷ inputs) routes n e =
    let (r, er, k) = >>=-eq-ok (advertised input) _ e in
    let (rs, ers, m) = >>=-eq-ok (each advertised inputs) _ k in
    let (p, ep, sp) = import_each-Sorted g inputs rs n ers in
    (
      sort_out (verdict g r) r p,
      step_eq g input inputs er (allowed_or_not g r n) ep,
      subst (λ x. Sorted g x (sort_out (verdict g r) r p)) (ok_injective m)
          (sort_out-Sorted g r rs _ _ p refl refl sp),
    )

import_each-err :
    (g : Registry) (inputs : List JsValue) (t : Thrown)
    → IsName g.host_id
    → each advertised inputs ≡ err t
    → import_each g inputs ≡ err t
unfolding import_each
import_each-err g [] t n e = absurd (ground arith)
import_each-err g (input ∷ inputs) t n e = elim (>>=-eq-err (advertised input) _ e) [
  | inl first ↦ rw first refl
  | inr (r, er, k) ↦ elim (>>=-eq-err (each advertised inputs) _ k) [
    | inl rest ↦ rw (er, allowed_or_not g r n, import_each-err g inputs t n rest) refl
    | inr (rs, ers, m) ↦ cc
  ]
]

-- What `setImportedRoutes` does with advertisements that are all well formed: the routes that this
-- Host did not make, that did not pass through it and that are within the limit on hops replace the
-- routes of the upstream, in order, and each other one is reported, in order, as a `route-loop`.
pub set_imported_routes_lem :
    (upstream_id : Text) (inputs : List JsValue) (routes : List Route) (g : Registry)
    → IsName g.host_id
    → each advertised inputs ≡ ok routes
    → (update : ImportedUpdate) × (set_imported_routes upstream_id inputs g
        ≡ ok (
          update,
          record g {
            imported_routes = set upstream_id (keep_if (is_allowed g) routes) g.imported_routes;
          },
        ))
      × (map (λ x. x.route) update.rejected ≡ keep_if (λ r. not (is_allowed g r)) routes)
      × All (IsRejection g) update.rejected
unfolding set_imported_routes
set_imported_routes_lem upstream_id inputs routes g n e =
    let (p, made, sorted) = import_each-Sorted g inputs routes n e in
    (
      record {
        rejected = p.1;
        changed = not (
            text_lists_eq (route_set_key (entries upstream_id g.imported_routes))
              (route_set_key (keep_if (is_allowed g) routes)));
      },
      rw (made, sorted.0) refl,
      sorted.1,
      sorted.2,
    )

-- A malformed advertisement makes the whole call throw what its validation throws.
pub set_imported_routes-err :
    (upstream_id : Text) (inputs : List JsValue) (g : Registry) (t : Thrown)
    → IsName g.host_id
    → each advertised inputs ≡ err t
    → set_imported_routes upstream_id inputs g ≡ err t
unfolding set_imported_routes
set_imported_routes-err upstream_id inputs g t n e = rw (import_each-err g inputs t n e) refl
