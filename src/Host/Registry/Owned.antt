-- ===== src/Host/Registry/Owned.antt =====
-- Methods on the routes of the Host's own Guests keep the table well formed.
use verser.Base.{
  ◌≡◌, refl, sym, ◌∙◌, inl, inr, Text, List, [], ◌∷◌, All, All-keep_if, subst, Option-cases,
}
use verser.Base.Dict.{get, Each-set, Each-delete, Each-get, set-Unique, delete-Unique}
use verser.Js.{string}
use verser.Errors.{ok, >>=-eq-ok, ok_injective}
use verser.Common.Validate.{IsName}
use verser.Common.Federation.{Route, RoutedDomain, here, create_routed_domain_registration}
use verser.Common.Federation.Normal.{IsNormal, create_route_value, create_routed_domain-names}
use verser.Host.Registry.{
  Registry, each, local_route, set_local_routes, remove_local_routes, clear, put_local,
  revoke_routes,
}
use verser.Host.Registry.Each.{each-All}
use verser.Host.Registry.Invariant.{IsLocal, IsWellFormed, with_locals}

local_route-IsLocal :
    (g : Registry) (d : RoutedDomain) (r : Route)
    → IsName g.host_id
    → local_route g d ≡ ok r
    → IsLocal g.host_id r
unfolding local_route
local_route-IsLocal g d r n e =
    let (x, ex, k) =
      >>=-eq-ok (create_routed_domain_registration (string d.target_id) (string d.domain)) _ e in
    let names = create_routed_domain-names d.target_id d.domain ex in
    let made : Route = record {
      target_id = x.target_id;
      domain = x.domain;
      origin_host_id = g.host_id;
      next_hop_host_id = g.host_id;
      hop_count = 0;
      via_host_ids = g.host_id ∷ [];
      source = here;
    } in
    let normal : IsNormal made = record {
      target = names.0;
      domain_name = names.1;
      origin = n;
      next = n;
      via = (n, tt);
    } in
    subst (IsLocal g.host_id) (ok_injective (sym (create_route_value made normal) ∙ k))
      (record { normal = normal; from = refl; hops = refl; origin = refl; via = refl })

pub set_local_routes-IsWellFormed :
    (peer : Text) (routes : List RoutedDomain) (g : Registry) {h : Registry}
    → IsWellFormed g
    → set_local_routes peer routes g ≡ ok h
    → IsWellFormed h
unfolding set_local_routes
set_local_routes-IsWellFormed peer routes g w e =
    let (made, em, k) = >>=-eq-ok (each (local_route g) routes) _ e in
    subst IsWellFormed (ok_injective k) (record {
      host = w.host;
      local_unique = set-Unique peer made g.local_routes w.local_unique;
      locals =
          Each-set (All (IsLocal g.host_id)) peer made g.local_routes
            (each-All (IsLocal g.host_id) (local_route g) (λ d r. local_route-IsLocal g d r w.host)
              routes em)
            w.locals;
      imported_unique = w.imported_unique;
      imports = w.imports;
      degraded_unique = w.degraded_unique;
      degraded = w.degraded;
    })

pub remove_local_routes-IsWellFormed :
    (peer : Text) (g : Registry) → IsWellFormed g → IsWellFormed (remove_local_routes peer g)
unfolding remove_local_routes
remove_local_routes-IsWellFormed peer g w =
    with_locals _ g w (delete-Unique peer g.local_routes w.local_unique)
      (Each-delete (All (IsLocal g.host_id)) peer g.local_routes w.locals)

put_local-IsWellFormed :
    (peer : Text) (rs : List Route) (g : Registry)
    → IsWellFormed g
    → All (IsLocal g.host_id) rs
    → IsWellFormed (put_local peer rs g)
unfolding put_local
put_local-IsWellFormed peer [] g w h =
    with_locals _ g w (delete-Unique peer g.local_routes w.local_unique)
      (Each-delete (All (IsLocal g.host_id)) peer g.local_routes w.locals)
put_local-IsWellFormed peer (r ∷ rs) g w h =
    with_locals _ g w (set-Unique peer (r ∷ rs) g.local_routes w.local_unique)
      (Each-set (All (IsLocal g.host_id)) peer (r ∷ rs) g.local_routes h w.locals)

pub revoke_routes-IsWellFormed :
    (peer : Text) (domains : List Text) (g : Registry)
    → IsWellFormed g
    → IsWellFormed (revoke_routes peer domains g).1
unfolding revoke_routes
revoke_routes-IsWellFormed peer domains g w = elim (Option-cases (get peer g.local_routes)) [
  | inl missing ↦ rw (missing, revoke_routes) w
  | inr (routes, found) ↦
      rw (found, revoke_routes)
        (put_local-IsWellFormed peer _ g w (
          All-keep_if (IsLocal g.host_id) _ routes
            (Each-get (All (IsLocal g.host_id)) peer routes g.local_routes w.locals found)))
]

pub clear-IsWellFormed : (g : Registry) → IsWellFormed g → IsWellFormed (clear g)
unfolding clear
clear-IsWellFormed g w = record {
  host = w.host;
  local_unique = tt;
  locals = tt;
  imported_unique = tt;
  imports = tt;
  degraded_unique = tt;
  degraded = tt;
}
