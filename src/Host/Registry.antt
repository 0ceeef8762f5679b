-- ===== src/Host/Registry.antt =====
-- The Host's route table: packages/verser2-host/src/lib/route-registry.ts. A method returns the new
-- table with its result, or what it throws; a table that a method throws from is left unchanged.
mod Types
mod Fingerprint
pub mod Degraded
pub mod Selection
pub mod Invariant
pub mod Import
pub mod Each
pub mod Lapse
pub mod Expire
pub mod Export
pub mod NoReturn
pub mod Sorting
pub mod Preference
pub mod Owned
pub mod Advertised
pub mod History
pub mod Shown
pub mod Selected
mod Tests
pub use Types.{Candidate, DegradedEntry, Registry, Rejection, ImportedUpdate, Revocation, Expiry}
pub use verser.Errors.{each}
use verser.Base.{
  ℕ, suc, ◌+◌, ◌-◌, Text, text_eq, Bool, true, false, not, ◌&&◌, List, [], ◌∷◌, ◌++◌, map, Option,
  none, some, String, ltb, leb, length, keep_if, any, if◌then◌else◌, ◌==◌,
}
use verser.Base.Dict.{Dict, get, set, delete, entries, has}
use verser.Js.{JsValue, JsNumber, nat, string, number, array, texts, with_field, codes}
use verser.Errors.{
  VerserError, create_verser_error, route_loop, protocol_error, ContextValue, text, Result, ok, err,
  ◌>>=◌, throw,
}
use verser.Errors
use verser.Common.Federation.{
  Route, RoutedDomain, Source, here, upstream, create_verser_host_id,
  create_federated_route_registration, create_routed_domain_registration, is_federated_route_loop,
  exceeds_federated_route_hop_limit, route_value, source_name, includes,
}
use verser.Common.Generation.{Generation, create_verser_route_generation, decimal}
use verser.Host.Registry.Fingerprint.{route_set_key, text_lists_eq}

hop_limit : JsNumber → Result ℕ
hop_limit (nat n) = ok n
hop_limit n =
    throw protocol_error "maxFederationHopCount must be non-negative"
      (("maxFederationHopCount", Errors.number n) ∷ [])

pub create_host_route_registry : Option Text → Option JsNumber → Result Registry
unfolding hop_limit
create_host_route_registry host_id max = do
  id ← create_verser_host_id (string (elim host_id [ none ↦ codes "host-local" | some h ↦ h ]))
  hops ← hop_limit (elim max [ none ↦ nat 8 | some n ↦ n ])
  ok (record {
    host_id = id;
    max_hop_count = hops;
    local_routes = [];
    imported_routes = [];
    degraded_routes = [];
    generation_counter = 0;
  })

local_route : Registry → RoutedDomain → Result Route
local_route g route = do
  r ← create_routed_domain_registration (string route.target_id) (string route.domain)
  create_federated_route_registration (
      route_value (record {
        target_id = r.target_id;
        domain = r.domain;
        origin_host_id = g.host_id;
        next_hop_host_id = g.host_id;
        hop_count = 0;
        via_host_ids = g.host_id ∷ [];
        source = here;
      }))

pub set_local_routes : Text → List RoutedDomain → Registry → Result Registry
unfolding local_route
set_local_routes peer_id routes g = do
  made ← each (local_route g) routes
  ok (record g { local_routes = set peer_id made g.local_routes })

pub remove_local_routes : Text → Registry → Registry
remove_local_routes peer_id g = record g { local_routes = delete peer_id g.local_routes }

pub loop_error : Registry → Route → VerserError
unfolding create_verser_error
loop_error g route = create_verser_error route_loop "Federated route would revisit this Host" (
    ("targetId", text route.target_id)
    ∷ ("domain", text route.domain)
    ∷ ("hostId", text g.host_id)
    ∷ [])

pub hop_error : Registry → Route → VerserError
unfolding create_verser_error
hop_error g route = create_verser_error route_loop "Federated route exceeds maximum hop count" (
    ("targetId", text route.target_id)
    ∷ ("domain", text route.domain)
    ∷ ("hopCount", Errors.number (nat route.hop_count))
    ∷ ("maxHopCount", Errors.number (nat g.max_hop_count))
    ∷ [])

pub imported_route_rejection : Registry → Route → Result (Option VerserError)
unfolding is_federated_route_loop exceeds_federated_route_hop_limit loop_error hop_error
imported_route_rejection g route = do
  loops ← is_federated_route_loop route g.host_id
  far ← exceeds_federated_route_hop_limit route (nat g.max_hop_count)
  ok (if loops then some (loop_error g route) else if far then some (hop_error g route) else none)

sort_out : Option VerserError → Route → List Route × List Rejection → List Route × List Rejection
sort_out none route (accepted, rejected) = (route ∷ accepted, rejected)
sort_out (some e) route (accepted, rejected) =
    (accepted, record { route = route; error = e } ∷ rejected)

-- The loop over the advertised routes: those accepted and those rejected, each in order.
import_each : Registry → List JsValue → Result (List Route × List Rejection)
unfolding imported_route_rejection sort_out
import_each g [] = ok ([], [])
import_each g (input ∷ inputs) = do
  route ←
      create_federated_route_registration
        (with_field "source" (string (source_name upstream)) input)
  rejection ← imported_route_rejection g route
  rest ← import_each g inputs
  ok (sort_out rejection route rest)

pub set_imported_routes : Text → List JsValue → Registry → Result (ImportedUpdate × Registry)
unfolding import_each
set_imported_routes upstream_id routes g = do
  (accepted, rejected) ← import_each g routes
  ok (
    record {
      rejected = rejected;
      changed = not (
          text_lists_eq (route_set_key (entries upstream_id g.imported_routes))
            (route_set_key accepted));
    },
    record g { imported_routes = set upstream_id accepted g.imported_routes },
  )

pub remove_imported_routes : Text → Registry → Registry
remove_imported_routes upstream_id g = record g {
  imported_routes = delete upstream_id g.imported_routes;
}

-- Deletes one route of an upstream; an upstream left without routes is deleted.
put_remaining : Text → List Route → Registry → Registry
put_remaining upstream_id [] g = record g { imported_routes = delete upstream_id g.imported_routes }
put_remaining upstream_id (r ∷ rs) g = record g {
  imported_routes = set upstream_id (r ∷ rs) g.imported_routes;
}

pub remove_imported_route : Text → Text → Text → Registry → Bool × Registry
unfolding put_remaining
remove_imported_route upstream_id target_id domain g =
    let routes = entries upstream_id g.imported_routes in
    let remaining =
      keep_if (λ r. not (text_eq r.target_id target_id && text_eq r.domain domain)) routes in
    if length remaining == length routes
    then (false, g)
    else (true, put_remaining upstream_id remaining g)

pub clear : Registry → Registry
clear g = record g {
  local_routes = [];
  imported_routes = [];
  degraded_routes = [];
  generation_counter = 0;
}

put_local : Text → List Route → Registry → Registry
put_local peer_id [] g = record g { local_routes = delete peer_id g.local_routes }
put_local peer_id (r ∷ rs) g = record g { local_routes = set peer_id (r ∷ rs) g.local_routes }

pub revoke_routes : Text → List Text → Registry → Revocation × Registry
unfolding put_local
revoke_routes peer_id domains g = elim (get peer_id g.local_routes) [
  | none ↦ (record { revoked = []; not_found = domains }, g)
  | some routes ↦
      let revoked = map (λ r. r.domain) (keep_if (λ r. includes domains r.domain) routes) in
      (
        record { revoked = revoked; not_found = keep_if (λ d. not (includes revoked d)) domains },
        put_local peer_id (keep_if (λ r. not (includes domains r.domain)) routes) g,
      )
]
