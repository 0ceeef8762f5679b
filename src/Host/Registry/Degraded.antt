-- ===== src/Host/Registry/Degraded.antt =====
-- Degraded routes, which a Host keeps for a while when their Guest disconnects:
-- packages/verser2-host/src/lib/route-registry.ts. The time is an argument.
use verser.Base.{
  ℕ, suc, ◌+◌, Text, text_eq, Bool, true, false, List, [], ◌∷◌, ◌++◌, map, Option, none, some, leb,
  length, any, if◌then◌else◌,
}
use verser.Base.Dict.{Dict, get, set, delete, has}
use verser.Errors.{Result, ok, ◌>>=◌}
use verser.Js.{codes}
use verser.Common.Federation.{Route, RoutedDomain, create_federated_route_registration, route_value}
use verser.Common.Generation.{Generation, create_verser_route_generation, decimal}
use verser.Host.Registry.{Registry, DegradedEntry, Expiry, each}

unfoldable pub degrade : Text → ℕ → List Route → Registry → Result Registry
degrade peer_id now routes g = do
  generation ←
      create_verser_route_generation (codes "gen-" ++ decimal (suc g.generation_counter))
        (some peer_id)
  ok (record g {
    degraded_routes =
        set peer_id (record { routes = routes; degraded_at = now; generation = generation })
          g.degraded_routes;
    local_routes = delete peer_id g.local_routes;
    generation_counter = suc g.generation_counter;
  })

unfoldable pub set_degraded : Text → ℕ → Registry → Result Registry
unfolding degrade
set_degraded peer_id now g = elim (get peer_id g.local_routes) [
  | none ↦ ok g
  | some routes ↦ if has peer_id g.degraded_routes then ok g else degrade peer_id now routes g
]

unfoldable pub restore_routes : Text → Registry → Result (Bool × Registry)
restore_routes peer_id g = elim (get peer_id g.degraded_routes) [
  | none ↦ ok (false, g)
  | some degraded ↦ do
    routes ← each (λ r. create_federated_route_registration (route_value r)) degraded.routes
    ok (
      true,
      record g {
        local_routes = set peer_id routes g.local_routes;
        degraded_routes = delete peer_id g.degraded_routes;
        generation_counter = suc g.generation_counter;
      },
    )
]

unfoldable pub get_route_generation : Text → Text → Registry → Option Generation
get_route_generation peer_id domain g = elim (get peer_id g.degraded_routes) [
  | none ↦ none
  | some degraded ↦
      if any (λ r. text_eq r.domain domain) degraded.routes then some degraded.generation else none
]

unfoldable pub has_degraded_routes : Text → Registry → Bool
has_degraded_routes peer_id g = has peer_id g.degraded_routes

unfoldable pub has_any_degraded_routes : Registry → Bool
has_any_degraded_routes g = elim g.degraded_routes [ [] ↦ false | _ ↦ true ]

abbrev pub routed_domain : Route → RoutedDomain
routed_domain r = record { target_id = r.target_id; domain = r.domain }

unfoldable pub degraded_domains : Dict DegradedEntry → List RoutedDomain
degraded_domains [] = []
degraded_domains ((peer_id, entry) ∷ d) = map routed_domain entry.routes ++ degraded_domains d

unfoldable pub get_degraded_broker_routes : Registry → List RoutedDomain
unfolding degraded_domains
get_degraded_broker_routes g = degraded_domains g.degraded_routes

unfoldable pub get_degraded_broker_routes_for_peer : Text → Registry → List RoutedDomain
get_degraded_broker_routes_for_peer peer_id g = elim (get peer_id g.degraded_routes) [
  | none ↦ []
  | some entry ↦ map routed_domain entry.routes
]

-- `now - entry.degradedAt >= timeoutMs`
abbrev pub is_expired : ℕ → ℕ → DegradedEntry → Bool
is_expired now timeout_ms entry = leb (entry.degraded_at + timeout_ms) now

unfoldable pub expired : ℕ → ℕ → Dict DegradedEntry → Expiry
expired now timeout_ms [] = record { expired_peers = []; expired_routes = 0; expired_entries = [] }
expired now timeout_ms ((peer_id, entry) ∷ d) =
    let rest = expired now timeout_ms d in
    if is_expired now timeout_ms entry
    then record {
      expired_peers = peer_id ∷ rest.expired_peers;
      expired_routes = length entry.routes + rest.expired_routes;
      expired_entries = map (λ r. (peer_id, r.domain)) entry.routes ++ rest.expired_entries;
    }
    else rest

unfoldable pub delete_each : List Text → Dict DegradedEntry → Dict DegradedEntry
delete_each [] d = d
delete_each (k ∷ ks) d = delete_each ks (delete k d)

unfoldable pub remove_expired_degraded_routes : ℕ → ℕ → Registry → Expiry × Registry
unfolding expired delete_each
remove_expired_degraded_routes now timeout_ms g =
    let expiry = expired now timeout_ms g.degraded_routes in
    (expiry, record g { degraded_routes = delete_each expiry.expired_peers g.degraded_routes })
