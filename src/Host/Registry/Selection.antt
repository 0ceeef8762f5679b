-- ===== src/Host/Registry/Selection.antt =====
-- Which of the known routes to a target are used and shown: packages/verser2-host/src/lib/
-- route-registry.ts. `localeCompare` belongs to the platform's locale data, so its sign is a
-- parameter.
use Prim.Native.Nat.{Ordering, compare}
use verser.Base.{
  ℕ, ◌+◌, Text, text_eq, Bool, true, not, ◌&&◌, List, [], ◌∷◌, ◌++◌, map, Option, none, some, leb,
  keep_if, if◌then◌else◌,
}
use verser.Base.Dict.{Dict}
use verser.Errors.{Result}
use verser.Common.Federation.{
  Route, RoutedDomain, Source, here, upstream, create_federated_route_registration, route_value,
  includes,
}
use verser.Host.Registry.{Registry, Candidate, each}
use verser.Host.Registry.Degraded.{routed_domain, get_degraded_broker_routes}

unfoldable pub owned : Dict (List Route) → List Candidate
owned [] = []
owned ((owner_id, routes) ∷ d) =
    map (λ r. record { owner_id = owner_id; route = r }) routes ++ owned d

unfoldable pub get_active_candidates : Registry → List Candidate
unfolding owned
get_active_candidates g = owned g.local_routes ++ owned g.imported_routes

-- `${route.targetId}\u0000${route.domain}`
unfoldable pub route_identity : RoutedDomain → Text
route_identity r = r.target_id ++ 0 ∷ r.domain

unfoldable pub source_rank : Source → ℕ
source_rank here = 0
source_rank upstream = 1

-- `first || second` on the results of comparisons.
abbrev pub or_else : Ordering → Ordering → Ordering
or_else Ordering.lt o = Ordering.lt
or_else Ordering.eq o = o
or_else Ordering.gt o = Ordering.gt

unfoldable pub append_host_id : List Text → Text → List Text
append_host_id hosts host = if includes hosts host then hosts else hosts ++ host ∷ []

-- The first candidate of each identity, in order; `seen` are the identities so far.
unfoldable pub first_of_each : List Text → List Candidate → List Candidate
unfolding route_identity
first_of_each seen [] = []
first_of_each seen (c ∷ cs) =
    let skip = first_of_each seen cs in
    let take = c ∷ first_of_each (route_identity (routed_domain c.route) ∷ seen) cs in
    if includes seen (route_identity (routed_domain c.route)) then skip else take

unfoldable pub merge_routes : List Text → List RoutedDomain → List RoutedDomain
unfolding route_identity
merge_routes seen [] = []
merge_routes seen (r ∷ rs) =
    let skip = merge_routes seen rs in
    let take = r ∷ merge_routes (route_identity r ∷ seen) rs in
    if includes seen (route_identity r) then skip else take

-- A filter that is not given passes everything.
unfoldable pub matches : Option Text → Text → Bool
matches none t = true
matches (some s) t = text_eq t s

-- Not back to the peer that the route came from or through.
abbrev pub may_go_to : Option Text → Candidate → Bool
may_go_to none c = true
may_go_to (some peer) c =
    not (text_eq c.route.origin_host_id peer) && not (includes c.route.via_host_ids peer)

unfoldable pub exported : Registry → Candidate → Result Route
exported g c = create_federated_route_registration (
    route_value (record c.route {
      next_hop_host_id = g.host_id;
      hop_count = c.route.hop_count + 1;
      via_host_ids = append_host_id c.route.via_host_ids g.host_id;
    }))

module _ (locale_compare : Text → Text → Ordering) where
  unfoldable pub compare_candidates : Candidate → Candidate → Ordering
  unfolding source_rank
  compare_candidates l r =
      or_else (compare (source_rank l.route.source) (source_rank r.route.source)) (
        or_else (compare l.route.hop_count r.route.hop_count) (
          or_else (locale_compare l.route.target_id r.route.target_id) (
            or_else (locale_compare l.route.domain r.route.domain) (
              or_else (locale_compare l.route.next_hop_host_id r.route.next_hop_host_id)
                (locale_compare l.owner_id r.owner_id)))))

  -- `Array.prototype.sort` is stable: an entry goes before those that it ties with.
  unfoldable pub insert_candidate : Candidate → List Candidate → List Candidate
  insert_candidate c [] = c ∷ []
  insert_candidate c (d ∷ ds) =
      let after = d ∷ insert_candidate c ds in
      elim (compare_candidates c d) [ Ordering.gt ↦ after | _ ↦ c ∷ d ∷ ds ]

  unfoldable pub sort_candidates : List Candidate → List Candidate
  unfolding insert_candidate compare_candidates
  sort_candidates [] = []
  sort_candidates (c ∷ cs) = insert_candidate c (sort_candidates cs)

  unfoldable pub select_candidates : List Candidate → List Candidate
  unfolding sort_candidates first_of_each
  select_candidates cs = sort_candidates (first_of_each [] (sort_candidates cs))

  unfoldable pub get_broker_routes : Registry → List RoutedDomain
  unfolding select_candidates merge_routes
  get_broker_routes g = merge_routes [] (
      map (λ c. routed_domain c.route) (select_candidates (get_active_candidates g))
      ++ get_degraded_broker_routes g)

  unfoldable pub get_candidates : Option Text → Option Text → Registry → List Route
  get_candidates target_id domain g =
      map (λ c. c.route)
        (sort_candidates (
          keep_if (λ c. matches target_id c.route.target_id && matches domain c.route.domain)
            (get_active_candidates g)))

  unfoldable pub get_federated_routes_for_export : Option Text → Registry → Result (List Route)
  unfolding exported append_host_id select_candidates
  get_federated_routes_for_export peer g = each (exported g) (
      keep_if (λ c. leb (c.route.hop_count + 1) g.max_hop_count)
        (keep_if (may_go_to peer) (select_candidates (get_active_candidates g))))
