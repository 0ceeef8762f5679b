-- ===== src/Common/Federation.antt =====
-- packages/verser-common/src/lib/federation.ts, routing.ts: Host ids, route advertisements and the
-- checks on their hops.
pub mod Normal
use verser.Base.{
  ℕ, ◌≡◌, refl, Text, text_eq, Bool, true, false, ◌&&◌, ◌||◌, List, [], ◌∷◌, String, Option, none,
  some, arith, any, ltb, not, if◌then◌else◌,
}
use verser.Js.{
  JsValue, undefined, string, number, object, array, nat, JsNumber, Values, nil, cons, Fields,
  field, end, codes, property, texts, with_field,
}
use verser.Errors.{Result, ok, err, type_error, throw, protocol_error, text, ContextValue, ◌>>=◌}
use verser.Errors
use verser.Common.Validate.{is_record, require_text, require_non_empty}

pub data Source : Type 0 where
  here upstream : Source

pub record RoutedDomain : Type 0 where
  pub target_id : Text
  pub domain : Text

pub record Route : Type 0 where
  pub target_id : Text
  pub domain : Text
  pub origin_host_id : Text
  pub next_hop_host_id : Text
  pub hop_count : ℕ
  pub via_host_ids : List Text
  pub source : Source

unfoldable pub create_guest_id : JsValue → Result Text
create_guest_id v = require_non_empty v "guest id"

unfoldable pub create_peer_id : JsValue → Result Text
create_peer_id v = require_non_empty v "peer id"

unfoldable pub create_routed_domain_registration : JsValue → JsValue → Result RoutedDomain
unfolding create_guest_id
create_routed_domain_registration target_id domain = do
  t ← create_guest_id target_id
  d ← require_non_empty domain "routed domain"
  ok (record { target_id = t; domain = d })

unfoldable pub create_verser_host_id : JsValue → Result Text
create_verser_host_id (string s) = require_text s "host id"
create_verser_host_id v =
    throw protocol_error "host id must be a string" (("field", text (codes "host id")) ∷ [])

-- The integer that `isValidHopCount` accepts.
unfoldable pub valid_hop_count : JsValue → Option ℕ
valid_hop_count (number (nat n)) = some n
valid_hop_count v = none

numeric_context_value : JsValue → ContextValue
numeric_context_value (number n) = Errors.number n
numeric_context_value v = Errors.undefined

abbrev pub source_name : Source → Text
source_name here = codes "local"
source_name upstream = codes "upstream"

-- The checks on `source`; `String(source)` of the error's context is left out.
parse_source : JsValue → Result Source
parse_source (string s) =
    if text_eq s (codes "local")
    then ok here
    else if text_eq s (codes "upstream")
    then ok upstream
    else throw protocol_error "Federated route source must be local or upstream" []
parse_source v = throw protocol_error "Federated route source must be local or upstream" []

parse_hop_count : JsValue → Result ℕ
unfolding numeric_context_value
parse_hop_count v = elim (valid_hop_count v) [
  | some n ↦ ok n
  | none ↦
      throw protocol_error "Federated route hop count must be non-negative"
        (("hopCount", numeric_context_value v) ∷ [])
]

parse_array : JsValue → Result Values
parse_array (array vs) = ok vs
parse_array v =
    throw protocol_error "Federated route viaHostIds must be an array"
      (("field", text (codes "viaHostIds")) ∷ [])

-- `hostIds.map(createVerserHostId)`
host_ids : Values → Result (List Text)
host_ids nil = ok []
host_ids (cons v vs) = do h ← create_verser_host_id v; hs ← host_ids vs; ok (h ∷ hs)

build_route : (hop_count source via target_id domain origin next_hop : JsValue) → Result Route
unfolding parse_hop_count parse_source parse_array host_ids create_routed_domain_registration
    create_verser_host_id
build_route hop_count source via target_id domain origin next_hop = do
  hops ← parse_hop_count hop_count
  from ← parse_source source
  via_values ← parse_array via
  route ← create_routed_domain_registration target_id domain
  origin_host_id ← create_verser_host_id origin
  next_hop_host_id ← create_verser_host_id next_hop
  via_host_ids ← host_ids via_values
  ok (record {
    target_id = route.target_id;
    domain = route.domain;
    origin_host_id = origin_host_id;
    next_hop_host_id = next_hop_host_id;
    hop_count = hops;
    via_host_ids = via_host_ids;
    source = from;
  })

parse_route : JsValue → Result Route
unfolding build_route property
parse_route r =
    build_route (property "hopCount" r) (property "source" r) (property "viaHostIds" r)
      (property "targetId" r) (property "domain" r) (property "originHostId" r)
      (property "nextHopHostId" r)

unfoldable pub create_federated_route_registration : JsValue → Result Route
unfolding parse_route is_record
create_federated_route_registration r =
    if is_record r
    then parse_route r
    else throw protocol_error "Federated route registration must be an object" []

-- A route as the object that it is.
abbrev pub route_value : Route → JsValue
route_value r = object (
    field (codes "targetId") (string r.target_id) (
      field (codes "domain") (string r.domain) (
        field (codes "originHostId") (string r.origin_host_id) (
          field (codes "nextHopHostId") (string r.next_hop_host_id) (
            field (codes "hopCount") (number (nat r.hop_count)) (
              field (codes "viaHostIds") (array (texts r.via_host_ids))
                (field (codes "source") (string (source_name r.source)) end)))))))

-- `hostIds.includes(hostId)`
abbrev pub includes : List Text → Text → Bool
includes hosts host = any (λ h. text_eq h host) hosts

-- `host_id` is normalised already where the registry calls this.
unfoldable pub is_federated_route_loop : Route → Text → Result Bool
is_federated_route_loop route host_id = do
  host ← create_verser_host_id (string host_id)
  ok (text_eq route.origin_host_id host || includes route.via_host_ids host)

unfoldable pub exceeds_federated_route_hop_limit : Route → JsNumber → Result Bool
exceeds_federated_route_hop_limit route (nat max) = ok (ltb max route.hop_count)
exceeds_federated_route_hop_limit route max =
    throw protocol_error "Federation max hop count must be non-negative"
      (("maxHopCount", Errors.number max) ∷ [])

unfoldable pub resolve_route_for_hostname : List RoutedDomain → Text → Option RoutedDomain
resolve_route_for_hostname [] hostname = none
resolve_route_for_hostname (r ∷ rs) hostname =
    if text_eq r.domain hostname then some r else resolve_route_for_hostname rs hostname
