-- ===== src/Common/Federation/Normal.antt =====
-- The routes that `createFederatedRouteRegistration` makes, and those that it leaves as they are.
use verser.Base.{◌≡◌, refl, sym, ap, ◌∙◌, Text, text_eq, true, List, [], ◌∷◌, arith, subst, All}
use verser.Js.{JsValue, Values, nil, cons, string, object, texts, with_field, property}
use verser.Errors.{ok, >>=-eq-ok, ok_injective}
use verser.Common.Validate.{
  IsName, is_record, require_text-name, require_text-IsName, require_non_empty,
  require_non_empty-name, require_non_empty-IsName,
}
use verser.Common.Federation.{
  Route, RoutedDomain, Source, here, upstream, create_guest_id, create_routed_domain_registration,
  create_verser_host_id, valid_hop_count, source_name, parse_source, parse_hop_count, parse_array,
  host_ids, build_route, parse_route, create_federated_route_registration, route_value,
}

pub record IsNormal (r : Route) : Type 0 where
  pub target : IsName r.target_id
  pub domain_name : IsName r.domain
  pub origin : IsName r.origin_host_id
  pub next : IsName r.next_hop_host_id
  pub via : All IsName r.via_host_ids

host_ids-texts : (hs : List Text) → All IsName hs → host_ids (texts hs) ≡ ok hs
unfolding host_ids create_verser_host_id
host_ids-texts [] n = refl
host_ids-texts (h ∷ hs) n =
    rw (require_text-name h "host id" n.0, host_ids-texts hs n.1, host_ids) refl

subst_ok : {hs ts : List Text} → ts ≡ hs → All IsName ts → All IsName hs
subst_ok e n = subst (All IsName) e n

pub create_verser_host_id-IsName :
    (v : JsValue) {t : Text} → create_verser_host_id v ≡ ok t → IsName t
unfolding create_verser_host_id
create_verser_host_id-IsName (string s) h = (require_text-IsName s "host id" h).0
create_verser_host_id-IsName _ h = ground arith

host_ids-IsName : (vs : Values) {hs : List Text} → host_ids vs ≡ ok hs → All IsName hs
unfolding host_ids
host_ids-IsName nil h = subst_ok (ok_injective h) tt
host_ids-IsName (cons v vs) {hs} h =
    let (t, et, k) = >>=-eq-ok (create_verser_host_id v) _ h in
    let (ts, ets, m) = >>=-eq-ok (host_ids vs) _ k in
    subst_ok (ok_injective m) (create_verser_host_id-IsName v et, host_ids-IsName vs ets)

parse_source-name : (s : Source) → parse_source (string (source_name s)) ≡ ok s
unfolding parse_source text_eq
parse_source-name here = refl
parse_source-name upstream = refl

-- A route whose texts are trimmed and not empty passes unchanged, so that making a route twice is
-- making it once.
pub create_route_value :
    (r : Route) → IsNormal r → create_federated_route_registration (route_value r) ≡ ok r
unfolding create_federated_route_registration parse_hop_count parse_array valid_hop_count
    create_routed_domain_registration text_eq
create_route_value r n =
    rw
      (
        parse_source-name r.source,
        require_non_empty-name r.target_id "guest id" n.target,
        require_non_empty-name r.domain "routed domain" n.domain_name,
        require_text-name r.origin_host_id "host id" n.origin,
        require_text-name r.next_hop_host_id "host id" n.next,
        host_ids-texts r.via_host_ids n.via,
      )
      refl

-- Writing the source over a route changes nothing else.
pub create_written_value :
    (r : Route) (s : Source)
    → IsNormal r
    → create_federated_route_registration
        (with_field "source" (string (source_name s)) (route_value r))
      ≡ ok (record r { source = s })
unfolding create_federated_route_registration parse_hop_count parse_array valid_hop_count
    create_routed_domain_registration text_eq
create_written_value r s n =
    rw
      (
        parse_source-name s,
        require_non_empty-name r.target_id "guest id" n.target,
        require_non_empty-name r.domain "routed domain" n.domain_name,
        require_text-name r.origin_host_id "host id" n.origin,
        require_text-name r.next_hop_host_id "host id" n.next,
        host_ids-texts r.via_host_ids n.via,
      )
      refl

create_routed_domain-IsName :
    (t d : JsValue) {r : RoutedDomain}
    → create_routed_domain_registration t d ≡ ok r
    → IsName r.target_id × IsName r.domain
unfolding create_routed_domain_registration
create_routed_domain-IsName t d {r} h =
    let (a, ea, k) = >>=-eq-ok (create_guest_id t) _ h in
    let (b, eb, m) = >>=-eq-ok (require_non_empty d "routed domain") _ k in
    subst (λ (x : RoutedDomain). IsName x.target_id × IsName x.domain) (ok_injective m)
      (require_non_empty-IsName t "guest id" ea, require_non_empty-IsName d "routed domain" eb)

build_route-IsNormal :
    (h s v t d o n : JsValue) {r : Route} → build_route h s v t d o n ≡ ok r → IsNormal r
unfolding build_route
build_route-IsNormal h s v t d o n e =
    let (hops, _, e1) = >>=-eq-ok (parse_hop_count h) _ e in
    let (from, _, e2) = >>=-eq-ok (parse_source s) _ e1 in
    let (vs, _, e3) = >>=-eq-ok (parse_array v) _ e2 in
    let (route, routed, e4) = >>=-eq-ok (create_routed_domain_registration t d) _ e3 in
    let (origin, origin_made, e5) = >>=-eq-ok (create_verser_host_id o) _ e4 in
    let (next, next_made, e6) = >>=-eq-ok (create_verser_host_id n) _ e5 in
    let (hosts, hosts_made, e7) = >>=-eq-ok (host_ids vs) _ e6 in
    let names = create_routed_domain-IsName t d routed in
    subst IsNormal (ok_injective e7) (record {
      target = names.0;
      domain_name = names.1;
      origin = create_verser_host_id-IsName o origin_made;
      next = create_verser_host_id-IsName n next_made;
      via = host_ids-IsName vs hosts_made;
    })

-- Whatever value it is given, a route that it makes has trimmed texts that are not empty.
pub create_route-IsNormal :
    (v : JsValue) {r : Route} → create_federated_route_registration v ≡ ok r → IsNormal r
unfolding create_federated_route_registration parse_route
create_route-IsNormal (object fs) e = build_route-IsNormal _ _ _ _ _ _ _ e
create_route-IsNormal _ e = absurd (ground arith)

-- A route that it made from any value, it makes again from that route.
pub create_route_again :
    (v : JsValue) {r : Route}
    → create_federated_route_registration v ≡ ok r
    → create_federated_route_registration (route_value r) ≡ ok r
create_route_again v {r} e = create_route_value r (create_route-IsNormal v e)

build_route-source :
    (h s v t d o n : JsValue) {r : Route}
    → build_route h s v t d o n ≡ ok r
    → parse_source s ≡ ok r.source
unfolding build_route
build_route-source h s v t d o n e =
    let (hops, _, e1) = >>=-eq-ok (parse_hop_count h) _ e in
    let (from, made, e2) = >>=-eq-ok (parse_source s) _ e1 in
    let (vs, _, e3) = >>=-eq-ok (parse_array v) _ e2 in
    let (route, routed, e4) = >>=-eq-ok (create_routed_domain_registration t d) _ e3 in
    let (origin, _, e5) = >>=-eq-ok (create_verser_host_id o) _ e4 in
    let (next, _, e6) = >>=-eq-ok (create_verser_host_id n) _ e5 in
    let (hosts, _, e7) = >>=-eq-ok (host_ids vs) _ e6 in
    made ∙ ap (λ (x : Route). ok x.source) (ok_injective e7)

made :
    (v : JsValue) {r : Route}
    → is_record v ≡ true
    → create_federated_route_registration v ≡ ok r
    → parse_route v ≡ ok r
unfolding create_federated_route_registration
made v h e = rw h at e

parse_route-source :
    (v : JsValue) {r : Route}
    → parse_route v ≡ ok r
    → parse_source (property "source" v) ≡ ok r.source
unfolding parse_route
parse_route-source v e =
    build_route-source (property "hopCount" v) (property "source" v) (property "viaHostIds" v)
      (property "targetId" v) (property "domain" v) (property "originHostId" v)
      (property "nextHopHostId" v) e

property-with_field :
    (v w : JsValue)
    → (property "source" (with_field "source" w v) ≡ w)
      × (is_record (with_field "source" w v) ≡ true)
unfolding property is_record text_eq
property-with_field (object fs) w = (refl, refl)
property-with_field _ w = (refl, refl)

-- Writing the source into a value before it is made into a route decides the source of the route.
pub create_route-source :
    (v : JsValue) (s : Source) {r : Route}
    → create_federated_route_registration (with_field "source" (string (source_name s)) v) ≡ ok r
    → r.source ≡ s
create_route-source v s e =
    let written = with_field "source" (string (source_name s)) v in
    let (same, fine) = property-with_field v (string (source_name s)) in
    ok_injective (
      sym (parse_route-source written (made written fine e))
      ∙ ap parse_source same
      ∙ parse_source-name s)

pub create_routed_domain-names :
    (t d : Text) {r : RoutedDomain}
    → create_routed_domain_registration (string t) (string d) ≡ ok r
    → IsName r.target_id × IsName r.domain
create_routed_domain-names t d e = create_routed_domain-IsName (string t) (string d) e
