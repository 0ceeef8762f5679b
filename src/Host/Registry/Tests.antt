-- ===== src/Host/Registry/Tests.antt =====
-- The theorems about the table of routes at concrete tables.
use Prim.Native.Nat.{Ordering}
use verser.Base.{
  ℕ, ◌+◌, ◌≤◌, ◌≡◌, refl, Text, List, text_eq, inr, true, false, not, [], ◌∷◌, map, none, some, inl,
  arith, keep_if, count, All, Exists,
}
use verser.Base.Dict.{get, set, has}
use verser.Js.{null}
use verser.Errors.{VerserError, Thrown, typed, create_verser_error, protocol_error, ok, err}
use verser.Errors
use verser.Common.Trim.{trim-present, trim_end, put, is_space}
use verser.Common.Validate.{IsName, require_text-name}
use verser.Common.Federation.{
  create_verser_host_id, valid_hop_count, Route, here, upstream, route_value,
  create_federated_route_registration,
}
use verser.Common.Federation.Normal.{
  IsNormal, create_route_again, create_route_value, create_written_value,
}
use verser.Host.Registry.{
  Registry, Candidate, imported_route_rejection, loop_error, DegradedEntry, ImportedUpdate, each,
  create_host_route_registry, hop_limit, set_imported_routes,
}
use verser.Host.Registry.Degraded.{
  set_degraded, restore_routes, routed_domain, get_degraded_broker_routes,
}
use verser.Host.Registry.Selection.{
  exported, get_active_candidates, get_candidates, sort_candidates, matches, select_candidates,
  get_broker_routes, get_federated_routes_for_export,
}
use verser.Host.Registry.Invariant.{IsLocal, IsImported, IsWellFormed}
use verser.Host.Registry.Import.{is_allowed, advertised, IsRejection, set_imported_routes_lem}
use verser.Host.Registry.History.{
  registers, imports, degrades, restores, revokes, run, created_then_run-IsWellFormed,
}
use verser.Host.Registry.Lapse.{degrade_then_restore}
use verser.Host.Registry.Export.{advertisement}
use verser.Host.Registry.NoReturn.{
  IsAdvertised, exportable, get_federated_routes_for_export_lem, advertisement_rejected,
}
use verser.Host.Registry.Sorting.{IsPreferred}
use verser.Host.Registry.Selected.{
  Plain, PlainRoute, IsSame, IsFrom, goes_to, select_candidates_lem, get_broker_routes_lem,
}

abbrev host_h : Text
host_h = b'h' ∷ []

abbrev host_o : Text
host_o = b'o' ∷ []

abbrev name_t : Text
name_t = b't' ∷ []

abbrev name_d : Text
name_d = b'd' ∷ []

abbrev peer_p : Text
peer_p = b'p' ∷ []

-- A name of one letter.
letter-IsName : (c : ℕ) → is_space c ≡ false → IsName (c ∷ [])
unfolding trim_end put
letter-IsName c e = record { trimmed = trim-present c [] e; present = λ h. ground arith }

h-IsName : IsName host_h
h-IsName = letter-IsName b'h' (unfold is_space in refl)

o-IsName : IsName host_o
o-IsName = letter-IsName b'o' (unfold is_space in refl)

t-IsName : IsName name_t
t-IsName = letter-IsName b't' (unfold is_space in refl)

d-IsName : IsName name_d
d-IsName = letter-IsName b'd' (unfold is_space in refl)

abbrev local_route : Route
local_route = record {
  target_id = name_t;
  domain = name_d;
  origin_host_id = host_h;
  next_hop_host_id = host_h;
  hop_count = 0;
  via_host_ids = host_h ∷ [];
  source = here;
}

-- A route of the Host `o` to the same target and domain, and one that went through `h`.
abbrev foreign_route : Route
foreign_route = record local_route {
  origin_host_id = host_o;
  next_hop_host_id = host_o;
  hop_count = 1;
  via_host_ids = host_o ∷ [];
  source = upstream;
}

abbrev looping_route : Route
looping_route = record foreign_route { via_host_ids = host_o ∷ host_h ∷ [] }

local-IsNormal : IsNormal local_route
local-IsNormal = record {
  target = t-IsName;
  domain_name = d-IsName;
  origin = h-IsName;
  next = h-IsName;
  via = (h-IsName, tt);
}

route_of_h-IsLocal : IsLocal host_h local_route
route_of_h-IsLocal = record {
  normal = local-IsNormal;
  from = refl;
  hops = refl;
  origin = refl;
  via = refl;
}

foreign-IsNormal : IsNormal foreign_route
foreign-IsNormal = record {
  target = t-IsName;
  domain_name = d-IsName;
  origin = o-IsName;
  next = o-IsName;
  via = (o-IsName, tt);
}

looping-IsNormal : IsNormal looping_route
looping-IsNormal = record {
  target = t-IsName;
  domain_name = d-IsName;
  origin = o-IsName;
  next = o-IsName;
  via = (o-IsName, (h-IsName, tt));
}

foreign-IsImported : IsImported host_h 8 foreign_route
unfolding text_eq
foreign-IsImported = record {
  normal = foreign-IsNormal;
  from = refl;
  hops = omega arith;
  origin = refl;
  via = refl;
}

abbrev table : Registry
table = record {
  host_id = host_h;
  max_hop_count = 8;
  local_routes = (peer_p, local_route ∷ []) ∷ [];
  imported_routes = (host_o, foreign_route ∷ []) ∷ [];
  degraded_routes = [];
  generation_counter = 0;
}

table-IsWellFormed : IsWellFormed table
table-IsWellFormed = record {
  host = h-IsName;
  local_unique = unfold has in (refl, tt);
  locals = ((route_of_h-IsLocal, tt), tt);
  imported_unique = unfold has in (refl, tt);
  imports = ((foreign-IsImported, tt), tt);
  degraded_unique = tt;
  degraded = tt;
}

abbrev lapsed : DegradedEntry
lapsed = record {
  routes = local_route ∷ [];
  degraded_at = 10;
  generation = record { generation_id = b'1' ∷ []; session_id = some peer_p };
}

abbrev lapsed_table : Registry
lapsed_table = record table { local_routes = []; degraded_routes = (peer_p, lapsed) ∷ [] }

lapsed-IsWellFormed : IsWellFormed lapsed_table
lapsed-IsWellFormed = record {
  host = h-IsName;
  local_unique = tt;
  locals = tt;
  imported_unique = unfold has in (refl, tt);
  imports = ((foreign-IsImported, tt), tt);
  degraded_unique = unfold has in (refl, tt);
  degraded = ((route_of_h-IsLocal, tt), tt);
}

-- The order of texts is never asked for here.
abbrev no_order : Text → Text → Ordering
no_order s t = Ordering.eq

locals_come_first : get_candidates no_order none none table ≡ local_route ∷ foreign_route ∷ []
unfolding get_candidates get_active_candidates matches sort_candidates
locals_come_first = refl

created :
    create_host_route_registry (some host_h) none
    ≡ ok (record table { local_routes = []; imported_routes = [] })
unfolding create_host_route_registry create_verser_host_id hop_limit
created = rw (require_text-name host_h "host id" h-IsName) refl

-- The two routes as another Host may advertise them; the source is written by the receiver.
advertised_ok :
    each advertised (route_value foreign_route ∷ route_value looping_route ∷ [])
    ≡ ok (foreign_route ∷ looping_route ∷ [])
advertised_ok =
    rw
      (
        create_written_value foreign_route upstream foreign-IsNormal,
        create_written_value looping_route upstream looping-IsNormal,
      )
      refl

set_imported_routes_lem_example :
    (update : ImportedUpdate) × (set_imported_routes host_o
        (route_value foreign_route ∷ route_value looping_route ∷ [])
        table
      ≡ ok (
        update,
        record table {
          imported_routes =
              set host_o
                (keep_if (is_allowed table) (foreign_route ∷ looping_route ∷ []))
                table.imported_routes;
        },
      ))
    × (map (λ x. x.route) update.rejected
        ≡ keep_if (λ r. not (is_allowed table r)) (foreign_route ∷ looping_route ∷ []))
    × All (IsRejection table) update.rejected
set_imported_routes_lem_example =
    set_imported_routes_lem host_o (route_value foreign_route ∷ route_value looping_route ∷ [])
      (foreign_route ∷ looping_route ∷ []) table h-IsName advertised_ok

-- The second advertisement is `null`, which has no hop count.
abbrev no_hop_count : Thrown
no_hop_count = typed (
    create_verser_error protocol_error "Federated route hop count must be non-negative"
      (("hopCount", Errors.undefined) ∷ []))

malformed_thrown : each advertised (route_value foreign_route ∷ null ∷ []) ≡ err no_hop_count
unfolding create_federated_route_registration valid_hop_count text_eq
malformed_thrown = rw (create_written_value foreign_route upstream foreign-IsNormal) refl

created_then_run-IsWellFormed_example : IsWellFormed (
    run
      (registers peer_p (routed_domain local_route ∷ [])
        ∷ imports host_o (route_value foreign_route ∷ [])
        ∷ degrades peer_p 5
        ∷ restores peer_p
        ∷ revokes peer_p (name_d ∷ [])
        ∷ [])
      (record table { local_routes = []; imported_routes = [] }))
created_then_run-IsWellFormed_example =
    created_then_run-IsWellFormed (some host_h) none
      (registers peer_p (routed_domain local_route ∷ [])
        ∷ imports host_o (route_value foreign_route ∷ [])
        ∷ degrades peer_p 5
        ∷ restores peer_p
        ∷ revokes peer_p (name_d ∷ [])
        ∷ [])
      (record table { local_routes = []; imported_routes = [] }) created

degrade_then_restore_example :
    (between : Registry) × (after : Registry) × (set_degraded peer_p 10 table ≡ ok between)
    × (get peer_p between.local_routes ≡ none)
    × (restore_routes peer_p between ≡ ok (true, after))
    × ((p : Text) → get p after.local_routes ≡ get p table.local_routes)
    × ((p : Text) → get p after.degraded_routes ≡ get p table.degraded_routes)
    × (after.imported_routes ≡ table.imported_routes)
    × (after.generation_counter ≡ table.generation_counter + 2)
unfolding get has text_eq
degrade_then_restore_example =
    degrade_then_restore peer_p 10 (local_route ∷ []) table table-IsWellFormed refl refl

get_federated_routes_for_export_lem_example :
    (get_federated_routes_for_export no_order (some host_o) table
      ≡ ok (map (advertisement table) (exportable no_order (some host_o) table)))
    × All
        (IsAdvertised table (some host_o))
        (map (advertisement table) (exportable no_order (some host_o) table))
get_federated_routes_for_export_lem_example =
    get_federated_routes_for_export_lem no_order (some host_o) table table-IsWellFormed

advertisement_rejected_example :
    (r : Route) × (exported table (record { owner_id = host_o; route = foreign_route }) ≡ ok r)
    × (imported_route_rejection (record table { host_id = host_o }) r
        ≡ ok (some (loop_error (record table { host_id = host_o }) r)))
unfolding text_eq get_active_candidates
advertisement_rejected_example =
    advertisement_rejected table (record table { host_id = host_o })
      (record { owner_id = host_o; route = foreign_route }) table-IsWellFormed o-IsName
      (inr (inl refl)) (inl refl)

abbrev table_candidates : List Candidate
table_candidates = get_active_candidates table

candidates-Plain : All Plain table_candidates
unfolding get_active_candidates
candidates-Plain = ((refl, tt), ((refl, tt), tt))

select_candidates_lem_example :
    All
      (λ c.
        Exists
          (λ s. IsSame (routed_domain s.route) (routed_domain c.route) × IsPreferred s c)
          (select_candidates no_order table_candidates))
      table_candidates
    × All (λ s. Exists (λ c. c ≡ s) table_candidates) (select_candidates no_order table_candidates)
    × ((target domain : Text)
        → count
            (λ s. goes_to target domain (routed_domain s.route))
            (select_candidates no_order table_candidates)
          ≤ 1)
select_candidates_lem_example = select_candidates_lem no_order table_candidates candidates-Plain

degraded-PlainRoute : All PlainRoute (get_degraded_broker_routes table)
unfolding get_degraded_broker_routes
degraded-PlainRoute = tt

get_broker_routes_lem_example :
    All
      (λ c. Exists (λ s. IsSame s (routed_domain c.route)) (get_broker_routes no_order table))
      (get_active_candidates table)
    × All
        (λ r. Exists (λ s. IsSame s r) (get_broker_routes no_order table))
        (get_degraded_broker_routes table)
    × All
        (IsFrom (get_active_candidates table) (get_degraded_broker_routes table))
        (get_broker_routes no_order table)
    × ((target domain : Text)
        → count (goes_to target domain) (get_broker_routes no_order table) ≤ 1)
get_broker_routes_lem_example =
    get_broker_routes_lem no_order table candidates-Plain degraded-PlainRoute

create_route_again_example :
    create_federated_route_registration (route_value local_route) ≡ ok local_route
create_route_again_example =
    create_route_again (route_value local_route) (create_route_value local_route local-IsNormal)
