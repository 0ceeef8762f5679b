-- ===== src/Host/Registry/Invariant.antt =====
-- What every table of routes satisfies: packages/verser2-host/src/lib/route-registry.ts.
use verser.Base.{ℕ, ◌≤◌, ◌≡◌, Text, text_eq, false, List, [], ◌∷◌, All}
use verser.Base.Dict.{Dict, Each, Unique}
use verser.Common.Validate.{IsName}
use verser.Common.Federation.{Route, here, upstream, includes}
use verser.Common.Federation.Normal.{IsNormal}
use verser.Host.Registry.{Registry}

-- A route that this Host made for one of its own Guests.
pub record IsLocal (host : Text) (r : Route) : Type 0 where
  pub normal : IsNormal r
  pub from : r.source ≡ here
  pub hops : r.hop_count ≡ 0
  pub origin : r.origin_host_id ≡ host
  pub via : r.via_host_ids ≡ host ∷ []

-- A route of another Host that did not pass through this one and is within the limit on hops.
pub record IsImported (host : Text) (max : ℕ) (r : Route) : Type 0 where
  pub normal : IsNormal r
  pub from : r.source ≡ upstream
  pub hops : r.hop_count ≤ max
  pub origin : text_eq r.origin_host_id host ≡ false
  pub via : includes r.via_host_ids host ≡ false

pub record IsWellFormed (g : Registry) : Type 0 where
  pub host : IsName g.host_id
  pub local_unique : Unique g.local_routes
  pub locals : Each (All (IsLocal g.host_id)) g.local_routes
  pub imported_unique : Unique g.imported_routes
  pub imports : Each (All (IsImported g.host_id g.max_hop_count)) g.imported_routes
  pub degraded_unique : Unique g.degraded_routes
  pub degraded : Each (λ e. All (IsLocal g.host_id) e.routes) g.degraded_routes

-- The table with other local routes, imported routes or degraded routes.
pub with_locals :
    (d : Dict (List Route)) (g : Registry)
    → IsWellFormed g
    → Unique d
    → Each (All (IsLocal g.host_id)) d
    → IsWellFormed (record g { local_routes = d })
with_locals d g w u h = record {
  host = w.host;
  local_unique = u;
  locals = h;
  imported_unique = w.imported_unique;
  imports = w.imports;
  degraded_unique = w.degraded_unique;
  degraded = w.degraded;
}

pub with_imports :
    (d : Dict (List Route)) (g : Registry)
    → IsWellFormed g
    → Unique d
    → Each (All (IsImported g.host_id g.max_hop_count)) d
    → IsWellFormed (record g { imported_routes = d })
with_imports d g w u h = record {
  host = w.host;
  local_unique = w.local_unique;
  locals = w.locals;
  imported_unique = u;
  imports = h;
  degraded_unique = w.degraded_unique;
  degraded = w.degraded;
}
