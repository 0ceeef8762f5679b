-- ===== src/Host/Registry/History.antt =====
-- Whole histories of a table of routes: packages/verser2-host/src/lib/route-registry.ts. A call that
-- throws leaves the table as it is.
use verser.Base.{ℕ, ◌≡◌, subst, refl, Text, List, [], ◌∷◌, Option, none, some}
use verser.Js.{JsValue, JsNumber, nat}
use verser.Errors.{Result, ok, err, >>=-eq-ok, ok_injective}
use verser.Common.Federation.{RoutedDomain}
use verser.Common.Federation.Normal.{create_verser_host_id-IsName}
use verser.Host.Registry.{
  Registry, create_host_route_registry, set_local_routes, remove_local_routes, set_imported_routes,
  remove_imported_routes, remove_imported_route, clear, revoke_routes, hop_limit,
}
use verser.Host.Registry.Degraded.{set_degraded, restore_routes, remove_expired_degraded_routes}
use verser.Host.Registry.Invariant.{IsWellFormed}
use verser.Host.Registry.Owned.{
  set_local_routes-IsWellFormed, remove_local_routes-IsWellFormed, revoke_routes-IsWellFormed,
  clear-IsWellFormed,
}
use verser.Host.Registry.Advertised.{
  set_imported_routes-IsWellFormed, remove_imported_route-IsWellFormed,
  remove_imported_routes-IsWellFormed,
}
use verser.Host.Registry.Lapse.{set_degraded-IsWellFormed, restore_routes-IsWellFormed}
use verser.Host.Registry.Expire.{remove_expired-IsWellFormed}

pub data Call : Type 0 where
  registers : Text → List RoutedDomain → Call
  removes_local : Text → Call
  imports : Text → List JsValue → Call
  removes_imported : Text → Call
  removes_route : Text → Text → Text → Call
  clears : Call
  revokes : Text → List Text → Call
  degrades : Text → ℕ → Call
  restores : Text → Call
  expires : ℕ → ℕ → Call

abbrev kept {ℓ} : {A : Type ℓ} → Registry → Result (A × Registry) → Registry
kept g (ok (x, h)) = h
kept g (err t) = g

abbrev kept_table : Registry → Result Registry → Registry
kept_table g (ok h) = h
kept_table g (err t) = g

abbrev pub step : Call → Registry → Registry
step (registers peer routes) g = kept_table g (set_local_routes peer routes g)
step (removes_local peer) g = remove_local_routes peer g
step (imports upstream_id routes) g = kept g (set_imported_routes upstream_id routes g)
step (removes_imported upstream_id) g = remove_imported_routes upstream_id g
step (removes_route upstream_id target domain) g =
    (remove_imported_route upstream_id target domain g).1
step clears g = clear g
step (revokes peer domains) g = (revoke_routes peer domains g).1
step (degrades peer now) g = kept_table g (set_degraded peer now g)
step (restores peer) g = kept g (restore_routes peer g)
step (expires now timeout_ms) g = (remove_expired_degraded_routes now timeout_ms g).1

abbrev pub run : List Call → Registry → Registry
run [] g = g
run (c ∷ cs) g = run cs (step c g)

kept-IsWellFormed {ℓ} :
    {A : Type ℓ} (g : Registry) (r : Result (A × Registry))
    → IsWellFormed g
    → ((x : A) (h : Registry) → r ≡ ok (x, h) → IsWellFormed h)
    → IsWellFormed (kept g r)
kept-IsWellFormed g (ok (x, h)) w k = k x h refl
kept-IsWellFormed g (err t) w k = w

kept_table-IsWellFormed :
    (g : Registry) (r : Result Registry)
    → IsWellFormed g
    → ((h : Registry) → r ≡ ok h → IsWellFormed h)
    → IsWellFormed (kept_table g r)
kept_table-IsWellFormed g (ok h) w k = k h refl
kept_table-IsWellFormed g (err t) w k = w

step-IsWellFormed : (c : Call) (g : Registry) → IsWellFormed g → IsWellFormed (step c g)
step-IsWellFormed (registers peer routes) g w =
    kept_table-IsWellFormed g _ w (λ h e. set_local_routes-IsWellFormed peer routes g w e)
step-IsWellFormed (removes_local peer) g w = remove_local_routes-IsWellFormed peer g w
step-IsWellFormed (imports upstream_id routes) g w =
    kept-IsWellFormed g _ w (λ u h e. set_imported_routes-IsWellFormed upstream_id routes g w e)
step-IsWellFormed (removes_imported upstream_id) g w =
    remove_imported_routes-IsWellFormed upstream_id g w
step-IsWellFormed (removes_route upstream_id target domain) g w =
    remove_imported_route-IsWellFormed upstream_id target domain g w
step-IsWellFormed clears g w = clear-IsWellFormed g w
step-IsWellFormed (revokes peer domains) g w = revoke_routes-IsWellFormed peer domains g w
step-IsWellFormed (degrades peer now) g w =
    kept_table-IsWellFormed g _ w (λ h e. set_degraded-IsWellFormed peer now g w e)
step-IsWellFormed (restores peer) g w =
    kept-IsWellFormed g _ w (λ b h e. restore_routes-IsWellFormed peer g w e)
step-IsWellFormed (expires now timeout_ms) g w = remove_expired-IsWellFormed now timeout_ms g w

run-IsWellFormed : (cs : List Call) (g : Registry) → IsWellFormed g → IsWellFormed (run cs g)
run-IsWellFormed [] g w = w
run-IsWellFormed (c ∷ cs) g w = run-IsWellFormed cs (step c g) (step-IsWellFormed c g w)

create-IsWellFormed :
    (host_id : Option Text) (max : Option JsNumber) {g : Registry}
    → create_host_route_registry host_id max ≡ ok g
    → IsWellFormed g
unfolding create_host_route_registry
create-IsWellFormed host_id max e =
    let (id, ei, k) = >>=-eq-ok _ _ e in
    let (hops, _, m) = >>=-eq-ok (hop_limit (elim max [ none ↦ nat 8 | some n ↦ n ])) _ k in
    subst IsWellFormed (ok_injective m) (record {
      host = create_verser_host_id-IsName _ ei;
      local_unique = tt;
      locals = tt;
      imported_unique = tt;
      imports = tt;
      degraded_unique = tt;
      degraded = tt;
    })

-- Whatever is called on a table in whatever order, the table is well formed: each Guest and upstream
-- has one entry; local and degraded routes are made by this Host with no hops and only this Host on
-- the path; and imported routes are upstream ones that this Host did not make, that did not pass
-- through it, and that are within the limit on hops.
pub created_then_run-IsWellFormed :
    (host_id : Option Text) (max : Option JsNumber) (cs : List Call) (g : Registry)
    → create_host_route_registry host_id max ≡ ok g
    → IsWellFormed (run cs g)
created_then_run-IsWellFormed host_id max cs g e =
    run-IsWellFormed cs g (create-IsWellFormed host_id max e)
