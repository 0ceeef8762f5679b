-- ===== src/Host/Registry/Advertised.antt =====
-- Methods on the routes of other Hosts keep the table well formed.
use verser.Base.{
  ◌≡◌, sym, ap, ◌∙◌, inl, inr, length, ◌==◌, Text, text_eq, Bool, true, false, not, ◌&&◌, List, [],
  ◌∷◌, arith, keep_if, All, All-keep_if, All-and-keep_if, subst, if◌then◌else◌,
}
use verser.Base.Dict.{entries, Each-set, Each-delete, All-entries, set-Unique, delete-Unique}
use verser.Js.{JsValue}
use verser.Errors.{ok, ok_injective, absurd_ok, Result-cases}
use verser.Common.Federation.{Route, upstream}
use verser.Common.Federation.Normal.{IsNormal, create_route-IsNormal, create_route-source}
use verser.Host.Registry.{
  Registry, ImportedUpdate, each, set_imported_routes, remove_imported_routes, put_remaining,
  remove_imported_route,
}
use verser.Host.Registry.Each.{each-All}
use verser.Host.Registry.Invariant.{IsImported, IsWellFormed, with_imports}
use verser.Host.Registry.Import.{
  is_allowed, advertised, set_imported_routes_lem, set_imported_routes-err,
}

if_IsWellFormed :
    (b x y : Bool) (g h : Registry)
    → IsWellFormed g
    → IsWellFormed h
    → IsWellFormed (if◌then◌else◌ {A = Bool × Registry} b (x, g) (y, h)).1
if_IsWellFormed true x y g h wg wh = wg
if_IsWellFormed false x y g h wg wh = wh

advertised-IsImported :
    (g : Registry) (r : Route)
    → IsNormal r × (r.source ≡ upstream)
    → is_allowed g r ≡ true
    → IsImported g.host_id g.max_hop_count r
advertised-IsImported g r n a = record {
  normal = n.0;
  from = n.1;
  hops = ground arith;
  origin = ground arith;
  via = ground arith;
}

pub set_imported_routes-IsWellFormed :
    (upstream_id : Text) (inputs : List JsValue) (g : Registry) {u : ImportedUpdate} {h : Registry}
    → IsWellFormed g
    → set_imported_routes upstream_id inputs g ≡ ok (u, h)
    → IsWellFormed h
set_imported_routes-IsWellFormed upstream_id inputs g {u} {h} w e =
    elim (Result-cases (each advertised inputs)) [
      | inl (t, et) ↦ absurd_ok (sym e ∙ set_imported_routes-err upstream_id inputs g t w.host et)
      | inr (routes, er) ↦
          let (v, ev, _, _) = set_imported_routes_lem upstream_id inputs routes g w.host er in
          subst IsWellFormed
            (ap (λ (p : ImportedUpdate × Registry). p.1) (ok_injective (sym ev ∙ e)))
            (with_imports _ g w (set-Unique upstream_id _ g.imported_routes w.imported_unique) (
              Each-set (All (IsImported g.host_id g.max_hop_count)) upstream_id
                (keep_if (is_allowed g) routes) g.imported_routes
                (All-and-keep_if (λ r. IsNormal r × (r.source ≡ upstream))
                  (IsImported g.host_id g.max_hop_count) (is_allowed g) (advertised-IsImported g)
                  routes
                  (each-All (λ r. IsNormal r × (r.source ≡ upstream)) advertised
                    (λ v r er. (create_route-IsNormal _ er, create_route-source v upstream er))
                    inputs er))
                w.imports))
    ]

put_remaining-IsWellFormed :
    (upstream_id : Text) (rs : List Route) (g : Registry)
    → IsWellFormed g
    → All (IsImported g.host_id g.max_hop_count) rs
    → IsWellFormed (put_remaining upstream_id rs g)
unfolding put_remaining
put_remaining-IsWellFormed upstream_id [] g w h =
    with_imports _ g w (delete-Unique upstream_id g.imported_routes w.imported_unique) (
      Each-delete (All (IsImported g.host_id g.max_hop_count)) upstream_id g.imported_routes
        w.imports)
put_remaining-IsWellFormed upstream_id (r ∷ rs) g w h =
    with_imports _ g w (set-Unique upstream_id (r ∷ rs) g.imported_routes w.imported_unique) (
      Each-set (All (IsImported g.host_id g.max_hop_count)) upstream_id (r ∷ rs) g.imported_routes h
        w.imports)

pub remove_imported_route-IsWellFormed :
    (upstream_id target domain : Text) (g : Registry)
    → IsWellFormed g
    → IsWellFormed (remove_imported_route upstream_id target domain g).1
unfolding remove_imported_route
remove_imported_route-IsWellFormed upstream_id target domain g w =
    if_IsWellFormed (length remaining == length (entries upstream_id g.imported_routes)) false true
      g (put_remaining upstream_id remaining g) w
      (put_remaining-IsWellFormed upstream_id remaining g w (
        All-keep_if (IsImported g.host_id g.max_hop_count) _ _ (
          All-entries (IsImported g.host_id g.max_hop_count) upstream_id g.imported_routes
            w.imports)))
  where
    remaining : List Route
    remaining =
        keep_if (λ r. not (text_eq r.target_id target && text_eq r.domain domain))
          (entries upstream_id g.imported_routes)

pub remove_imported_routes-IsWellFormed :
    (peer : Text) (g : Registry) → IsWellFormed g → IsWellFormed (remove_imported_routes peer g)
unfolding remove_imported_routes
remove_imported_routes-IsWellFormed peer g w =
    with_imports _ g w (delete-Unique peer g.imported_routes w.imported_unique)
      (Each-delete (All (IsImported g.host_id g.max_hop_count)) peer g.imported_routes w.imports)
