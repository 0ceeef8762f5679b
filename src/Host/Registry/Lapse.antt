-- ===== src/Host/Registry/Lapse.antt =====
-- A Guest that disconnects keeps its routes for a while: degrading, restoring and expiring them.
use verser.Base.{
  ℕ, suc, ◌+◌, ◌≡◌, refl, sym, ap, ◌∙◌, ◌⊎◌, inl, inr, Text, text_eq_iff, Bool, true, false, List,
  ◌++◌, none, some, arith, All, All-imp, subst, Option-cases, Bool-cases,
}
use verser.Base.Dict.{
  get, set, delete, has, Each-set, Each-delete, Each-get, set-Unique, delete-Unique, get-set,
  get-delete, get-none_of_has, get-set_self, get-delete_self,
}
use verser.Js.{codes}
use verser.Errors.{ok, ok_injective}
use verser.Common.Trim.{is_space}
use verser.Common.Federation.{Route, create_federated_route_registration, route_value}
use verser.Common.Federation.Normal.{IsNormal, create_route_value}
use verser.Common.Generation.{Generation, decimal, create_generation-ok}
use verser.Host.Registry.{Registry, DegradedEntry}
use verser.Host.Registry.Degraded.{degrade, set_degraded, restore_routes}
use verser.Host.Registry.Each.{each-same}
use verser.Host.Registry.Invariant.{IsLocal, IsWellFormed}

abbrev pub degraded_with : Text → ℕ → List Route → Generation → Registry → Registry
degraded_with peer now routes generation g = record g {
  degraded_routes =
      set peer (record { routes = routes; degraded_at = now; generation = generation })
        g.degraded_routes;
  local_routes = delete peer g.local_routes;
  generation_counter = suc g.generation_counter;
}

degrade_lem :
    (peer : Text) (now : ℕ) (routes : List Route) (g : Registry)
    → (generation : Generation) × (degrade peer now routes g
        ≡ ok (degraded_with peer now routes generation g))
unfolding degrade is_space
degrade_lem peer now routes g =
    let (generation, e, _) =
      create_generation-ok b'g' (codes "en-" ++ decimal (suc g.generation_counter)) (some peer)
        refl in
    (generation, rw (e, degrade) refl)

-- What `setDegraded` does: nothing for a Guest without routes or one that is degraded already;
-- otherwise the routes of the Guest, and no others, move from the active to the degraded ones with
-- the time and a new generation. It never throws.
abbrev pub Degraded : Text → ℕ → Registry → Type 0
Degraded peer now g =
    ((get peer g.local_routes ≡ none) × (set_degraded peer now g ≡ ok g))
    ⊎ ((has peer g.degraded_routes ≡ true) × (set_degraded peer now g ≡ ok g))
    ⊎ ((routes : List Route) × (generation : Generation) × (get peer g.local_routes ≡ some routes)
        × (has peer g.degraded_routes ≡ false)
        × (set_degraded peer now g ≡ ok (degraded_with peer now routes generation g)))

pub set_degraded_lem : (peer : Text) (now : ℕ) (g : Registry) → Degraded peer now g
unfolding set_degraded
set_degraded_lem peer now g = elim (Option-cases (get peer g.local_routes)) [
  | inl missing ↦ inl (missing, rw (missing, set_degraded) refl)
  | inr (routes, found) ↦ elim (Bool-cases (has peer g.degraded_routes)) [
    | inl old ↦ inr (inl (old, rw (found, set_degraded, old) refl))
    | inr new ↦
        let (generation, e) = degrade_lem peer now routes g in
        inr (inr (routes, generation, found, new, rw (found, set_degraded, new) e))
  ]
]

IsLocal-IsNormal : (host : Text) (rs : List Route) → All (IsLocal host) rs → All IsNormal rs
IsLocal-IsNormal host rs h = All-imp (λ r l. l.normal) rs h

abbrev pub restored_with : Text → List Route → Registry → Registry
restored_with peer routes g = record g {
  local_routes = set peer routes g.local_routes;
  degraded_routes = delete peer g.degraded_routes;
  generation_counter = suc g.generation_counter;
}

-- Restoring the degraded routes of a Guest makes the very same routes active again. It throws
-- nothing, since remaking a route that was made before leaves it as it is.
pub restore_routes_lem :
    (peer : Text) (e : DegradedEntry) (g : Registry)
    → IsWellFormed g
    → get peer g.degraded_routes ≡ some e
    → restore_routes peer g ≡ ok (true, restored_with peer e.routes g)
unfolding restore_routes
restore_routes_lem peer e g w found =
    rw
      (
        found,
        restore_routes,
        each-same IsNormal (λ r. create_federated_route_registration (route_value r))
            create_route_value e.routes
            (IsLocal-IsNormal g.host_id e.routes (
              Each-get (λ x. All (IsLocal g.host_id) x.routes) peer e g.degraded_routes w.degraded
                found)),
      )
      refl

degraded_with-IsWellFormed :
    (peer : Text) (now : ℕ) (routes : List Route) (generation : Generation) (g : Registry)
    → IsWellFormed g
    → get peer g.local_routes ≡ some routes
    → IsWellFormed (degraded_with peer now routes generation g)
degraded_with-IsWellFormed peer now routes generation g w found = record {
  host = w.host;
  local_unique = delete-Unique peer g.local_routes w.local_unique;
  locals = Each-delete (All (IsLocal g.host_id)) peer g.local_routes w.locals;
  imported_unique = w.imported_unique;
  imports = w.imports;
  degraded_unique = set-Unique peer _ g.degraded_routes w.degraded_unique;
  degraded =
      Each-set (λ e. All (IsLocal g.host_id) e.routes) peer _ g.degraded_routes
        (Each-get (All (IsLocal g.host_id)) peer routes g.local_routes w.locals found) w.degraded;
}

pub set_degraded-IsWellFormed :
    (peer : Text) (now : ℕ) (g : Registry) {h : Registry}
    → IsWellFormed g
    → set_degraded peer now g ≡ ok h
    → IsWellFormed h
set_degraded-IsWellFormed peer now g w e = elim (set_degraded_lem peer now g) [
  | inl (_, same) ↦ subst IsWellFormed (ok_injective (sym same ∙ e)) w
  | inr (inl (_, same)) ↦ subst IsWellFormed (ok_injective (sym same ∙ e)) w
  | inr (inr (routes, generation, found, _, moved)) ↦
      subst IsWellFormed (ok_injective (sym moved ∙ e))
        (degraded_with-IsWellFormed peer now routes generation g w found)
]

restored_with-IsWellFormed :
    (peer : Text) (e : DegradedEntry) (g : Registry)
    → IsWellFormed g
    → get peer g.degraded_routes ≡ some e
    → IsWellFormed (restored_with peer e.routes g)
restored_with-IsWellFormed peer e g w found = record {
  host = w.host;
  local_unique = set-Unique peer e.routes g.local_routes w.local_unique;
  locals =
      Each-set (All (IsLocal g.host_id)) peer e.routes g.local_routes
        (Each-get (λ x. All (IsLocal g.host_id) x.routes) peer e g.degraded_routes w.degraded found)
        w.locals;
  imported_unique = w.imported_unique;
  imports = w.imports;
  degraded_unique = delete-Unique peer g.degraded_routes w.degraded_unique;
  degraded = Each-delete (λ x. All (IsLocal g.host_id) x.routes) peer g.degraded_routes w.degraded;
}

restore_none :
    (peer : Text) (g : Registry)
    → get peer g.degraded_routes ≡ none
    → restore_routes peer g ≡ ok (false, g)
unfolding restore_routes
restore_none peer g missing = rw (missing, restore_routes) refl

pub restore_routes-IsWellFormed :
    (peer : Text) (g : Registry) {b : Bool} {h : Registry}
    → IsWellFormed g
    → restore_routes peer g ≡ ok (b, h)
    → IsWellFormed h
restore_routes-IsWellFormed peer g w e = elim (Option-cases (get peer g.degraded_routes)) [
  | inl missing ↦
      subst IsWellFormed
        (ap (λ (p : Bool × Registry). p.1) (ok_injective (sym (restore_none peer g missing) ∙ e))) w
  | inr (entry, found) ↦
      subst IsWellFormed
        (ap (λ (p : Bool × Registry). p.1)
          (ok_injective (sym (restore_routes_lem peer entry g w found) ∙ e)))
        (restored_with-IsWellFormed peer entry g w found)
]

-- A Guest that disconnects and comes back before its routes expire has the same routes again, and
-- nothing of it is degraded; the routes of every other Guest and the imported ones are untouched,
-- and two generations have passed.
pub degrade_then_restore :
    (peer : Text) (now : ℕ) (routes : List Route) (g : Registry)
    → IsWellFormed g
    → get peer g.local_routes ≡ some routes
    → has peer g.degraded_routes ≡ false
    → (between : Registry) × (after : Registry) × (set_degraded peer now g ≡ ok between)
      × (get peer between.local_routes ≡ none)
      × (restore_routes peer between ≡ ok (true, after))
      × ((p : Text) → get p after.local_routes ≡ get p g.local_routes)
      × ((p : Text) → get p after.degraded_routes ≡ get p g.degraded_routes)
      × (after.imported_routes ≡ g.imported_routes)
      × (after.generation_counter ≡ g.generation_counter + 2)
unfolding set_degraded
degrade_then_restore peer now routes g w found new =
    let (generation, e) = degrade_lem peer now routes g in
    let between = degraded_with peer now routes generation g in
    let entry : DegradedEntry = record {
      routes = routes;
      degraded_at = now;
      generation = generation;
    } in
    (
      between,
      restored_with peer routes between,
      rw (found, set_degraded, new) e,
      get-delete_self peer g.local_routes,
      restore_routes_lem peer entry between
          (degraded_with-IsWellFormed peer now routes generation g w found)
          (get-set_self peer entry g.degraded_routes),
      λ p. ground (
        arith,
        get-set peer p routes (delete peer g.local_routes),
        get-delete peer p g.local_routes,
        text_eq_iff peer p,
      ),
      λ p. ground (
        arith,
        get-delete peer p (set peer entry g.degraded_routes),
        get-set peer p entry g.degraded_routes,
        text_eq_iff peer p,
        get-none_of_has peer g.degraded_routes new,
      ),
      refl,
      omega arith,
    )
