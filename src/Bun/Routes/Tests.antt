-- ===== src/Bun/Routes/Tests.antt =====
-- Runs of the routes.
use verser.Base.{ℕ, ◌≡◌, ◌↔◌, refl, Text, List, [], ◌∷◌, ◌++◌, Option, some, none, text_eq}
use verser.Base.Dict.{Dict, set}
use verser.Js.{codes}
use verser.Bun.Routes.{
  handler, methods, Entry, resolve_route, split_route_path, try_match_param_route,
  try_match_wildcard_route, before_star, star_param,
}
use verser.Bun.Routes.Precedence.{Resolution, resolve_route_lem}
use verser.Bun.Routes.Segments.{Fits}
use verser.Bun.Routes.Slashes.{AllSegments, try_match_param_route_lem}
use verser.Bun.Routes.Wildcards.{try_match_wildcard_route_lem}

abbrev same_case : Text → Text
same_case s = s

abbrev plain : Text → Option Text
plain s = some s

abbrev table : List Entry
table =
    (codes "/files/*", handler 1)
    ∷ (codes "/:kind/list", methods ((codes "GET", some 2) ∷ []))
    ∷ (codes "/files/list", handler 3)
    ∷ []

exact_first :
    resolve_route same_case plain table (codes "/files/list") (codes "GET")
    ≡ some (record { value = some (handler 3); params = []; allow = none })
unfolding resolve_route text_eq
exact_first = refl

then_params :
    resolve_route same_case plain table (codes "/users/list") (codes "GET")
    ≡ some (record {
      value = some (handler 2);
      params = (codes "kind", codes "users") ∷ [];
      allow = none;
    })
unfolding resolve_route text_eq set
then_params = refl

other_methods :
    resolve_route same_case plain table (codes "/users/list") (codes "PUT")
    ≡ some (record {
      value = none;
      params = (codes "kind", codes "users") ∷ [];
      allow = some (codes "GET");
    })
unfolding resolve_route text_eq set
other_methods = refl

wildcards_last :
    resolve_route same_case plain table (codes "/files/a/b") (codes "GET")
    ≡ some (record { value = some (handler 1); params = star_param (codes "a/b"); allow = none })
unfolding resolve_route text_eq
wildcards_last = refl

resolve_route_lem_example :
    Resolution same_case plain
      (codes "/files/list")
      (codes "GET")
      table
      (resolve_route same_case plain table (codes "/files/list") (codes "GET"))
resolve_route_lem_example =
    resolve_route_lem same_case plain (codes "/files/list") (codes "GET") table

abbrev pattern : List (ℕ × Text)
pattern = (0, codes ":kind") ∷ (0, codes "list") ∷ []

-- "/users//list/"
abbrev asked : List (ℕ × Text)
asked = (0, codes "users") ∷ (1, codes "list") ∷ []

no_slash-AllSegments : AllSegments pattern × AllSegments asked
no_slash-AllSegments = (
  (
    (refl, (refl, (refl, (refl, (refl, (refl, tt)))))),
    ((refl, (refl, (refl, (refl, (refl, tt))))), tt),
  ),
  (
    (refl, (refl, (refl, (refl, (refl, (refl, tt)))))),
    ((refl, (refl, (refl, (refl, (refl, tt))))), tt),
  ),
)

try_match_param_route_lem_example :
    ((params : Dict Text) × (try_match_param_route plain
          (codes "/:kind/list")
          (codes "/users//list/")
        ≡ some params))
    ↔ Fits (codes ":kind" ∷ codes "list" ∷ []) (codes "users" ∷ codes "list" ∷ [])
try_match_param_route_lem_example =
    try_match_param_route_lem plain pattern asked 0 1 no_slash-AllSegments.0 no_slash-AllSegments.1

try_match_wildcard_route_lem_example :
    (prefix : List Text) × (value : Text) × (before_star (split_route_path (codes "/files/*"))
      ≡ some prefix)
    × (split_route_path (codes "/files/a/b") ≡ prefix ++ split_route_path value)
    × (star_param (codes "a/b") ≡ star_param value)
unfolding try_match_wildcard_route text_eq
try_match_wildcard_route_lem_example =
    try_match_wildcard_route_lem (codes "/files/*") (codes "/files/a/b") (star_param (codes "a/b"))
      (λ e. absurd (cc)) refl
