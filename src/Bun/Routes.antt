-- ===== src/Bun/Routes.antt =====
-- Local routes of a Guest: packages/verser2-guest-bun/src/lib/routes.ts. The routes are their entries in
-- the order of `Object.entries`; a handler is the number of a function or `Response`. Upper case and
-- `decodeURIComponent` are the platform's, the latter with no value where it throws. Parameters are a
-- table by name; the order of their names is not modelled.
pub mod Precedence
pub mod Segments
pub mod Wildcards
pub mod Slashes
mod Tests
use verser.Base.{
  ℕ, zero, suc, ◌+◌, ◌-◌, Text, Bool, true, false, not, ◌&&◌, ◌||◌, List, [], ◌∷◌, ◌++◌, Option,
  none, some, ◌==◌, if◌then◌else◌, text_eq, map, any, keep_if, length, take, drop,
}
use verser.Base.Dict.{Dict, get, set}
use verser.Js.{codes}

-- A handler, or an object with what its own keys lead to, where `none` is `undefined`.
pub data RouteValue : Type 0 where
  handler : ℕ → RouteValue
  methods : List (Text × Option ℕ) → RouteValue

pub record MatchedRoute : Type 0 where
  pub value : Option RouteValue
  pub params : Dict Text
  pub allow : Option Text

abbrev pub Entry : Type 0
Entry = Text × RouteValue

abbrev verser_bun_methods : List Text
verser_bun_methods =
    codes "ACL"
    ∷ codes "BIND"
    ∷ codes "CHECKOUT"
    ∷ codes "CONNECT"
    ∷ codes "COPY"
    ∷ codes "DELETE"
    ∷ codes "GET"
    ∷ codes "HEAD"
    ∷ codes "LINK"
    ∷ codes "LOCK"
    ∷ codes "M-SEARCH"
    ∷ codes "MERGE"
    ∷ codes "MKACTIVITY"
    ∷ codes "MKCOL"
    ∷ codes "MKREDIRECTREF"
    ∷ codes "MKWORKSPACE"
    ∷ codes "MOVE"
    ∷ codes "OPTIONS"
    ∷ codes "PATCH"
    ∷ codes "POST"
    ∷ codes "PROPFIND"
    ∷ codes "PROPPATCH"
    ∷ codes "PURGE"
    ∷ codes "PUT"
    ∷ codes "REBIND"
    ∷ codes "REPORT"
    ∷ codes "SEARCH"
    ∷ codes "TRACE"
    ∷ codes "UNBIND"
    ∷ codes "UNLINK"
    ∷ codes "UNLOCK"
    ∷ []

abbrev pub contains_unit : ℕ → Text → Bool
contains_unit c s = any (λ d. d == c) s

abbrev pub put_segment : ℕ → List Text → List Text
put_segment c [] = (c ∷ []) ∷ []
put_segment c (s ∷ ss) = (c ∷ s) ∷ ss

-- `path.split('/')`
pub split_slash : Text → List Text
split_slash [] = [] ∷ []
split_slash (c ∷ s) = let rest = split_slash s in if c == 47 then [] ∷ rest else put_segment c rest

abbrev pub is_non_empty : Text → Bool
is_non_empty s = not (length s == 0)

pub split_route_path : Text → List Text
unfolding split_slash text_eq
split_route_path path =
    if text_eq path (codes "/") then [] else keep_if is_non_empty (split_slash path)

-- `segments.join('/')`
abbrev pub join_slash : List Text → Text
join_slash [] = []
join_slash (s ∷ []) = s
join_slash (s ∷ t ∷ ss) = s ++ 47 ∷ join_slash (t ∷ ss)

is_potential_route_method_object : RouteValue → Bool
unfolding text_eq
is_potential_route_method_object (handler h) = false
is_potential_route_method_object (methods ms) =
    not (length ms == 0)
    && not (any (λ m. not (any (λ name. text_eq name m.0) verser_bun_methods)) ms)

abbrev pub ends_with_slash_star : Text → Bool
ends_with_slash_star [] = false
ends_with_slash_star (c ∷ []) = false
ends_with_slash_star (c ∷ d ∷ []) = c == 47 && d == 42
ends_with_slash_star (c ∷ d ∷ e ∷ s) = ends_with_slash_star (d ∷ e ∷ s)

pub is_wildcard_route_path : Text → Bool
unfolding text_eq
is_wildcard_route_path path =
    text_eq path (codes "*") || text_eq path (codes "/*") || ends_with_slash_star path

pub try_match_exact_route : Text → Text → Option (Dict Text)
unfolding text_eq
try_match_exact_route route_path request_path =
    if text_eq route_path request_path then some [] else none

-- `params[name] = value` for a text, which does nothing for the name `__proto__`.
put_param : Text → Text → Dict Text → Dict Text
unfolding set text_eq
put_param name value params =
    if text_eq name (codes "__proto__") then params else set name value params

module _ (decode : Text → Option Text) where
  abbrev pub decoded : Text → Text
  decoded part = elim (decode part) [ some text ↦ text | none ↦ part ]

  -- The loop over the segments, with the parameters so far.
  pub match_parts : List Text → List Text → Dict Text → Option (Dict Text)
  unfolding put_param text_eq
  match_parts [] requests params = some params
  match_parts (route ∷ routes) [] params = none
  match_parts ([] ∷ routes) (request ∷ requests) params =
      let rest = match_parts routes requests params in if text_eq [] request then rest else none
  match_parts ((c ∷ name) ∷ routes) (request ∷ requests) params =
      let bound = match_parts routes requests (put_param name (decoded request) params) in
      let rest = match_parts routes requests params in
      if c == 58 then bound else if text_eq (c ∷ name) request then rest else none

  pub try_match_param_route : Text → Text → Option (Dict Text)
  unfolding match_parts split_route_path
  try_match_param_route route_path request_path =
      if length (split_route_path route_path) == length (split_route_path request_path)
      then match_parts (split_route_path route_path) (split_route_path request_path) []
      else none

-- The last segment, and those before it.
abbrev pub before_star : List Text → Option (List Text)
before_star [] = none
before_star (s ∷ []) = if text_eq s (codes "*") then some [] else none
before_star (s ∷ t ∷ ss) = elim (before_star (t ∷ ss)) [
  | none ↦ none
  | some prefix ↦ some (s ∷ prefix)
]

-- The segments after a prefix, where they start with it.
pub after_prefix : List Text → List Text → Option (List Text)
unfolding text_eq
after_prefix [] requests = some requests
after_prefix (p ∷ prefix) [] = none
after_prefix (p ∷ prefix) (request ∷ requests) =
    let rest = after_prefix prefix requests in if text_eq p request then rest else none

abbrev star_param : Text → Dict Text
star_param value = (codes "*", value) ∷ []

pub try_match_wildcard_route : Text → Text → Option (Dict Text)
unfolding split_route_path after_prefix text_eq
try_match_wildcard_route route_path request_path =
    if text_eq route_path (codes "*")
    then some (star_param (if text_eq request_path (codes "/") then [] else drop 1 request_path))
    else elim (before_star (split_route_path route_path)) [
      | none ↦ none
      | some prefix ↦ elim (after_prefix prefix (split_route_path request_path)) [
        | none ↦ none
        | some rest ↦ some (star_param (join_slash rest))
      ]
    ]

-- `routeValue[name]`; what every object has by itself has no name in upper case.
abbrev pub own_method : Text → List (Text × Option ℕ) → Option ℕ
own_method name [] = none
own_method name ((m, h) ∷ ms) = if text_eq m name then h else own_method name ms

abbrev pub is_some : Option ℕ → Bool
is_some none = false
is_some (some h) = true

resolve_route_method_values : List (Text × Option ℕ) → List Text
unfolding text_eq
resolve_route_method_values ms = keep_if (λ name. is_some (own_method name ms)) verser_bun_methods

abbrev join_comma : List Text → Text
join_comma [] = []
join_comma (s ∷ []) = s
join_comma (s ∷ t ∷ ss) = s ++ 44 ∷ 32 ∷ join_comma (t ∷ ss)

allowed_only : List Text → Dict Text → Option MatchedRoute
allowed_only [] params = none
allowed_only (m ∷ ms) params =
    some (record { value = none; params = params; allow = some (join_comma (m ∷ ms)) })

resolve_method_route : Text → List (Text × Option ℕ) → Dict Text → Option MatchedRoute
unfolding resolve_route_method_values allowed_only text_eq
resolve_method_route method ms params = elim (own_method method ms) [
  | some h ↦ some (record { value = some (handler h); params = params; allow = none })
  | none ↦ allowed_only (resolve_route_method_values ms) params
]

-- What a matched route gives.
pub resolve_value : Text → RouteValue → Dict Text → Option MatchedRoute
unfolding resolve_method_route is_potential_route_method_object
resolve_value method (handler h) params =
    some (record { value = some (handler h); params = params; allow = none })
resolve_value method (methods ms) params =
    if is_potential_route_method_object (methods ms)
    then resolve_method_route method ms params
    else some (record { value = some (methods ms); params = params; allow = none })

abbrev pub or_later : Option MatchedRoute → Option MatchedRoute → Option MatchedRoute
or_later none later = later
or_later (some m) later = some m

-- What an entry gives by one of the three ways to match.
pub resolve_entry : (Text → Option (Dict Text)) → Text → Entry → Option MatchedRoute
unfolding resolve_value
resolve_entry try_match method (path, value) = elim (try_match path) [
  | none ↦ none
  | some params ↦ resolve_value method value params
]

-- One of the three loops.
pub resolve_entries : (Text → Option (Dict Text)) → Text → List Entry → Option MatchedRoute
unfolding resolve_entry
resolve_entries try_match method [] = none
resolve_entries try_match method (e ∷ es) =
    or_later (resolve_entry try_match method e) (resolve_entries try_match method es)

abbrev pub has_pattern : Text → Bool
has_pattern path = contains_unit 58 path || contains_unit 42 path

abbrev pub is_exact_path : Text → Bool
is_exact_path path = not (has_pattern path)

abbrev pub is_wildcard_path : Text → Bool
is_wildcard_path path = has_pattern path && is_wildcard_route_path path

abbrev pub is_param_path : Text → Bool
is_param_path path = has_pattern path && not (is_wildcard_route_path path)

module _ (to_upper_case : Text → Text) (decode : Text → Option Text) where
  unfoldable pub resolve_route : List Entry → Text → Text → Option MatchedRoute
  unfolding resolve_entries try_match_exact_route try_match_param_route try_match_wildcard_route
      is_wildcard_route_path
  resolve_route routes request_path request_method =
      let method = to_upper_case request_method in
      let exact_entries = keep_if (λ e. is_exact_path e.0) routes in
      let param_entries = keep_if (λ e. is_param_path e.0) routes in
      let wildcard_entries = keep_if (λ e. is_wildcard_path e.0) routes in
      or_later
        (resolve_entries (λ path. try_match_exact_route path request_path) method exact_entries)
        (or_later
          (resolve_entries (λ path. try_match_param_route decode path request_path) method
            param_entries)
          (resolve_entries (λ path. try_match_wildcard_route path request_path) method
            wildcard_entries))
