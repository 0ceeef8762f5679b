-- ===== src/Bun/Routes/Precedence.antt =====
-- Which entry answers a request: exact paths before patterns with parameters before wildcards, and the
-- first of a kind.
use verser.Base.{
  ℕ, ◌≤◌, ◌<◌, ◌≡◌, refl, sym, suc, All-imp, ap, ◌∙◌, subst, inl, inr, Text, Bool, true, false, not,
  ◌&&◌, List, [], ◌∷◌, ◌++◌, Option, none, some, if◌then◌else◌, arith, keep_if, ◌==◌, All,
  Bool-cases, Option-cases,
}
use verser.Base.Dict.{Dict}
use verser.Bun.Routes.{
  MatchedRoute, Entry, is_exact_path, is_param_path, is_wildcard_path, has_pattern,
  is_wildcard_route_path, or_later, resolve_entry, resolve_entries, resolve_route, resolve_value,
  try_match_exact_route, try_match_param_route, try_match_wildcard_route,
}

-- The rank of a path, the lower the earlier.
abbrev pub rank : Text → ℕ
rank path = if is_exact_path path then 0 else if is_param_path path then 1 else 2

-- A choice of entries: the first of those with a class.
module _ (answer : Entry → Option MatchedRoute) (class : Entry → Bool) where
  abbrev Silent : Entry → Type 0
  Silent e = class e ≡ true → answer e ≡ none

  abbrev First : List Entry → MatchedRoute → Type 0
  First es m =
      (before : List Entry) × (e : Entry) × (later : List Entry) × (es ≡ before ++ e ∷ later)
      × (class e ≡ true)
      × (answer e ≡ some m)
      × All Silent before

  abbrev first_of : List Entry → Option MatchedRoute
  first_of [] = none
  first_of (e ∷ es) = if class e then or_later (answer e) (first_of es) else first_of es

  past : (e : Entry) (es : List Entry) (m : MatchedRoute) → Silent e → First es m → First (e ∷ es) m
  past e es m s (before, x, later, q, c, a, b) = (e ∷ before, x, later, ap (◌∷◌ e) q, c, a, (s, b))

  first_of-First : (es : List Entry) (m : MatchedRoute) → first_of es ≡ some m → First es m
  first_of-First [] m h = absurd (cc)
  first_of-First (e ∷ es) m h = elim (Bool-cases (class e)) [
    | inr n ↦
        past e es m (λ y. absurd (ground (arith, n, y)))
          (first_of-First es m (ground (arith, h, n)))
    | inl y ↦ elim (Option-cases (answer e)) [
      | inl quiet ↦ past e es m (λ _. quiet) (first_of-First es m (ground (arith, h, y, quiet)))
      | inr (x, found) ↦ ([], e, es, refl, y, ground (arith, h, y, found), tt)
    ]
  ]

  first_of-Silent : (es : List Entry) → first_of es ≡ none → All Silent es
  first_of-Silent [] h = tt
  first_of-Silent (e ∷ es) h = elim (Bool-cases (class e)) [
    | inr n ↦ ((λ y. absurd (ground (arith, n, y))), first_of-Silent es (ground (arith, h, n)))
    | inl y ↦ elim (Option-cases (answer e)) [
      | inl quiet ↦ ((λ _. quiet), first_of-Silent es (ground (arith, h, y, quiet)))
      | inr (x, found) ↦ absurd (ground (arith, h, y, found))
    ]
  ]

All-split {ℓ κ} :
    {A : Type ℓ} (P : A → Type κ) (xs ys : List A) → All P (xs ++ ys) → All P xs × All P ys
All-split P [] ys h = (tt, h)
All-split P (x ∷ xs) ys h = let (l, r) = All-split P xs ys h.1 in ((h.0, l), r)

All-both {ℓ κ μ ν} :
    {A : Type ℓ} (P : A → Type κ) (Q : A → Type μ) (R : A → Type ν)
    → ((x : A) → P x → Q x → R x)
    → (xs : List A) → All P xs
    → All Q xs
    → All R xs
All-both P Q R f [] p q = tt
All-both P Q R f (x ∷ xs) p q = (f x p.0 q.0, All-both P Q R f xs p.1 q.1)

abbrev chosen {ℓ} : {A : Type ℓ} → Bool → Bool → A → A → A → A
chosen has_p wild x y z = if not has_p then x else if has_p && not wild then y else z

chosen-exact : (p w : Bool) → (chosen p w 0 1 2 == 0) ≡ not p
chosen-exact true true = refl
chosen-exact true false = refl
chosen-exact false w = refl

chosen-param : (p w : Bool) → (chosen p w 0 1 2 == 1) ≡ (p && not w)
chosen-param true true = refl
chosen-param true false = refl
chosen-param false w = refl

chosen-wildcard : (p w : Bool) → (chosen p w 0 1 2 == 2) ≡ (p && w)
chosen-wildcard true true = refl
chosen-wildcard true false = refl
chosen-wildcard false w = refl

chooses_param {ℓ} :
    {A : Type ℓ} (p w : Bool) (x y z : A) → (p && not w) ≡ true → y ≡ chosen p w x y z
chooses_param true false x y z h = refl
chooses_param true true x y z h = absurd (cc)
chooses_param false w x y z h = absurd (cc)

chooses_wildcard {ℓ} :
    {A : Type ℓ} (p w : Bool) (x y z : A) → (p && w) ≡ true → z ≡ chosen p w x y z
chooses_wildcard true true x y z h = refl
chooses_wildcard true false x y z h = absurd (cc)
chooses_wildcard false w x y z h = absurd (cc)

module _ (to_upper_case : Text → Text) (decode : Text → Option Text)
    (request_path request_method : Text) where
  abbrev pub try_match : Text → Option (Dict Text)
  try_match path =
      if is_exact_path path
      then try_match_exact_route path request_path
      else if is_param_path path
      then try_match_param_route decode path request_path
      else try_match_wildcard_route path request_path

  -- What an entry answers to the request, matched in the way of its kind.
  unfoldable pub answer : Entry → Option MatchedRoute
  answer e = resolve_entry try_match (to_upper_case request_method) e

  abbrev ranked : ℕ → Entry → Bool
  ranked k e = rank e.0 == k

  -- A loop over the entries of a kind finds the first of the rank that answers.
  entries-first :
      (k : ℕ) (is_kind : Text → Bool) (try : Text → Option (Dict Text))
      → ((path : Text) → (rank path == k) ≡ is_kind path)
      → ((path : Text) → is_kind path ≡ true → try path ≡ try_match path)
      → (es : List Entry)
      → resolve_entries try (to_upper_case request_method) (keep_if (λ e. is_kind e.0) es)
        ≡ first_of answer (ranked k) es
  unfolding resolve_entries
  entries-first k is_kind try kinds same [] = refl
  entries-first k is_kind try kinds same (e ∷ es) = elim (Bool-cases (is_kind e.0)) [
    | inr n ↦
        let m : (rank e.0 == k) ≡ false = kinds e.0 ∙ n in
        rw n (entries-first k is_kind try kinds same es)
        ∙ sym (
            ap
              (λ b.
                if b
                then or_later (answer e) (first_of answer (ranked k) es)
                else first_of answer (ranked k) es)
              m)
    | inl y ↦
        let m : (rank e.0 == k) ≡ true = kinds e.0 ∙ y in
        (rw y (
          ap
            (λ x.
              or_later x (
                resolve_entries try (to_upper_case request_method) (keep_if (λ e. is_kind e.0) es)))
            (by_path e (same e.0 y))
          ∙ ap (or_later (answer e)) (entries-first k is_kind try kinds same es)))
        ∙ sym (
            ap
              (λ b.
                if b
                then or_later (answer e) (first_of answer (ranked k) es)
                else first_of answer (ranked k) es)
              m)
  ]
    where
      by_path :
          (x : Entry)
          → try x.0 ≡ try_match x.0
          → resolve_entry try (to_upper_case request_method) x ≡ answer x
      by_path x q =
          unfold answer resolve_entry in
          ap
            (λ t. elim t [
              | none ↦ none
              | some params ↦ resolve_value (to_upper_case request_method) x.1 params
            ])
            q

  resolve_route-first :
      (routes : List Entry)
      → resolve_route to_upper_case decode routes request_path request_method
        ≡ or_later
            (first_of answer (ranked 0) routes)
            (or_later (first_of answer (ranked 1) routes) (first_of answer (ranked 2) routes))
  unfolding resolve_route
  resolve_route-first routes =
      ap (λ x. or_later x (or_later by_params by_wildcards)) exact
      ∙ ap (λ x. or_later (first_of answer (ranked 0) routes) (or_later x by_wildcards)) param
      ∙ ap
          (λ x.
            or_later (first_of answer (ranked 0) routes)
              (or_later (first_of answer (ranked 1) routes) x))
          wildcard
    where
      by_params : Option MatchedRoute
      by_params =
          resolve_entries (λ path. try_match_param_route decode path request_path)
            (to_upper_case request_method) (keep_if (λ e. is_param_path e.0) routes)

      by_wildcards : Option MatchedRoute
      by_wildcards =
          resolve_entries (λ path. try_match_wildcard_route path request_path)
            (to_upper_case request_method) (keep_if (λ e. is_wildcard_path e.0) routes)

      exact :
          resolve_entries
            (λ path. try_match_exact_route path request_path)
            (to_upper_case request_method)
            (keep_if (λ e. is_exact_path e.0) routes)
          ≡ first_of answer (ranked 0) routes
      exact =
          entries-first 0 is_exact_path (λ path. try_match_exact_route path request_path)
            (λ path. chosen-exact (has_pattern path) (is_wildcard_route_path path))
            (λ path h. rw h refl) routes

      param : by_params ≡ first_of answer (ranked 1) routes
      param =
          entries-first 1 is_param_path (λ path. try_match_param_route decode path request_path)
            (λ path. chosen-param (has_pattern path) (is_wildcard_route_path path))
            (λ path h.
              chooses_param (has_pattern path) (is_wildcard_route_path path)
                (try_match_exact_route path request_path)
                (try_match_param_route decode path request_path)
                (try_match_wildcard_route path request_path) h)
            routes

      wildcard : by_wildcards ≡ first_of answer (ranked 2) routes
      wildcard =
          entries-first 2 is_wildcard_path (λ path. try_match_wildcard_route path request_path)
            (λ path. chosen-wildcard (has_pattern path) (is_wildcard_route_path path))
            (λ path h.
              chooses_wildcard (has_pattern path) (is_wildcard_route_path path)
                (try_match_exact_route path request_path)
                (try_match_param_route decode path request_path)
                (try_match_wildcard_route path request_path) h)
            routes

  -- An entry that answers the request, with no answer of an entry that comes before it: one of a
  -- lower rank, or an earlier one of its rank.
  abbrev pub Resolves : List Entry → MatchedRoute → Type 0
  Resolves routes m =
      (before : List Entry) × (e : Entry) × (later : List Entry) × (routes ≡ before ++ e ∷ later)
      × (answer e ≡ some m)
      × All (λ x. rank x.0 ≤ rank e.0 → answer x ≡ none) before
      × All (λ x. rank x.0 < rank e.0 → answer x ≡ none) later

  abbrev Lower : ℕ → Entry → Type 0
  Lower k x = rank x.0 < k → answer x ≡ none

  next_rank : (k : ℕ) (x : Entry) → Lower k x → Silent answer (ranked k) x → Lower (suc k) x
  next_rank k x low here h = elim (Bool-cases (ranked k x)) [
    | inl y ↦ here y
    | inr n ↦ low (ground (arith, h, n))
  ]

  to_Resolves :
      (k : ℕ) (routes : List Entry) (m : MatchedRoute)
      → All (Lower k) routes
      → First answer (ranked k) routes m
      → Resolves routes m
  to_Resolves k routes m low (before, e, later, q, c, a, quiet) =
      let (l, (_, r)) = All-split (Lower k) before (e ∷ later) (subst (All (Lower k)) q low) in
      let this : rank e.0 ≡ k = ground (arith, c) in
      (
        before,
        e,
        later,
        q,
        a,
        All-both (Lower k) (Silent answer (ranked k)) (λ x. rank x.0 ≤ rank e.0 → answer x ≡ none)
            (λ x p s h. next_rank k x p s (omega (arith, h, this))) before l quiet,
        All-imp {P = Lower k} {Q = λ x. rank x.0 < rank e.0 → answer x ≡ none}
            (λ x p h. p (omega (arith, h, this))) later r,
      )

  start-Lower : (routes : List Entry) → All (Lower 0) routes
  start-Lower [] = tt
  start-Lower (e ∷ es) = ((λ h. absurd (omega (arith, h))), start-Lower es)

  rest-Lower :
      (k : ℕ) (routes : List Entry)
      → All (Lower k) routes
      → first_of answer (ranked k) routes ≡ none
      → All (Lower (suc k)) routes
  rest-Lower k routes low quiet =
      All-both (Lower k) (Silent answer (ranked k)) (Lower (suc k)) (next_rank k) routes low
        (first_of-Silent answer (ranked k) routes quiet)

  -- A resolved route is the answer of an entry of the table: of those that answer the request, it has
  -- the lowest rank, an exact path before a path with parameters before a wildcard, and is the first of
  -- its rank.
  pub resolve_route-Resolves :
      (routes : List Entry) (m : MatchedRoute)
      → resolve_route to_upper_case decode routes request_path request_method ≡ some m
      → Resolves routes m
  resolve_route-Resolves routes m h = elim (Option-cases (first_of answer (ranked 0) routes)) [
    | inr (x, f) ↦
        to_Resolves 0 routes m (start-Lower routes)
          (first_of-First answer (ranked 0) routes m (ground (arith, g, f)))
    | inl none_exact ↦
        let low = rest-Lower 0 routes (start-Lower routes) none_exact in
        elim (Option-cases (first_of answer (ranked 1) routes)) [
          | inr (x, f) ↦
              to_Resolves 1 routes m low
                (first_of-First answer (ranked 1) routes m (ground (arith, g, f, none_exact)))
          | inl none_param ↦ to_Resolves 2 routes m (rest-Lower 1 routes low none_param) (
              first_of-First answer (ranked 2) routes m (ground (arith, g, none_exact, none_param)))
        ]
  ]
    where
      g :
          or_later
            (first_of answer (ranked 0) routes)
            (or_later (first_of answer (ranked 1) routes) (first_of answer (ranked 2) routes))
          ≡ some m
      g = sym (resolve_route-first routes) ∙ h

  -- A request that no route is resolved for is answered by no entry of the table.
  pub resolve_route-none :
      (routes : List Entry)
      → resolve_route to_upper_case decode routes request_path request_method ≡ none
      → All (λ e. answer e ≡ none) routes
  resolve_route-none routes h =
      All-imp {P = Lower 3} {Q = λ e. answer e ≡ none} (λ x p. p (ground (arith, rank x.0))) routes
        (rest-Lower 2 routes
          (rest-Lower 1 routes (rest-Lower 0 routes (start-Lower routes) (ground (arith, g)))
            (ground (arith, g)))
          (ground (arith, g)))
    where
      g :
          or_later
            (first_of answer (ranked 0) routes)
            (or_later (first_of answer (ranked 1) routes) (first_of answer (ranked 2) routes))
          ≡ none
      g = sym (resolve_route-first routes) ∙ h

  abbrev pub Resolution : List Entry → Option MatchedRoute → Type 0
  Resolution routes none = All (λ e. answer e ≡ none) routes
  Resolution routes (some m) = Resolves routes m

  -- A resolved route is the answer of an entry of the table: of those that answer the request it has
  -- the lowest rank, an exact path before a path with parameters before a wildcard, and is the first
  -- of its rank. Where no route is resolved, no entry of the table answers the request.
  pub resolve_route_lem :
      (routes : List Entry)
      → Resolution routes (resolve_route to_upper_case decode routes request_path request_method)
  resolve_route_lem routes =
      elim (Option-cases (resolve_route to_upper_case decode routes request_path request_method)) [
        | inl h ↦ subst (Resolution routes) (sym h) (resolve_route-none routes h)
        | inr (m, h) ↦ subst (Resolution routes) (sym h) (resolve_route-Resolves routes m h)
      ]
