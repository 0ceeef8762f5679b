-- ===== src/Bun/Routes/Wildcards.antt =====
-- Splitting paths and joining segments, and what a wildcard stands for.
use verser.Base.{
  ℕ, ◌≡◌, ◌≢◌, refl, sym, ap, ◌∙◌, subst, inl, inr, Text, true, false, List, [], ◌∷◌, ◌++◌, Option,
  none, some, ◌==◌, arith, keep_if, All, All-and-keep_if, text_eq, text_eq_iff, text_eq_refl,
  Bool-cases, Option-cases,
}
use verser.Base.Dict.{Dict}
use verser.Js.{codes}
use verser.Bun.Routes.{
  put_segment, split_slash, is_non_empty, split_route_path, join_slash, try_match_wildcard_route,
  before_star, after_prefix, star_param,
}

-- Segments as a path has them: not empty and with no slash.
abbrev pub IsSegment : Text → Type 0
IsSegment s = (is_non_empty s ≡ true) × All (λ c. (c == 47) ≡ false) s

pub split_slash-last : (s : Text) → All (λ c. (c == 47) ≡ false) s → split_slash s ≡ s ∷ []
unfolding split_slash
split_slash-last [] h = refl
split_slash-last (c ∷ s) h = rw (h.0) (ap (put_segment c) (split_slash-last s h.1))

pub split_slash-next :
    (s t : Text) → All (λ c. (c == 47) ≡ false) s → split_slash (s ++ 47 ∷ t) ≡ s ∷ split_slash t
unfolding split_slash
split_slash-next [] t h = refl
split_slash-next (c ∷ s) t h = rw (h.0) (ap (put_segment c) (split_slash-next s t h.1))

split_slash-join_slash :
    (s : Text) (ss : List Text)
    → All IsSegment (s ∷ ss)
    → split_slash (join_slash (s ∷ ss)) ≡ s ∷ ss
split_slash-join_slash s [] h = split_slash-last s h.0.1
split_slash-join_slash s (t ∷ ss) h =
    split_slash-next s (join_slash (t ∷ ss)) h.0.1 ∙ ap (◌∷◌ s) (split_slash-join_slash t ss h.1)

keep_non_empty : (ss : List Text) → All IsSegment ss → keep_if is_non_empty ss ≡ ss
keep_non_empty [] h = refl
keep_non_empty (s ∷ ss) h = rw (h.0.0) (ap (◌∷◌ s) (keep_non_empty ss h.1))

-- The guard for the root only spares work.
pub split_route_path-filter :
    (path : Text) → split_route_path path ≡ keep_if is_non_empty (split_slash path)
unfolding split_route_path
split_route_path-filter path = elim (Bool-cases (text_eq path (codes "/"))) [
  | inr n ↦ rw n refl
  | inl y ↦
      let root : path ≡ codes "/" = ground (arith, text_eq_iff path (codes "/"), y) in
      rw y (unfold split_slash in sym (ap (λ p. keep_if is_non_empty (split_slash p)) root))
]

split_route_path-join_slash :
    (ss : List Text) → All IsSegment ss → split_route_path (join_slash ss) ≡ ss
split_route_path-join_slash [] h = split_route_path-filter [] ∙ (unfold split_slash in refl)
split_route_path-join_slash (s ∷ ss) h =
    split_route_path-filter (join_slash (s ∷ ss))
    ∙ ap (keep_if is_non_empty) (split_slash-join_slash s ss h)
    ∙ keep_non_empty (s ∷ ss) h

no_slashes : (path : Text) → All (All (λ c. (c == 47) ≡ false)) (split_slash path)
unfolding split_slash
no_slashes [] = (tt, tt)
no_slashes (c ∷ s) = elim (Bool-cases (c == 47)) [
  | inl y ↦ rw y (tt, no_slashes s)
  | inr n ↦ rw n (put c (split_slash s) n (no_slashes s))
]
  where
    put :
        (d : ℕ) (ss : List Text)
        → (d == 47) ≡ false
        → All (All (λ x. (x == 47) ≡ false)) ss
        → All (All (λ x. (x == 47) ≡ false)) (put_segment d ss)
    put d [] h k = ((h, tt), tt)
    put d (t ∷ ss) h k = ((h, k.0), k.1)

split_route_path-IsSegment : (path : Text) → All IsSegment (split_route_path path)
split_route_path-IsSegment path = subst (All IsSegment) (sym (split_route_path-filter path)) (
    All-and-keep_if (All (λ c. (c == 47) ≡ false)) IsSegment is_non_empty (λ s h e. (e, h))
      (split_slash path) (no_slashes path))

after_prefix-append :
    (prefix qs : List Text) {rest : List Text}
    → after_prefix prefix qs ≡ some rest
    → qs ≡ prefix ++ rest
unfolding after_prefix
after_prefix-append [] qs h = ground (arith, h)
after_prefix-append (p ∷ prefix) [] h = absurd (cc)
after_prefix-append (p ∷ prefix) (q ∷ qs) {rest} h = elim (Bool-cases (text_eq p q)) [
  | inl y ↦
      let same : p ≡ q = ground (arith, text_eq_iff p q, y) in
      let later : after_prefix prefix qs ≡ some rest = ground (arith, h, y) in
      ap (λ x. x ∷ qs) (sym same) ∙ ap (◌∷◌ p) (after_prefix-append prefix qs later)
  | inr n ↦ absurd (ground (arith, h, n))
]

append-after_prefix : (prefix rest : List Text) → after_prefix prefix (prefix ++ rest) ≡ some rest
unfolding after_prefix
append-after_prefix [] rest = refl
append-after_prefix (p ∷ prefix) rest =
    rw (text_eq_refl p, after_prefix) (append-after_prefix prefix rest)

All-back {ℓ κ} : {A : Type ℓ} (P : A → Type κ) (xs ys : List A) → All P (xs ++ ys) → All P ys
All-back P [] ys h = h
All-back P (x ∷ xs) ys h = All-back P xs ys h.1

-- What a wildcard route other than `*` does, by the segments before its star.
abbrev matched : Option (List Text) → List Text → Option (Dict Text)
matched none qs = none
matched (some prefix) qs = elim (after_prefix prefix qs) [
  | none ↦ none
  | some rest ↦ some (star_param (join_slash rest))
]

try_match_wildcard_route-matched :
    (route_path request_path : Text)
    → route_path ≢ codes "*"
    → try_match_wildcard_route route_path request_path
      ≡ matched (before_star (split_route_path route_path)) (split_route_path request_path)
unfolding try_match_wildcard_route
try_match_wildcard_route-matched route_path request_path h =
    let other : text_eq route_path (codes "*") ≡ false =
      elim (Bool-cases (text_eq route_path (codes "*"))) [
        | inl y ↦ absurd (h (ground (arith, text_eq_iff route_path (codes "*"), y)))
        | inr n ↦ n
      ] in
    rw other (by_star (before_star (split_route_path route_path)))
  where
    by_star :
        (o : Option (List Text))
        → elim o [
          | none ↦ none
          | some prefix ↦ elim (after_prefix prefix (split_route_path request_path)) [
            | none ↦ none
            | some rest ↦ some (star_param (join_slash rest))
          ]
        ]
          ≡ matched o (split_route_path request_path)
    by_star none = refl
    by_star (some prefix) = refl

matched-rest :
    (o : Option (List Text)) (qs : List Text) (params : Dict Text)
    → matched o qs ≡ some params
    → (prefix : List Text) × (rest : List Text) × (o ≡ some prefix)
      × (qs ≡ prefix ++ rest)
      × (params ≡ star_param (join_slash rest))
matched-rest none qs params h = absurd (cc)
matched-rest (some prefix) qs params h = elim (Option-cases (after_prefix prefix qs)) [
  | inl gone ↦ absurd (ground (arith, h, gone))
  | inr (rest, found) ↦
      (prefix, rest, refl, after_prefix-append prefix qs found, ground (arith, h, found))
]

-- Where a wildcard route other than the lone star matches a path, the path has the segments before the
-- star and then others, and the value of the parameter `*`, split again, is just these others.
pub try_match_wildcard_route_lem :
    (route_path request_path : Text) (params : Dict Text)
    → route_path ≢ codes "*"
    → try_match_wildcard_route route_path request_path ≡ some params
    → (prefix : List Text) × (value : Text) × (before_star (split_route_path route_path)
        ≡ some prefix)
      × (split_route_path request_path ≡ prefix ++ split_route_path value)
      × (params ≡ star_param value)
try_match_wildcard_route_lem route_path request_path params h m =
    let (prefix, rest, s, q, v) =
      matched-rest (before_star (split_route_path route_path)) (split_route_path request_path)
        params (sym (try_match_wildcard_route-matched route_path request_path h) ∙ m) in
    let segments : All IsSegment rest =
      All-back IsSegment prefix rest
        (subst (All IsSegment) q (split_route_path-IsSegment request_path)) in
    (
      prefix,
      join_slash rest,
      s,
      q ∙ ap (λ x. prefix ++ x) (sym (split_route_path-join_slash rest segments)),
      v,
    )
