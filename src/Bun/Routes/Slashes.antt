-- ===== src/Bun/Routes/Slashes.antt =====
-- Paths as segments with any number of slashes before each of them and at the end.
use verser.Base.{
  ℕ, zero, suc, ◌≡◌, ◌↔◌, refl, sym, ap, ◌∙◌, subst, ◌⊎◌, inl, inr, Text, List, [], ◌∷◌, ◌++◌, map,
  Option, some, keep_if, All, append-nil,
}
use verser.Base.Dict.{Dict}
use verser.Bun.Routes.{split_slash, split_route_path, is_non_empty, try_match_param_route}
use verser.Bun.Routes.Segments.{Fits, try_match_param_route-Fits}
use verser.Bun.Routes.Wildcards.{
  IsSegment, split_slash-last, split_slash-next, split_route_path-filter,
}

abbrev pub slashes : ℕ → Text
slashes zero = []
slashes (suc n) = 47 ∷ slashes n

-- One slash and then some before each segment, and some at the end.
abbrev pub spelled : List (ℕ × Text) → ℕ → Text
spelled [] n = slashes n
spelled ((m, s) ∷ ss) n = 47 ∷ (slashes m ++ (s ++ spelled ss n))

abbrev pub segments : List (ℕ × Text) → List Text
segments ss = map (λ s. s.1) ss

abbrev kept : Text → List Text
kept t = keep_if is_non_empty (split_slash t)

kept-slash : (t : Text) → kept (47 ∷ t) ≡ kept t
unfolding split_slash
kept-slash t = refl

kept-slashes : (n : ℕ) (t : Text) → kept (slashes n ++ t) ≡ kept t
kept-slashes zero t = refl
kept-slashes (suc n) t = kept-slash (slashes n ++ t) ∙ kept-slashes n t

-- The end of a path, or what starts with a slash.
abbrev AtSlash : Text → Type 0
AtSlash t = (t ≡ []) ⊎ ((u : Text) × (t ≡ 47 ∷ u))

kept-segment : (s t : Text) → IsSegment s → AtSlash t → kept (s ++ t) ≡ s ∷ kept t
kept-segment s t h (inl e) =
    subst (λ x. kept (s ++ x) ≡ s ∷ kept x) (sym e)
      (ap kept (append-nil s)
        ∙ ap (keep_if is_non_empty) (split_slash-last s h.1)
        ∙ (rw (h.0) (unfold split_slash in refl)))
kept-segment s t h (inr (u, e)) =
    subst (λ x. kept (s ++ x) ≡ s ∷ kept x) (sym e)
      (ap (keep_if is_non_empty) (split_slash-next s u h.1)
        ∙ rw (h.0) (ap (◌∷◌ s) (sym (kept-slash u))))

slashes-AtSlash : (n : ℕ) → AtSlash (slashes n)
slashes-AtSlash zero = inl refl
slashes-AtSlash (suc n) = inr (slashes n, refl)

spelled-AtSlash : (ss : List (ℕ × Text)) (n : ℕ) → AtSlash (spelled ss n)
spelled-AtSlash [] n = slashes-AtSlash n
spelled-AtSlash ((m, s) ∷ ss) n = inr (slashes m ++ (s ++ spelled ss n), refl)

abbrev pub AllSegments : List (ℕ × Text) → Type 0
AllSegments ss = All (λ s. IsSegment s.1) ss

kept-spelled : (ss : List (ℕ × Text)) (n : ℕ) → AllSegments ss → kept (spelled ss n) ≡ segments ss
kept-spelled [] n h =
    ap kept (sym (append-nil (slashes n))) ∙ kept-slashes n [] ∙ (unfold split_slash in refl)
kept-spelled ((m, s) ∷ ss) n h =
    kept-slash (slashes m ++ (s ++ spelled ss n))
    ∙ kept-slashes m (s ++ spelled ss n)
    ∙ kept-segment s (spelled ss n) h.0 (spelled-AtSlash ss n)
    ∙ ap (◌∷◌ s) (kept-spelled ss n h.1)

pub split_route_path-spelled :
    (ss : List (ℕ × Text)) (n : ℕ) → AllSegments ss → split_route_path (spelled ss n) ≡ segments ss
split_route_path-spelled ss n h = split_route_path-filter (spelled ss n) ∙ kept-spelled ss n h

module _ (decode : Text → Option Text) where
  -- However many slashes stand before the segments of a pattern and of a path and at their ends, the
  -- pattern matches the path exactly if there are as many segments, and each segment of the pattern is
  -- a parameter or the same as that of the path.
  pub try_match_param_route_lem :
      (rs qs : List (ℕ × Text)) (m n : ℕ)
      → AllSegments rs
      → AllSegments qs
      → ((params : Dict Text) × (try_match_param_route decode (spelled rs m) (spelled qs n)
            ≡ some params))
        ↔ Fits (segments rs) (segments qs)
  try_match_param_route_lem rs qs m n hr hq =
      subst
        (λ x.
          ((params : Dict Text) × (try_match_param_route decode (spelled rs m) (spelled qs n)
              ≡ some params))
          ↔ Fits x (segments qs))
        (split_route_path-spelled rs m hr)
        (subst
          (λ y.
            ((params : Dict Text) × (try_match_param_route decode (spelled rs m) (spelled qs n)
                ≡ some params))
            ↔ Fits (split_route_path (spelled rs m)) y)
          (split_route_path-spelled qs n hq)
          (try_match_param_route-Fits decode (spelled rs m) (spelled qs n)))
