-- ===== src/Bun/Routes/Segments.antt =====
-- Matching by segments: patterns with parameters.
use verser.Base.{
  suc, ◌≡◌, ◌↔◌, refl, ap, ◌⊎◌, inl, inr, Text, Bool, true, false, List, [], ◌∷◌, Option, some,
  ◌==◌, arith, length, text_eq, text_eq_iff, Bool-cases,
}
use verser.Base.Dict.{Dict}
use verser.Bun.Routes.{split_route_path, match_parts, put_param, decoded, try_match_param_route}

abbrev is_param : Text → Bool
is_param [] = false
is_param (c ∷ name) = c == 58

-- As many segments, and each is the same as that of the pattern or that is a parameter.
abbrev pub Fits : List Text → List Text → Type 0
Fits [] [] = Unit
Fits [] (q ∷ qs) = ⊥
Fits (r ∷ rs) [] = ⊥
Fits (r ∷ rs) (q ∷ qs) = ((is_param r ≡ true) ⊎ (r ≡ q)) × Fits rs qs

Fits-length : (rs qs : List Text) → Fits rs qs → length rs ≡ length qs
Fits-length [] [] f = refl
Fits-length [] (q ∷ qs) f = absurd f
Fits-length (r ∷ rs) [] f = absurd f
Fits-length (r ∷ rs) (q ∷ qs) f = ap suc (Fits-length rs qs f.1)

module _ (decode : Text → Option Text) where
  match_parts-Fits :
      (rs qs : List Text) (params result : Dict Text)
      → length rs ≡ length qs
      → match_parts decode rs qs params ≡ some result
      → Fits rs qs
  unfolding match_parts
  match_parts-Fits [] [] params result l h = tt
  match_parts-Fits [] (q ∷ qs) params result l h = absurd (omega (arith, l))
  match_parts-Fits (r ∷ rs) [] params result l h = absurd (omega (arith, l))
  match_parts-Fits ([] ∷ rs) (q ∷ qs) params result l h = elim (Bool-cases (text_eq [] q)) [
    | inl y ↦ (
      inr (ground (arith, text_eq_iff [] q, y)),
      match_parts-Fits rs qs params result (omega (arith, l)) (ground (arith, h, y)),
    )
    | inr n ↦ absurd (ground (arith, h, n))
  ]
  match_parts-Fits ((c ∷ name) ∷ rs) (q ∷ qs) params result l h = elim (Bool-cases (c == 58)) [
    | inl p ↦ (
      inl p,
      match_parts-Fits rs qs (put_param name (decoded decode q) params) result (omega (arith, l))
          (ground (arith, h, p)),
    )
    | inr o ↦ elim (Bool-cases (text_eq (c ∷ name) q)) [
      | inl y ↦ (
        inr (ground (arith, text_eq_iff (c ∷ name) q, y)),
        match_parts-Fits rs qs params result (omega (arith, l)) (ground (arith, h, o, y)),
      )
      | inr n ↦ absurd (ground (arith, h, o, n))
    ]
  ]

  Fits-match_parts :
      (rs qs : List Text) (params : Dict Text)
      → Fits rs qs
      → (result : Dict Text) × (match_parts decode rs qs params ≡ some result)
  unfolding match_parts
  Fits-match_parts [] [] params f = (params, refl)
  Fits-match_parts [] (q ∷ qs) params f = absurd f
  Fits-match_parts (r ∷ rs) [] params f = absurd f
  Fits-match_parts ([] ∷ rs) (q ∷ qs) params f = elim f.0 [
    | inl p ↦ absurd (cc)
    | inr e ↦
        let (x, h) = Fits-match_parts rs qs params f.1 in
        let same : text_eq [] q ≡ true = ground (arith, text_eq_iff [] q, e) in (x, rw same h)
  ]
  Fits-match_parts ((c ∷ name) ∷ rs) (q ∷ qs) params f = elim (Bool-cases (c == 58)) [
    | inl p ↦
        let (x, h) = Fits-match_parts rs qs (put_param name (decoded decode q) params) f.1 in
        (x, rw p h)
    | inr o ↦ elim f.0 [
      | inl p ↦ absurd (ground (arith, p, o))
      | inr e ↦
          let same : text_eq (c ∷ name) q ≡ true = ground (arith, text_eq_iff (c ∷ name) q, e) in
          let (x, h) = Fits-match_parts rs qs params f.1 in (x, rw (o, same) h)
    ]
  ]

  -- By the segments that the paths are split into.
  pub try_match_param_route-Fits :
      (route_path request_path : Text)
      → ((params : Dict Text) × (try_match_param_route decode route_path request_path
            ≡ some params))
        ↔ Fits (split_route_path route_path) (split_route_path request_path)
  unfolding try_match_param_route
  try_match_param_route-Fits route_path request_path = (
    λ m. elim (Bool-cases (length rs == length qs)) [
      | inl y ↦ match_parts-Fits rs qs [] m.0 (ground (arith, y)) (ground (arith, m.1, y))
      | inr n ↦ absurd (ground (arith, m.1, n))
    ],
    λ f.
        let same : (length rs == length qs) ≡ true = ground (arith, Fits-length rs qs f) in
        let (x, h) = Fits-match_parts rs qs [] f in (x, rw same h),
  )
    where
      rs : List Text
      rs = split_route_path route_path

      qs : List Text
      qs = split_route_path request_path
