-- ===== src/Common/Headers/Sanitized.antt =====
-- What sanitizing keeps, and that sanitized pairs are sanitized to themselves.
use verser.Base.{
  ◌≡◌, refl, sym, ap, ◌∙◌, subst, inl, inr, Text, true, false, not, List, [], ◌∷◌, map, arith,
  keep_if, any, String, ltb, All, text_eq, text_eq_iff, Bool-cases,
}
use verser.Js.{codes}
use verser.Errors.{ok, each, >>=-eq-ok, ok_injective}
use verser.Common.Headers.{
  HeaderPair, is_valid_header_name, is_valid_header_value, is_latin1, normalize_pair,
  normalize_header_pairs, connection_tokens, check_latin1, survives, invalid_pair,
  sanitize_http2_response_header_pairs,
}

-- A value that is valid has units of one byte.
valid-latin1 : (value : Text) → is_valid_header_value value ≡ true → is_latin1 value ≡ true
unfolding is_valid_header_value is_latin1
valid-latin1 [] h = refl
valid-latin1 (c ∷ value) h =
    let rest : not (any (λ d. ltb 255 d) value) ≡ true = valid-latin1 value (ground (arith, h)) in
    ground (arith, h, rest)

module _ (to_lower_case : Text → Text) where
  -- The name in lower case and the value are valid.
  abbrev pub IsValid : HeaderPair → Type 0
  IsValid p = (is_valid_header_name (to_lower_case p.0) ≡ true) × (is_valid_header_value p.1 ≡ true)

  abbrev pub lowered : HeaderPair → HeaderPair
  lowered p = (to_lower_case p.0, p.1)

  normalize_pair-lowered :
      (p : HeaderPair) → IsValid p → normalize_pair to_lower_case p ≡ ok (lowered p)
  unfolding normalize_pair
  normalize_pair-lowered (name, value) h = rw (h.0, h.1) refl

  normalize-lowered :
      (ps : List HeaderPair)
      → All IsValid ps
      → each (normalize_pair to_lower_case) ps ≡ ok (map lowered ps)
  normalize-lowered [] h = refl
  normalize-lowered (p ∷ ps) h = rw (normalize_pair-lowered p h.0, normalize-lowered ps h.1) refl

  check_latin1-ok :
      (p : HeaderPair) → is_valid_header_value p.1 ≡ true → check_latin1 to_lower_case p ≡ ok p
  unfolding check_latin1
  check_latin1-ok (name, value) h = rw (valid-latin1 value h) refl

  check-ok :
      (ps : List HeaderPair)
      → All IsValid ps
      → each (check_latin1 to_lower_case) (map lowered ps) ≡ ok (map lowered ps)
  check-ok [] h = refl
  check-ok (p ∷ ps) h = rw (check_latin1-ok (lowered p) h.0.1, check-ok ps h.1) refl

  -- Pairs of which the names in lower case and the values are valid are sanitized without an error: to
  -- the pairs in lower case, in order, without the hop-by-hop names, the names that a `connection` pair
  -- nominates and the name of the metadata.
  pub sanitize_lem :
      (ps : List HeaderPair)
      → All IsValid ps
      → sanitize_http2_response_header_pairs to_lower_case ps
        ≡ ok (
            keep_if
              (survives to_lower_case (connection_tokens to_lower_case (map lowered ps)))
              (map lowered ps))
  unfolding sanitize_http2_response_header_pairs normalize_header_pairs
  sanitize_lem ps h = rw (normalize-lowered ps h, check-ok ps h) refl

  -- An accepted pair is valid.
  normalize_pair-IsValid : (p q : HeaderPair) → normalize_pair to_lower_case p ≡ ok q → IsValid p
  unfolding normalize_pair
  normalize_pair-IsValid (name, value) q h =
      elim (Bool-cases (is_valid_header_name (to_lower_case name))) [
        | inr n ↦
            let stops : normalize_pair to_lower_case (name, value)
                ≡ invalid_pair "Invalid header name" name =
              rw n refl in
            absurd (refused (sym stops ∙ h))
        | inl y ↦ elim (Bool-cases (is_valid_header_value value)) [
          | inl v ↦ (y, v)
          | inr n ↦
              let stops : normalize_pair to_lower_case (name, value)
                  ≡ invalid_pair "Invalid header value" name =
                rw (y, n) refl in
              absurd (refused (sym stops ∙ h))
        ]
      ]
    where
      refused : {message : String} {t : Text} {r : HeaderPair} → invalid_pair message t ≡ ok r → ⊥
      refused e = unfold invalid_pair in cc

  pub each-IsValid :
      (ps qs : List HeaderPair) → each (normalize_pair to_lower_case) ps ≡ ok qs → All IsValid ps
  each-IsValid [] qs h = tt
  each-IsValid (p ∷ ps) qs h =
      let (q, first, more) = >>=-eq-ok (normalize_pair to_lower_case p) _ h in
      let (rs, rest, _) = >>=-eq-ok (each (normalize_pair to_lower_case) ps) _ more in
      (normalize_pair-IsValid p q first, each-IsValid ps rs rest)

  -- A pair that is sanitized to itself on its own.
  abbrev Lasting : HeaderPair → Type 0
  Lasting p = (to_lower_case p.0 ≡ p.0) × IsValid p × (survives to_lower_case [] p ≡ true)

  lowered-Lasting :
      ((t : Text) → to_lower_case (to_lower_case t) ≡ to_lower_case t)
      → (nominated : List Text) (p : HeaderPair) → IsValid p
      → survives to_lower_case nominated (lowered p) ≡ true
      → Lasting (lowered p)
  lowered-Lasting twice nominated p v s =
      (twice p.0, (ap is_valid_header_name (twice p.0) ∙ v.0, v.1), ground (arith, s))

  keeps-Lasting :
      ((t : Text) → to_lower_case (to_lower_case t) ≡ to_lower_case t)
      → (nominated : List Text) (ps : List HeaderPair) → All IsValid ps
      → All Lasting (keep_if (survives to_lower_case nominated) (map lowered ps))
  keeps-Lasting twice nominated [] h = tt
  keeps-Lasting twice nominated (p ∷ ps) h =
      elim (Bool-cases (survives to_lower_case nominated (lowered p))) [
        | inl y ↦
            rw y (lowered-Lasting twice nominated p h.0 y, keeps-Lasting twice nominated ps h.1)
        | inr n ↦ rw n (keeps-Lasting twice nominated ps h.1)
      ]

  Lasting-lowered : (qs : List HeaderPair) → All Lasting qs → map lowered qs ≡ qs
  Lasting-lowered [] h = refl
  Lasting-lowered ((name, value) ∷ qs) h =
      ap (λ n. (n, value) ∷ map lowered qs) h.0.0 ∙ ap (◌∷◌ (name, value)) (Lasting-lowered qs h.1)

  Lasting-tokens : (qs : List HeaderPair) → All Lasting qs → connection_tokens to_lower_case qs ≡ []
  unfolding connection_tokens
  Lasting-tokens [] h = refl
  Lasting-tokens ((name, value) ∷ qs) h =
      let other : text_eq name (codes "connection") ≡ false =
        elim (Bool-cases (text_eq name (codes "connection"))) [
          | inr n ↦ n
          | inl y ↦ absurd (gone (ground (arith, text_eq_iff name (codes "connection"), y)) h.0.2)
        ] in
      rw other (Lasting-tokens qs h.1)
    where
      gone : name ≡ codes "connection" → survives to_lower_case [] (name, value) ≡ true → ⊥
      gone e =
          subst (λ n. survives to_lower_case [] (n, value) ≡ true → ⊥) (sym e)
            (λ kept. unfold text_eq in absurd (cc))

  Lasting-kept :
      (qs : List HeaderPair) → All Lasting qs → keep_if (survives to_lower_case []) qs ≡ qs
  Lasting-kept [] h = refl
  Lasting-kept (q ∷ qs) h = rw (h.0.2) (ap (◌∷◌ q) (Lasting-kept qs h.1))

  sanitized-Lasting :
      ((t : Text) → to_lower_case (to_lower_case t) ≡ to_lower_case t)
      → (ps qs : List HeaderPair) → sanitize_http2_response_header_pairs to_lower_case ps ≡ ok qs
      → All Lasting qs
  unfolding sanitize_http2_response_header_pairs normalize_header_pairs
  sanitized-Lasting twice ps qs h =
      let (ns, first, _) = >>=-eq-ok (each (normalize_pair to_lower_case) ps) _ h in
      let valid = each-IsValid ps ns first in
      subst (All Lasting) (ok_injective (sym (sanitize_lem ps valid) ∙ h))
        (keeps-Lasting twice (connection_tokens to_lower_case (map lowered ps)) ps valid)

  Lasting-IsValid : (qs : List HeaderPair) → All Lasting qs → All IsValid qs
  Lasting-IsValid [] h = tt
  Lasting-IsValid (q ∷ qs) h = (h.0.1, Lasting-IsValid qs h.1)

  -- Where what is in lower case is left so: sanitized pairs are sanitized again without an error and
  -- unchanged, as the decoder of response metadata relies on.
  pub sanitize_again :
      ((t : Text) → to_lower_case (to_lower_case t) ≡ to_lower_case t)
      → (ps qs : List HeaderPair) → sanitize_http2_response_header_pairs to_lower_case ps ≡ ok qs
      → sanitize_http2_response_header_pairs to_lower_case qs ≡ ok qs
  sanitize_again twice ps qs h =
      let lasting = sanitized-Lasting twice ps qs h in
      sanitize_lem qs (Lasting-IsValid qs lasting)
      ∙ ap (λ xs. ok (keep_if (survives to_lower_case (connection_tokens to_lower_case xs)) xs))
          (Lasting-lowered qs lasting)
      ∙ ap (λ ts. ok (keep_if (survives to_lower_case ts) qs)) (Lasting-tokens qs lasting)
      ∙ ap ok (Lasting-kept qs lasting)
