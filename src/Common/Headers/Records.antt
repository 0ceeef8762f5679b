-- ===== src/Common/Headers/Records.antt =====
-- Header records: `flattenHeaderValue` and `sanitizeHttp2ResponseHeaders` of
-- packages/verser-common/src/lib/headers.ts. A record is its entries in the order in which they were
-- assigned, which `object_entries` lists as `Object.entries` does; what `String` makes of a value is
-- given.
use verser.Base.{
  ◌≡◌, refl, sym, ap, subst, ◌∙◌, Text, false, List, [], ◌∷◌, ◌++◌, Option, none, some, map, inl,
  inr, if◌then◌else◌, arith, text_eq, text_eq_iff, keep_if, All, append_assoc, append-nil,
  Bool-cases, All-keep_if,
}
use verser.Base.Dict.{Dict, set, has, has-set, Unique}
use verser.Js.{codes}
use verser.Errors.{ok}
use verser.Common.Headers.Entries.{object_entries, is_array_index, Plain, object_entries-Plain}
use verser.Common.Headers.{
  HeaderPair, split_comma, tokens, connection_tokens, survives,
  sanitize_http2_response_header_pairs,
}
use verser.Common.Headers.Sanitized.{IsValid, lowered, sanitize_lem}

-- `null` or `undefined`, an array, or another value.
pub data HeaderValue : Type 0 where
  omitted : HeaderValue
  single : Text → HeaderValue
  multiple : List Text → HeaderValue

-- `entries.join(',')`
abbrev pub join_values : List Text → Text
join_values [] = []
join_values (s ∷ []) = s
join_values (s ∷ t ∷ ss) = s ++ 44 ∷ join_values (t ∷ ss)

unfoldable pub flatten_header_value : HeaderValue → Option Text
flatten_header_value omitted = none
flatten_header_value (single s) = some s
flatten_header_value (multiple ss) = some (join_values ss)

-- `record[name] = value` for a text, which does nothing for the name `__proto__`.
pub assign : Text → Text → Dict Text → Dict Text
unfolding set text_eq
assign name value d = if text_eq name (codes "__proto__") then d else set name value d

module _ (to_lower_case : Text → Text) where
  pub record_tokens : List (Text × HeaderValue) → List Text
  unfolding flatten_header_value split_comma text_eq
  record_tokens [] = []
  record_tokens ((name, value) ∷ entries) =
      let rest = record_tokens entries in
      if text_eq (to_lower_case name) (codes "connection")
      then elim (flatten_header_value value) [
        | none ↦ rest
        | some s ↦ tokens to_lower_case (split_comma s) ++ rest
      ]
      else rest

  -- The second loop, with what was put into the record so far.
  pub put_surviving : List Text → List (Text × HeaderValue) → Dict Text → Dict Text
  unfolding flatten_header_value assign text_eq
  put_surviving nominated [] sanitized = sanitized
  put_surviving nominated ((name, value) ∷ entries) sanitized = elim (flatten_header_value value) [
    | none ↦ put_surviving nominated entries sanitized
    | some s ↦
        if survives to_lower_case nominated (to_lower_case name, s)
        then put_surviving nominated entries (assign name s sanitized)
        else put_surviving nominated entries sanitized
  ]

  unfoldable pub sanitize_http2_response_headers : Dict HeaderValue → Dict Text
  unfolding record_tokens put_surviving object_entries
  sanitize_http2_response_headers headers =
      let entries = object_entries headers in put_surviving (record_tokens entries) entries []

  -- The record to which the pairs are assigned, where no name stands twice.
  abbrev pub as_record : List HeaderPair → Dict HeaderValue
  as_record ps = map (λ (p : HeaderPair). (p.0, single p.1)) ps

  record-Plain : (ps : List HeaderPair) → Plain ps → Plain (as_record ps)
  record-Plain [] h = tt
  record-Plain (p ∷ ps) h = (h.0, record-Plain ps h.1)

  abbrev pub InLower : HeaderPair → Type 0
  InLower p = to_lower_case p.0 ≡ p.0

  tokens-agree :
      (ps : List HeaderPair)
      → All InLower ps
      → record_tokens (as_record ps) ≡ connection_tokens to_lower_case ps
  unfolding record_tokens connection_tokens flatten_header_value
  tokens-agree [] h = refl
  tokens-agree ((name, value) ∷ ps) h =
      rw (h.0) (elim (Bool-cases (text_eq name (codes "connection"))) [
        | inl y ↦ rw y (ap (◌++◌ (tokens to_lower_case (split_comma value))) (tokens-agree ps h.1))
        | inr n ↦ rw n (tokens-agree ps h.1)
      ])

  lowered-same : (ps : List HeaderPair) → All InLower ps → map (lowered to_lower_case) ps ≡ ps
  lowered-same [] h = refl
  lowered-same ((name, value) ∷ ps) h =
      ap (λ n. (n, value) ∷ map (lowered to_lower_case) ps) h.0
      ∙ ap (◌∷◌ (name, value)) (lowered-same ps h.1)

set-absent : (k v : Text) (d : Dict Text) → has k d ≡ false → set k v d ≡ d ++ (k, v) ∷ []
unfolding set has
set-absent k v [] h = refl
set-absent k v ((j, w) ∷ d) h = elim (Bool-cases (text_eq j k)) [
  | inl y ↦ absurd (ground (arith, h, y))
  | inr n ↦ rw n (ap (◌∷◌ (j, w)) (set-absent k v d (ground (arith, h, n))))
]

-- No pair of the list has the name.
abbrev Without : Text → List HeaderPair → Type 0
Without k ps = All (λ p. text_eq k p.0 ≡ false) ps

absent-Without : (k : Text) (ps : List HeaderPair) → has k ps ≡ false → Without k ps
unfolding has
absent-Without k [] h = tt
absent-Without k ((j, w) ∷ ps) h =
    (ground (arith, h, text_eq_iff j k, text_eq_iff k j), absent-Without k ps (ground (arith, h)))

abbrev Fresh : List HeaderPair → Dict Text → Type 0
Fresh ps d = All (λ p. has p.0 d ≡ false) ps

set-Fresh :
    (k v : Text) (ps : List HeaderPair) (d : Dict Text)
    → Fresh ps d
    → Without k ps
    → Fresh ps (set k v d)
set-Fresh k v [] d f w = tt
set-Fresh k v (p ∷ ps) d f w =
    (ground (arith, has-set k p.0 v d, f.0, w.0), set-Fresh k v ps d f.1 w.1)

module _ (to_lower_case : Text → Text) where
  put_surviving-keep_if :
      (nominated : List Text) (ps : List HeaderPair) (d : Dict Text)
      → All (InLower to_lower_case) ps
      → Unique ps
      → Without (codes "__proto__") ps
      → Fresh ps d
      → put_surviving to_lower_case nominated (as_record to_lower_case ps) d
        ≡ d ++ keep_if (survives to_lower_case nominated) ps
  unfolding put_surviving flatten_header_value assign
  put_surviving-keep_if nominated [] d l u w f = sym (append-nil d)
  put_surviving-keep_if nominated ((name, value) ∷ ps) d l u w f =
      rw (l.0) (elim (Bool-cases (survives to_lower_case nominated (name, value))) [
        | inr n ↦ rw n (put_surviving-keep_if nominated ps d l.1 u.1 w.1 f.1)
        | inl y ↦
            let plain : text_eq name (codes "__proto__") ≡ false = ground (
              arith,
              w.0,
              text_eq_iff name (codes "__proto__"),
              text_eq_iff (codes "__proto__") name,
            ) in
            let more =
              put_surviving-keep_if nominated ps (set name value d) l.1 u.1 w.1
                (set-Fresh name value ps d f.1 (absent-Without name ps u.0)) in
            rw (y, plain)
              (more
                ∙ ap (λ x. x ++ keep_if (survives to_lower_case nominated) ps)
                    (set-absent name value d f.0)
                ∙ append_assoc d ((name, value) ∷ [])
                    (keep_if (survives to_lower_case nominated) ps))
      ])

  all-Fresh : (ps : List HeaderPair) → Fresh ps []
  unfolding has
  all-Fresh [] = tt
  all-Fresh (p ∷ ps) = (refl, all-Fresh ps)

  sanitize-put :
      (ps : List HeaderPair)
      → All (IsValid to_lower_case) ps
      → All (InLower to_lower_case) ps
      → Unique ps
      → has (codes "__proto__") ps ≡ false
      → sanitize_http2_response_header_pairs to_lower_case ps
        ≡ ok (
            put_surviving to_lower_case
              (record_tokens to_lower_case (as_record to_lower_case ps))
              (as_record to_lower_case ps)
              [])
  sanitize-put ps v l u w =
      sanitize_lem to_lower_case ps v
      ∙ ap (λ xs. ok (keep_if (survives to_lower_case (connection_tokens to_lower_case xs)) xs))
          (lowered-same to_lower_case ps l)
      ∙ ap (λ ts. ok (keep_if (survives to_lower_case ts) ps))
          (sym (tokens-agree to_lower_case ps l))
      ∙ ap ok (
          sym (
            put_surviving-keep_if (record_tokens to_lower_case (as_record to_lower_case ps)) ps [] l
              u (absent-Without (codes "__proto__") ps w) (all-Fresh ps)))

  put-Plain :
      (nominated : List Text) (ps : List HeaderPair)
      → All (InLower to_lower_case) ps
      → Unique ps
      → has (codes "__proto__") ps ≡ false
      → Plain ps
      → Plain (put_surviving to_lower_case nominated (as_record to_lower_case ps) [])
  put-Plain nominated ps l u w plain =
      subst Plain
        (sym (
          put_surviving-keep_if nominated ps [] l u (absent-Without (codes "__proto__") ps w)
            (all-Fresh ps)))
        (All-keep_if (λ p. is_array_index p.0 ≡ false) (survives to_lower_case nominated) ps plain)

  -- The two ways to sanitize response headers agree: on valid headers in lower case of which each name
  -- stands once and none is `__proto__` or an array index, the pairs and the record of them are
  -- sanitized to the same headers, and `Object.entries` of the sanitized record lists them in the same
  -- order.
  pub sanitize_agrees :
      (ps : List HeaderPair)
      → All (IsValid to_lower_case) ps
      → All (InLower to_lower_case) ps
      → Unique ps
      → has (codes "__proto__") ps ≡ false
      → Plain ps
      → sanitize_http2_response_header_pairs to_lower_case ps
        ≡ ok (
            object_entries
              (sanitize_http2_response_headers to_lower_case (as_record to_lower_case ps)))
  unfolding sanitize_http2_response_headers
  sanitize_agrees ps v l u w plain =
      let given = as_record to_lower_case ps in
      let same = object_entries-Plain given (record-Plain to_lower_case ps plain) in
      let listed =
        object_entries-Plain
          (put_surviving to_lower_case (record_tokens to_lower_case given) given [])
          (put-Plain (record_tokens to_lower_case given) ps l u w plain) in
      rw (same, listed) (sanitize-put ps v l u w)
