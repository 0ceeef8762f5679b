-- ===== src/Common/Headers/Free.antt =====
-- What sanitized response header pairs do not have, without the code's own tests: the literal names, and
-- what the `connection` values nominate.
use verser.Base.{
  ◌≡◌, refl, sym, ap, ◌∙◌, subst, inl, inr, ◌≢◌, Text, Bool, true, false, List, [], ◌∷◌, ◌++◌, map,
  arith, any, length, Exists-imp, Exists-map, All-imp, All, All-and-keep_if, Exists, text_eq,
  text_eq_iff, Bool-cases, ◌==◌, if◌then◌else◌,
}
use verser.Js.{codes}
use verser.Errors.{ok, each, >>=-eq-ok, ok_injective}
use verser.Common.Trim.{trim}
use verser.Common.Headers.{
  HeaderPair, is_valid_header_name, normalize_header_pairs, split_comma, tokens, is_one,
  connection_tokens, survives, normalize_pair, sanitize_http2_response_header_pairs,
}
use verser.Common.Headers.Sanitized.{IsValid, lowered, sanitize_lem, each-IsValid}

-- A text with no comma.
abbrev pub NoComma : Text → Type 0
NoComma t = All (λ c. (c == 44) ≡ false) t

-- Texts with commas between them.
abbrev pub with_commas : Text → List Text → Text
with_commas t [] = t
with_commas t (u ∷ us) = t ++ 44 ∷ with_commas u us

split-last : (t : Text) → NoComma t → split_comma t ≡ t ∷ []
unfolding split_comma
split-last [] h = refl
split-last (c ∷ t) h = rw (h.0, split-last t h.1) refl

split-first : (t s : Text) → NoComma t → split_comma (t ++ 44 ∷ s) ≡ t ∷ split_comma s
unfolding split_comma
split-first [] s h = refl
split-first (c ∷ t) s h = rw (h.0, split-first t s h.1) refl

split-with_commas :
    (t : Text) (us : List Text)
    → NoComma t
    → All NoComma us
    → split_comma (with_commas t us) ≡ t ∷ us
split-with_commas t [] h hs = split-last t h
split-with_commas t (u ∷ us) h hs =
    split-first t (with_commas u us) h ∙ ap (◌∷◌ t) (split-with_commas u us hs.0 hs.1)

any-append {ℓ} :
    {A : Type ℓ} (f : A → Bool) (xs ys : List A)
    → any f (xs ++ ys) ≡ false
    → (any f xs ≡ false) × (any f ys ≡ false)
any-append f [] ys h = (refl, h)
any-append f (x ∷ xs) ys h =
    let (l, r) = any-append f xs ys (ground (arith, h)) in (ground (arith, h, l), r)

-- The names that are never sent, written out.
abbrev pub NotReserved : HeaderPair → Type 0
NotReserved q =
    (q.0 ≢ codes "connection")
    × (q.0 ≢ codes "keep-alive")
    × (q.0 ≢ codes "proxy-authenticate")
    × (q.0 ≢ codes "proxy-authorization")
    × (q.0 ≢ codes "te")
    × (q.0 ≢ codes "trailer")
    × (q.0 ≢ codes "transfer-encoding")
    × (q.0 ≢ codes "upgrade")
    × (q.0 ≢ codes "x-verser-response-metadata")

differs : (a b : Text) → text_eq a b ≡ false → b ≢ a
differs a b h e = ground (arith, h, e, text_eq_iff a b, sym e)

empty : (t : Text) → (length t == 0) ≡ true → t ≡ []
empty [] h = refl
empty (c ∷ t) h = absurd (ground (arith, h))

none_of {ℓ κ} : {A : Type ℓ} (P : A → Type κ) (xs : List A) → All (λ x. ¬ P x) xs → ¬ Exists P xs
none_of P [] h e = elim e [ ]
none_of P (x ∷ xs) h (inl e) = h.0 e
none_of P (x ∷ xs) h (inr e) = none_of P xs h.1 e

each_member {ℓ κ} :
    {A : Type ℓ} (P : A → Type κ) (xs : List A)
    → ((x : A) → Exists (λ y. y ≡ x) xs → P x)
    → All P xs
each_member P [] f = tt
each_member P (x ∷ xs) f = (f x (inl refl), each_member P xs (λ y e. f y (inr e)))

module _ (to_lower_case : Text → Text) where
  tokens-Free :
      (n : Text) (ts : List Text)
      → n ≢ []
      → is_one (tokens to_lower_case ts) n ≡ false
      → All (λ t. n ≢ to_lower_case (trim t)) ts
  tokens-Free n [] ne h = tt
  tokens-Free n (t ∷ ts) ne h = elim (Bool-cases (length (to_lower_case (trim t)) == 0)) [
    | inl y ↦
        (λ e. ne (e ∙ empty (to_lower_case (trim t)) y), tokens-Free n ts ne (ground (arith, h, y)))
    | inr x ↦ (
      differs (to_lower_case (trim t)) n (ground (arith, h, x)),
      tokens-Free n ts ne (ground (arith, h, x)),
    )
  ]

  connection-Free :
      (n value : Text) (ns : List HeaderPair)
      → is_one (connection_tokens to_lower_case ns) n ≡ false
      → Exists (λ p. p ≡ (codes "connection", value)) ns
      → is_one (tokens to_lower_case (split_comma value)) n ≡ false
  unfolding connection_tokens
  connection-Free n value [] h e = elim e [ ]
  connection-Free n value (p ∷ ns) h (inl e) =
      subst
        (λ x.
          is_one (connection_tokens to_lower_case (x ∷ ns)) n ≡ false
          → is_one (tokens to_lower_case (split_comma value)) n ≡ false)
        (sym e)
        (λ k.
          (any-append (λ x. text_eq x n) (tokens to_lower_case (split_comma value))
            (connection_tokens to_lower_case ns) (unfold text_eq in k)).0)
        h
  connection-Free n value ((name, v) ∷ ns) h (inr e) =
      elim (Bool-cases (text_eq name (codes "connection"))) [
        | inl y ↦
            connection-Free n value ns
              (any-append (λ x. text_eq x n) (tokens to_lower_case (split_comma v))
                (connection_tokens to_lower_case ns)
                (subst
                  (λ b.
                    is_one
                      (if b
                        then tokens to_lower_case (split_comma v)
                          ++ connection_tokens to_lower_case ns
                        else connection_tokens to_lower_case ns)
                      n
                    ≡ false)
                  y h)).1
              e
        | inr x ↦ connection-Free n value ns (ground (arith, h, x)) e
      ]

  survives-NotReserved :
      (nominated : List Text) (q : HeaderPair)
      → survives to_lower_case nominated q ≡ true
      → NotReserved q
  survives-NotReserved nominated q h = (
    differs (codes "connection") q.0 (ground (arith, h)),
    differs (codes "keep-alive") q.0 (ground (arith, h)),
    differs (codes "proxy-authenticate") q.0 (ground (arith, h)),
    differs (codes "proxy-authorization") q.0 (ground (arith, h)),
    differs (codes "te") q.0 (ground (arith, h)),
    differs (codes "trailer") q.0 (ground (arith, h)),
    differs (codes "transfer-encoding") q.0 (ground (arith, h)),
    differs (codes "upgrade") q.0 (ground (arith, h)),
    sym-differs q.0 (codes "x-verser-response-metadata") (ground (arith, h)),
  )
    where
      sym-differs : (a b : Text) → text_eq a b ≡ false → a ≢ b
      sym-differs a b k e = ground (arith, k, e, text_eq_iff a b)

  -- A pair with a name that survived.
  abbrev IsKept : List Text → HeaderPair → Type 0
  IsKept nominated q = (q.0 ≢ []) × (survives to_lower_case nominated q ≡ true)

  lowered-named :
      (ps : List HeaderPair)
      → All (IsValid to_lower_case) ps
      → All (λ q. q.0 ≢ []) (map (lowered to_lower_case) ps)
  unfolding is_valid_header_name
  lowered-named [] h = tt
  lowered-named (p ∷ ps) h = (named (to_lower_case p.0) h.0.0, lowered-named ps h.1)
    where
      named : (t : Text) → is_valid_header_name t ≡ true → t ≢ []
      named [] k e = absurd (ground (arith, k))
      named (c ∷ t) k e = ground (arith, e)

  abbrev nominated_by : List HeaderPair → List Text
  nominated_by ps = connection_tokens to_lower_case (map (lowered to_lower_case) ps)

  sanitized-IsKept :
      (ps qs : List HeaderPair)
      → sanitize_http2_response_header_pairs to_lower_case ps ≡ ok qs
      → All (IsKept (nominated_by ps)) qs
  unfolding sanitize_http2_response_header_pairs normalize_header_pairs
  sanitized-IsKept ps qs h =
      let (ns, first, _) = >>=-eq-ok (each (normalize_pair to_lower_case) ps) _ h in
      let valid = each-IsValid to_lower_case ps ns first in
      subst (All (IsKept (nominated_by ps)))
        (ok_injective (sym (sanitize_lem to_lower_case ps valid) ∙ h))
        (All-and-keep_if (λ q. q.0 ≢ []) (IsKept (nominated_by ps))
          (survives to_lower_case (nominated_by ps)) (λ q ne s. (ne, s))
          (map (lowered to_lower_case) ps) (lowered-named ps valid))

  -- The name stands, trimmed and in lower case, between the commas of the value of a pair that is named
  -- `connection` in lower case.
  abbrev pub Nominates : HeaderPair → Text → Type 0
  Nominates p n =
      (t : Text) × (us : List Text) × (to_lower_case p.0 ≡ codes "connection")
      × NoComma t
      × All NoComma us
      × (p.1 ≡ with_commas t us)
      × Exists (λ u. n ≡ to_lower_case (trim u)) (t ∷ us)

  not-Nominates :
      (ps : List HeaderPair) (q : HeaderPair)
      → IsKept (nominated_by ps) q
      → (p : HeaderPair) → Exists (λ x. x ≡ p) ps
      → ¬ Nominates p q.0
  not-Nominates ps q k p here (t, us, low, plain, plains, value, piece) =
      let there =
        Exists-map (λ x. x ≡ (codes "connection", with_commas t us)) (lowered to_lower_case) ps
          (Exists-imp
            (λ x e.
              ap (lowered to_lower_case) e
              ∙ ap (λ n. (n, p.1)) low
              ∙ ap (λ v. (codes "connection", v)) value)
            ps here) in
      let names = tokens-Free q.0 (t ∷ us) k.0 (
        subst (λ x. is_one (tokens to_lower_case x) q.0 ≡ false)
          (split-with_commas t us plain plains)
          (connection-Free q.0 (with_commas t us) (map (lowered to_lower_case) ps)
            (ground (arith, k.1)) there)) in
      none_of (λ u. q.0 ≡ to_lower_case (trim u)) (t ∷ us) names piece

  -- No pair of a list that was sanitized without an error has the name of a hop-by-hop header or that of
  -- the metadata, nor a name that stands, trimmed and in lower case, between the commas of the value of
  -- a pair that was to be sanitized and is named `connection` in lower case.
  pub sanitize-NotReserved :
      (ps qs : List HeaderPair)
      → sanitize_http2_response_header_pairs to_lower_case ps ≡ ok qs
      → All (λ q. NotReserved q × All (λ p. ¬ Nominates p q.0) ps) qs
  sanitize-NotReserved ps qs h =
      All-imp
        (λ q k. (
          survives-NotReserved (nominated_by ps) q k.1,
          each_member (λ p. ¬ Nominates p q.0) ps (not-Nominates ps q k),
        ))
        qs (sanitized-IsKept ps qs h)
