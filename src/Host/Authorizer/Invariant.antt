-- ===== src/Host/Authorizer/Invariant.antt =====
-- The invariant of the authorizer, and what keeps it: asking, settling, forgetting and caching.
use verser.Base.{
  ℕ, ◌≤◌, ◌<◌, ◌≡◌, refl, sym, ap, ◌∙◌, ◌⊎◌, inl, inr, Text, false, Option, none, some, ◌==◌,
  text_eq_iff, arith, Bool-cases,
}
use verser.Base.Dict.{Dict, get, set, get-set, get-set_self}
use verser.Host.LeasePool.{update}
use verser.Host.Authorizer.{
  Authorizer, PendingDecision, ExpiresAt, Options, Settled, new_authorizer, ask, insert_expiry,
  without,
}
use verser.Host.Authorizer.Maps.{
  Fewer, some_injective, none_or_some, update-same, update-other, update-cases, set-cases,
  without-none, without-old, without-keeps, insert_expiry-cases,
}

pub record IsSound (a : Authorizer) : Type 0 where
  -- a pair is not both allowed and denied
  pub apart : (k : Text) → (get k a.allowed_pairs ≡ none) ⊎ (get k a.denied_pairs ≡ none)
  -- a pair that a decision is pending for has no cached one
  pub uncached :
      (k : Text) (r : ℕ)
      → get k a.pending_decisions ≡ some r
      → (get k a.allowed_pairs ≡ none) × (get k a.denied_pairs ≡ none)
  -- what is pending is in flight and not revoked
  pub pending :
      (k : Text) (r : ℕ)
      → get k a.pending_decisions ≡ some r
      → (e : PendingDecision) × (a.decisions r ≡ some e)
        × (e.key ≡ k)
        × (e.revoked ≡ false)
        × (e.promise ≡ none)
  -- what is in flight and not revoked is pending
  pub known :
      (r : ℕ) (e : PendingDecision)
      → a.decisions r ≡ some e
      → e.promise ≡ none
      → e.revoked ≡ false
      → get e.key a.pending_decisions ≡ some r
  pub numbered :
      (r : ℕ) (e : PendingDecision)
      → a.decisions r ≡ some e
      → (r < a.next) × (e.generation ≤ a.generation)

pub new_authorizer-IsSound : (o : Options) → IsSound (new_authorizer o)
unfolding new_authorizer get
new_authorizer-IsSound o = record {
  apart = λ k. inl refl;
  uncached = λ k r e. (refl, refl);
  pending = λ k r e. absurd (cc);
  known = λ r e h. absurd (cc);
  numbered = λ r e h. absurd (cc);
}

pub shrunk-IsSound :
    (a : Authorizer) (allowed denied : Dict ExpiresAt) (n : ℕ)
    → IsSound a
    → Fewer allowed a.allowed_pairs
    → Fewer denied a.denied_pairs
    → a.generation ≤ n
    → IsSound (record a { allowed_pairs = allowed; denied_pairs = denied; generation = n })
shrunk-IsSound a allowed denied n s fa fd later = record {
  apart = λ k. ground (arith, s.apart k, fa k, fd k);
  uncached = λ k r h. ground (arith, s.uncached k r h, fa k, fd k);
  pending = s.pending;
  known = s.known;
  numbered = λ r e h. ((s.numbered r e h).0, omega (arith, (s.numbered r e h).1, later));
}

pub ask-IsSound :
    (k : Text) (a : Authorizer)
    → IsSound a
    → get k a.allowed_pairs ≡ none
    → get k a.denied_pairs ≡ none
    → get k a.pending_decisions ≡ none
    → IsSound (ask k a)
unfolding ask
ask-IsSound k a s ha hd hp = record {
  apart = s.apart;
  uncached = λ j r h. elim (set-cases k j a.next a.pending_decisions h) [
    | inl (e, q) ↦
        (ap (λ i. get i a.allowed_pairs) (sym e) ∙ ha, ap (λ i. get i a.denied_pairs) (sym e) ∙ hd)
    | inr f ↦ s.uncached j r f
  ];
  pending = λ j r h. elim (set-cases k j a.next a.pending_decisions h) [
    | inl (e, q) ↦ (
      fresh,
      ap (update a.next (some fresh) a.decisions) (sym q)
          ∙ update-same a.next (some fresh) a.decisions,
      e,
      refl,
      refl,
    )
    | inr f ↦
        let (d, found, e, v, p) = s.pending j r f in
        (
          d,
          update-other a.next (some fresh) a.decisions r (ground (arith, (s.numbered r d found).0))
              ∙ found,
          e,
          v,
          p,
        )
  ];
  known = λ r e h p v. elim (update-cases a.next (some fresh) a.decisions r h) [
    | inl (q, f) ↦
        let key : k ≡ e.key = cc in
        ap (λ j. get j (set k a.next a.pending_decisions)) (sym key)
        ∙ get-set_self k a.next a.pending_decisions
        ∙ ap some (sym q)
    | inr (q, f) ↦ ground (
      arith,
      get-set k e.key a.next a.pending_decisions,
      text_eq_iff k e.key,
      s.known r e f p v,
      hp,
    )
  ];
  numbered = λ r e h. elim (update-cases a.next (some fresh) a.decisions r h) [
    | inl (q, f) ↦ (
      omega (arith, q),
      omega (arith, ap (λ (z : PendingDecision). z.generation) (some_injective f)),
    )
    | inr (q, f) ↦ (omega (arith, (s.numbered r e f).0), (s.numbered r e f).1)
  ];
}
  where
    fresh : PendingDecision
    fresh = record { key = k; generation = a.generation; revoked = false; promise = none }

-- The decision is settled, and forgotten if it is the one that its key leads to.
abbrev pub closed : ℕ → PendingDecision → Settled → Authorizer → Authorizer
closed r e x a = record a {
  decisions = update r (some (record e { promise = some x })) a.decisions;
  pending_decisions = without r e.key a.pending_decisions;
}

pub closed-IsSound :
    (r : ℕ) (e : PendingDecision) (x : Settled) (a : Authorizer)
    → IsSound a
    → a.decisions r ≡ some e
    → IsSound (closed r e x a)
closed-IsSound r e x a s found = record {
  apart = s.apart;
  uncached = λ k t h. s.uncached k t (without-old r e.key k a.pending_decisions h);
  pending = λ k t h.
      let before = without-old r e.key k a.pending_decisions h in
      let (d, f, i, v, p) = s.pending k t before in
      elim (Bool-cases (t == r)) [
        | inl y ↦
            let same : t ≡ r = ground (arith, y) in
            let one : e ≡ d = some_injective (sym found ∙ ap a.decisions (sym same) ∙ f) in
            let key : e.key ≡ k = ap (λ (z : PendingDecision). z.key) one ∙ i in
            let mine : get e.key a.pending_decisions ≡ some r =
              ap (λ z. get z a.pending_decisions) key ∙ before ∙ ap some same in
            absurd (
              none_or_some (
                sym (without-none r e.key a.pending_decisions mine)
                ∙ ap (λ z. get z (without r e.key a.pending_decisions)) key
                ∙ h))
        | inr n ↦
            (d, update-other r (some (record e { promise = some x })) a.decisions t n ∙ f, i, v, p)
      ];
  known = λ t d h p v.
      elim (update-cases r (some (record e { promise = some x })) a.decisions t h) [
        | inl (q, f) ↦ absurd (
            none_or_some (sym p ∙ sym (ap (λ (z : PendingDecision). z.promise) (some_injective f))))
        | inr (n, f) ↦ without-keeps r e.key d.key a.pending_decisions (s.known t d f p v) n
      ];
  numbered = λ t d h. elim (update-cases r (some (record e { promise = some x })) a.decisions t h) [
    | inl (q, f) ↦ (
      omega (arith, q, (s.numbered r e found).0),
      omega (
        arith,
        ap (λ (z : PendingDecision). z.generation) (some_injective f),
        (s.numbered r e found).1,
      ),
    )
    | inr (n, f) ↦ s.numbered t d f
  ];
}

pub allow-IsSound :
    (k : Text) (o : Option ExpiresAt) (a : Authorizer)
    → IsSound a
    → get k a.pending_decisions ≡ none
    → get k a.denied_pairs ≡ none
    → IsSound (record a { allowed_pairs = insert_expiry k o a.allowed_pairs })
allow-IsSound k o a s hp hd = record {
  apart = λ j. elim (insert_expiry-cases k j o a.allowed_pairs) [
    | inl q ↦ inr (ap (λ z. get z a.denied_pairs) (sym q) ∙ hd)
    | inr same ↦ ground (arith, s.apart j, same)
  ];
  uncached = λ j r h. elim (insert_expiry-cases k j o a.allowed_pairs) [
    | inl q ↦ absurd (none_or_some (sym hp ∙ ap (λ z. get z a.pending_decisions) q ∙ h))
    | inr same ↦ (same ∙ (s.uncached j r h).0, (s.uncached j r h).1)
  ];
  pending = s.pending;
  known = s.known;
  numbered = s.numbered;
}

pub deny-IsSound :
    (k : Text) (o : Option ExpiresAt) (a : Authorizer)
    → IsSound a
    → get k a.pending_decisions ≡ none
    → get k a.allowed_pairs ≡ none
    → IsSound (record a { denied_pairs = insert_expiry k o a.denied_pairs })
deny-IsSound k o a s hp ha = record {
  apart = λ j. elim (insert_expiry-cases k j o a.denied_pairs) [
    | inl q ↦ inl (ap (λ z. get z a.allowed_pairs) (sym q) ∙ ha)
    | inr same ↦ ground (arith, s.apart j, same)
  ];
  uncached = λ j r h. elim (insert_expiry-cases k j o a.denied_pairs) [
    | inl q ↦ absurd (none_or_some (sym hp ∙ ap (λ z. get z a.pending_decisions) q ∙ h))
    | inr same ↦ ((s.uncached j r h).0, same ∙ (s.uncached j r h).1)
  ];
  pending = s.pending;
  known = s.known;
  numbered = s.numbered;
}
