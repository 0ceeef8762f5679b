-- ===== src/Host/Authorizer/Sound.antt =====
-- The invariant of the authorizer after any history: a pair stands in at most one of the two caches,
-- in none while a decision is pending for it, and pending is what is in flight and not revoked.
use verser.Base.{
  ℕ, suc, ◌≡◌, refl, sym, ap, ◌∙◌, inl, inr, Text, true, false, List, [], ◌∷◌, Option, none, some,
  ◌==◌, arith, Bool-cases, Option-cases,
}
use verser.Base.Dict.{get, delete}
use verser.Errors.{Result, ok, err}
use verser.Host.LeasePool.{update}
use verser.Host.Authorizer.{
  Authorizer, PendingDecision, Normalized, Options, Decision, allow, deny, Response, gave, failed,
  resolved, rejected, new_authorizer, is_live, share, authorize_key, settle_promise, take_effect,
  is_stale, decide, respond, without, forget_pending, conclude, abandon, revoke_key, invalidate,
  normalize_authorization_result,
}
use verser.Host.Authorizer.Maps.{
  same-Fewer, delete-Fewer, none-Fewer, is_live-Fewer, is_live-none, some_injective, none_or_some,
  update-other, update-cases, without-none, delete-cases, delete-keeps,
}
use verser.Host.Authorizer.Calls.{Call, asks, responds, revokes, invalidates, answer, step, run}
use verser.Host.Authorizer.Invariant.{
  IsSound, new_authorizer-IsSound, shrunk-IsSound, ask-IsSound, closed-IsSound, allow-IsSound,
  deny-IsSound, closed,
}

take_effect-IsSound :
    (r : ℕ) (e : PendingDecision) (n : Normalized) (a : Authorizer)
    → IsSound a
    → a.decisions r ≡ some e
    → get e.key a.pending_decisions ≡ some r
    → IsSound (forget_pending r e.key (take_effect r e n a))
unfolding forget_pending take_effect settle_promise
take_effect-IsSound r e n a s found mine = by n.decision refl
  where
    none_left : get e.key (without r e.key a.pending_decisions) ≡ none
    none_left = without-none r e.key a.pending_decisions mine

    by : (d : Decision) → n.decision ≡ d → IsSound (forget_pending r e.key (take_effect r e n a))
    by allow q =
        rw (q, take_effect)
          (allow-IsSound e.key n.expires_at (closed r e (resolved true) a)
            (closed-IsSound r e (resolved true) a s found) none_left (s.uncached e.key r mine).1)
    by deny q =
        rw (q, take_effect)
          (deny-IsSound e.key n.expires_at (closed r e (resolved false) a)
            (closed-IsSound r e (resolved false) a s found) none_left (s.uncached e.key r mine).0)

decide-IsSound :
    (r : ℕ) (e : PendingDecision) (m : Result Normalized) (a : Authorizer)
    → IsSound a
    → a.decisions r ≡ some e
    → e.promise ≡ none
    → IsSound (forget_pending r e.key (decide r e m a))
unfolding decide forget_pending settle_promise
decide-IsSound r e (err t) a s found p = closed-IsSound r e (rejected t) a s found
decide-IsSound r e (ok n) a s found p = elim (Bool-cases (is_stale e a)) [
  | inl stale ↦ rw (stale, decide) (closed-IsSound r e (resolved false) a s found)
  | inr current ↦
      rw (current, decide)
        (take_effect-IsSound r e n a s found (s.known r e found p (ground (arith, current))))
]

answer-IsSound :
    (now r : ℕ) (v : Response) (m : Option PendingDecision) (a : Authorizer)
    → IsSound a
    → a.decisions r ≡ m
    → IsSound (answer now r v m a)
unfolding answer conclude respond
answer-IsSound now r v none a s found = s
answer-IsSound now r v (some e) a s found = elim (Option-cases e.promise) [
  | inr (x, done) ↦ rw (done, answer) s
  | inl p ↦ rw (p, answer) (by v p)
]
  where
    by : (w : Response) → e.promise ≡ none → IsSound (forget_pending r e.key (respond now r e w a))
    by (failed t) p = decide-IsSound r e (err t) a s found p
    by (gave o) p = decide-IsSound r e (normalize_authorization_result a.options now o) a s found p

nothing_pending-IsSound :
    (k : Text) (a : Authorizer)
    → IsSound a
    → get k a.pending_decisions ≡ none
    → IsSound (record a { pending_decisions = delete k a.pending_decisions })
nothing_pending-IsSound k a s gone = record {
  apart = s.apart;
  uncached = λ j t h. s.uncached j t (delete-cases k j a.pending_decisions h).0;
  pending = λ j t h. s.pending j t (delete-cases k j a.pending_decisions h).0;
  known = λ t d h p v.
      delete-keeps k d.key a.pending_decisions (s.known t d h p v)
        (λ e. none_or_some (sym gone ∙ ap (λ z. get z a.pending_decisions) e ∙ s.known t d h p v));
  numbered = s.numbered;
}

revoked-IsSound :
    (k : Text) (a : Authorizer) (r : ℕ) (e : PendingDecision)
    → IsSound a
    → a.decisions r ≡ some e
    → get k a.pending_decisions ≡ some r
    → IsSound (record a {
      decisions = update r (some (record e { revoked = true })) a.decisions;
      pending_decisions = delete k a.pending_decisions;
    })
revoked-IsSound k a r e s found mine = record {
  apart = s.apart;
  uncached = λ j t h. s.uncached j t (delete-cases k j a.pending_decisions h).0;
  pending = λ j t h.
      let (before, differ) = delete-cases k j a.pending_decisions h in
      let (d, f, i, v, p) = s.pending j t before in
      let (g, found_too, key, _, _) = s.pending k r mine in
      elim (Bool-cases (t == r)) [
        | inl y ↦
            let same : t ≡ r = ground (arith, y) in
            absurd (
              differ (
                sym key
                ∙ ap (λ (z : PendingDecision). z.key)
                    (some_injective (sym found_too ∙ ap a.decisions (sym same) ∙ f))
                ∙ i))
        | inr n ↦
            (d, update-other r (some (record e { revoked = true })) a.decisions t n ∙ f, i, v, p)
      ];
  known = λ t d h p v. elim (update-cases r (some (record e { revoked = true })) a.decisions t h) [
    | inl (q, f) ↦
        absurd (
          ground
            (arith, sym (ap (λ (z : PendingDecision). z.revoked) (some_injective f)) ∙ refl, v))
    | inr (n, f) ↦ delete-keeps k d.key a.pending_decisions (s.known t d f p v) (λ q. ground (
      arith,
      n,
      some_injective (sym (s.known t d f p v) ∙ ap (λ z. get z a.pending_decisions) (sym q) ∙ mine),
    ))
  ];
  numbered = λ t d h. elim (update-cases r (some (record e { revoked = true })) a.decisions t h) [
    | inl (q, f) ↦ (
      omega (arith, q, (s.numbered r e found).0),
      omega (
        arith,
        ap (λ (z : PendingDecision). z.generation) (some_injective f),
        (s.numbered r e found).1,
      ),
    )
    | inr (n, f) ↦ s.numbered t d f
  ];
}

revoke_key-IsSound : (k : Text) (a : Authorizer) → IsSound a → IsSound (revoke_key k a).0
unfolding revoke_key abandon
revoke_key-IsSound k a s = elim (Option-cases (get k a.pending_decisions)) [
  | inl gone ↦
      rw (gone, revoke_key)
        (smaller (record a { pending_decisions = delete k a.pending_decisions })
          (nothing_pending-IsSound k a s gone))
  | inr (r, mine) ↦
      let (e, found, _, _, _) = s.pending k r mine in
      rw (mine, revoke_key)
        (rw (found, abandon)
          (smaller
            (record a {
              decisions = update r (some (record e { revoked = true })) a.decisions;
              pending_decisions = delete k a.pending_decisions;
            })
            (revoked-IsSound k a r e s found mine)))
]
  where
    smaller :
        (b : Authorizer)
        → IsSound b
        → IsSound (record b {
          allowed_pairs = delete k b.allowed_pairs;
          denied_pairs = delete k b.denied_pairs;
        })
    smaller b t =
        shrunk-IsSound b (delete k b.allowed_pairs) (delete k b.denied_pairs) b.generation t
          (delete-Fewer k b.allowed_pairs) (delete-Fewer k b.denied_pairs) (omega arith)

share-IsSound :
    (k : Text) (a : Authorizer)
    → IsSound a
    → get k a.allowed_pairs ≡ none
    → get k a.denied_pairs ≡ none
    → IsSound (share k a).0
unfolding share
share-IsSound k a s ha hd = elim (Option-cases (get k a.pending_decisions)) [
  | inl gone ↦ rw (gone, share) (ask-IsSound k a s ha hd gone)
  | inr (r, found) ↦ rw (found, share) s
]

authorize_key-IsSound :
    (now : ℕ) (k : Text) (a : Authorizer) → IsSound a → IsSound (authorize_key now k a).0
unfolding authorize_key
authorize_key-IsSound now k a s = elim (Bool-cases (is_live k now a.allowed_pairs).0) [
  | inl granted ↦ rw (granted, authorize_key) s
  | inr not_allowed ↦ elim (Bool-cases (is_live k now a.denied_pairs).0) [
    | inl denied ↦
        rw (not_allowed, authorize_key, denied)
          (shrunk-IsSound a (is_live k now a.allowed_pairs).1 a.denied_pairs a.generation s
            (is_live-Fewer k now a.allowed_pairs) (same-Fewer a.denied_pairs) (omega arith))
    | inr unknown ↦
        rw (not_allowed, authorize_key, unknown)
          (share-IsSound k
            (record a {
              allowed_pairs = (is_live k now a.allowed_pairs).1;
              denied_pairs = (is_live k now a.denied_pairs).1;
            })
            (shrunk-IsSound a (is_live k now a.allowed_pairs).1 (is_live k now a.denied_pairs).1
              a.generation s (is_live-Fewer k now a.allowed_pairs)
              (is_live-Fewer k now a.denied_pairs) (omega arith))
            (is_live-none k now a.allowed_pairs not_allowed)
            (is_live-none k now a.denied_pairs unknown))
  ]
]

pub step-IsSound : (a : Authorizer) (c : Call) → IsSound a → IsSound (step a c)
unfolding step invalidate
step-IsSound a (asks now k) s = authorize_key-IsSound now k a s
step-IsSound a (responds now r v) s = answer-IsSound now r v (a.decisions r) a s refl
step-IsSound a (revokes k) s = revoke_key-IsSound k a s
step-IsSound a invalidates s =
    shrunk-IsSound a [] [] (suc a.generation) s (none-Fewer a.allowed_pairs)
      (none-Fewer a.denied_pairs) (omega arith)

pub run-IsSound : (a : Authorizer) (cs : List Call) → IsSound a → IsSound (run a cs)
unfolding run
run-IsSound a [] s = s
run-IsSound a (c ∷ cs) s = run-IsSound (step a c) cs (step-IsSound a c s)

-- After any history of a new authorizer: no pair has both a cached allow and a cached deny; a pair
-- that a decision is pending for has neither; a decision is pending for a pair exactly if it is in
-- flight for that pair and not revoked; and no decision is of a later generation than the authorizer.
pub history-IsSound : (o : Options) (cs : List Call) → IsSound (run (new_authorizer o) cs)
history-IsSound o cs = run-IsSound (new_authorizer o) cs (new_authorizer-IsSound o)

-- After any history of a new authorizer, two decisions for one pair that are in flight and not revoked
-- are the same decision.
pub single_flight :
    (o : Options) (cs : List Call) (r t : ℕ) (d e : PendingDecision)
    → (run (new_authorizer o) cs).decisions r ≡ some d
    → (run (new_authorizer o) cs).decisions t ≡ some e
    → d.promise ≡ none
    → e.promise ≡ none
    → d.revoked ≡ false
    → e.revoked ≡ false
    → d.key ≡ e.key
    → r ≡ t
single_flight o cs r t d e fd fe pd pe vd ve q =
    let s = history-IsSound o cs in
    some_injective (
      sym (s.known r d fd pd vd)
      ∙ ap (λ k. get k (run (new_authorizer o) cs).pending_decisions) q
      ∙ s.known t e fe pe ve)
