-- ===== src/Host/Authorizer/Late.antt =====
-- Answers that come after the pair was revoked or the routes changed.
use verser.Base.{
  ℕ, ◌≤◌, ◌<◌, ◌≡◌, ◌≢◌, refl, sym, ap, ◌∙◌, subst, ◌⊎◌, inl, inr, Text, true, false, List, [], ◌∷◌,
  Option, none, some, ◌==◌, arith, Bool-cases, Option-cases,
}
use verser.Base.Dict.{get}
use verser.Errors.{Result, ok, err}
use verser.Host.LeasePool.{update}
use verser.Host.Authorizer.{
  Authorizer, PendingDecision, Options, Normalized, allow, deny, Decision, Response, gave, failed,
  Settled, resolved, rejected, new_authorizer, is_live, ask, share, authorize_key, settle_promise,
  take_effect, is_stale, decide, respond, forget_pending, conclude, abandon, revoke_key, invalidate,
  normalize_authorization_result,
}
use verser.Host.Authorizer.Maps.{update-same, update-other, some_injective}
use verser.Host.Authorizer.Calls.{Call, asks, responds, revokes, invalidates, answer, step, run}
use verser.Host.Authorizer.Invariant.{IsSound}
use verser.Host.Authorizer.Sound.{step-IsSound, history-IsSound}

-- The decision was revoked, or made before the last invalidation.
abbrev Stale : PendingDecision → Authorizer → Type 0
Stale e a = (e.revoked ≡ true) ⊎ (e.generation < a.generation)

-- The table of decisions still has the decision, as stale as it was.
abbrev Keeps : ℕ → PendingDecision → (ℕ → Option PendingDecision) → Type 0
Keeps r e ds =
    (d : PendingDecision) × (ds r ≡ some d)
    × (d.generation ≡ e.generation)
    × (e.revoked ≡ true → d.revoked ≡ true)

update-Keeps :
    (r s : ℕ) (e d f : PendingDecision) (ds : ℕ → Option PendingDecision)
    → ds r ≡ some e
    → ds s ≡ some d
    → f.generation ≡ d.generation
    → (d.revoked ≡ true → f.revoked ≡ true)
    → Keeps r e (update s (some f) ds)
update-Keeps r s e d f ds he hd g v = elim (Bool-cases (r == s)) [
  | inl y ↦
      let q : r ≡ s = ground (arith, y) in
      let one : d ≡ e = some_injective (sym hd ∙ ap ds (sym q) ∙ he) in
      (
        f,
        ap (update s (some f) ds) q ∙ update-same s (some f) ds,
        g ∙ ap (λ (z : PendingDecision). z.generation) one,
        λ h. v (ap (λ (z : PendingDecision). z.revoked) one ∙ h),
      )
  | inr n ↦ (e, update-other s (some f) ds r n ∙ he, refl, λ h. h)
]

authorize_key-Keeps :
    (now : ℕ) (k : Text) (a : Authorizer) (r : ℕ) (e : PendingDecision)
    → a.decisions r ≡ some e
    → r < a.next
    → Keeps r e (authorize_key now k a).0.decisions
unfolding authorize_key share ask
authorize_key-Keeps now k a r e h n = elim (Bool-cases (is_live k now a.allowed_pairs).0) [
  | inl granted ↦ rw (granted, authorize_key) (e, h, refl, λ v. v)
  | inr not_allowed ↦ elim (Bool-cases (is_live k now a.denied_pairs).0) [
    | inl denied ↦ rw (not_allowed, authorize_key, denied) (e, h, refl, λ v. v)
    | inr unknown ↦ elim (Option-cases (get k a.pending_decisions)) [
      | inl gone ↦
          rw (not_allowed, authorize_key, unknown, gone, share)
            (
              e,
              update-other a.next
                    (some (record {
                      key = k;
                      generation = a.generation;
                      revoked = false;
                      promise = none;
                    }))
                    a.decisions r (ground (arith, n))
                  ∙ h,
              refl,
              λ v. v,
            )
      | inr (t, found) ↦ rw (not_allowed, authorize_key, unknown, found, share) (e, h, refl, λ v. v)
    ]
  ]
]

decide-Keeps :
    (s : ℕ) (d : PendingDecision) (m : Result Normalized) (a : Authorizer) (r : ℕ)
    (e : PendingDecision)
    → a.decisions r ≡ some e
    → a.decisions s ≡ some d
    → Keeps r e (decide s d m a).decisions
unfolding decide take_effect settle_promise
decide-Keeps s d (err t) a r e he hd =
    update-Keeps r s e d (record d { promise = some (rejected t) }) a.decisions he hd refl (λ v. v)
decide-Keeps s d (ok n) a r e he hd = elim (Bool-cases (is_stale d a)) [
  | inl stale ↦
      rw (stale, decide)
        (update-Keeps r s e d (record d { promise = some (resolved false) }) a.decisions he hd refl
          (λ v. v))
  | inr current ↦ rw (current, decide) (by n.decision refl)
]
  where
    by : (c : Decision) → n.decision ≡ c → Keeps r e (take_effect s d n a).decisions
    by allow q =
        rw (q, take_effect)
          (update-Keeps r s e d (record d { promise = some (resolved true) }) a.decisions he hd refl
            (λ v. v))
    by deny q =
        rw (q, take_effect)
          (update-Keeps r s e d (record d { promise = some (resolved false) }) a.decisions he hd
            refl (λ v. v))

answer-Keeps :
    (now s : ℕ) (v : Response) (m : Option PendingDecision) (a : Authorizer) (r : ℕ)
    (e : PendingDecision)
    → a.decisions r ≡ some e
    → a.decisions s ≡ m
    → Keeps r e (answer now s v m a).decisions
unfolding answer conclude respond forget_pending
answer-Keeps now s v none a r e he hm = (e, he, refl, λ v. v)
answer-Keeps now s v (some d) a r e he hm = elim (Option-cases d.promise) [
  | inr (x, done) ↦ rw (done, answer) (e, he, refl, λ v. v)
  | inl p ↦ rw (p, answer) (by v)
]
  where
    by : (w : Response) → Keeps r e (respond now s d w a).decisions
    by (failed t) = decide-Keeps s d (err t) a r e he hm
    by (gave o) = decide-Keeps s d (normalize_authorization_result a.options now o) a r e he hm

abandon-Keeps :
    (m : Option ℕ) (ds : ℕ → Option PendingDecision) (r : ℕ) (e : PendingDecision)
    → ds r ≡ some e
    → Keeps r e (abandon m ds)
unfolding abandon
abandon-Keeps none ds r e h = (e, h, refl, λ v. v)
abandon-Keeps (some s) ds r e h = elim (Option-cases (ds s)) [
  | inl gone ↦ rw (gone, abandon) (e, h, refl, λ v. v)
  | inr (d, found) ↦
      rw (found, abandon)
        (update-Keeps r s e d (record d { revoked = true }) ds h found refl (λ v. refl))
]

step-Keeps :
    (a : Authorizer) (c : Call) (r : ℕ) (e : PendingDecision)
    → a.decisions r ≡ some e
    → r < a.next
    → Keeps r e (step a c).decisions
unfolding step revoke_key invalidate
step-Keeps a (asks now k) r e h n = authorize_key-Keeps now k a r e h n
step-Keeps a (responds now s v) r e h n = answer-Keeps now s v (a.decisions s) a r e h refl
step-Keeps a (revokes k) r e h n = abandon-Keeps (get k a.pending_decisions) a.decisions r e h
step-Keeps a invalidates r e h n = (e, h, refl, λ v. v)

decide-generation :
    (s : ℕ) (d : PendingDecision) (m : Result Normalized) (a : Authorizer)
    → (decide s d m a).generation ≡ a.generation
unfolding decide take_effect settle_promise
decide-generation s d (err t) a = refl
decide-generation s d (ok n) a = elim (Bool-cases (is_stale d a)) [
  | inl stale ↦ rw (stale, decide) refl
  | inr current ↦ rw (current, decide) (by n.decision refl)
]
  where
    by : (c : Decision) → n.decision ≡ c → (take_effect s d n a).generation ≡ a.generation
    by allow q = rw (q, take_effect) refl
    by deny q = rw (q, take_effect) refl

answer-generation :
    (now s : ℕ) (v : Response) (m : Option PendingDecision) (a : Authorizer)
    → (answer now s v m a).generation ≡ a.generation
unfolding answer conclude respond forget_pending
answer-generation now s v none a = refl
answer-generation now s v (some d) a = elim (Option-cases d.promise) [
  | inr (x, done) ↦ rw (done, answer) refl
  | inl p ↦ rw (p, answer) (by v)
]
  where
    by : (w : Response) → (respond now s d w a).generation ≡ a.generation
    by (failed t) = decide-generation s d (err t) a
    by (gave o) = decide-generation s d (normalize_authorization_result a.options now o) a

authorize_key-generation :
    (now : ℕ) (k : Text) (a : Authorizer) → (authorize_key now k a).0.generation ≡ a.generation
unfolding authorize_key share ask
authorize_key-generation now k a = elim (Bool-cases (is_live k now a.allowed_pairs).0) [
  | inl granted ↦ rw (granted, authorize_key) refl
  | inr not_allowed ↦ elim (Bool-cases (is_live k now a.denied_pairs).0) [
    | inl denied ↦ rw (not_allowed, authorize_key, denied) refl
    | inr unknown ↦ elim (Option-cases (get k a.pending_decisions)) [
      | inl gone ↦ rw (not_allowed, authorize_key, unknown, gone, share) refl
      | inr (t, found) ↦ rw (not_allowed, authorize_key, unknown, found, share) refl
    ]
  ]
]

step-generation : (a : Authorizer) (c : Call) → a.generation ≤ (step a c).generation
unfolding step revoke_key invalidate
step-generation a (asks now k) = omega (arith, authorize_key-generation now k a)
step-generation a (responds now s v) = omega (arith, answer-generation now s v (a.decisions s) a)
step-generation a (revokes k) = omega arith
step-generation a invalidates = omega arith

step-Stale :
    (a : Authorizer) (c : Call) (r : ℕ) (e : PendingDecision)
    → IsSound a
    → a.decisions r ≡ some e
    → Stale e a
    → (d : PendingDecision) × ((step a c).decisions r ≡ some d) × Stale d (step a c)
step-Stale a c r e s h stale =
    let (d, found, g, v) = step-Keeps a c r e h (s.numbered r e h).0 in
    (
      d,
      found,
      elim stale [ inl w ↦ inl (v w) | inr w ↦ inr (omega (arith, w, g, step-generation a c)) ],
    )

run-Stale :
    (a : Authorizer) (cs : List Call) (r : ℕ) (e : PendingDecision)
    → IsSound a
    → a.decisions r ≡ some e
    → Stale e a
    → (d : PendingDecision) × ((run a cs).decisions r ≡ some d) × Stale d (run a cs)
unfolding run
run-Stale a [] r e s h stale = (e, h, stale)
run-Stale a (c ∷ cs) r e s h stale =
    let (d, found, later) = step-Stale a c r e s h stale in
    run-Stale (step a c) cs r d (step-IsSound a c s) found later

-- What an answer to a stale decision does: nothing to the caches, and it does not grant.
abbrev pub Ignored : ℕ → Authorizer → Authorizer → Type 0
Ignored r before after =
    (after.allowed_pairs ≡ before.allowed_pairs)
    × (after.denied_pairs ≡ before.denied_pairs)
    × ((d : PendingDecision) → after.decisions r ≡ some d → d.promise ≢ some (resolved true))

settled-Ignored :
    (r : ℕ) (e : PendingDecision) (x : Settled) (a : Authorizer)
    → x ≢ resolved true
    → Ignored r a (forget_pending r e.key (settle_promise r e x a))
unfolding forget_pending settle_promise
settled-Ignored r e x a n = (
  refl,
  refl,
  λ d h p. n (
      some_injective (
        ap (λ (z : PendingDecision). z.promise)
          (some_injective
            (sym (update-same r (some (record e { promise = some x })) a.decisions) ∙ h))
        ∙ p)),
)

decide-Ignored :
    (r : ℕ) (e : PendingDecision) (m : Result Normalized) (a : Authorizer)
    → Stale e a
    → Ignored r a (forget_pending r e.key (decide r e m a))
unfolding decide
decide-Ignored r e (err t) a stale = settled-Ignored r e (rejected t) a (λ q. cc)
decide-Ignored r e (ok n) a stale =
    let old : is_stale e a ≡ true = elim stale [
      | inl w ↦ ground (arith, w)
      | inr w ↦ ground (arith, w)
    ] in
    rw (old, decide) (settled-Ignored r e (resolved false) a (λ q. cc))

answer-Ignored :
    (now r : ℕ) (v : Response) (e : PendingDecision) (a : Authorizer)
    → e.promise ≡ none
    → Stale e a
    → Ignored r a (answer now r v (some e) a)
unfolding answer conclude respond
answer-Ignored now r v e a p stale = rw (p, answer) (by v)
  where
    by : (w : Response) → Ignored r a (forget_pending r e.key (respond now r e w a))
    by (failed t) = decide-Ignored r e (err t) a stale
    by (gave o) = decide-Ignored r e (normalize_authorization_result a.options now o) a stale

-- The call revokes the pair, or invalidates all decisions.
abbrev pub Withdraws : Text → Call → Type 0
Withdraws k (revokes j) = j ≡ k
Withdraws k invalidates = Unit
Withdraws k (asks now j) = ⊥
Withdraws k (responds now r v) = ⊥

revoke_key-Stale :
    (a : Authorizer) (r : ℕ) (e : PendingDecision)
    → a.decisions r ≡ some e
    → get e.key a.pending_decisions ≡ some r
    → (d : PendingDecision) × ((revoke_key e.key a).0.decisions r ≡ some d)
      × Stale d (revoke_key e.key a).0
unfolding revoke_key abandon
revoke_key-Stale a r e found mine =
    rw (mine, revoke_key)
      (rw (found, abandon)
        (
          record e { revoked = true },
          update-same r (some (record e { revoked = true })) a.decisions,
          inl refl,
        ))

withdrawn-Stale :
    (a : Authorizer) (c : Call) (r : ℕ) (e : PendingDecision)
    → IsSound a
    → a.decisions r ≡ some e
    → e.promise ≡ none
    → Withdraws e.key c
    → (d : PendingDecision) × ((step a c).decisions r ≡ some d) × Stale d (step a c)
unfolding step invalidate
withdrawn-Stale a (asks now k) r e s h p w = absurd w
withdrawn-Stale a (responds now t v) r e s h p w = absurd w
withdrawn-Stale a invalidates r e s h p w = (e, h, inr (omega (arith, (s.numbered r e h).1)))
withdrawn-Stale a (revokes k) r e s h p w = elim (Bool-cases e.revoked) [
  | inl gone ↦ step-Stale a (revokes k) r e s h (inl gone)
  | inr current ↦
      subst
        (λ j.
          (d : PendingDecision) × ((step a (revokes j)).decisions r ≡ some d)
          × Stale d (step a (revokes j)))
        (sym w) (revoke_key-Stale a r e h (s.known r e h p current))
]

-- A decision is in flight when its pair is revoked, or all decisions are invalidated. Whenever its
-- callback answers after that, and whatever it answers, neither cache changes and the requests that
-- wait for it are not granted.
pub late_answer :
    (o : Options) (before after : List Call) (c : Call) (now r : ℕ) (v : Response)
    (e d : PendingDecision)
    → (run (new_authorizer o) before).decisions r ≡ some e
    → e.promise ≡ none
    → Withdraws e.key c
    → (run (step (run (new_authorizer o) before) c) after).decisions r ≡ some d
    → d.promise ≡ none
    → Ignored r
        (run (step (run (new_authorizer o) before) c) after)
        (step (run (step (run (new_authorizer o) before) c) after) (responds now r v))
unfolding step
late_answer o before after c now r v e d found p w later q =
    let s = history-IsSound o before in
    let (f, ff, g) = withdrawn-Stale (run (new_authorizer o) before) c r e s found p w in
    let (h, fh, stale) =
      run-Stale (step (run (new_authorizer o) before) c) after r f
        (step-IsSound (run (new_authorizer o) before) c s) ff g in
    let one : h ≡ d = some_injective (sym fh ∙ later) in
    subst
      (λ m.
        Ignored r (run (step (run (new_authorizer o) before) c) after)
          (answer now r v m (run (step (run (new_authorizer o) before) c) after)))
      (sym later)
      (answer-Ignored now r v d (run (step (run (new_authorizer o) before) c) after) q
        (subst (λ z. Stale z (run (step (run (new_authorizer o) before) c) after)) one stale))
