-- ===== src/Host/Authorizer/Verdicts.antt =====
-- What the authorizer promises: a table of verdicts by pair and time. The caches drop an entry that has
-- lapsed when it is looked up, which the table does not show.
use verser.Base.{
  ℕ, ◌≤◌, ◌≡◌, refl, sym, ap, ◌∙◌, inl, inr, Text, Bool, true, false, not, List, Option, none, some,
  if◌then◌else◌, text_eq, text_eq_iff, arith, Bool-cases, Option-cases,
}
use verser.Base.Dict.{Dict, get, set, delete, get-set, get-delete, get-delete_self}
use verser.Errors.{Result, ok, err}
use verser.Host.Authorizer.{
  Authorizer, PendingDecision, Options, ExpiresAt, at, never, Normalized, allow, deny, Decision,
  Response, gave, failed, new_authorizer, is_live, ask, share, authorize_key, has_lapsed,
  insert_expiry, settle_promise, take_effect, is_stale, decide, respond, forget_pending, conclude,
  revoke_key, invalidate, normalize_authorization_result,
}
use verser.Host.Authorizer.Calls.{Call, asks, responds, revokes, invalidates, answer, step, run}
use verser.Host.Authorizer.Invariant.{IsSound}
use verser.Host.Authorizer.Sound.{history-IsSound}

abbrev pub live : ℕ → Option ExpiresAt → Bool
live t none = false
live t (some e) = not (has_lapsed t e)

abbrev pub verdict_of : Bool → Bool → Option Bool
verdict_of allowed denied = if allowed then some true else if denied then some false else none

-- Whether the pair is allowed or denied at a time with no call of the callback.
unfoldable pub verdict : Authorizer → Text → ℕ → Option Bool
verdict a k t = verdict_of (live t (get k a.allowed_pairs)) (live t (get k a.denied_pairs))

-- What a call does to the verdicts.
pub data Change : Type 0 where
  nothing : Change
  learns : Text → Bool → Option ExpiresAt → Change
  forgets : Text → Change
  forgets_all : Change

abbrev pub granted : Decision → Bool
granted allow = true
granted deny = false

-- An answer is learnt if it is of the expected form and its decision is still wanted.
unfoldable pub learnt : PendingDecision → Result Normalized → Authorizer → Change
learnt e (err t) a = nothing
learnt e (ok n) a = if is_stale e a then nothing else learns e.key (granted n.decision) n.expires_at

unfoldable pub effect_of_answer : ℕ → Response → Option PendingDecision → Authorizer → Change
unfolding learnt
effect_of_answer now v none a = nothing
effect_of_answer now (failed t) (some e) a = nothing
effect_of_answer now (gave o) (some e) a = elim e.promise [
  | none ↦ learnt e (normalize_authorization_result a.options now o) a
  | some x ↦ nothing
]

unfoldable pub effect : Call → Authorizer → Change
unfolding effect_of_answer
effect (asks now k) a = nothing
effect (responds now r v) a = effect_of_answer now v (a.decisions r) a
effect (revokes k) a = forgets k
effect invalidates a = forgets_all

abbrev pub verdict_until : Bool → ℕ → Option ExpiresAt → Option Bool → Option Bool
verdict_until b t none old = old
verdict_until b t (some e) old = if has_lapsed t e then none else some b

-- The table of verdicts after an effect.
abbrev pub after : Change → (Text → ℕ → Option Bool) → Text → ℕ → Option Bool
after nothing table k t = table k t
after (learns j b until) table k t =
    if text_eq j k then verdict_until b t until (table k t) else table k t
after (forgets j) table k t = if text_eq j k then none else table k t
after forgets_all table k t = none

is_live-live :
    (k j : Text) (now t : ℕ) (d : Dict ExpiresAt)
    → now ≤ t
    → live t (get j (is_live k now d).1) ≡ live t (get j d)
unfolding is_live
is_live-live k j now t d h = elim (Option-cases (get k d)) [
  | inl gone ↦ rw (gone, is_live) refl
  | inr (e, found) ↦ elim (Bool-cases (has_lapsed now e)) [
    | inr early ↦ rw (found, is_live, early) refl
    | inl late ↦
        rw (found, is_live, late)
          (elim (Bool-cases (text_eq k j)) [
            | inl y ↦
                let q : k ≡ j = ground (arith, y, text_eq_iff k j) in
                ap (λ i. live t (get i (delete k d))) (sym q)
                ∙ ap (live t) (get-delete_self k d)
                ∙ sym (
                    ap (λ i. live t (get i d)) (sym q) ∙ ap (live t) found ∙ ap not (lapses e late))
            | inr n ↦ ap (live t) (ground (arith, get-delete k j d, n))
          ])
  ]
]
  where
    lapses : (e : ExpiresAt) → has_lapsed now e ≡ true → has_lapsed t e ≡ true
    lapses (at u) late = ground (arith, late, h)
    lapses never late = late

pub is_live-now :
    (k : Text) (now : ℕ) (d : Dict ExpiresAt) → (is_live k now d).0 ≡ live now (get k d)
unfolding is_live
is_live-now k now d = elim (Option-cases (get k d)) [
  | inl gone ↦ rw (gone, is_live) refl
  | inr (e, found) ↦ elim (Bool-cases (has_lapsed now e)) [
    | inr early ↦ rw (found, is_live, early) refl
    | inl late ↦ rw (found, is_live, late) refl
  ]
]

verdict-eq :
    (a b : Authorizer) (k : Text) (t : ℕ)
    → live t (get k a.allowed_pairs) ≡ live t (get k b.allowed_pairs)
    → live t (get k a.denied_pairs) ≡ live t (get k b.denied_pairs)
    → verdict a k t ≡ verdict b k t
unfolding verdict
verdict-eq a b k t p q =
    ap (λ x. verdict_of x (live t (get k a.denied_pairs))) p
    ∙ ap (verdict_of (live t (get k b.allowed_pairs))) q

share-verdict :
    (j : Text) (a : Authorizer) (k : Text) (t : ℕ) → verdict (share j a).0 k t ≡ verdict a k t
unfolding share ask verdict
share-verdict j a k t = elim (Option-cases (get j a.pending_decisions)) [
  | inl gone ↦ rw (gone, share) refl
  | inr (r, found) ↦ rw (found, share) refl
]

authorize_key-verdict :
    (now : ℕ) (j : Text) (a : Authorizer) (k : Text) (t : ℕ)
    → now ≤ t
    → verdict (authorize_key now j a).0 k t ≡ verdict a k t
unfolding authorize_key
authorize_key-verdict now j a k t h = elim (Bool-cases (is_live j now a.allowed_pairs).0) [
  | inl allowed ↦ rw (allowed, authorize_key) refl
  | inr not_allowed ↦ elim (Bool-cases (is_live j now a.denied_pairs).0) [
    | inl denied ↦
        rw (not_allowed, authorize_key, denied)
          (verdict-eq (record a { allowed_pairs = (is_live j now a.allowed_pairs).1 }) a k t
            (is_live-live j k now t a.allowed_pairs h) refl)
    | inr unknown ↦
        let b : Authorizer = record a {
          allowed_pairs = (is_live j now a.allowed_pairs).1;
          denied_pairs = (is_live j now a.denied_pairs).1;
        } in
        rw (not_allowed, authorize_key, unknown)
          (share-verdict j b k t
            ∙ verdict-eq b a k t (is_live-live j k now t a.allowed_pairs h)
                (is_live-live j k now t a.denied_pairs h))
  ]
]

insert_expiry-live :
    (j k : Text) (o : Option ExpiresAt) (d : Dict ExpiresAt) (t : ℕ)
    → get j d ≡ none
    → live t (get k (insert_expiry j o d)) ≡ (if text_eq j k then live t o else live t (get k d))
unfolding insert_expiry
insert_expiry-live j k none d t gone = elim (Bool-cases (text_eq j k)) [
  | inl y ↦
      rw y
        (ap (λ i. live t (get i d)) (sym (ground (arith, y, text_eq_iff j k))) ∙ ap (live t) gone)
  | inr n ↦ rw n refl
]
insert_expiry-live j k (some e) d t gone = elim (Bool-cases (text_eq j k)) [
  | inl y ↦
      let here : get k (set j e d) ≡ some e = ground (arith, get-set j k e d, y) in
      rw y (ap (live t) here)
  | inr n ↦
      let there : get k (set j e d) ≡ get k d = ground (arith, get-set j k e d, n) in
      rw n (ap (live t) there)
]

-- The verdict of a pair that stands in neither cache before.
module _ (j : Text) (o : Option ExpiresAt) (a : Authorizer) (k : Text) (t : ℕ)
    (ha : get j a.allowed_pairs ≡ none) (hd : get j a.denied_pairs ≡ none) where
  verdict-none : j ≡ k → verdict a k t ≡ none
  unfolding verdict
  verdict-none q =
      ap (λ x. verdict_of (live t x) (live t (get k a.denied_pairs)))
        (ap (λ i. get i a.allowed_pairs) (sym q) ∙ ha)
      ∙ ap (λ x. verdict_of false (live t x)) (ap (λ i. get i a.denied_pairs) (sym q) ∙ hd)

  until-live : (b : Bool) → verdict_until b t o none ≡ (if live t o then some b else none)
  until-live b = elim (Option-cases o) [
    | inl q ↦ rw q refl
    | inr (e, q) ↦ elim (Bool-cases (has_lapsed t e)) [
      | inl l ↦ rw (q, l) refl
      | inr l ↦ rw (q, l) refl
    ]
  ]

  allow-verdict :
      verdict (record a { allowed_pairs = insert_expiry j o a.allowed_pairs }) k t
      ≡ after (learns j true o) (verdict a) k t
  unfolding verdict
  allow-verdict =
      ap (λ x. verdict_of x (live t (get k a.denied_pairs)))
        (insert_expiry-live j k o a.allowed_pairs t ha)
      ∙ elim (Bool-cases (text_eq j k)) [
        | inr n ↦ rw n refl
        | inl y ↦
            let q : j ≡ k = ground (arith, y, text_eq_iff j k) in
            rw y (
              ap (λ x. verdict_of (live t o) (live t x))
                (ap (λ i. get i a.denied_pairs) (sym q) ∙ hd)
              ∙ sym (until-live true)
              ∙ ap (verdict_until true t o) (sym (verdict-none q)))
      ]

  deny-verdict :
      verdict (record a { denied_pairs = insert_expiry j o a.denied_pairs }) k t
      ≡ after (learns j false o) (verdict a) k t
  unfolding verdict
  deny-verdict =
      ap (λ x. verdict_of (live t (get k a.allowed_pairs)) x)
        (insert_expiry-live j k o a.denied_pairs t hd)
      ∙ elim (Bool-cases (text_eq j k)) [
        | inr n ↦ rw n refl
        | inl y ↦
            let q : j ≡ k = ground (arith, y, text_eq_iff j k) in
            rw y (
              ap (λ x. verdict_of (live t x) (live t o))
                (ap (λ i. get i a.allowed_pairs) (sym q) ∙ ha)
              ∙ sym (until-live false)
              ∙ ap (verdict_until false t o) (sym (verdict-none q)))
      ]

take_effect-verdict :
    (r : ℕ) (e : PendingDecision) (n : Normalized) (a : Authorizer) (k : Text) (t : ℕ)
    → get e.key a.allowed_pairs ≡ none
    → get e.key a.denied_pairs ≡ none
    → verdict (forget_pending r e.key (take_effect r e n a)) k t
      ≡ after (learns e.key (granted n.decision) n.expires_at) (verdict a) k t
unfolding forget_pending take_effect settle_promise verdict
take_effect-verdict r e n a k t ha hd = by n.decision refl
  where
    by :
        (d : Decision)
        → n.decision ≡ d
        → verdict (forget_pending r e.key (take_effect r e n a)) k t
          ≡ after (learns e.key (granted n.decision) n.expires_at) (verdict a) k t
    by allow q =
        ap
          (λ d.
            verdict (forget_pending r e.key (take_effect r e (record n { decision = d }) a)) k t)
          q
        ∙ allow-verdict e.key n.expires_at a k t ha hd
        ∙ ap (λ d. after (learns e.key (granted d) n.expires_at) (verdict a) k t) (sym q)
    by deny q =
        ap
          (λ d.
            verdict (forget_pending r e.key (take_effect r e (record n { decision = d }) a)) k t)
          q
        ∙ deny-verdict e.key n.expires_at a k t ha hd
        ∙ ap (λ d. after (learns e.key (granted d) n.expires_at) (verdict a) k t) (sym q)

decide-verdict :
    (r : ℕ) (e : PendingDecision) (m : Result Normalized) (a : Authorizer) (k : Text) (t : ℕ)
    → IsSound a
    → a.decisions r ≡ some e
    → e.promise ≡ none
    → verdict (forget_pending r e.key (decide r e m a)) k t ≡ after (learnt e m a) (verdict a) k t
unfolding decide forget_pending settle_promise learnt verdict
decide-verdict r e (err x) a k t s found p = refl
decide-verdict r e (ok n) a k t s found p = elim (Bool-cases (is_stale e a)) [
  | inl stale ↦ rw (stale, decide, learnt) refl
  | inr current ↦
      let mine = s.known r e found p (ground (arith, current)) in
      rw (current, decide, learnt)
        (take_effect-verdict r e n a k t (s.uncached e.key r mine).0 (s.uncached e.key r mine).1)
]

answer-verdict :
    (now r : ℕ) (v : Response) (m : Option PendingDecision) (a : Authorizer) (k : Text) (t : ℕ)
    → IsSound a
    → a.decisions r ≡ m
    → verdict (answer now r v m a) k t ≡ after (effect_of_answer now v m a) (verdict a) k t
unfolding answer conclude respond effect_of_answer
answer-verdict now r v none a k t s found = refl
answer-verdict now r (failed x) (some e) a k t s found = elim (Option-cases e.promise) [
  | inr (y, done) ↦ rw (done, answer) refl
  | inl p ↦ rw (p, answer) (decide-verdict r e (err x) a k t s found p)
]
answer-verdict now r (gave o) (some e) a k t s found = elim (Option-cases e.promise) [
  | inr (y, done) ↦ rw (done, answer, effect_of_answer) refl
  | inl p ↦
      rw (p, answer, effect_of_answer)
        (decide-verdict r e (normalize_authorization_result a.options now o) a k t s found p)
]

delete-live :
    (j k : Text) (d : Dict ExpiresAt) (t : ℕ)
    → live t (get k (delete j d)) ≡ (if text_eq j k then false else live t (get k d))
delete-live j k d t =
    ap (live t) (get-delete j k d)
    ∙ elim (Bool-cases (text_eq j k)) [ inl y ↦ rw y refl | inr n ↦ rw n refl ]

revoke_key-verdict :
    (j : Text) (a : Authorizer) (k : Text) (t : ℕ)
    → verdict (revoke_key j a).0 k t ≡ after (forgets j) (verdict a) k t
unfolding revoke_key verdict
revoke_key-verdict j a k t =
    ap (λ x. verdict_of x (live t (get k (delete j a.denied_pairs))))
      (delete-live j k a.allowed_pairs t)
    ∙ ap (verdict_of (if text_eq j k then false else live t (get k a.allowed_pairs)))
        (delete-live j k a.denied_pairs t)
    ∙ elim (Bool-cases (text_eq j k)) [ inl y ↦ rw y refl | inr n ↦ rw n refl ]

-- When a call is made; only a request looks at the clock before it answers.
abbrev pub made_at : Call → ℕ
made_at (asks now k) = now
made_at (responds now r v) = 0
made_at (revokes k) = 0
made_at invalidates = 0

step-verdict :
    (a : Authorizer) (c : Call) (k : Text) (t : ℕ)
    → IsSound a
    → made_at c ≤ t
    → verdict (step a c) k t ≡ after (effect c a) (verdict a) k t
unfolding step effect invalidate
step-verdict a (asks now j) k t s h = authorize_key-verdict now j a k t h
step-verdict a (responds now r v) k t s h = answer-verdict now r v (a.decisions r) a k t s refl
step-verdict a (revokes j) k t s h = revoke_key-verdict j a k t
step-verdict a invalidates k t s h = unfold verdict get in refl

-- The authorizer implements the table of verdicts: after any history of a new authorizer, a call does
-- to the verdict of each pair, at each time from the call on, what its effect on the table is. A
-- request has no effect, also where it drops lapsed entries; an answer is learnt until it lapses, if
-- it is well formed and its decision neither was revoked nor is of an earlier generation; a revocation
-- forgets the pair and an invalidation all pairs.
pub step-refines :
    (o : Options) (cs : List Call) (c : Call) (k : Text) (t : ℕ)
    → made_at c ≤ t
    → verdict (step (run (new_authorizer o) cs) c) k t
      ≡ after (effect c (run (new_authorizer o) cs)) (verdict (run (new_authorizer o) cs)) k t
step-refines o cs c k t h = step-verdict (run (new_authorizer o) cs) c k t (history-IsSound o cs) h
