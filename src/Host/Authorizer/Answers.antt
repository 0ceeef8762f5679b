-- ===== src/Host/Authorizer/Answers.antt =====
-- What requests are answered, by the table of verdicts.
use verser.Base.{
  ℕ, ◌≡◌, refl, sym, ap, ◌∙◌, inl, inr, Text, Bool, false, List, none, some, arith, Bool-cases,
  Option-cases,
}
use verser.Base.Dict.{get}
use verser.Host.Authorizer.{
  Authorizer, PendingDecision, Options, Answer, at_once, waits_for, new_authorizer, is_live, ask,
  share, authorize_key,
}
use verser.Host.Authorizer.Maps.{is_live-Fewer, update-same}
use verser.Host.Authorizer.Calls.{Call, run}
use verser.Host.Authorizer.Invariant.{shrunk-IsSound, IsSound}
use verser.Host.Authorizer.Sound.{history-IsSound}
use verser.Host.Authorizer.Verdicts.{live, verdict_of, verdict, is_live-now}

-- What a request is answered, by the table: the verdict, or the promise of a decision that is in
-- flight for the pair and not revoked.
abbrev pub Answered : ℕ → Text → Authorizer → Authorizer → Answer → Type 0
Answered now k before result (at_once b) = verdict before k now ≡ some b
Answered now k before result (waits_for r) =
    (verdict before k now ≡ none)
    × (e : PendingDecision) × (result.decisions r ≡ some e)
    × (e.key ≡ k)
    × (e.revoked ≡ false)
    × (e.promise ≡ none)

share-Answered :
    (now : ℕ) (k : Text) (a b : Authorizer)
    → verdict a k now ≡ none
    → IsSound b
    → Answered now k a (share k b).0 (share k b).1
unfolding share ask
share-Answered now k a b u s = elim (Option-cases (get k b.pending_decisions)) [
  | inr (r, found) ↦
      let (e, f, key, v, p) = s.pending k r found in rw (found, share) (u, e, f, key, v, p)
  | inl gone ↦
      rw (gone, share)
        (
          u,
          record { key = k; generation = b.generation; revoked = false; promise = none },
          update-same b.next
              (some
                (record { key = k; generation = b.generation; revoked = false; promise = none }))
              b.decisions,
          refl,
          refl,
          refl,
        )
]

authorize_key-Answered :
    (now : ℕ) (k : Text) (a : Authorizer)
    → IsSound a
    → Answered now k a (authorize_key now k a).0 (authorize_key now k a).1
unfolding authorize_key
authorize_key-Answered now k a s = elim (Bool-cases (is_live k now a.allowed_pairs).0) [
  | inl allowed ↦
      rw (allowed, authorize_key)
        (by_caches (sym (is_live-now k now a.allowed_pairs) ∙ allowed) refl)
  | inr not_allowed ↦
      let lapsed_allow = sym (is_live-now k now a.allowed_pairs) ∙ not_allowed in
      elim (Bool-cases (is_live k now a.denied_pairs).0) [
        | inl denied ↦
            rw (not_allowed, authorize_key, denied)
              (by_caches lapsed_allow (sym (is_live-now k now a.denied_pairs) ∙ denied))
        | inr unknown ↦
            rw (not_allowed, authorize_key, unknown)
              (share-Answered now k a
                (record a {
                  allowed_pairs = (is_live k now a.allowed_pairs).1;
                  denied_pairs = (is_live k now a.denied_pairs).1;
                })
                (by_caches lapsed_allow (sym (is_live-now k now a.denied_pairs) ∙ unknown))
                (shrunk-IsSound a (is_live k now a.allowed_pairs).1 (is_live k now a.denied_pairs).1
                  a.generation s (is_live-Fewer k now a.allowed_pairs)
                  (is_live-Fewer k now a.denied_pairs) (omega arith)))
      ]
]
  where
    by_caches :
        {x y : Bool}
        → live now (get k a.allowed_pairs) ≡ x
        → live now (get k a.denied_pairs) ≡ y
        → verdict a k now ≡ verdict_of x y
    by_caches {x} {y} p q =
        unfold verdict in
        ap (λ z. verdict_of z (live now (get k a.denied_pairs))) p ∙ ap (verdict_of x) q

-- After any history of a new authorizer, a request is answered at once with the verdict of the table,
-- and where there is none it waits for a decision that is in flight for its pair and not revoked.
pub authorize_key_lem :
    (o : Options) (cs : List Call) (now : ℕ) (k : Text)
    → Answered now k
        (run (new_authorizer o) cs)
        (authorize_key now k (run (new_authorizer o) cs)).0
        (authorize_key now k (run (new_authorizer o) cs)).1
authorize_key_lem o cs now k =
    authorize_key-Answered now k (run (new_authorizer o) cs) (history-IsSound o cs)
