-- ===== src/Host/Authorizer/Shared.antt =====
-- A request that comes after an invalidation and finds an older decision in flight.
use verser.Base.{text_eq, ℕ, ◌<◌, ◌≡◌, refl, ap, ◌∙◌, Text, true, false, List, none, some, arith}
use verser.Base.Dict.{get}
use verser.Js.{codes}
use verser.Errors.{ok}
use verser.Host.Authorizer.{
  Authorizer, PendingDecision, Options, waits_for, legacy, gave, resolved, new_authorizer, is_live,
  share, authorize_key, Normalized, settle_promise, is_stale, decide, respond, forget_pending,
  conclude, invalidate, normalize_authorization_result, normalize_decision, expiry, class_expiry,
  allow,
}
use verser.Host.Authorizer.Maps.{update-same}
use verser.Host.Authorizer.Calls.{Call, responds, answer, step, run}
use verser.Host.Authorizer.Sound.{history-IsSound}

shares :
    (now : ℕ) (k : Text) (a : Authorizer) (r : ℕ)
    → get k a.pending_decisions ≡ some r
    → authorize_key now k (invalidate a) ≡ (invalidate a, waits_for r)
unfolding authorize_key invalidate is_live share get
shares now k a r mine = rw (mine, share) refl

allowed-Normalized :
    (o : Options) (now : ℕ)
    → (n : Normalized) × (normalize_authorization_result o now (legacy (codes "allow")) ≡ ok n)
unfolding normalize_authorization_result normalize_decision expiry text_eq
allowed-Normalized o now =
    (record { decision = allow; expires_at = class_expiry o now allow }, refl)

old_is_refused :
    (later r : ℕ) (e : PendingDecision) (a : Authorizer)
    → a.decisions r ≡ some e
    → e.promise ≡ none
    → e.generation < a.generation
    → (step a (responds later r (gave (legacy (codes "allow"))))).decisions r
      ≡ some (record e { promise = some (resolved false) })
unfolding step answer conclude respond forget_pending decide settle_promise
old_is_refused later r e a found p old =
    let (n, normal) = allowed-Normalized a.options later in
    let stale : is_stale e a ≡ true = ground (arith, old) in
    rw (found, answer, p)
      (rw (normal, decide, stale)
        (update-same r (some (record e { promise = some (resolved false) })) a.decisions))

-- After any history of a new authorizer in which a decision is pending for a pair, a request that comes
-- after an invalidation waits for that decision too; and it is refused by it also where the callback
-- allows the pair.
pub invalidated_then_asked :
    (o : Options) (cs : List Call) (now later : ℕ) (k : Text) (r : ℕ)
    → get k (run (new_authorizer o) cs).pending_decisions ≡ some r
    → ((authorize_key now k (invalidate (run (new_authorizer o) cs))).1 ≡ waits_for r)
      × (e : PendingDecision) × ((step
              (authorize_key now k (invalidate (run (new_authorizer o) cs))).0
              (responds later r (gave (legacy (codes "allow"))))).decisions
            r
          ≡ some e)
      × (e.promise ≡ some (resolved false))
unfolding invalidate
invalidated_then_asked o cs now later k r mine =
    let s = history-IsSound o cs in
    let (e, found, _, _, p) = s.pending k r mine in
    let same = shares now k (run (new_authorizer o) cs) r mine in
    (
      ap (λ x. x.1) same,
      record e { promise = some (resolved false) },
      ap (λ x. (step x.0 (responds later r (gave (legacy (codes "allow"))))).decisions r) same
          ∙ old_is_refused later r e (invalidate (run (new_authorizer o) cs)) found p
              (omega (arith, (s.numbered r e found).1)),
      refl,
    )
