-- ===== src/Host/Authorizer/Calls.antt =====
-- A history of the authorizer: requests, answers of the callback, revocations and invalidations. A
-- request for a pair and its revocation are those for the key of the pair.
use verser.Base.{ℕ, Text, List, [], ◌∷◌, Option, none, some}
use verser.Host.Authorizer.{
  Authorizer, PendingDecision, Response, authorize_key, revoke_key, conclude, invalidate,
}

pub data Call : Type 0 where
  asks : ℕ → Text → Call
  responds : ℕ → ℕ → Response → Call
  revokes : Text → Call
  invalidates : Call

-- The callback of a decision returns or throws once.
unfoldable pub answer : ℕ → ℕ → Response → Option PendingDecision → Authorizer → Authorizer
unfolding conclude
answer now r v none a = a
answer now r v (some e) a = elim e.promise [ none ↦ conclude now r e v a | some s ↦ a ]

unfoldable pub step : Authorizer → Call → Authorizer
unfolding answer authorize_key revoke_key invalidate
step a (asks now key) = (authorize_key now key a).0
step a (responds now r v) = answer now r v (a.decisions r) a
step a (revokes key) = (revoke_key key a).0
step a invalidates = invalidate a

unfoldable pub run : Authorizer → List Call → Authorizer
unfolding step
run a [] = a
run a (c ∷ cs) = run (step a c) cs
