-- ===== src/Host/Authorizer.antt =====
-- Hop-local authorization of forwarded routes: packages/verser2-host/src/lib/route-authorizer.ts. A
-- request for a decision and the answer of the callback are two steps, as what happens in between is
-- what the class is careful about. The time of each call is an argument; the objects of
-- `PendingDecision` are numbered in the order in which they are made, and so are the calls of the
-- callback, which is called once for each of them.
pub mod Calls
pub mod Maps
pub mod Invariant
pub mod Sound
pub mod Late
pub mod Shared
pub mod Verdicts
pub mod Answers
mod Tests
use verser.Base.{
  String, ℕ, zero, suc, ◌+◌, Text, Bool, true, false, not, ◌&&◌, ◌||◌, List, [], ◌∷◌, ◌++◌, Option,
  none, some, leb, ltb, ◌==◌, if◌then◌else◌, text_eq, length,
}
use verser.Base.Dict.{Dict, get, set, delete, has}
use verser.Js.{JsNumber, nat, negative, other, codes, max_safe_integer}
use verser.Common.Domain.{normalize_verser_route_domain}
use verser.Errors.{
  ContextValue, text, undefined, Thrown, typed, Result, ok, err, ◌>>=◌, throw, create_verser_error,
  protocol_error,
}
use verser.Host.LeasePool.{update}

pub data Decision : Type 0 where
  allow deny : Decision

-- The absolute time at which a cached decision lapses, `never` for `Number.POSITIVE_INFINITY`.
pub data ExpiresAt : Type 0 where
  at : ℕ → ExpiresAt
  never : ExpiresAt

-- The `cacheTtlMs` of a result: not there or undefined, infinite, another number, or no number.
pub data Ttl : Type 0 where
  unset infinite : Ttl
  finite : JsNumber → Ttl
  not_a_number : Ttl

-- The `decision` of a result: a string, or another value.
pub data Said : Type 0 where
  word : Text → Said
  no_word : Said

-- What the callback returns: a string, an object that is no array, or another value.
pub data Outcome : Type 0 where
  legacy : Text → Outcome
  result : Said → Ttl → Outcome
  other_value : Outcome

pub record Options : Type 0 where
  pub allow_ttl_ms : ℕ
  pub deny_ttl_ms : ℕ

pub record Normalized : Type 0 where
  pub decision : Decision
  pub expires_at : Option ExpiresAt

abbrev pub decision_from : Text → Option Decision
decision_from t =
    if text_eq t (codes "allow")
    then some allow
    else if text_eq t (codes "deny")
    then some deny
    else none

invalid_decision {ℓ} : {A : Type ℓ} → List (String × ContextValue) → Result A
unfolding create_verser_error
invalid_decision context =
    throw protocol_error "Route authorizer returned a missing or invalid decision" context

invalid_ttl {ℓ} : {A : Type ℓ} → Result A
unfolding create_verser_error
invalid_ttl =
    throw protocol_error
      "Route authorizer cacheTtlMs must be 0, a positive safe integer, or Number.POSITIVE_INFINITY"
      []

unsafe_expiry {ℓ} : {A : Type ℓ} → Result A
unfolding create_verser_error
unsafe_expiry =
    throw protocol_error "Route authorizer cacheTtlMs must produce a safe representable expiry" []

class_ttl : Options → Decision → ℕ
class_ttl o allow = o.allow_ttl_ms
class_ttl o deny = o.deny_ttl_ms

pub class_expiry : Options → ℕ → Decision → Option ExpiresAt
unfolding class_ttl
class_expiry o now d = if class_ttl o d == 0 then none else some (at (now + class_ttl o d))

-- The expiry that a decision is cached with.
pub expiry : Options → ℕ → Decision → Ttl → Result (Option ExpiresAt)
unfolding class_expiry invalid_ttl unsafe_expiry
expiry o now d unset = ok (class_expiry o now d)
expiry o now d infinite = ok (some never)
expiry o now d not_a_number = invalid_ttl
expiry o now d (finite (negative n)) = invalid_ttl
expiry o now d (finite (other n)) = invalid_ttl
expiry o now d (finite (nat zero)) = ok none
expiry o now d (finite (nat (suc n))) =
    if ltb max_safe_integer (suc n)
    then invalid_ttl
    else if ltb max_safe_integer (now + suc n)
    then unsafe_expiry
    else ok (some (at (now + suc n)))

pub normalize_decision :
    Options → ℕ → Ttl → List (String × ContextValue) → Option Decision → Result Normalized
unfolding expiry invalid_decision
normalize_decision o now ttl context none = invalid_decision context
normalize_decision o now ttl context (some d) = do
  e ← expiry o now d ttl
  ok (record { decision = d; expires_at = e })

pub normalize_authorization_result : Options → ℕ → Outcome → Result Normalized
unfolding normalize_decision invalid_decision
normalize_authorization_result o now (legacy t) =
    normalize_decision o now unset [] (decision_from t)
normalize_authorization_result o now (result (word t) ttl) =
    normalize_decision o now ttl (("decision", text t) ∷ []) (decision_from t)
normalize_authorization_result o now (result no_word ttl) =
    invalid_decision (("decision", undefined) ∷ [])
normalize_authorization_result o now other_value = invalid_decision []

-- How a promise was settled.
pub data Settled : Type 0 where
  resolved : Bool → Settled
  rejected : Thrown → Settled

pub record PendingDecision : Type 0 where
  pub key : Text
  pub generation : ℕ
  pub revoked : Bool
  pub promise : Option Settled

pub record Authorizer : Type 0 where
  pub options : Options
  pub allowed_pairs : Dict ExpiresAt
  pub denied_pairs : Dict ExpiresAt
  pub pending_decisions : Dict ℕ
  pub generation : ℕ
  pub decisions : ℕ → Option PendingDecision
  pub next : ℕ

pub new_authorizer : Options → Authorizer
new_authorizer o = record {
  options = o;
  allowed_pairs = [];
  denied_pairs = [];
  pending_decisions = [];
  generation = 0;
  decisions = λ r. none;
  next = 0;
}

abbrev pub has_lapsed : ℕ → ExpiresAt → Bool
has_lapsed now (at t) = leb t now
has_lapsed now never = false

pub is_live : Text → ℕ → Dict ExpiresAt → Bool × Dict ExpiresAt
is_live key now cache = elim (get key cache) [
  | none ↦ (false, cache)
  | some e ↦ if has_lapsed now e then (false, delete key cache) else (true, cache)
]

-- What a request gets: a promise that is resolved, or that of a pending decision.
pub data Answer : Type 0 where
  at_once : Bool → Answer
  waits_for : ℕ → Answer

-- A new pending decision, and the call of the callback.
pub ask : Text → Authorizer → Authorizer
ask key a = record a {
  decisions =
      update a.next
        (some (record { key = key; generation = a.generation; revoked = false; promise = none }))
        a.decisions;
  pending_decisions = set key a.next a.pending_decisions;
  next = suc a.next;
}

share : Text → Authorizer → Authorizer × Answer
unfolding ask
share key a = elim (get key a.pending_decisions) [
  | some r ↦ (a, waits_for r)
  | none ↦ (ask key a, waits_for a.next)
]

-- `authorizeHop`, from the key on.
pub authorize_key : ℕ → Text → Authorizer → Authorizer × Answer
unfolding is_live share
authorize_key now key a =
    let allowed = is_live key now a.allowed_pairs in
    let denied = is_live key now a.denied_pairs in
    if allowed.0
    then (a, at_once true)
    else if denied.0
    then (record a { allowed_pairs = allowed.1 }, at_once false)
    else share key (record a { allowed_pairs = allowed.1; denied_pairs = denied.1 })

-- What the callback did: it returned, or threw.
pub data Response : Type 0 where
  gave : Outcome → Response
  failed : Thrown → Response

pub insert_expiry : Text → Option ExpiresAt → Dict ExpiresAt → Dict ExpiresAt
insert_expiry key none cache = cache
insert_expiry key (some e) cache = set key e cache

settle_promise : ℕ → PendingDecision → Settled → Authorizer → Authorizer
settle_promise r e s a = record a {
  decisions = update r (some (record e { promise = some s })) a.decisions;
}

take_effect : ℕ → PendingDecision → Normalized → Authorizer → Authorizer
unfolding insert_expiry settle_promise
take_effect r e n a = elim n.decision [
  | allow ↦
      settle_promise r e (resolved true)
        (record a { allowed_pairs = insert_expiry e.key n.expires_at a.allowed_pairs })
  | deny ↦
      settle_promise r e (resolved false)
        (record a { denied_pairs = insert_expiry e.key n.expires_at a.denied_pairs })
]

abbrev pub is_stale : PendingDecision → Authorizer → Bool
is_stale e a = e.revoked || not (e.generation == a.generation)

decide : ℕ → PendingDecision → Result Normalized → Authorizer → Authorizer
unfolding take_effect settle_promise
decide r e (err t) a = settle_promise r e (rejected t) a
decide r e (ok n) a =
    if is_stale e a then settle_promise r e (resolved false) a else take_effect r e n a

respond : ℕ → ℕ → PendingDecision → Response → Authorizer → Authorizer
unfolding decide normalize_authorization_result
respond now r e (failed t) a = decide r e (err t) a
respond now r e (gave o) a = decide r e (normalize_authorization_result a.options now o) a

-- The `finally` of the callback: the decision is forgotten if the key still leads to it.
pub without : ℕ → Text → Dict ℕ → Dict ℕ
without r key d = elim (get key d) [ none ↦ d | some s ↦ if s == r then delete key d else d ]

forget_pending : ℕ → Text → Authorizer → Authorizer
unfolding without
forget_pending r key a = record a { pending_decisions = without r key a.pending_decisions }

-- What happens when the callback of a decision has returned or thrown.
pub conclude : ℕ → ℕ → PendingDecision → Response → Authorizer → Authorizer
unfolding respond forget_pending
conclude now r e v a = forget_pending r e.key (respond now r e v a)

-- `pending.revoked = true`, where there is a pending decision.
abandon : Option ℕ → (ℕ → Option PendingDecision) → ℕ → Option PendingDecision
abandon none ds = ds
abandon (some r) ds = elim (ds r) [
  | none ↦ ds
  | some e ↦ update r (some (record e { revoked = true })) ds
]

-- `revokePair`, from the key on.
pub revoke_key : Text → Authorizer → Authorizer × Bool
unfolding abandon
revoke_key key a = (
  record a {
    decisions = abandon (get key a.pending_decisions) a.decisions;
    pending_decisions = delete key a.pending_decisions;
    allowed_pairs = delete key a.allowed_pairs;
    denied_pairs = delete key a.denied_pairs;
  },
  has key a.allowed_pairs || has key a.denied_pairs || has key a.pending_decisions,
)

pub invalidate : Authorizer → Authorizer
invalidate a = record a { generation = suc a.generation; allowed_pairs = []; denied_pairs = [] }

-- The entries that have not lapsed.
abbrev pub live_count : ℕ → Dict ExpiresAt → ℕ
live_count now [] = 0
live_count now ((key, e) ∷ cache) = (if has_lapsed now e then 0 else 1) + live_count now cache

unfoldable pub cached_allow_count : ℕ → Authorizer → ℕ
cached_allow_count now a = live_count now a.allowed_pairs

unfoldable pub cached_deny_count : ℕ → Authorizer → ℕ
cached_deny_count now a = live_count now a.denied_pairs

unfoldable pub pending_decision_count : Authorizer → ℕ
pending_decision_count a = length a.pending_decisions

pub record Pair : Type 0 where
  pub previous_advertised_domain : Text
  pub next_selected_domain : Text

module _ (to_lower_case : Text → Text) (url_hostname : Text → Option Text) where
  unfoldable pub federated_route_authorization_pair_key : Pair → Text
  federated_route_authorization_pair_key p =
      normalize_verser_route_domain to_lower_case url_hostname p.previous_advertised_domain
      ++ 0 ∷ normalize_verser_route_domain to_lower_case url_hostname p.next_selected_domain

  unfoldable pub authorize_hop : ℕ → Pair → Authorizer → Authorizer × Answer
  unfolding authorize_key
  authorize_hop now p a = authorize_key now (federated_route_authorization_pair_key p) a

  unfoldable pub revoke_pair : Pair → Authorizer → Authorizer × Bool
  unfolding revoke_key
  revoke_pair p a = revoke_key (federated_route_authorization_pair_key p) a
