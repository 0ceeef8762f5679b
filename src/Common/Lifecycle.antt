-- ===== src/Common/Lifecycle.antt =====
-- Route lifecycle events and revocations: packages/verser-common/src/lib/route-lifecycle.ts. The
-- generation id that is made from the clock and a random number is an argument.
pub mod Again
mod Tests
use verser.Base.{
  Text, text_eq, Bool, true, false, not, List, [], ◌∷◌, map, Option, none, some, any, if◌then◌else◌,
}
use verser.Js.{codes}
use verser.Errors.{Result, ok, throw, each, ◌>>=◌, protocol_error, revocation_failed, text}
use verser.Common.Validate.{require_text}
use verser.Common.Generation.{Generation, create_verser_route_generation}

pub record EventInput : Type 0 where
  pub event_type : Text
  pub target_id : Text
  pub domain : Text
  pub reason : Option Text
  pub generation : Option (Option Text × Option Text)

pub record LifecycleEvent : Type 0 where
  pub event_type : Text
  pub target_id : Text
  pub domain : Text
  pub reason : Option Text
  pub generation : Option Generation

abbrev pub valid_event_types : List Text
valid_event_types = codes "added" ∷ codes "removed" ∷ codes "changed" ∷ codes "degraded" ∷ []

abbrev pub valid_event_reasons : List Text
valid_event_reasons =
    codes "registered"
    ∷ codes "revoked"
    ∷ codes "disconnected"
    ∷ codes "reconnected"
    ∷ codes "restored"
    ∷ codes "timeout"
    ∷ codes "updated"
    ∷ []

abbrev pub is_one_of : List Text → Text → Bool
is_one_of names t = any (λ n. text_eq n t) names

pub check_event_type : Text → Result Text
check_event_type t =
    if is_one_of valid_event_types t
    then ok t
    else throw protocol_error "Invalid route lifecycle event type" (("type", text t) ∷ [])

pub check_event_reason : Option Text → Result (Option Text)
check_event_reason none = ok none
check_event_reason (some t) =
    if is_one_of valid_event_reasons t
    then ok (some t)
    else throw protocol_error "Invalid route lifecycle event reason" (("reason", text t) ∷ [])

pub event_generation : Text → Option (Option Text × Option Text) → Result (Option Generation)
event_generation fresh none = ok none
event_generation fresh (some (id, session)) = do
  g ← create_verser_route_generation (elim id [ none ↦ fresh | some t ↦ t ]) session
  ok (some g)

pub create_route_lifecycle_event : Text → EventInput → Result LifecycleEvent
unfolding check_event_type check_event_reason event_generation
create_route_lifecycle_event fresh event = do
  kind ← check_event_type event.event_type
  reason ← check_event_reason event.reason
  target ← require_text event.target_id "route lifecycle event targetId"
  domain ← require_text event.domain "route lifecycle event domain"
  generation ← event_generation fresh event.generation
  ok (record {
    event_type = kind;
    target_id = target;
    domain = domain;
    reason = reason;
    generation = generation;
  })

-- Each event of the frame has its own fresh generation id.
unfoldable pub create_broker_route_lifecycle_control_frame :
    List (Text × EventInput) → Result (List LifecycleEvent)
unfolding create_route_lifecycle_event
create_broker_route_lifecycle_control_frame events =
    each (λ e. create_route_lifecycle_event e.0 e.1) events

-- For `domains` that are an array of texts.
pub create_guest_revocation_request : List Text → Result (List Text)
create_guest_revocation_request [] =
    throw revocation_failed "Revocation request must include at least one domain"
      (("domains", text []) ∷ [])
create_guest_revocation_request (d ∷ ds) = each (λ t. require_text t "revocation domain") (d ∷ ds)
