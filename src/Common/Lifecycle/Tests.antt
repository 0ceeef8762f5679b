-- ===== src/Common/Lifecycle/Tests.antt =====
-- The validators of lifecycle events at concrete events.
use verser.Base.{◌≡◌, refl, Text, text_eq, [], ◌∷◌, none, some}
use verser.Js.{codes}
use verser.Errors.{ok}
use verser.Common.Trim.{trim}
use verser.Common.Validate.{require_text}
use verser.Common.Generation.{create_verser_route_generation}
use verser.Common.Lifecycle.{EventInput, LifecycleEvent, create_route_lifecycle_event}
use verser.Common.Lifecycle.Again.{event_input, create_route_lifecycle_event_again}

abbrev padded : Text
padded = 32 ∷ b'd' ∷ 32 ∷ []

abbrev bare : Text
bare = b'd' ∷ []

abbrev added_input : EventInput
added_input = record {
  event_type = codes "added";
  target_id = padded;
  domain = padded;
  reason = none;
  generation = some (none, some padded);
}

abbrev added_event : LifecycleEvent
added_event = record {
  event_type = codes "added";
  target_id = bare;
  domain = bare;
  reason = none;
  generation = some (record { generation_id = b'g' ∷ []; session_id = some bare });
}

added_made : create_route_lifecycle_event (b'g' ∷ []) added_input ≡ ok added_event
unfolding create_route_lifecycle_event text_eq require_text trim create_verser_route_generation
added_made = refl

create_route_lifecycle_event_again_example :
    create_route_lifecycle_event [] (event_input added_event) ≡ ok added_event
create_route_lifecycle_event_again_example =
    create_route_lifecycle_event_again (b'g' ∷ []) [] added_input added_event added_made
