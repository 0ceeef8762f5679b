-- ===== src/Host/Authorizer/Tests.antt =====
-- Runs of the authorizer.
use verser.Base.{ℕ, ◌≡◌, refl, Text, true, false, List, [], ◌∷◌, some, none, arith, text_eq}
use verser.Base.Dict.{get, set, delete}
use verser.Js.{codes}
use verser.Host.LeasePool.{update}
use verser.Host.Authorizer.{
  Authorizer, PendingDecision, Options, at_once, waits_for, legacy, gave, resolved, new_authorizer,
  authorize_key, invalidate,
}
use verser.Host.Authorizer.Calls.{Call, asks, responds, revokes, invalidates, step, run}
use verser.Host.Authorizer.Invariant.{IsSound}
use verser.Host.Authorizer.Sound.{history-IsSound, single_flight}
use verser.Host.Authorizer.Late.{Ignored, late_answer}
use verser.Host.Authorizer.Shared.{invalidated_then_asked}
use verser.Host.Authorizer.Verdicts.{verdict, after, effect, step-refines}
use verser.Host.Authorizer.Answers.{Answered, authorize_key_lem}

abbrev ttls : Options
ttls = record { allow_ttl_ms = 100; deny_ttl_ms = 10 }

abbrev pair : Text
pair = 97 ∷ 0 ∷ 98 ∷ []

abbrev says : Text → Call
says t = responds 5 0 (gave (legacy t))

-- A request at 1, whose callback allows at 5.
abbrev allowed_at_5 : List Call
allowed_at_5 = asks 1 pair ∷ says (codes "allow") ∷ []

abbrev after_allow : Authorizer
after_allow = run (new_authorizer ttls) allowed_at_5

allowed_until_105 :
    ((authorize_key 104 pair after_allow).1 ≡ at_once true)
    × ((authorize_key 105 pair after_allow).1 ≡ waits_for 1)
unfolding run new_authorizer authorize_key get set delete update text_eq
allowed_until_105 = (refl, refl)

history-IsSound_example : IsSound (run (new_authorizer ttls) allowed_at_5)
history-IsSound_example = history-IsSound ttls allowed_at_5

abbrev in_flight : PendingDecision
in_flight = record { key = pair; generation = 0; revoked = false; promise = none }

single_flight_example : ◌≡◌ {A = ℕ} 0 0
unfolding run step authorize_key new_authorizer get set update text_eq
single_flight_example =
    single_flight ttls (asks 1 pair ∷ asks 2 pair ∷ []) 0 0 in_flight in_flight refl refl refl refl
      refl refl refl

late_answer_example :
    Ignored 0
      (run (step (run (new_authorizer ttls) (asks 1 pair ∷ [])) invalidates) (asks 3 pair ∷ []))
      (step
        (run (step (run (new_authorizer ttls) (asks 1 pair ∷ [])) invalidates) (asks 3 pair ∷ []))
        (says (codes "allow")))
unfolding run step authorize_key new_authorizer invalidate get set update text_eq
late_answer_example =
    late_answer ttls (asks 1 pair ∷ []) (asks 3 pair ∷ []) invalidates 5 0
      (gave (legacy (codes "allow"))) in_flight in_flight refl refl tt refl refl

invalidated_then_asked_example :
    ((authorize_key 3 pair (invalidate (run (new_authorizer ttls) (asks 1 pair ∷ [])))).1
      ≡ waits_for 0)
    × (e : PendingDecision) × ((step
            (authorize_key 3 pair (invalidate (run (new_authorizer ttls) (asks 1 pair ∷ [])))).0
            (says (codes "allow"))).decisions
          0
        ≡ some e)
    × (e.promise ≡ some (resolved false))
unfolding run step authorize_key new_authorizer get set update text_eq
invalidated_then_asked_example = invalidated_then_asked ttls (asks 1 pair ∷ []) 3 5 pair 0 refl

step-refines_example :
    verdict (step (run (new_authorizer ttls) allowed_at_5) (revokes pair)) pair 6
    ≡ after
        (effect (revokes pair) (run (new_authorizer ttls) allowed_at_5))
        (verdict (run (new_authorizer ttls) allowed_at_5))
        pair
        6
step-refines_example = step-refines ttls allowed_at_5 (revokes pair) pair 6 (omega arith)

authorize_key_lem_example :
    Answered 6 pair
      (run (new_authorizer ttls) allowed_at_5)
      (authorize_key 6 pair (run (new_authorizer ttls) allowed_at_5)).0
      (authorize_key 6 pair (run (new_authorizer ttls) allowed_at_5)).1
authorize_key_lem_example = authorize_key_lem ttls allowed_at_5 6 pair
