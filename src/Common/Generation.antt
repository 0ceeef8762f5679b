-- ===== src/Common/Generation.antt =====
-- Route generations: `createVerserRouteGeneration` of
-- packages/verser-common/src/lib/route-lifecycle.ts, with a generation id given.
use verser.Base.{
  ℕ, ◌≡◌, refl, zero, suc, ◌+◌, ◌/◌, ◌%◌, Text, [], ◌∷◌, ◌++◌, Option, none, some, false, ltb,
  if◌then◌else◌,
}
use verser.Js.{codes}
use verser.Errors.{Result, ok, throw, protocol_error, text}
use verser.Common.Trim.{trim, trim_end, is_space, trim-present}

pub record Generation : Type 0 where
  pub generation_id : Text
  pub session_id : Option Text

unfoldable pub session_of : Option Text → Option Text
session_of none = none
session_of (some s) = elim (trim s) [ [] ↦ none | c ∷ rest ↦ some (c ∷ rest) ]

unfoldable pub create_verser_route_generation : Text → Option Text → Result Generation
unfolding session_of
create_verser_route_generation generation_id session_id = elim (trim generation_id) [
  | [] ↦
      throw protocol_error "generationId must be a non-empty string"
        (("field", text (codes "generationId")) ∷ [])
  | c ∷ s ↦ ok (record { generation_id = c ∷ s; session_id = session_of session_id })
]

-- `String(n)` of a non-negative integer, with a bound on its digits.
decimal_within : ℕ → ℕ → Text
decimal_within zero n = []
decimal_within (suc fuel) n =
    let more = decimal_within fuel (n / 10) ++ (48 + n % 10) ∷ [] in
    if ltb n 10 then (48 + n) ∷ [] else more

unfoldable pub decimal : ℕ → Text
unfolding decimal_within
decimal n = decimal_within (suc n) n

-- A generation id that starts with no space is accepted.
pub create_generation-ok :
    (c : ℕ) (s : Text) (session : Option Text)
    → is_space c ≡ false
    → (generation : Generation) × (create_verser_route_generation (c ∷ s) session ≡ ok generation)
      × (generation.session_id ≡ session_of session)
unfolding create_verser_route_generation
create_generation-ok c s session h =
    rw (trim-present c s h, create_verser_route_generation)
      (record { generation_id = c ∷ trim_end s; session_id = session_of session }, refl, refl)
