-- ===== src/Common/Lifecycle/Again.antt =====
-- What these validators return, they return again.
use verser.Base.{
  ◌≡◌, refl, sym, ap, ◌∙◌, Text, Bool, true, false, List, [], ◌∷◌, Option, none, some, arith,
  if◌then◌else◌, subst,
}
use verser.Errors.{Thrown, ok, err, each, >>=-eq-ok, ok_injective}
use verser.Common.Trim.{trim, trim_idem}
use verser.Common.Validate.{require_text, require_text-IsName, require_text-name}
use verser.Common.Generation.{Generation, session_of, create_verser_route_generation}
use verser.Common.Lifecycle.{
  is_one_of, valid_event_types, valid_event_reasons, EventInput, LifecycleEvent, check_event_type,
  check_event_reason, event_generation, create_route_lifecycle_event,
  create_guest_revocation_request,
}

require-each :
    (ts us : List Text)
    → each (λ t. require_text t "revocation domain") ts ≡ ok us
    → each (λ t. require_text t "revocation domain") us ≡ ok us
require-each [] us e =
    subst (λ xs. each (λ t. require_text t "revocation domain") xs ≡ ok xs) (ok_injective e) refl
require-each (t ∷ ts) us e =
    let (u, eu, k) = >>=-eq-ok (require_text t "revocation domain") _ e in
    let (vs, evs, m) = >>=-eq-ok (each (λ x. require_text x "revocation domain") ts) _ k in
    subst (λ xs. each (λ x. require_text x "revocation domain") xs ≡ ok xs) (ok_injective m)
      (rw
        (
          require_text-name u "revocation domain" (require_text-IsName t "revocation domain" eu).0,
          require-each ts vs evs,
        )
        refl)

-- The request that `createGuestRevocationRequest` returns has its domains trimmed, and is accepted
-- again unchanged.
pub create_guest_revocation_request_again :
    (ts us : List Text)
    → create_guest_revocation_request ts ≡ ok us
    → create_guest_revocation_request us ≡ ok us
unfolding create_guest_revocation_request
create_guest_revocation_request_again [] us e = absurd (cc)
create_guest_revocation_request_again (t ∷ ts) us e =
    let (u, eu, k) = >>=-eq-ok (require_text t "revocation domain") _ e in
    let (vs, evs, m) = >>=-eq-ok (each (λ x. require_text x "revocation domain") ts) _ k in
    subst (λ xs. create_guest_revocation_request xs ≡ ok xs) (ok_injective m)
      (rw
        (
          require_text-name u "revocation domain" (require_text-IsName t "revocation domain" eu).0,
          require-each ts vs evs,
        )
        refl)

abbrev pub generation_input : Option Generation → Option (Option Text × Option Text)
generation_input none = none
generation_input (some g) = some (some g.generation_id, g.session_id)

abbrev pub event_input : LifecycleEvent → EventInput
event_input e = record {
  event_type = e.event_type;
  target_id = e.target_id;
  domain = e.domain;
  reason = e.reason;
  generation = generation_input e.generation;
}

ok_if : {A : Type 0} (t : Thrown) (b : Bool) (x y : A) → (if b then ok x else err t) ≡ ok y → x ≡ y
ok_if t true x y e = ok_injective e
ok_if t false x y e = absurd (cc)

kind_again : (t u : Text) → check_event_type t ≡ ok u → check_event_type u ≡ ok u
unfolding check_event_type
kind_again t u e =
    subst (λ x. check_event_type x ≡ ok u) (ok_if _ (is_one_of valid_event_types t) t u e) e

reason_again : (r s : Option Text) → check_event_reason r ≡ ok s → check_event_reason s ≡ ok s
unfolding check_event_reason
reason_again none s e = subst (λ x. check_event_reason x ≡ ok x) (ok_injective e) refl
reason_again (some t) s e =
    subst (λ x. check_event_reason x ≡ ok s)
      (ok_if _ (is_one_of valid_event_reasons t) (some t) s e) e

-- The text that trimming gives is not trimmed further.
trim_of : (s u : Text) → trim s ≡ u → trim u ≡ u
trim_of s u e = ap trim (sym e) ∙ trim_idem s ∙ e

session_case : (s u : Text) → trim s ≡ u → session_of (session_of (some s)) ≡ session_of (some s)
unfolding session_of
session_case s [] e = rw (e, session_of) refl
session_case s (c ∷ u) e = rw (e, session_of, trim_of s (c ∷ u) e) refl

session_again : (s : Option Text) → session_of (session_of s) ≡ session_of s
session_again none = unfold session_of in refl
session_again (some s) = session_case s (trim s) refl

generation_case :
    (id u : Text) (session : Option Text) (g : Generation)
    → trim id ≡ u
    → create_verser_route_generation id session ≡ ok g
    → create_verser_route_generation g.generation_id g.session_id ≡ ok g
unfolding create_verser_route_generation
generation_case id [] session g e h = absurd (ground (arith, e, h))
generation_case id (c ∷ u) session g e h =
    subst (λ (x : Generation). create_verser_route_generation x.generation_id x.session_id ≡ ok x)
      (ok_injective (sym (made e) ∙ h))
      (rw (trim_of id (c ∷ u) e, create_verser_route_generation, session_again session) refl)
  where
    made :
        trim id ≡ c ∷ u
        → create_verser_route_generation id session
          ≡ ok (record { generation_id = c ∷ u; session_id = session_of session })
    made q = rw (q, create_verser_route_generation) refl

generation_again :
    (fresh later : Text) (i : Option (Option Text × Option Text)) (g : Option Generation)
    → event_generation fresh i ≡ ok g
    → event_generation later (generation_input g) ≡ ok g
unfolding event_generation
generation_again fresh later none g e =
    subst (λ x. event_generation later (generation_input x) ≡ ok x) (ok_injective e) refl
generation_again fresh later (some (id, session)) g e =
    let name : Text = elim id [ none ↦ fresh | some t ↦ t ] in
    let (h, eh, k) = >>=-eq-ok (create_verser_route_generation name session) _ e in
    subst (λ x. event_generation later (generation_input x) ≡ ok x) (ok_injective k)
      (rw (generation_case name (trim name) session h refl eh) refl)

-- A lifecycle event that `createRouteLifecycleEvent` returns is accepted again and returned
-- unchanged, whatever id would be made for an event without one.
pub create_route_lifecycle_event_again :
    (fresh later : Text) (i : EventInput) (e : LifecycleEvent)
    → create_route_lifecycle_event fresh i ≡ ok e
    → create_route_lifecycle_event later (event_input e) ≡ ok e
unfolding create_route_lifecycle_event
create_route_lifecycle_event_again fresh later i e h =
    let (kind, ek, h1) = >>=-eq-ok (check_event_type i.event_type) _ h in
    let (reason, er, h2) = >>=-eq-ok (check_event_reason i.reason) _ h1 in
    let (target, et, h3) =
      >>=-eq-ok (require_text i.target_id "route lifecycle event targetId") _ h2 in
    let (domain, ed, h4) = >>=-eq-ok (require_text i.domain "route lifecycle event domain") _ h3 in
    let (generation, eg, h5) = >>=-eq-ok (event_generation fresh i.generation) _ h4 in
    subst (λ x. create_route_lifecycle_event later (event_input x) ≡ ok x) (ok_injective h5)
      (rw
        (
          kind_again i.event_type kind ek,
          reason_again i.reason reason er,
          require_text-name target "route lifecycle event targetId"
              (require_text-IsName i.target_id "route lifecycle event targetId" et).0,
          require_text-name domain "route lifecycle event domain"
              (require_text-IsName i.domain "route lifecycle event domain" ed).0,
          generation_again fresh later i.generation generation eg,
        )
        refl)
