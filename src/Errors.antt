-- ===== src/Errors.antt =====
-- Errors as values: packages/verser-common/src/lib/errors.ts and the codes of types.ts.
use verser.Base.{ℕ, Text, String, Bool, List, [], ◌∷◌, Option, ◌≡◌, refl, ◌⊎◌, inl, inr}
use verser.Js.{JsNumber}

pub data ErrorCode : Type 0 where
  missing_guest disconnected_target timeout stream_failure : ErrorCode
  protocol_error local_handler_failure invalid_registration : ErrorCode
  certificate_verification_failure upstream_unavailable route_loop : ErrorCode
  authorization_denied unsafe_retry revocation_failed : ErrorCode
  websocket_negotiation_failed : ErrorCode

-- A value of an error's diagnostic context.
pub data ContextValue : Type 0 where
  text : Text → ContextValue
  number : JsNumber → ContextValue
  flag : Bool → ContextValue
  undefined : ContextValue

pub record VerserError : Type 0 where
  pub code : ErrorCode
  pub message : String
  pub context : List (String × ContextValue)

unfoldable pub create_verser_error : ErrorCode → String → List (String × ContextValue) → VerserError
create_verser_error code message context = record {
  code = code;
  message = message;
  context = context;
}

-- What a function may throw: a typed error, the `TypeError` of a method call on a value that has no
-- such method, or a plain `Error` with the close code that some carry.
pub data Thrown : Type 0 where
  typed : VerserError → Thrown
  type_error : Thrown
  plain : String → Option ℕ → Thrown

pub data Result {ℓ} (A : Type ℓ) : Type ℓ where
  ok : A → Result A
  err : Thrown → Result A

-- What comes after a step that may throw.
infixl 5 ◌>>=◌
abbrev pub ◌>>=◌ {ℓ κ} : {X : Type ℓ} {Y : Type κ} → Result X → (X → Result Y) → Result Y
err thrown >>= continue = err thrown
ok value >>= continue = continue value

-- `throw createVerserError(code, message, context)`
abbrev pub throw {ℓ} : {A : Type ℓ} → ErrorCode → String → List (String × ContextValue) → Result A
throw code message context = err (typed (create_verser_error code message context))

-- `xs.map(f)`, which throws what the first failing call throws.
abbrev pub each {ℓ κ} : {A : Type ℓ} {B : Type κ} → (A → Result B) → List A → Result (List B)
each f [] = ok []
each f (x ∷ xs) = do y ← f x; ys ← each f xs; ok (y ∷ ys)

-- A chain that returns returned at each of its steps.
pub >>=-eq-ok {ℓ κ} :
    {X : Type ℓ} {Y : Type κ} (first : Result X) (continue : X → Result Y) {result : Y}
    → (first >>= continue) ≡ ok result
    → (x : X) × (first ≡ ok x) × (continue x ≡ ok result)
>>=-eq-ok (err thrown) continue e = cc
>>=-eq-ok (ok x) continue e = (x, refl, e)

pub >>=-eq-err {ℓ κ} :
    {A : Type ℓ} {B : Type κ} (m : Result A) (f : A → Result B) {t : Thrown}
    → (m >>= f) ≡ err t
    → (m ≡ err t) ⊎ ((a : A) × (m ≡ ok a) × (f a ≡ err t))
>>=-eq-err (ok a) f h = inr (a, refl, h)
>>=-eq-err (err e) f h = inl (cc)

pub ok_injective {ℓ} : {A : Type ℓ} {a b : A} → ok a ≡ ok b → a ≡ b
ok_injective h = cc

pub absurd_ok {ℓ} : {A : Type ℓ} {P : Type 0} {a : A} {t : Thrown} → ok a ≡ err t → P
absurd_ok h = absurd (cc)

pub Result-cases {ℓ} :
    {A : Type ℓ} (m : Result A) → ((t : Thrown) × (m ≡ err t)) ⊎ ((a : A) × (m ≡ ok a))
Result-cases (ok a) = inr (a, refl)
Result-cases (err t) = inl (t, refl)
