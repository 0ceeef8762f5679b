-- ===== src/Common/Validate.antt =====
-- packages/verser-common/src/lib/utils.ts: the validators that the protocol's constructors share.
use verser.Base.{
  ℕ, ◌≡◌, ◌≢◌, refl, Text, Bool, true, false, ◌&&◌, not, [], ◌∷◌, String, arith, leb, if◌then◌else◌,
}
use verser.Errors.{
  Result, ok, err, type_error, throw, invalid_registration, protocol_error, text, ContextValue,
}
use verser.Errors
use verser.Js.{JsValue, string, object, nat, JsNumber, codes}
use verser.Common.Trim.{trim, trim_idem}

unfoldable pub is_record : JsValue → Bool
is_record (object fs) = true
is_record v = false

-- A text as the constructors require it; the message is `${label} must not be empty`.
unfoldable pub require_text : Text → String → Result Text
require_text value label = elim (trim value) [
  | [] ↦ throw invalid_registration "must not be empty" (("field", text (codes label)) ∷ [])
  | c ∷ s ↦ ok (c ∷ s)
]

-- `value.trim()` throws where the value is no string, whatever its declared type.
unfoldable pub require_non_empty : JsValue → String → Result Text
unfolding require_text
require_non_empty (string s) label = require_text s label
require_non_empty v label = err type_error

-- The integers from `low` to 599.
abbrev is_status : ℕ → JsNumber → Bool
is_status low (nat n) = leb low n && leb n 599
is_status low v = false

unfoldable pub require_valid_status_code : JsNumber → Result JsNumber
require_valid_status_code value =
    if not (is_status 100 value)
    then throw protocol_error "HTTP status code must be between 100 and 599"
        (("statusCode", Errors.number value) ∷ [])
    else ok value

unfoldable pub require_final_response_status_code : JsNumber → Result JsNumber
require_final_response_status_code value =
    if not (is_status 200 value)
    then throw protocol_error "Response status code must be final (200-599)"
        (("statusCode", Errors.number value) ∷ [])
    else ok value

-- What the constructors keep: a trimmed text that is not empty.
pub record IsName (s : Text) : Type 0 where
  pub trimmed : trim s ≡ s
  pub present : s ≢ []

require_text_of_trim :
    (s u : Text) (label : String) {t : Text}
    → trim s ≡ u
    → require_text s label ≡ ok t
    → IsName t × (t ≡ trim s)
unfolding require_text
require_text_of_trim s [] label e h = ground arith
require_text_of_trim s (c ∷ u) label e h = ground (arith, trim_idem s)

-- A text that `requireNonEmpty` accepts is returned trimmed, and it is accepted again unchanged.
pub require_text-IsName :
    (s : Text) (label : String) {t : Text} → require_text s label ≡ ok t → IsName t × (t ≡ trim s)
require_text-IsName s label h = require_text_of_trim s (trim s) label refl h

pub require_text-name : (s : Text) (label : String) → IsName s → require_text s label ≡ ok s
unfolding require_text
require_text-name [] label n = absurd (n.present refl)
require_text-name (c ∷ s) label n = rw (n.trimmed, require_text) refl

pub require_non_empty-name :
    (s : Text) (label : String) → IsName s → require_non_empty (string s) label ≡ ok s
unfolding require_non_empty
require_non_empty-name s label n = require_text-name s label n

pub require_non_empty-IsName :
    (v : JsValue) (label : String) {t : Text} → require_non_empty v label ≡ ok t → IsName t
unfolding require_non_empty
require_non_empty-IsName (string s) label h = (require_text-IsName s label h).0
require_non_empty-IsName _ label h = ground arith
