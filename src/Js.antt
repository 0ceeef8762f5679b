-- ===== src/Js.antt =====
-- Values of the language as the protocol's validators meet them, most of them parsed from JSON.
use Prim.Native.Char.{code}
use verser.Base.{ℕ, Text, text_eq, String, Bool, true, false, List, [], ◌∷◌, if◌then◌else◌}

-- A number is a non-negative integer, a negative integer -(n + 1), or no integer: a fraction, an
-- infinity or NaN, which the validators do not tell apart.
pub data JsNumber : Type 0 where
  nat negative other : ℕ → JsNumber

-- `Number.MAX_SAFE_INTEGER`
abbrev pub max_safe_integer : ℕ
max_safe_integer = 9007199254740991

mutual
  pub data JsValue : Type 0 where
    undefined null : JsValue
    boolean : Bool → JsValue
    number : JsNumber → JsValue
    string : Text → JsValue
    array : Values → JsValue
    object : Fields → JsValue

  pub data Values : Type 0 where
    nil : Values
    cons : JsValue → Values → Values

  pub data Fields : Type 0 where
    end : Fields
    field : Text → JsValue → Fields → Fields

-- The code units of a literal.
abbrev pub codes : String → Text
codes String.[] = []
codes (String.◌∷◌ c s) = code c ∷ codes s

unfoldable pub lookup : Text → Fields → JsValue
lookup k end = undefined
lookup k (field j v fs) = if text_eq j k then v else lookup k fs

-- `value.name`, for a name that arrays and strings do not have themselves. Reading a property of
-- `undefined` or `null` throws, so the validators test for these first.
unfoldable pub property : String → JsValue → JsValue
unfolding lookup
property name (object fs) = lookup (codes name) fs
property name v = undefined

-- `Object.prototype.hasOwnProperty.call(value, name)`
unfoldable pub has_own : Text → Fields → Bool
has_own k end = false
has_own k (field j v fs) = if text_eq j k then true else has_own k fs

-- `{ ...value, name: v }`, which writes the name as the one that is read.
abbrev pub with_field : String → JsValue → JsValue → JsValue
with_field name v (object fs) = object (field (codes name) v fs)
with_field name v other_value = object (field (codes name) v end)

abbrev pub texts : List Text → Values
texts [] = nil
texts (t ∷ ts) = cons (string t) (texts ts)
