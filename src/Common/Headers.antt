-- ===== src/Common/Headers.antt =====
-- Ordered header pairs: `normalizeHeaderPairs` and `sanitizeHttp2ResponseHeaderPairs` of
-- packages/verser-common/src/lib/headers.ts, for pairs of strings. Lower case is the platform's. The
-- name that a message repeats is kept in its context only.
pub mod Sanitized
pub mod Free
pub mod Entries
pub mod Records
mod Tests
use verser.Base.{
  ℕ, Text, Bool, true, false, not, ◌&&◌, ◌||◌, List, [], ◌∷◌, ◌++◌, Option, none, some, leb, ltb,
  ◌==◌, if◌then◌else◌, text_eq, any, keep_if, length, String,
}
use verser.Js.{codes}
use verser.Common.Trim.{trim}
use verser.Errors.{
  ContextValue, text, Result, ok, err, ◌>>=◌, each, throw, create_verser_error, protocol_error,
}

abbrev pub HeaderPair : Type 0
HeaderPair = Text × Text

-- `[!#$%&'*+.^_`|~0-9A-Za-z-]`
abbrev pub is_token_unit : ℕ → Bool
is_token_unit c =
    any (λ t. t == c) (codes "!#$%&'*+.^_`|~-")
    || (leb 48 c && leb c 57)
    || (leb 65 c && leb c 90)
    || (leb 97 c && leb c 122)

pub is_valid_header_name : Text → Bool
is_valid_header_name name = not (length name == 0) && not (any (λ c. not (is_token_unit c)) name)

abbrev pub is_forbidden_unit : ℕ → Bool
is_forbidden_unit c = ltb 255 c || leb c 8 || (leb 10 c && leb c 31) || c == 127

pub is_valid_header_value : Text → Bool
is_valid_header_value value = not (any is_forbidden_unit value)

pub is_latin1 : Text → Bool
is_latin1 value = not (any (λ c. ltb 255 c) value)

abbrev pub hop_by_hop_headers : List Text
hop_by_hop_headers =
    codes "connection"
    ∷ codes "keep-alive"
    ∷ codes "proxy-authenticate"
    ∷ codes "proxy-authorization"
    ∷ codes "te"
    ∷ codes "trailer"
    ∷ codes "transfer-encoding"
    ∷ codes "upgrade"
    ∷ []

abbrev pub verser_response_metadata_header : Text
verser_response_metadata_header = codes "x-verser-response-metadata"

pub invalid_pair {ℓ} : {A : Type ℓ} → String → Text → Result A
unfolding create_verser_error
invalid_pair message name = throw protocol_error message (("header", text name) ∷ [])

abbrev pub is_one : List Text → Text → Bool
is_one names name = any (λ n. text_eq n name) names

abbrev put_in_token : ℕ → List Text → List Text
put_in_token c [] = (c ∷ []) ∷ []
put_in_token c (s ∷ ss) = (c ∷ s) ∷ ss

-- `value.split(',')`
pub split_comma : Text → List Text
split_comma [] = [] ∷ []
split_comma (c ∷ s) = let rest = split_comma s in if c == 44 then [] ∷ rest else put_in_token c rest

module _ (to_lower_case : Text → Text) where
  pub normalize_pair : HeaderPair → Result HeaderPair
  unfolding is_valid_header_name is_valid_header_value invalid_pair
  normalize_pair (name, value) =
      if not (is_valid_header_name (to_lower_case name))
      then invalid_pair "Invalid header name" name
      else if not (is_valid_header_value value)
      then invalid_pair "Invalid header value" name
      else ok (to_lower_case name, value)

  unfoldable pub normalize_header_pairs : List HeaderPair → Result (List HeaderPair)
  unfolding normalize_pair
  normalize_header_pairs pairs = each normalize_pair pairs

  -- The names that one `connection` value nominates.
  abbrev pub tokens : List Text → List Text
  tokens [] = []
  tokens (t ∷ ts) =
      if length (to_lower_case (trim t)) == 0 then tokens ts else to_lower_case (trim t) ∷ tokens ts

  pub connection_tokens : List HeaderPair → List Text
  unfolding split_comma text_eq
  connection_tokens [] = []
  connection_tokens ((name, value) ∷ pairs) =
      let rest = connection_tokens pairs in
      if text_eq name (codes "connection") then tokens (split_comma value) ++ rest else rest

  -- The check that a value has byte-sized units.
  pub check_latin1 : HeaderPair → Result HeaderPair
  unfolding is_latin1 invalid_pair
  check_latin1 (name, value) =
      if not (is_latin1 value)
      then invalid_pair "Invalid response header value" name
      else ok (name, value)

  abbrev pub survives : List Text → HeaderPair → Bool
  survives nominated p =
      not (is_one hop_by_hop_headers p.0)
      && not (is_one nominated p.0)
      && not (text_eq p.0 verser_response_metadata_header)

  unfoldable pub sanitize_http2_response_header_pairs : List HeaderPair → Result (List HeaderPair)
  unfolding normalize_header_pairs check_latin1 connection_tokens text_eq
  sanitize_http2_response_header_pairs pairs = do
    normalized ← normalize_header_pairs pairs
    checked ← each check_latin1 normalized
    ok (keep_if (survives (connection_tokens normalized)) normalized)
