-- ===== src/Common/VwsLine.antt =====
-- Reading one line of a stream in chunks: `readVwsLine` of packages/verser-common/src/lib/vws.ts.
-- Once the promise is settled the listeners are off and the reader sees no more chunks; what the stream
-- does with these, and with the bytes that are put back to it, is a matter of the platform.
-- `toString('utf8')` is the platform's, and a parameter.
pub mod Chunks
pub mod Whole
mod Tests
use verser.Base.{
  ℕ, ◌+◌, Text, List, [], ◌∷◌, ◌++◌, Option, none, some, String, ltb, length, ◌==◌, if◌then◌else◌,
}
use verser.Errors.{Thrown, plain}

pub data Outcome : Type 0 where
  resolved : Text → Outcome
  rejected : Thrown → Outcome

-- The bytes that were put back to the front of the stream are `unshifted`.
pub record Reader : Type 0 where
  pub chunks : List Text
  pub buffered_bytes : ℕ
  pub settled : Option Outcome
  pub unshifted : Text

pub new_reader : Reader
new_reader = record { chunks = []; buffered_bytes = 0; settled = none; unshifted = [] }

abbrev pub put_byte : ℕ → Option (Text × Text) → Option (Text × Text)
put_byte b none = none
put_byte b (some (l, r)) = some (b ∷ l, r)

-- The bytes before the first line feed and those after it.
pub split_line : Text → Option (Text × Text)
split_line [] = none
split_line (b ∷ bs) = let rest = split_line bs in if b == 10 then some ([], bs) else put_byte b rest

abbrev pub concat : List Text → Text
concat [] = []
concat (c ∷ cs) = c ++ concat cs

-- The message is `VWS frame exceeds maximum allowed size (${maxBytes} bytes)`.
abbrev pub oversize : Thrown
oversize = plain "VWS frame exceeds maximum allowed size" (some 1009)

-- Only the first outcome counts.
abbrev finish : Outcome → Reader → Reader
finish o r = elim r.settled [ none ↦ record r { settled = some o } | some p ↦ r ]

module _ (utf8 : Text → Text) (max_bytes : ℕ) where
  pub on_data : Text → Reader → Reader
  unfolding split_line
  on_data next r = elim (split_line next) [
    | none ↦
        let kept = record r {
          chunks = r.chunks ++ next ∷ [];
          buffered_bytes = r.buffered_bytes + length next;
        } in
        if ltb max_bytes (r.buffered_bytes + length next)
        then finish (rejected oversize) kept
        else kept
    | some (before, remaining) ↦
        if ltb max_bytes (r.buffered_bytes + length before)
        then finish (rejected oversize) r
        else record (finish (resolved (utf8 (concat r.chunks ++ before))) r) {
          unshifted = remaining;
        }
  ]

  pub on_end : Reader → Reader
  on_end r =
      finish
        (if r.buffered_bytes == 0
          then rejected (plain "Stream ended before VWS frame" none)
          else resolved (utf8 (concat r.chunks)))
        r

  -- The chunks that come while the listeners are on.
  pub feed : Reader → List Text → Reader
  unfolding on_data
  feed r [] = r
  feed r (c ∷ cs) = let next = feed (on_data c r) cs in elim r.settled [ some o ↦ r | none ↦ next ]

unfoldable pub on_error : Thrown → Reader → Reader
on_error e r = finish (rejected e) r

unfoldable pub on_close : Reader → Reader
on_close r = finish (rejected (plain "Stream closed before VWS frame" none)) r
