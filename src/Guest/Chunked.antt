-- ===== src/Guest/Chunked.antt =====
-- The decoder of chunked bodies: packages/verser2-guest-node/src/lib/chunked-body-decoder.ts. The
-- output is the list of what was written to it; whether it takes more is a parameter, as the stream's
-- buffer is the platform's. What a stream that was ended does with a write is the platform's too: the
-- model only lists it, and no theorem is about it. The loop of `flush` runs on fuel.
pub mod Stops
pub mod Pieces
pub mod Whole
pub mod Hex
pub mod Decodes
pub mod Limit
mod Tests
use verser.Base.{
  ℕ, zero, suc, ◌+◌, ◌*◌, ◌-◌, ◌%◌, ◌^◌, Text, Bool, true, false, ◌&&◌, ◌||◌, not, List, [], ◌∷◌,
  ◌++◌, map, Option, none, some, leb, ltb, length, take, drop, any, ◌==◌, if◌then◌else◌,
}
use verser.Js.{nat, max_safe_integer}
use verser.Errors.{VerserError, create_verser_error, protocol_error, text, number}

pub record Options : Type 0 where
  pub max_chunk_size_line_bytes : ℕ
  pub max_pending_bytes : ℕ

pub record Decoder : Type 0 where
  pub pending : Text
  pub expected_chunk_bytes : Option ℕ
  pub output : List Text
  pub ended : Bool

-- What a call returns or throws; `stuck` is the fuel that ran out.
pub data Outcome : Type 0 where
  returned : Bool → Outcome
  threw : VerserError → Outcome
  stuck : Outcome

pub new_decoder : Decoder
new_decoder = record { pending = []; expected_chunk_bytes = none; output = []; ended = false }

abbrev pub put_byte : ℕ → Option (Text × Text) → Option (Text × Text)
put_byte b none = none
put_byte b (some (l, r)) = some (b ∷ l, r)

-- The bytes before the first `\r\n` and those after it.
pub split_crlf : Text → Option (Text × Text)
split_crlf [] = none
split_crlf (b ∷ []) = none
split_crlf (b ∷ c ∷ bs) =
    let rest = split_crlf (c ∷ bs) in if b == 13 && c == 10 then some ([], bs) else put_byte b rest

abbrev pub hex_value : ℕ → Option ℕ
hex_value c =
    if leb 48 c && leb c 57
    then some (c - 48)
    else if leb 97 c && leb c 102
    then some (c - 87)
    else if leb 65 c && leb c 70
    then some (c - 55)
    else none

-- `/^[0-9a-fA-F]+(?:;.*)?$/`, with what `Number.parseInt` makes of the digits.
pub size_from : Bool → ℕ → Text → Option ℕ
size_from seen n [] = if seen then some n else none
size_from seen n (c ∷ s) = elim (hex_value c) [
  | some v ↦ size_from true (n * 16 + v) s
  | none ↦ if seen && c == 59 && not (any (λ d. d == 10 || d == 13) s) then some n else none
]

-- `toString('ascii')` drops the highest bit.
abbrev pub ascii : Text → Text
ascii bs = map (λ b. b % 128) bs

pub data Sized : Type 0 where
  stopped : Decoder → Outcome → Sized
  sized : ℕ → Decoder → Sized

pub data Flow : Type 0 where
  stops : Decoder → Outcome → Flow
  goes : Decoder → Flow

pub line_error : Options → ℕ → Outcome
unfolding create_verser_error
line_error o n = threw (
    create_verser_error protocol_error "Chunk size line bytes exceed limit" (
      ("lineBytes", number (nat n))
      ∷ ("maxChunkSizeLineBytes", number (nat o.max_chunk_size_line_bytes))
      ∷ []))

size_error : Text → Outcome
unfolding create_verser_error
size_error line =
    threw
      (create_verser_error protocol_error "Invalid chunk size line" (("sizeText", text line) ∷ []))

pub pending_error : Options → ℕ → Outcome
unfolding create_verser_error
pending_error o n = threw (
    create_verser_error protocol_error "Chunk decoder pending bytes exceed limit" (
      ("pendingBytes", number (nat n))
      ∷ ("maxPendingBytes", number (nat o.max_pending_bytes))
      ∷ []))

-- `rest` is what follows the size line.
accept_size : Text → Text → Option ℕ → Decoder → Sized
unfolding size_error
accept_size line rest none d = stopped d (size_error line)
accept_size line rest (some zero) d =
    stopped (record d { ended = true; pending = [] }) (returned true)
accept_size line rest (some (suc n)) d =
    if ltb max_safe_integer (suc n)
    then stopped (record d { pending = rest }) (size_error line)
    else sized (suc n) (record d { pending = rest; expected_chunk_bytes = some (suc n) })

pub read_size : Options → Decoder → Sized
unfolding accept_size size_from line_error split_crlf
read_size o d = elim (split_crlf d.pending) [
  | none ↦ stopped d (
      if ltb o.max_chunk_size_line_bytes (length d.pending)
      then line_error o (length d.pending)
      else returned true)
  | some (line, rest) ↦
      if ltb o.max_chunk_size_line_bytes (length line)
      then stopped d (line_error o (length line))
      else accept_size (ascii line) rest (size_from false 0 (ascii line)) d
]

abbrev pub add : Text → Decoder → Decoder
add chunk d = record d { pending = d.pending ++ chunk }

module _ (takes_more : List Text → Bool) where
  -- `output.write(chunk)`, and what it returns.
  write_out : ℕ → Decoder → Flow
  write_out n d =
      let written = record d {
        output = d.output ++ take n d.pending ∷ [];
        pending = drop (n + 2) d.pending;
        expected_chunk_bytes = none;
      } in
      if takes_more written.output then goes written else stops written (returned false)

  pub take_data : Options → ℕ → Decoder → Flow
  unfolding write_out pending_error
  take_data o n d =
      if ltb (length d.pending) (n + 2)
      then stops d (
          if ltb o.max_pending_bytes (length d.pending)
          then pending_error o (length d.pending)
          else returned true)
      else write_out n d

  pub after_size : Options → Sized → Flow
  unfolding take_data
  after_size o (stopped d r) = stops d r
  after_size o (sized n d) = take_data o n d

  pub round : Options → Decoder → Flow
  unfolding after_size read_size
  round o d = elim d.expected_chunk_bytes [
    | none ↦ after_size o (read_size o d)
    | some n ↦ take_data o n d
  ]

  pub flush_within : ℕ → Options → Decoder → Decoder × Outcome
  unfolding round
  flush_within zero o d = (d, stuck)
  flush_within (suc fuel) o d =
      if length d.pending == 0
      then (d, returned true)
      else elim (round o d) [ stops e r ↦ (e, r) | goes e ↦ flush_within fuel o e ]

  -- Each round of the loop but the last takes at least one byte.
  pub flush : Options → Decoder → Decoder × Outcome
  unfolding flush_within
  flush o d = flush_within (suc (length d.pending)) o d

  pub write : Options → Text → Decoder → Decoder × Outcome
  unfolding flush pending_error
  write o chunk d =
      if ltb o.max_pending_bytes (length (d.pending ++ chunk))
      then (add chunk d, pending_error o (length (d.pending ++ chunk)))
      else flush o (add chunk d)
