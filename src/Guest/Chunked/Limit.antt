-- ===== src/Guest/Chunked/Limit.antt =====
-- Where the limit on a size line stands when its end arrives in two pieces.
use verser.Base.{
  ℕ, suc, ◌+◌, ◌≤◌, ◌<◌, ◌≡◌, refl, ap, ◌∙◌, Text, Bool, true, false, List, [], ◌∷◌, ◌++◌, none,
  some, arith, ltb, length, length-append,
}
use verser.Guest.Chunked.{
  Options, Decoder, Outcome, returned, put_byte, split_crlf, size_from, ascii, stops, read_size,
  take_data, after_size, round, flush, write, new_decoder, line_error,
}
use verser.Guest.Chunked.Stops.{write-flush, continued, flush_within-step}
use verser.Guest.Chunked.Pieces.{begun, read_size-sized}
use verser.Guest.Chunked.Hex.{NoCr}
use verser.Guest.Chunked.Decodes.{split_crlf-line}

split_crlf-cr : (line : Text) → NoCr line → split_crlf (line ++ 13 ∷ []) ≡ none
unfolding split_crlf
split_crlf-cr [] h = refl
split_crlf-cr (b ∷ []) h = ground (arith, h.0)
split_crlf-cr (b ∷ c ∷ line) h = skips ∙ ap (put_byte b) (split_crlf-cr (c ∷ line) h.1)
  where
    skips : split_crlf (b ∷ c ∷ (line ++ 13 ∷ [])) ≡ put_byte b (split_crlf (c ∷ (line ++ 13 ∷ [])))
    skips = rw (h.0) refl

module _ (takes_more : List Text → Bool) (o : Options) where
  abbrev at : Text → Decoder
  at bytes = record { pending = bytes; expected_chunk_bytes = none; output = []; ended = false }

  -- A first round that stops is all that `write` does.
  write-stops :
      (bytes : Text) (e : Decoder) (r : Outcome)
      → 0 < length bytes
      → length bytes ≤ o.max_pending_bytes
      → round takes_more o (at bytes) ≡ stops e r
      → write takes_more o bytes new_decoder ≡ (e, r)
  unfolding new_decoder flush
  write-stops bytes e r h k q =
      write-flush takes_more o bytes new_decoder (ground (arith, k))
      ∙ flush_within-step takes_more (length bytes) o (at bytes) (ground (arith, h))
      ∙ ap (continued takes_more (length bytes) o) q

  round-cr :
      (line : Text)
      → NoCr line
      → length line ≡ o.max_chunk_size_line_bytes
      → round takes_more o (at (line ++ 13 ∷ []))
        ≡ stops (at (line ++ 13 ∷ [])) (line_error o (suc (length line)))
  unfolding round after_size read_size
  round-cr line plain long =
      let over : ltb o.max_chunk_size_line_bytes (length (line ++ 13 ∷ [])) ≡ true =
        ground (arith, long, length-append line (13 ∷ [])) in
      let bytes : length (line ++ 13 ∷ []) ≡ suc (length line) =
        ground (arith, length-append line (13 ∷ [])) in
      rw (split_crlf-cr line plain, read_size, over)
        (ap (λ n. stops (at (line ++ 13 ∷ [])) (line_error o n)) bytes)

  take_data-none :
      (n : ℕ) (d : Decoder) → d.pending ≡ [] → take_data takes_more o n d ≡ stops d (returned true)
  unfolding take_data
  take_data-none n d e =
      let short : ltb (length d.pending) (n + 2) ≡ true = ground (arith, ap length e) in
      let room : ltb o.max_pending_bytes (length d.pending) ≡ false = ground (arith, ap length e) in
      rw (short, take_data, room) refl

  round-crlf :
      (line : Text) (n : ℕ)
      → NoCr line
      → length line ≡ o.max_chunk_size_line_bytes
      → size_from false 0 (ascii line) ≡ some (suc n)
      → suc n ≤ 9007199254740991
      → round takes_more o (at (line ++ 13 ∷ 10 ∷ []))
        ≡ stops (begun (suc n) [] (at [])) (returned true)
  unfolding round after_size
  round-crlf line n plain long size safe =
      ap (after_size takes_more o) (
        read_size-sized o (at (line ++ 13 ∷ 10 ∷ [])) line [] n (split_crlf-line line [] plain)
          (ground (arith, long)) size (ground (arith, safe)))
      ∙ take_data-none (suc n) (begun (suc n) [] (at [])) refl

  -- The first bytes that a decoder is given are a size line of just as many bytes as a size line may
  -- have, within the limit on pending bytes. With its `\r\n` the line is taken and its chunk waited
  -- for; with the `\r` alone it is refused as too long, by a length that counts the `\r`.
  pub write-line_limit :
      (line : Text) (n : ℕ)
      → NoCr line
      → length line ≡ o.max_chunk_size_line_bytes
      → length line + 2 ≤ o.max_pending_bytes
      → size_from false 0 (ascii line) ≡ some (suc n)
      → suc n ≤ 9007199254740991
      → (write takes_more o (line ++ 13 ∷ 10 ∷ []) new_decoder
          ≡ (begun (suc n) [] (at []), returned true))
        × (write takes_more o (line ++ 13 ∷ []) new_decoder
            ≡ (at (line ++ 13 ∷ []), line_error o (suc (length line))))
  write-line_limit line n plain long room size safe = (
    write-stops (line ++ 13 ∷ 10 ∷ []) (begun (suc n) [] (at [])) (returned true)
        (ground (arith, length-append line (13 ∷ 10 ∷ [])))
        (ground (arith, room, length-append line (13 ∷ 10 ∷ [])))
        (round-crlf line n plain long size safe),
    write-stops (line ++ 13 ∷ []) (at (line ++ 13 ∷ [])) (line_error o (suc (length line)))
        (ground (arith, length-append line (13 ∷ [])))
        (ground (arith, room, length-append line (13 ∷ []))) (round-cr line plain long),
  )
