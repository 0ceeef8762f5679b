-- ===== src/Guest/Chunked/Decodes.antt =====
-- The decoder gives back the chunks that were written in chunked encoding.
use verser.Base.{
  ℕ, suc, ◌+◌, ◌≤◌, ◌<◌, ◌≡◌, refl, sym, ap, ◌∙◌, subst, Text, Bool, true, false, List, [], ◌∷◌,
  ◌++◌, map, none, some, arith, ltb, length, length-append, append_assoc, append-nil, take, drop,
  All,
}
use verser.Guest.Chunked.{
  Options, Decoder, returned, put_byte, split_crlf, size_from, ascii, stopped, sized, goes,
  accept_size, read_size, after_size, flush, write, new_decoder,
}
use verser.Guest.Chunked.Hex.{NoCr, IsExtension, size_line, size_from-size_line, size_line-NoCr}
use verser.Guest.Chunked.Stops.{write-flush}
use verser.Guest.Chunked.Pieces.{
  begun, written, read_size-sized, take_data-goes, round-fresh, take-append,
}
use verser.Guest.Chunked.Whole.{last_of, flush-last_of}

-- A size line and the bytes that it announces.
pub record IsChunk (o : Options) (line bytes : Text) : Type 0 where
  pub plain : NoCr line
  pub short : length line ≤ o.max_chunk_size_line_bytes
  pub size : size_from false 0 (ascii line) ≡ some (length bytes)
  pub some_bytes : 0 < length bytes
  pub safe : length bytes ≤ 9007199254740991

-- An extension and bytes that can be sent as a chunk: the size line is not too long, and there are
-- bytes, no more than a number counts.
pub record IsSendable (o : Options) (upper : Bool) (ext bytes : Text) : Type 0 where
  pub extension : IsExtension ext
  pub short : length (size_line upper (length bytes) ext) ≤ o.max_chunk_size_line_bytes
  pub some_bytes : 0 < length bytes
  pub safe : length bytes ≤ 9007199254740991

sendable-IsChunk :
    (o : Options) (upper : Bool) (ext bytes : Text)
    → IsSendable o upper ext bytes
    → IsChunk o (size_line upper (length bytes) ext) bytes
sendable-IsChunk o upper ext bytes k = record {
  plain = size_line-NoCr upper (length bytes) ext k.extension;
  short = k.short;
  size = size_from-size_line upper (length bytes) ext k.extension;
  some_bytes = k.some_bytes;
  safe = k.safe;
}

abbrev pub AllSendable : Options → Bool → List (Text × Text) → Type 0
AllSendable o upper cs = All (λ c. IsSendable o upper c.0 c.1) cs

-- `${size in hexadecimal}${extension}\r\n${bytes}\r\n` for each chunk, and then what follows.
abbrev pub encode : Bool → List (Text × Text) → Text → Text
encode upper [] end = end
encode upper ((ext, bytes) ∷ cs) end =
    size_line upper (length bytes) ext ++ 13 ∷ 10 ∷ (bytes ++ 13 ∷ 10 ∷ encode upper cs end)

pub split_crlf-line :
    (line rest : Text) → NoCr line → split_crlf (line ++ 13 ∷ 10 ∷ rest) ≡ some (line, rest)
unfolding split_crlf
split_crlf-line [] rest h = refl
split_crlf-line (b ∷ []) rest h = ground (arith, h.0)
split_crlf-line (b ∷ c ∷ line) rest h =
    skips ∙ ap (put_byte b) (split_crlf-line (c ∷ line) rest h.1)
  where
    skips :
        split_crlf (b ∷ c ∷ (line ++ 13 ∷ 10 ∷ rest))
        ≡ put_byte b (split_crlf (c ∷ (line ++ 13 ∷ 10 ∷ rest)))
    skips = rw (h.0) refl

take_all : (xs : Text) → take (length xs) xs ≡ xs
take_all [] = refl
take_all (x ∷ xs) = ap (◌∷◌ x) (take_all xs)

drop_past : (xs : Text) (a b : ℕ) (rest : Text) → drop (length xs + 2) (xs ++ a ∷ b ∷ rest) ≡ rest
drop_past [] a b rest = refl
drop_past (x ∷ xs) a b rest =
    let step : suc (length xs + 2) ≡ suc (length xs) + 2 = omega arith in
    subst (λ n. drop n (x ∷ (xs ++ a ∷ b ∷ rest)) ≡ rest) step (drop_past xs a b rest)

read_size-last :
    (o : Options) (d : Decoder) (line rest : Text)
    → split_crlf d.pending ≡ some (line, rest)
    → ltb o.max_chunk_size_line_bytes (length line) ≡ false
    → size_from false 0 (ascii line) ≡ some 0
    → read_size o d ≡ stopped (record d { pending = []; ended = true }) (returned true)
unfolding read_size
read_size-last o d line rest found fits size =
    rw (found, read_size, fits) (rw (size) (unfold accept_size in refl))

module _ (takes_more : List Text → Bool) (always : (out : List Text) → takes_more out ≡ true)
    (o : Options) where
  abbrev at : Text → List Text → Decoder
  at pending output = record {
    pending = pending;
    expected_chunk_bytes = none;
    output = output;
    ended = false;
  }

  flush-chunk :
      (line bytes more : Text) (out : List Text)
      → IsChunk o line bytes
      → flush takes_more o (at (line ++ 13 ∷ 10 ∷ (bytes ++ 13 ∷ 10 ∷ more)) out)
        ≡ flush takes_more o (at more (out ++ bytes ∷ []))
  flush-chunk line [] more out k = absurd (omega (arith, k.some_bytes))
  flush-chunk line (b ∷ bytes) more out k =
      flush-last_of takes_more always o start (ground (arith, length-append line (13 ∷ 10 ∷ rest)))
      ∙ ap (last_of takes_more always o) (
          round-fresh takes_more always o start refl
          ∙ ap (after_size takes_more o) (
              read_size-sized o start line rest (length bytes) (split_crlf-line line rest k.plain)
                (ground (arith, k.short)) k.size (ground (arith, k.safe)))
          ∙ taken)
      ∙ ap (λ x. flush takes_more o (at x (out ++ take n rest ∷ [])))
          (drop_past (b ∷ bytes) 13 10 more)
      ∙ ap (λ x. flush takes_more o (at more (out ++ x ∷ [])))
          (take-append n (b ∷ bytes) (13 ∷ 10 ∷ more) (omega arith) ∙ take_all (b ∷ bytes))
    where
      n : ℕ
      n = length (b ∷ bytes)

      rest : Text
      rest = (b ∷ bytes) ++ 13 ∷ 10 ∷ more

      start : Decoder
      start = at (line ++ 13 ∷ 10 ∷ rest) out

      taken :
          after_size takes_more o (sized n (begun n rest start))
          ≡ goes (written n (begun n rest start))
      taken =
          unfold after_size in
          take_data-goes takes_more always o n (begun n rest start)
            (ground (arith, length-append (b ∷ bytes) (13 ∷ 10 ∷ more)))

  flush-end :
      (line rest : Text) (out : List Text)
      → NoCr line
      → length line ≤ o.max_chunk_size_line_bytes
      → size_from false 0 (ascii line) ≡ some 0
      → flush takes_more o (at (line ++ 13 ∷ 10 ∷ rest) out) ≡ (
        record { pending = []; expected_chunk_bytes = none; output = out; ended = true },
        returned true,
      )
  unfolding after_size
  flush-end line rest out plain short size =
      flush-last_of takes_more always o start (ground (arith, length-append line (13 ∷ 10 ∷ rest)))
      ∙ ap (λ x. last_of takes_more always o x)
          (round-fresh takes_more always o start refl ∙ ap (after_size takes_more o) ends)
    where
      start : Decoder
      start = at (line ++ 13 ∷ 10 ∷ rest) out

      ends :
          read_size o start ≡ stopped (record start { pending = []; ended = true }) (returned true)
      ends =
          read_size-last o start line rest (split_crlf-line line rest plain) (ground (arith, short))
            size

  flush-encode :
      (upper : Bool) (cs : List (Text × Text)) (end : Text) (out : List Text)
      → AllSendable o upper cs
      → flush takes_more o (at (encode upper cs end) out)
        ≡ flush takes_more o (at end (out ++ map (λ c. c.1) cs))
  flush-encode upper [] end out k = ap (λ x. flush takes_more o (at end x)) (sym (append-nil out))
  flush-encode upper ((ext, bytes) ∷ cs) end out k =
      flush-chunk (size_line upper (length bytes) ext) bytes (encode upper cs end) out
        (sendable-IsChunk o upper ext bytes k.0)
      ∙ flush-encode upper cs end (out ++ bytes ∷ []) k.1
      ∙ ap (λ x. flush takes_more o (at end x)) (append_assoc out (bytes ∷ []) (map (λ c. c.1) cs))

  -- What was written in chunked encoding, each chunk under a size line with the number of its bytes in
  -- hexadecimal digits and maybe an extension, and then a size line of zero, is written to an output
  -- that always takes more chunk by chunk and in order, and the output is ended; what follows the last
  -- size line is dropped. The encoding is not longer than the pending bytes may be, and no size line is
  -- longer than a size line may be; the digits are all in upper or all in lower case.
  pub write-encode :
      (upper : Bool) (cs : List (Text × Text)) (ext rest : Text)
      → AllSendable o upper cs
      → IsExtension ext
      → length (size_line upper 0 ext) ≤ o.max_chunk_size_line_bytes
      → length (encode upper cs (size_line upper 0 ext ++ 13 ∷ 10 ∷ rest)) ≤ o.max_pending_bytes
      → write takes_more o (encode upper cs (size_line upper 0 ext ++ 13 ∷ 10 ∷ rest)) new_decoder
        ≡ (
          record {
            pending = [];
            expected_chunk_bytes = none;
            output = map (λ c. c.1) cs;
            ended = true;
          },
          returned true,
        )
  unfolding new_decoder
  write-encode upper cs ext rest chunks plain short room =
      let last = size_line upper 0 ext ++ 13 ∷ 10 ∷ rest in
      write-flush takes_more o (encode upper cs last) new_decoder (ground (arith, room))
      ∙ flush-encode upper cs last [] chunks
      ∙ flush-end (size_line upper 0 ext) rest (map (λ c. c.1) cs)
          (size_line-NoCr upper 0 ext plain) short (size_from-size_line upper 0 ext plain)
