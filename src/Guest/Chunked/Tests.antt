-- ===== src/Guest/Chunked/Tests.antt =====
-- Runs of the decoder of chunked bodies.
use verser.Base.{
  suc, ◌+◌, ◌≤◌, ◌≡◌, ◌≢◌, refl, Text, Bool, true, false, List, [], ◌∷◌, ◌++◌, some, none, length,
  arith,
}
use verser.Guest.Chunked.{
  Options, Decoder, returned, stuck, write, flush, flush_within, new_decoder, size_from, line_error,
}
use verser.Guest.Chunked.Stops.{flush_ends, write-bounded}
use verser.Guest.Chunked.Whole.{write-append}
use verser.Guest.Chunked.Hex.{hex, size_line}
use verser.Guest.Chunked.Decodes.{AllSendable, encode, write-encode}
use verser.Js.{codes}
use verser.Guest.Chunked.Limit.{write-line_limit}

abbrev limits : Options
limits = record { max_chunk_size_line_bytes = 2; max_pending_bytes = 64 }

abbrev takes_all : List Text → Bool
takes_all out = true

-- "3\r\nabc\r\n0\r\n"
abbrev body : Text
body = 51 ∷ 13 ∷ 10 ∷ 97 ∷ 98 ∷ 99 ∷ 13 ∷ 10 ∷ 48 ∷ 13 ∷ 10 ∷ []

abbrev abc : Text
abc = 97 ∷ 98 ∷ 99 ∷ []

abbrev done : Decoder
done = record { pending = []; expected_chunk_bytes = none; output = abc ∷ []; ended = true }

body_decodes : write takes_all limits body new_decoder ≡ (done, returned true)
unfolding write new_decoder
body_decodes = refl

abbrev with_body : Decoder
with_body = record { pending = body; expected_chunk_bytes = none; output = []; ended = false }

flush_ends_example :
    ((flush takes_all limits with_body).1 ≢ stuck)
    × (flush_within takes_all (suc (length body) + 5) limits with_body
        ≡ flush takes_all limits with_body)
flush_ends_example = flush_ends takes_all limits with_body 5

write-bounded_example : length (write takes_all limits body new_decoder).0.pending ≤ 64
unfolding write new_decoder
write-bounded_example = write-bounded takes_all limits body new_decoder true refl

-- The size line and half of the chunk, and then what is left.
abbrev first_piece : Text
first_piece = 51 ∷ 13 ∷ 10 ∷ 97 ∷ []

abbrev second_piece : Text
second_piece = 98 ∷ 99 ∷ 13 ∷ 10 ∷ 48 ∷ 13 ∷ 10 ∷ []

write-append_example :
    write takes_all limits second_piece (write takes_all limits first_piece new_decoder).0
    ≡ write takes_all limits (first_piece ++ second_piece) new_decoder
unfolding write new_decoder
write-append_example =
    write-append takes_all (λ out. refl) limits first_piece second_piece new_decoder (omega arith)
      refl refl

-- Thirteen bytes, in two chunks of twelve and one; the first has an extension.
abbrev twelve : Text
twelve = codes "twelve bytes"

abbrev parts : List (Text × Text)
parts = (codes ";a=b", twelve) ∷ ([], codes "!") ∷ []

abbrev wide : Options
wide = record { max_chunk_size_line_bytes = 8; max_pending_bytes = 64 }

parts-AllSendable : AllSendable wide false parts
unfolding hex
parts-AllSendable = (
  record {
    extension = (
      refl,
      ((omega arith, refl, refl), ((omega arith, refl, refl), ((omega arith, refl, refl), tt))),
    );
    short = omega arith;
    some_bytes = omega arith;
    safe = omega arith;
  },
  (
    record { extension = tt; short = omega arith; some_bytes = omega arith; safe = omega arith },
    tt,
  ),
)

encoded :
    encode false parts (codes "0")
    ≡ codes "c;a=b" ++ 13 ∷ 10 ∷ (twelve ++ 13 ∷ 10 ∷ 49 ∷ 13 ∷ 10 ∷ 33 ∷ 13 ∷ 10 ∷ 48 ∷ [])
unfolding hex
encoded = refl

write-encode_example :
    write takes_all wide (encode false parts (size_line false 0 [] ++ 13 ∷ 10 ∷ [])) new_decoder ≡ (
      record {
        pending = [];
        expected_chunk_bytes = none;
        output = twelve ∷ codes "!" ∷ [];
        ended = true;
      },
      returned true,
    )
unfolding hex
write-encode_example =
    write-encode takes_all (λ out. refl) wide false parts [] [] parts-AllSendable tt (omega arith)
      (omega arith)

-- "10\r\n" announces sixteen bytes.
write-line_limit_example :
    (write takes_all limits (49 ∷ 48 ∷ 13 ∷ 10 ∷ []) new_decoder ≡ (
      record { pending = []; expected_chunk_bytes = some 16; output = []; ended = false },
      returned true,
    ))
    × (write takes_all limits (49 ∷ 48 ∷ 13 ∷ []) new_decoder ≡ (
      record {
        pending = 49 ∷ 48 ∷ 13 ∷ [];
        expected_chunk_bytes = none;
        output = [];
        ended = false;
      },
      line_error limits 3,
    ))
unfolding size_from
write-line_limit_example =
    write-line_limit takes_all limits (49 ∷ 48 ∷ []) 15 (refl, (refl, tt)) refl (omega arith) refl
      (omega arith)
