-- ===== src/Common/VwsLine/Tests.antt =====
-- Lines read from streams in several chunks.
use verser.Base.{◌≡◌, refl, Text, List, [], ◌∷◌, ◌++◌, some, arith}
use verser.Common.VwsLine.{
  on_data, resolved, rejected, new_reader, split_line, concat, oversize, feed, on_end,
}
use verser.Common.VwsLine.Whole.{unseen, read_line_lem, read_line-oversize}

-- For bytes below 128 the text has the bytes as its code units.
abbrev ascii : Text → Text
ascii t = t

abbrev three_chunks : List Text
three_chunks = (b'a' ∷ b'b' ∷ []) ∷ (b'c' ∷ 10 ∷ b'd' ∷ []) ∷ (b'e' ∷ []) ∷ []

abbrev the_line : Text
the_line = b'a' ∷ b'b' ∷ b'c' ∷ []

keeps_the_rest : unseen ascii 9 new_reader three_chunks ≡ (b'e' ∷ []) ∷ []
unfolding unseen new_reader on_data
keeps_the_rest = refl

end_without_feed :
    (on_end ascii 9 (feed ascii 9 new_reader ((b'a' ∷ []) ∷ (b'b' ∷ []) ∷ []))).settled
    ≡ some (resolved (b'a' ∷ b'b' ∷ []))
unfolding feed new_reader on_end
end_without_feed = refl

read_line_lem_example :
    ((feed ascii 9 new_reader three_chunks).settled ≡ some (resolved the_line))
    × ((feed ascii 9 new_reader three_chunks).unshifted
          ++ concat (unseen ascii 9 new_reader three_chunks)
        ≡ b'd' ∷ b'e' ∷ [])
read_line_lem_example =
    read_line_lem ascii 9 three_chunks the_line (b'd' ∷ b'e' ∷ []) (unfold split_line in refl)
      (omega arith)

read_line-oversize_example :
    (feed ascii 2 new_reader three_chunks).settled ≡ some (rejected oversize)
read_line-oversize_example =
    read_line-oversize ascii 2 three_chunks the_line (b'd' ∷ b'e' ∷ []) (unfold split_line in refl)
      (omega arith)
