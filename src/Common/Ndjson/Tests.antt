-- ===== src/Common/Ndjson/Tests.antt =====
-- Frames read from streams in several chunks.
use verser.Base.{
  ◌≡◌, refl, inl, inr, Text, List, [], ◌∷◌, none, Option, some, false, true, ◌==◌, if◌then◌else◌,
}
use verser.Common.Ndjson.{new_reader, split_lines, read}
use verser.Common.Ndjson.Lines.{concat, non_empty, read_frames_lem}

-- Frames that start with an exclamation mark make `onFrame` throw.
abbrev deliver : Text → Option Text
deliver [] = none
deliver (b ∷ l) = if b == 33 then some (33 ∷ []) else none

abbrev two_frames : List Text
two_frames = (b'1' ∷ []) ∷ (10 ∷ 10 ∷ b'2' ∷ []) ∷ (b'3' ∷ 10 ∷ b'4' ∷ []) ∷ []

frames_so_far : (read deliver two_frames new_reader).frames ≡ (b'1' ∷ []) ∷ (b'2' ∷ b'3' ∷ []) ∷ []
unfolding read new_reader
frames_so_far = refl

-- A bad frame ends the loop: the next one is left pending.
bad_frame :
    read deliver ((33 ∷ 10 ∷ b'2' ∷ 10 ∷ []) ∷ []) new_reader
    ≡ record { pending = b'2' ∷ 10 ∷ []; frames = []; errors = (33 ∷ []) ∷ []; destroyed = true }
unfolding read new_reader
bad_frame = refl

read_frames_lem_example :
    ((read deliver two_frames new_reader).frames ≡ non_empty (split_lines (concat two_frames)).0)
    × ((read deliver two_frames new_reader).pending ≡ (split_lines (concat two_frames)).1)
    × ((read deliver two_frames new_reader).errors ≡ [])
    × ((read deliver two_frames new_reader).destroyed ≡ false)
read_frames_lem_example =
    read_frames_lem deliver two_frames
      (unfold split_lines in (inr refl, (inl refl, (inr refl, tt))))
