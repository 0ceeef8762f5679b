-- ===== src/Common/Ndjson.antt =====
-- Reading frames of newline-delimited JSON: packages/verser-common/src/lib/ndjson.ts. The stream
-- decodes its bytes itself, so that chunks are texts. Parsing a line and handing the frame to
-- `onFrame` is a parameter, which says what they throw.
pub mod Lines
mod Tests
use verser.Base.{
  ℕ, Text, Bool, true, false, List, [], ◌∷◌, ◌++◌, Option, none, some, ◌==◌, if◌then◌else◌,
}

-- A unit in front of the first line.
abbrev pub put_unit : ℕ → List Text × Text → List Text × Text
put_unit b ([], tail) = ([], b ∷ tail)
put_unit b (l ∷ ls, tail) = ((b ∷ l) ∷ ls, tail)

-- The complete lines of a text, and what stands after the last of them.
pub split_lines : Text → List Text × Text
split_lines [] = ([], [])
split_lines (b ∷ bs) =
    let rest = split_lines bs in if b == 10 then ([] ∷ rest.0, rest.1) else put_unit b rest

pub record Reader : Type 0 where
  pub pending : Text
  pub frames : List Text
  pub errors : List Text
  pub destroyed : Bool

pub new_reader : Reader
new_reader = record { pending = []; frames = []; errors = []; destroyed = false }

-- The lines with their line feeds, before a text.
join_lines : List Text → Text → Text
join_lines [] tail = tail
join_lines (l ∷ ls) tail = l ++ 10 ∷ join_lines ls tail

failed_frame : Text → List Text → Text → Reader → Reader
unfolding join_lines
failed_frame e ls tail r = record r {
  pending = join_lines ls tail;
  errors = r.errors ++ e ∷ [];
  destroyed = true;
}

module _ (deliver : Text → Option Text) where
  -- The loop over the complete lines; an empty one is skipped, and an error ends it.
  pub deliver_each : List Text → Text → Reader → Reader
  unfolding failed_frame
  deliver_each [] tail r = record r { pending = tail }
  deliver_each ([] ∷ ls) tail r = deliver_each ls tail r
  deliver_each ((b ∷ l) ∷ ls) tail r =
      let next = deliver_each ls tail (record r { frames = r.frames ++ (b ∷ l) ∷ [] }) in
      elim (deliver (b ∷ l)) [ none ↦ next | some e ↦ failed_frame e ls tail r ]

  pub on_data : Text → Reader → Reader
  unfolding deliver_each split_lines
  on_data chunk r = let (ls, tail) = split_lines (r.pending ++ chunk) in deliver_each ls tail r

  pub read : List Text → Reader → Reader
  unfolding on_data
  read [] r = r
  read (c ∷ cs) r = read cs (on_data c r)
