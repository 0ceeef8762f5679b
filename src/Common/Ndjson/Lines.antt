-- ===== src/Common/Ndjson/Lines.antt =====
-- The frames of a stream do not depend on how it is cut into chunks.
use verser.Base.{
  ℕ, ◌≡◌, refl, sym, ap, ◌∙◌, ◌⊎◌, inl, inr, Text, List, [], ◌∷◌, ◌++◌, Option, none, false, true,
  ◌==◌, append_assoc, append-nil, Bool-cases, All, All-left, All-right, subst,
}
use verser.Common.Ndjson.{put_unit, split_lines, Reader, new_reader, deliver_each, on_data, read}

abbrev pub concat : List Text → Text
concat [] = []
concat (c ∷ cs) = c ++ concat cs

abbrev pub non_empty : List Text → List Text
non_empty [] = []
non_empty ([] ∷ ls) = non_empty ls
non_empty ((b ∷ l) ∷ ls) = (b ∷ l) ∷ non_empty ls

non_empty-append : (ks ls : List Text) → non_empty (ks ++ ls) ≡ non_empty ks ++ non_empty ls
non_empty-append [] ls = refl
non_empty-append ([] ∷ ks) ls = non_empty-append ks ls
non_empty-append ((b ∷ l) ∷ ks) ls = ap (λ x. (b ∷ l) ∷ x) (non_empty-append ks ls)

-- Lines in front of those of another text.
abbrev before : List Text → List Text × Text → List Text × Text
before ks (ls, tail) = (ks ++ ls, tail)

split_at_feed :
    (x : ℕ) (xs : Text)
    → (x == 10) ≡ true
    → split_lines (x ∷ xs) ≡ ([] ∷ (split_lines xs).0, (split_lines xs).1)
unfolding split_lines
split_at_feed x xs h = rw h refl

split_at_unit :
    (x : ℕ) (xs : Text) → (x == 10) ≡ false → split_lines (x ∷ xs) ≡ put_unit x (split_lines xs)
unfolding split_lines
split_at_unit x xs h = rw h refl

-- The lines of a text that goes on after the lines and the rest `p`.
abbrev goes_on : Text → List Text × Text → List Text × Text
goes_on ys p = before p.0 (split_lines (p.1 ++ ys))

put_unit-goes_on :
    (x : ℕ) (ys : Text) (p whole : List Text × Text)
    → (x == 10) ≡ false
    → whole ≡ goes_on ys p
    → put_unit x whole ≡ goes_on ys (put_unit x p)
put_unit-goes_on x ys ([], t) whole byte e =
    ap (put_unit x) e ∙ sym (split_at_unit x (t ++ ys) byte)
put_unit-goes_on x ys (l ∷ ls, t) whole byte e = ap (put_unit x) e

split_lines-append : (xs ys : Text) → split_lines (xs ++ ys) ≡ goes_on ys (split_lines xs)
split_lines-append [] ys = unfold split_lines in refl
split_lines-append (x ∷ xs) ys = elim (Bool-cases (x == 10)) [
  | inl feed ↦
      split_at_feed x (xs ++ ys) feed
      ∙ ap (λ (p : List Text × Text). ([] ∷ p.0, p.1)) (split_lines-append xs ys)
      ∙ ap (goes_on ys) (sym (split_at_feed x xs feed))
  | inr unit ↦
      split_at_unit x (xs ++ ys) unit
      ∙ put_unit-goes_on x ys (split_lines xs) _ unit (split_lines-append xs ys)
      ∙ ap (goes_on ys) (sym (split_at_unit x xs unit))
]

module _ (deliver : Text → Option Text) where
  abbrev pub IsDelivered : Text → Type 0
  IsDelivered l = (l ≡ []) ⊎ (deliver l ≡ none)

  deliver_each-append :
      (ls : List Text) (tail : Text) (r : Reader)
      → All IsDelivered ls
      → deliver_each deliver ls tail r
        ≡ record r { pending = tail; frames = r.frames ++ non_empty ls }
  unfolding deliver_each
  deliver_each-append [] tail r h =
      ap (λ fs. record r { pending = tail; frames = fs }) (sym (append-nil r.frames))
  deliver_each-append ([] ∷ ls) tail r h = deliver_each-append ls tail r h.1
  deliver_each-append ((b ∷ l) ∷ ls) tail r h = elim h.0 [
    | inl e ↦ absurd (cc)
    | inr e ↦
        rw (e, deliver_each)
          (deliver_each-append ls tail (record r { frames = r.frames ++ (b ∷ l) ∷ [] }) h.1
            ∙ ap (λ fs. record r { pending = tail; frames = fs })
                (append_assoc r.frames ((b ∷ l) ∷ []) (non_empty ls)))
  ]

  -- What a reader has of a text that it was given without an error.
  abbrev has_lines : List Text × Text → Reader
  has_lines p = record { pending = p.1; frames = non_empty p.0; errors = []; destroyed = false }

  on_data-has_lines :
      (t c : Text)
      → All IsDelivered (split_lines (t ++ c)).0
      → on_data deliver c (has_lines (split_lines t)) ≡ has_lines (split_lines (t ++ c))
  unfolding on_data
  on_data-has_lines t c h =
      let more = split_lines ((split_lines t).1 ++ c) in
      deliver_each-append more.0 more.1 (has_lines (split_lines t)) (
        All-right IsDelivered (split_lines t).0 more.0
          (subst (λ p. All IsDelivered p.0) (split_lines-append t c) h))
      ∙ ap (λ fs. record { pending = more.1; frames = fs; errors = []; destroyed = false })
          (sym (non_empty-append (split_lines t).0 more.0))
      ∙ ap has_lines (sym (split_lines-append t c))

  read-has_lines :
      (cs : List Text) (t : Text)
      → All IsDelivered (split_lines (t ++ concat cs)).0
      → read deliver cs (has_lines (split_lines t)) ≡ has_lines (split_lines (t ++ concat cs))
  unfolding read
  read-has_lines [] t h = ap (λ u. has_lines (split_lines u)) (sym (append-nil t))
  read-has_lines (c ∷ cs) t h =
      let whole =
        subst (λ u. All IsDelivered (split_lines u).0) (sym (append_assoc t c (concat cs))) h in
      ap (read deliver cs) (
        on_data-has_lines t c (
          All-left IsDelivered (split_lines (t ++ c)).0 _
            (subst (λ p. All IsDelivered p.0) (split_lines-append (t ++ c) (concat cs)) whole)))
      ∙ read-has_lines cs (t ++ c) whole
      ∙ ap (λ u. has_lines (split_lines u)) (append_assoc t c (concat cs))

  -- If no complete line of a stream makes the parser or `onFrame` throw, the frames are its lines that
  -- are not empty, in order, each once, however the stream is cut into chunks; what stands after the
  -- last line feed stays pending, and the stream is not destroyed.
  pub read_frames_lem :
      (cs : List Text)
      → All IsDelivered (split_lines (concat cs)).0
      → ((read deliver cs new_reader).frames ≡ non_empty (split_lines (concat cs)).0)
        × ((read deliver cs new_reader).pending ≡ (split_lines (concat cs)).1)
        × ((read deliver cs new_reader).errors ≡ [])
        × ((read deliver cs new_reader).destroyed ≡ false)
  unfolding new_reader split_lines
  read_frames_lem cs h =
      let e = read-has_lines cs [] h in
      (ap (λ r. r.frames) e, ap (λ r. r.pending) e, ap (λ r. r.errors) e, ap (λ r. r.destroyed) e)
