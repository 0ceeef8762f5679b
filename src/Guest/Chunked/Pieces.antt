-- ===== src/Guest/Chunked/Pieces.antt =====
-- Writing a body in two pieces or at once, to an output that always takes more.
use verser.Base.{
  ℕ, zero, suc, ◌+◌, ◌≤◌, ◌≡◌, refl, sym, ap, ◌∙◌, subst, ◌⊎◌, inl, inr, Text, Bool, true, false,
  ◌&&◌, List, [], ◌∷◌, ◌++◌, Option, none, some, arith, ltb, length, length-append, take, drop,
  ◌==◌, if◌then◌else◌, Bool-cases, Option-cases,
}
use verser.Guest.Chunked.{
  Options, Decoder, returned, put_byte, split_crlf, size_from, ascii, sized, Flow, stops, goes,
  line_error, size_error, pending_error, accept_size, read_size, write_out, take_data, after_size,
  round, add,
}
use verser.Guest.Chunked.Stops.{length-put_byte}

split_crlf-append :
    (xs ys : Text) {l r : Text}
    → split_crlf xs ≡ some (l, r)
    → split_crlf (xs ++ ys) ≡ some (l, r ++ ys)
unfolding split_crlf
split_crlf-append [] ys e = absurd (cc)
split_crlf-append (b ∷ []) ys e = absurd (cc)
split_crlf-append (b ∷ c ∷ bs) ys {l} {r} e = elim (Bool-cases (b == 13 && c == 10)) [
  | inl crlf ↦ ground (arith, crlf, e)
  | inr other ↦
      let (k, f, g) = length-put_byte b (split_crlf (c ∷ bs)) (sym (skips bs other) ∙ e) in
      skips (bs ++ ys) other
      ∙ ap (put_byte b) (split_crlf-append (c ∷ bs) ys f)
      ∙ ap (λ t. some (t, r ++ ys)) (sym g)
]
  where
    skips :
        (zs : Text)
        → (b == 13 && c == 10) ≡ false
        → split_crlf (b ∷ c ∷ zs) ≡ put_byte b (split_crlf (c ∷ zs))
    skips zs h = rw h refl

pub take-append : (n : ℕ) (xs ys : Text) → n ≤ length xs → take n (xs ++ ys) ≡ take n xs
take-append zero xs ys h = refl
take-append (suc n) [] ys h = absurd (omega arith)
take-append (suc n) (x ∷ xs) ys h = ap (◌∷◌ x) (take-append n xs ys (omega arith))

pub drop-append : (n : ℕ) (xs ys : Text) → n ≤ length xs → drop n (xs ++ ys) ≡ drop n xs ++ ys
drop-append zero xs ys h = refl
drop-append (suc n) [] ys h = absurd (omega arith)
drop-append (suc n) (x ∷ xs) ys h = drop-append n xs ys (omega arith)

abbrev pub begun : ℕ → Text → Decoder → Decoder
begun n rest d = record d { pending = rest; expected_chunk_bytes = some n }

pub read_size-sized :
    (o : Options) (d : Decoder) (line rest : Text) (n : ℕ)
    → split_crlf d.pending ≡ some (line, rest)
    → ltb o.max_chunk_size_line_bytes (length line) ≡ false
    → size_from false 0 (ascii line) ≡ some (suc n)
    → ltb 9007199254740991 (suc n) ≡ false
    → read_size o d ≡ sized (suc n) (begun (suc n) rest d)
unfolding read_size
read_size-sized o d line rest n found fits size safe =
    rw (found, read_size, fits) (rw (size) (unfold accept_size in rw safe refl))

abbrev pub written : ℕ → Decoder → Decoder
written n d = record d {
  output = d.output ++ take n d.pending ∷ [];
  pending = drop (n + 2) d.pending;
  expected_chunk_bytes = none;
}

written-add :
    (c : Text) (n : ℕ) (d : Decoder)
    → n + 2 ≤ length d.pending
    → written n (add c d) ≡ add c (written n d)
written-add c n d h =
    ap
      (λ x. record (written n d) {
        output = d.output ++ x ∷ [];
        pending = drop (n + 2) (d.pending ++ c);
      })
      (take-append n d.pending c (omega arith))
    ∙ ap (λ x. record (written n d) { pending = x }) (drop-append (n + 2) d.pending c h)

module _ (takes_more : List Text → Bool) (always : (out : List Text) → takes_more out ≡ true)
    (o : Options) where
  pub take_data-goes :
      (n : ℕ) (d : Decoder)
      → ltb (length d.pending) (n + 2) ≡ false
      → take_data takes_more o n d ≡ goes (written n d)
  unfolding take_data write_out
  take_data-goes n d h = rw (h, take_data, always (d.output ++ take n d.pending ∷ [])) refl

  pub take_data-short :
      (n : ℕ) (d : Decoder)
      → ltb (length d.pending) (n + 2) ≡ true
      → take_data takes_more o n d
        ≡ stops d (
            if ltb o.max_pending_bytes (length d.pending)
            then pending_error o (length d.pending)
            else returned true)
  unfolding take_data
  take_data-short n d h = rw (h, take_data) refl

  pub round-waits :
      (n : ℕ) (d : Decoder)
      → d.expected_chunk_bytes ≡ some n
      → round takes_more o d ≡ take_data takes_more o n d
  unfolding round
  round-waits n d e =
      ap
        (λ x. elim x [
          | none ↦ after_size takes_more o (read_size o d)
          | some m ↦ take_data takes_more o m d
        ])
        e

  pub round-fresh :
      (d : Decoder)
      → d.expected_chunk_bytes ≡ none
      → round takes_more o d ≡ after_size takes_more o (read_size o d)
  unfolding round
  round-fresh d e =
      ap
        (λ x. elim x [
          | none ↦ after_size takes_more o (read_size o d)
          | some m ↦ take_data takes_more o m d
        ])
        e

module _ (takes_more : List Text → Bool) (always : (out : List Text) → takes_more out ≡ true)
    (o : Options) (c : Text) where
  -- What a round has to do with a round that has more bytes.
  abbrev pub Follows : Decoder → Flow → Type 0
  Follows d (goes e) = round takes_more o (add c d) ≡ goes (add c e)
  Follows d (stops e r) =
      r ≡ returned true
      → e.ended ≡ false
      → (e ≡ d)
        ⊎ ((n : ℕ) × (e.expected_chunk_bytes ≡ some n)
            × (round takes_more o (add c d) ≡ take_data takes_more o n (add c e)))

  take_data-Follows :
      (n : ℕ) (d e : Decoder)
      → e.expected_chunk_bytes ≡ some n
      → round takes_more o (add c d) ≡ take_data takes_more o n (add c e)
      → Follows d (take_data takes_more o n e)
  take_data-Follows n d e w h = elim (Bool-cases (ltb (length e.pending) (n + 2))) [
    | inl short ↦
        subst (Follows d) (sym (take_data-short takes_more always o n e short))
          (λ _ _. inr (n, w, h))
    | inr enough ↦ subst (Follows d) (sym (take_data-goes takes_more always o n e enough)) (
        h
        ∙ take_data-goes takes_more always o n (add c e)
            (ground (arith, enough, length-append e.pending c))
        ∙ ap goes (written-add c n e (ground (arith, enough))))
  ]

  accept_size-Follows :
      (d : Decoder) (line rest : Text) (size : Option ℕ)
      → split_crlf d.pending ≡ some (line, rest)
      → ltb o.max_chunk_size_line_bytes (length line) ≡ false
      → d.expected_chunk_bytes ≡ none
      → size_from false 0 (ascii line) ≡ size
      → Follows d (after_size takes_more o (accept_size (ascii line) rest size d))
  unfolding accept_size after_size
  accept_size-Follows d line rest none found fits fresh q = λ r _. absurd (unfold size_error in cc)
  accept_size-Follows d line rest (some zero) found fits fresh q = λ _ e. absurd (cc)
  accept_size-Follows d line rest (some (suc n)) found fits fresh q =
      elim (Bool-cases (ltb 9007199254740991 (suc n))) [
        | inl big ↦ rw (big, accept_size) (λ r _. absurd (unfold size_error in cc))
        | inr safe ↦
            rw (safe, accept_size)
              (take_data-Follows (suc n) d (begun (suc n) rest d) refl (
                round-fresh takes_more always o (add c d) fresh
                ∙ ap (after_size takes_more o) (
                    read_size-sized o (add c d) line (rest ++ c) n
                      (split_crlf-append d.pending c found) fits q safe)))
      ]

  read_size-Follows :
      (d : Decoder)
      → d.expected_chunk_bytes ≡ none
      → Follows d (after_size takes_more o (read_size o d))
  unfolding read_size after_size
  read_size-Follows d fresh = elim (Option-cases (split_crlf d.pending)) [
    | inl none_yet ↦ rw (none_yet, read_size) (λ _ _. inl refl)
    | inr ((line, rest), found) ↦
        elim (Bool-cases (ltb o.max_chunk_size_line_bytes (length line))) [
          | inl long ↦ rw (found, read_size, long) (λ r _. absurd (unfold line_error in cc))
          | inr fits ↦
              rw (found, read_size, fits)
                (accept_size-Follows d line rest (size_from false 0 (ascii line)) found fits fresh
                  refl)
        ]
  ]

  pub round-Follows : (d : Decoder) → Follows d (round takes_more o d)
  round-Follows d = elim (Option-cases d.expected_chunk_bytes) [
    | inl fresh ↦
        subst (Follows d) (sym (round-fresh takes_more always o d fresh))
          (read_size-Follows d fresh)
    | inr (n, waits) ↦
        subst (Follows d) (sym (round-waits takes_more always o n d waits))
          (take_data-Follows n d d waits (round-waits takes_more always o n (add c d) waits))
  ]
