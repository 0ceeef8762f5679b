-- ===== src/Guest/Chunked/Stops.antt =====
-- The loop of the decoder ends: every round takes bytes or is the last.
use verser.Base.{
  ℕ, zero, suc, ◌+◌, ◌-◌, ◌≤◌, ◌<◌, ◌≡◌, ◌≢◌, refl, sym, ap, ◌∙◌, inl, inr, Text, Bool, true, false,
  ◌&&◌, List, [], ◌∷◌, ◌++◌, Option, none, some, arith, ltb, length, take, drop, ◌==◌, Bool-cases,
  Option-cases,
}
use verser.Guest.Chunked.{
  Options, Decoder, Outcome, returned, stuck, put_byte, split_crlf, size_from, ascii, Sized,
  stopped, sized, Flow, stops, goes, line_error, size_error, pending_error, accept_size, read_size,
  write_out, take_data, after_size, round, flush_within, flush, write, add,
}

pub length-drop : (n : ℕ) (xs : Text) → length (drop n xs) ≡ length xs - n
length-drop zero xs = omega arith
length-drop (suc n) [] = omega arith
length-drop (suc n) (x ∷ xs) = omega (arith, length-drop n xs)

pub length-put_byte :
    (b : ℕ) (m : Option (Text × Text)) {l r : Text}
    → put_byte b m ≡ some (l, r)
    → (k : Text) × (m ≡ some (k, r)) × (l ≡ b ∷ k)
length-put_byte b none e = absurd (cc)
length-put_byte b (some (k, s)) e = (k, ground (arith, e), ground (arith, e))

pub split_crlf-length :
    (xs : Text) {l r : Text} → split_crlf xs ≡ some (l, r) → length l + length r + 2 ≡ length xs
unfolding split_crlf
split_crlf-length [] e = absurd (cc)
split_crlf-length (b ∷ []) e = absurd (cc)
split_crlf-length (b ∷ c ∷ bs) {l} {r} e = elim (Bool-cases (b == 13 && c == 10)) [
  | inl crlf ↦ ground (arith, crlf, e)
  | inr other ↦
      let (k, f, g) = length-put_byte b (split_crlf (c ∷ bs)) (sym (skips other) ∙ e) in
      ground (arith, ap length g, split_crlf-length (c ∷ bs) f)
]
  where
    skips :
        (b == 13 && c == 10) ≡ false → split_crlf (b ∷ c ∷ bs) ≡ put_byte b (split_crlf (c ∷ bs))
    skips h = rw h refl

-- What a flow says of the decoder that it came from.
abbrev pub Shrinks : Decoder → Flow → Type 0
Shrinks d (stops e r) = (r ≢ stuck) × (length e.pending ≤ length d.pending)
Shrinks d (goes e) = length e.pending < length d.pending

abbrev Sizes : Decoder → Sized → Type 0
Sizes d (stopped e r) = (r ≢ stuck) × (length e.pending ≤ length d.pending)
Sizes d (sized n e) = length e.pending ≤ length d.pending

accept_size-Sizes :
    (line rest : Text) (size : Option ℕ) (d : Decoder)
    → length rest ≤ length d.pending
    → Sizes d (accept_size line rest size d)
unfolding accept_size size_error
accept_size-Sizes line rest none d h = ((λ e. cc), omega arith)
accept_size-Sizes line rest (some zero) d h = ((λ e. cc), omega arith)
accept_size-Sizes line rest (some (suc n)) d h = elim (Bool-cases (ltb 9007199254740991 (suc n))) [
  | inl big ↦ rw (big, accept_size) ((λ e. cc), h)
  | inr fits ↦ rw (fits, accept_size) h
]

read_size-Sizes : (o : Options) (d : Decoder) → Sizes d (read_size o d)
unfolding read_size line_error
read_size-Sizes o d = elim (Option-cases (split_crlf d.pending)) [
  | inl none_yet ↦ rw (none_yet, read_size) ((λ e. ground (arith, e)), omega arith)
  | inr ((line, rest), found) ↦ elim (Bool-cases (ltb o.max_chunk_size_line_bytes (length line))) [
    | inl long ↦ rw (found, read_size, long) ((λ e. cc), omega arith)
    | inr fits ↦
        rw (found, read_size, fits)
          (accept_size-Sizes (ascii line) rest (size_from false 0 (ascii line)) d
            (omega (arith, split_crlf-length d.pending found)))
  ]
]

module _ (takes_more : List Text → Bool) where
  write_out-Shrinks :
      (n : ℕ) (c d : Decoder)
      → length d.pending ≤ length c.pending
      → n + 2 ≤ length d.pending
      → Shrinks c (write_out takes_more n d)
  unfolding write_out
  write_out-Shrinks n c d h k = elim (Bool-cases (takes_more (d.output ++ take n d.pending ∷ []))) [
    | inl more ↦ rw (more, write_out) (omega (arith, length-drop (n + 2) d.pending))
    | inr full ↦ rw (full, write_out) ((λ e. cc), omega (arith, length-drop (n + 2) d.pending))
  ]

  take_data-Shrinks :
      (o : Options) (n : ℕ) (c d : Decoder)
      → length d.pending ≤ length c.pending
      → Shrinks c (take_data takes_more o n d)
  unfolding take_data pending_error
  take_data-Shrinks o n c d h = elim (Bool-cases (ltb (length d.pending) (n + 2))) [
    | inl short ↦ rw (short, take_data) ((λ e. ground (arith, e)), h)
    | inr enough ↦ rw (enough, take_data) (write_out-Shrinks n c d h (ground (arith, enough)))
  ]

  after_size-Shrinks :
      (o : Options) (d : Decoder) (s : Sized) → Sizes d s → Shrinks d (after_size takes_more o s)
  unfolding after_size
  after_size-Shrinks o d (stopped e r) h = h
  after_size-Shrinks o d (sized n e) h = take_data-Shrinks o n d e h

  pub round-Shrinks : (o : Options) (d : Decoder) → Shrinks d (round takes_more o d)
  unfolding round
  round-Shrinks o d = elim (Option-cases d.expected_chunk_bytes) [
    | inl fresh ↦ rw (fresh, round) (after_size-Shrinks o d (read_size o d) (read_size-Sizes o d))
    | inr (n, waits) ↦ rw (waits, round) (take_data-Shrinks o n d d (omega arith))
  ]

  abbrev pub continued : ℕ → Options → Flow → Decoder × Outcome
  continued fuel o (stops e r) = (e, r)
  continued fuel o (goes e) = flush_within takes_more fuel o e

  pub flush_within-step :
      (fuel : ℕ) (o : Options) (d : Decoder)
      → (length d.pending == 0) ≡ false
      → flush_within takes_more (suc fuel) o d ≡ continued fuel o (round takes_more o d)
  unfolding flush_within
  flush_within-step fuel o d h = rw (h, flush_within) (by_flow (round takes_more o d) refl)
    where
      by_flow :
          (f : Flow)
          → round takes_more o d ≡ f
          → elim f [ stops e r ↦ (e, r) | goes e ↦ flush_within takes_more fuel o e ]
            ≡ continued fuel o f
      by_flow (stops e r) q = refl
      by_flow (goes e) q = refl

  pub flush_within-empty :
      (fuel : ℕ) (o : Options) (d : Decoder)
      → (length d.pending == 0) ≡ true
      → flush_within takes_more (suc fuel) o d ≡ (d, returned true)
  unfolding flush_within
  flush_within-empty fuel o d h = rw (h, flush_within) refl

  continued-ends :
      (fuel : ℕ) (o : Options) (d : Decoder) (f : Flow)
      → ((e : Decoder) → length e.pending < fuel → (flush_within takes_more fuel o e).1 ≢ stuck)
      → Shrinks d f
      → length d.pending ≤ fuel
      → (continued fuel o f).1 ≢ stuck
  continued-ends fuel o d (stops e r) ih s h = s.0
  continued-ends fuel o d (goes e) ih s h = ih e (omega (arith, s, h))

  flush_within-ends :
      (fuel : ℕ) (o : Options) (d : Decoder)
      → length d.pending < fuel
      → (flush_within takes_more fuel o d).1 ≢ stuck
  flush_within-ends zero o d h = absurd (omega arith)
  flush_within-ends (suc fuel) o d h = elim (Bool-cases (length d.pending == 0)) [
    | inl empty ↦ rw (flush_within-empty fuel o d empty) (λ e. cc)
    | inr some_left ↦ rw (flush_within-step fuel o d some_left) (
        continued-ends fuel o d (round takes_more o d) (λ e k. flush_within-ends fuel o e k)
          (round-Shrinks o d) (omega arith))
  ]

  continued-same :
      (m n : ℕ) (o : Options) (d : Decoder) (f : Flow)
      → ((e : Decoder)
          → length e.pending < m
          → length e.pending < n
          → flush_within takes_more m o e ≡ flush_within takes_more n o e)
      → Shrinks d f
      → length d.pending ≤ m
      → length d.pending ≤ n
      → continued m o f ≡ continued n o f
  continued-same m n o d (stops e r) ih s hm hn = refl
  continued-same m n o d (goes e) ih s hm hn = ih e (omega (arith, s, hm)) (omega (arith, s, hn))

  -- All fuel that is more than the bytes gives the same.
  pub flush_within-same :
      (m n : ℕ) (o : Options) (d : Decoder)
      → length d.pending < m
      → length d.pending < n
      → flush_within takes_more m o d ≡ flush_within takes_more n o d
  flush_within-same zero n o d hm hn = absurd (omega arith)
  flush_within-same (suc m) zero o d hm hn = absurd (omega arith)
  flush_within-same (suc m) (suc n) o d hm hn = elim (Bool-cases (length d.pending == 0)) [
    | inl empty ↦ flush_within-empty m o d empty ∙ sym (flush_within-empty n o d empty)
    | inr some_left ↦
        flush_within-step m o d some_left
        ∙ continued-same m n o d (round takes_more o d) (λ e hm hn. flush_within-same m n o e hm hn)
            (round-Shrinks o d) (omega arith) (omega arith)
        ∙ sym (flush_within-step n o d some_left)
  ]

  -- The loop of `flush` ends: the fuel that it is given, one more than the bytes, is always enough,
  -- and more fuel gives the same.
  pub flush_ends :
      (o : Options) (d : Decoder) (more : ℕ)
      → ((flush takes_more o d).1 ≢ stuck)
        × (flush_within takes_more (suc (length d.pending) + more) o d ≡ flush takes_more o d)
  unfolding flush
  flush_ends o d more = (
    flush_within-ends (suc (length d.pending)) o d (omega arith),
    flush_within-same (suc (length d.pending) + more) (suc (length d.pending)) o d (omega arith)
        (omega arith),
  )

  continued-le :
      (fuel : ℕ) (o : Options) (d : Decoder) (f : Flow)
      → ((e : Decoder) → length (flush_within takes_more fuel o e).0.pending ≤ length e.pending)
      → Shrinks d f
      → length (continued fuel o f).0.pending ≤ length d.pending
  continued-le fuel o d (stops e r) ih s = s.1
  continued-le fuel o d (goes e) ih s = omega (arith, s, ih e)

  pub flush_within-le :
      (fuel : ℕ) (o : Options) (d : Decoder)
      → length (flush_within takes_more fuel o d).0.pending ≤ length d.pending
  flush_within-le zero o d = unfold flush_within in omega arith
  flush_within-le (suc fuel) o d = elim (Bool-cases (length d.pending == 0)) [
    | inl empty ↦ rw (flush_within-empty fuel o d empty) (omega arith)
    | inr some_left ↦
        rw (flush_within-step fuel o d some_left) (
          continued-le fuel o d (round takes_more o d) (flush_within-le fuel o) (round-Shrinks o d))
  ]

  write-over :
      (o : Options) (chunk : Text) (d : Decoder)
      → ltb o.max_pending_bytes (length (d.pending ++ chunk)) ≡ true
      → write takes_more o chunk d ≡ (add chunk d, pending_error o (length (d.pending ++ chunk)))
  unfolding write
  write-over o chunk d h = rw (h, write) refl

  pub write-flush :
      (o : Options) (chunk : Text) (d : Decoder)
      → ltb o.max_pending_bytes (length (d.pending ++ chunk)) ≡ false
      → write takes_more o chunk d ≡ flush takes_more o (add chunk d)
  unfolding write
  write-flush o chunk d h = rw (h, write) refl

  flush-le :
      (o : Options) (d : Decoder) → length (flush takes_more o d).0.pending ≤ length d.pending
  unfolding flush
  flush-le o d = flush_within-le (suc (length d.pending)) o d

  pub write-le :
      (o : Options) (chunk : Text) (d : Decoder)
      → length (write takes_more o chunk d).0.pending ≤ length (d.pending ++ chunk)
  write-le o chunk d = elim (Bool-cases (ltb o.max_pending_bytes (length (d.pending ++ chunk)))) [
    | inl over ↦ rw (write-over o chunk d over) (omega arith)
    | inr within ↦ rw (write-flush o chunk d within) (flush-le o (add chunk d))
  ]

  -- After a `write` that returns, no more bytes are pending than the limit allows.
  pub write-bounded :
      (o : Options) (chunk : Text) (d : Decoder) (b : Bool)
      → (write takes_more o chunk d).1 ≡ returned b
      → length (write takes_more o chunk d).0.pending ≤ o.max_pending_bytes
  write-bounded o chunk d b e =
      elim (Bool-cases (ltb o.max_pending_bytes (length (d.pending ++ chunk)))) [
        | inl over ↦ absurd (
            threw_or_returned
              (sym (ap (λ (x : Decoder × Outcome). x.1) (write-over o chunk d over)) ∙ e))
        | inr within ↦
            let room : length (d.pending ++ chunk) ≤ o.max_pending_bytes = ground (arith, within) in
            omega (arith, write-le o chunk d)
      ]
    where
      threw_or_returned : pending_error o (length (d.pending ++ chunk)) ≡ returned b → ⊥
      threw_or_returned h = unfold pending_error in ground (arith, h)
