-- ===== src/Guest/Chunked/Whole.antt =====
-- A body that is written in pieces is decoded as if it was written at once.
use verser.Base.{
  ℕ, zero, suc, ◌≤◌, ◌<◌, ◌≡◌, refl, sym, ap, ◌∙◌, inl, inr, Text, Bool, true, false, List, ◌++◌,
  some, arith, ltb, length, length-append, append_assoc, ◌==◌, if◌then◌else◌, Bool-cases,
}
use verser.Guest.Chunked.{
  Options, Decoder, Outcome, returned, Flow, stops, goes, take_data, round, flush_within, flush,
  write, add, pending_error,
}
use verser.Guest.Chunked.Stops.{
  continued, Shrinks, round-Shrinks, flush_within-step, flush_within-empty, flush_within-same,
  write-le, write-flush,
}
use verser.Guest.Chunked.Pieces.{Follows, round-Follows, round-waits, take_data-short}

module _ (takes_more : List Text → Bool) (always : (out : List Text) → takes_more out ≡ true)
    (o : Options) where
  abbrev pub last_of : Flow → Decoder × Outcome
  last_of (stops e r) = (e, r)
  last_of (goes e) = flush takes_more o e

  continued-last_of :
      (d : Decoder) (f : Flow)
      → Shrinks d f
      → continued takes_more (length d.pending) o f ≡ last_of f
  continued-last_of d (stops e r) s = refl
  continued-last_of d (goes e) s =
      unfold flush in
      flush_within-same takes_more (length d.pending) (suc (length e.pending)) o e s (omega arith)

  pub flush-last_of :
      (d : Decoder)
      → (length d.pending == 0) ≡ false
      → flush takes_more o d ≡ last_of (round takes_more o d)
  unfolding flush
  flush-last_of d some_left =
      flush_within-step takes_more (length d.pending) o d some_left
      ∙ continued-last_of d (round takes_more o d) (round-Shrinks takes_more o d)

  flush-empty :
      (d : Decoder) → (length d.pending == 0) ≡ true → flush takes_more o d ≡ (d, returned true)
  unfolding flush
  flush-empty d e = flush_within-empty takes_more (length d.pending) o d e

  nothing_over :
      (d : Decoder)
      → (length d.pending == 0) ≡ true
      → last_of (
          stops d (
            if ltb o.max_pending_bytes (length d.pending)
            then pending_error o (length d.pending)
            else returned true))
        ≡ (d, returned true)
  nothing_over d e = ground (arith, e)

  flush-waits :
      (n : ℕ) (d : Decoder)
      → d.expected_chunk_bytes ≡ some n
      → flush takes_more o d ≡ last_of (take_data takes_more o n d)
  flush-waits n d w = elim (Bool-cases (length d.pending == 0)) [
    | inl empty ↦
        flush-empty d empty
        ∙ sym (
            ap last_of (take_data-short takes_more always o n d (ground (arith, empty)))
            ∙ nothing_over d empty)
    | inr some_left ↦ flush-last_of d some_left ∙ ap last_of (round-waits takes_more always o n d w)
  ]

  module _ (c : Text) where
    continued-more :
        (fuel : ℕ) (d : Decoder) (f : Flow)
        → (length (add c d).pending == 0) ≡ false
        → round takes_more o d ≡ f
        → ((e : Decoder)
            → length e.pending < fuel
            → (flush_within takes_more fuel o e).1 ≡ returned true
            → (flush_within takes_more fuel o e).0.ended ≡ false
            → flush takes_more o (add c (flush_within takes_more fuel o e).0)
              ≡ flush takes_more o (add c e))
        → Shrinks d f
        → length d.pending ≤ fuel
        → Follows takes_more always o c d f
        → (continued takes_more fuel o f).1 ≡ returned true
        → (continued takes_more fuel o f).0.ended ≡ false
        → flush takes_more o (add c (continued takes_more fuel o f).0)
          ≡ flush takes_more o (add c d)
    continued-more fuel d (goes e) left q ih s k h r a =
        ih e (omega (arith, s, k)) r a ∙ sym (flush-last_of (add c d) left ∙ ap last_of h)
    continued-more fuel d (stops e x) left q ih s k h r a = elim (h r a) [
      | inl same ↦ ap (λ y. flush takes_more o (add c y)) same
      | inr (n, w, g) ↦
          flush-waits n (add c e) w ∙ sym (flush-last_of (add c d) left ∙ ap last_of g)
    ]

    flush_within-more :
        (fuel : ℕ) (d : Decoder)
        → length d.pending < fuel
        → (flush_within takes_more fuel o d).1 ≡ returned true
        → (flush_within takes_more fuel o d).0.ended ≡ false
        → flush takes_more o (add c (flush_within takes_more fuel o d).0)
          ≡ flush takes_more o (add c d)
    flush_within-more zero d h r a = absurd (omega arith)
    flush_within-more (suc fuel) d h r a = elim (Bool-cases (length d.pending == 0)) [
      | inl empty ↦
          ap (λ x. flush takes_more o (add c x.0)) (flush_within-empty takes_more fuel o d empty)
      | inr some_left ↦
          let step = flush_within-step takes_more fuel o d some_left in
          ap (λ x. flush takes_more o (add c x.0)) step
          ∙ continued-more fuel d (round takes_more o d)
              (ground (arith, some_left, length-append d.pending c)) refl
              (λ e k. flush_within-more fuel e k) (round-Shrinks takes_more o d) (omega arith)
              (round-Follows takes_more always o c d) (ap (λ x. x.1) (sym step) ∙ r)
              (ap (λ x. x.0.ended) (sym step) ∙ a)
    ]

  flush-more :
      (c : Text) (d : Decoder)
      → (flush takes_more o d).1 ≡ returned true
      → (flush takes_more o d).0.ended ≡ false
      → flush takes_more o (add c (flush takes_more o d).0) ≡ flush takes_more o (add c d)
  unfolding flush
  flush-more c d r a = flush_within-more c (suc (length d.pending)) d (omega arith) r a

  -- To an output that always takes more, writing two pieces is writing them at once: it leaves the same
  -- decoder, with the same output, and returns or throws the same. This is so where the first piece
  -- is accepted and does not end the body, and the bytes are within the limit on pending ones.
  pub write-append :
      (c e : Text) (d : Decoder)
      → length (d.pending ++ (c ++ e)) ≤ o.max_pending_bytes
      → (write takes_more o c d).1 ≡ returned true
      → (write takes_more o c d).0.ended ≡ false
      → write takes_more o e (write takes_more o c d).0 ≡ write takes_more o (c ++ e) d
  write-append c e d h r a =
      let first =
        write-flush takes_more o c d
          (ground (arith, h, append_assoc d.pending c e, length-append (d.pending ++ c) e)) in
      let second = write-flush takes_more o e (write takes_more o c d).0 (
        ground (
          arith,
          h,
          append_assoc d.pending c e,
          length-append (d.pending ++ c) e,
          length-append (write takes_more o c d).0.pending e,
          write-le takes_more o c d,
        )) in
      let both = write-flush takes_more o (c ++ e) d (ground (arith, h)) in
      second
      ∙ ap (λ x. flush takes_more o (add e x.0)) first
      ∙ flush-more e (add c d) (ap (λ x. x.1) (sym first) ∙ r) (ap (λ x. x.0.ended) (sym first) ∙ a)
      ∙ ap (λ x. flush takes_more o (record d { pending = x })) (append_assoc d.pending c e)
      ∙ sym both
