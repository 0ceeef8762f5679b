-- ===== src/Common/VwsLine/Whole.antt =====
-- What a reader makes of a stream is a matter of its bytes, not of its chunks.
use verser.Base.{
  ℕ, ◌+◌, ◌≤◌, ◌<◌, ◌≡◌, refl, sym, ap, ◌∙◌, inl, inr, Text, List, [], ◌∷◌, ◌++◌, none, some, arith,
  ltb, length, length-append, subst, append_assoc, append-nil, Bool-cases, Option-cases,
}
use verser.Common.VwsLine.{
  Outcome, resolved, rejected, Reader, new_reader, split_line, concat, oversize, on_data, feed,
}
use verser.Common.VwsLine.Chunks.{split_line-append_some, split_line-append_none}

concat-snoc : (cs : List Text) (c : Text) → concat (cs ++ c ∷ []) ≡ concat cs ++ c
concat-snoc [] c = append-nil c
concat-snoc (d ∷ cs) c = ap (λ t. d ++ t) (concat-snoc cs c) ∙ sym (append_assoc d (concat cs) c)

split_empty : split_line [] ≡ none
unfolding split_line
split_empty = refl

-- A reader that still waits, with the bytes it has so far.
record Waits (have : Text) (r : Reader) : Type 0 where
  open_still : r.settled ≡ none
  bytes : concat r.chunks ≡ have
  counted : r.buffered_bytes ≡ length have

module _ (utf8 : Text → Text) (max_bytes : ℕ) where
  -- Of the chunks that come, those that come after the reader has settled.
  unfoldable pub unseen : Reader → List Text → List Text
  unseen r [] = []
  unseen r (c ∷ cs) =
      let next = unseen (on_data utf8 max_bytes c r) cs in
      elim r.settled [ some o ↦ c ∷ cs | none ↦ next ]

  abbrev all_of : Reader → List Text → Reader × List Text
  all_of r cs = (feed utf8 max_bytes r cs, unseen r cs)

  feed_waits :
      (r : Reader) (c : Text) (cs : List Text)
      → r.settled ≡ none
      → all_of r (c ∷ cs) ≡ all_of (on_data utf8 max_bytes c r) cs
  unfolding feed unseen
  feed_waits r c cs e = rw e refl

  feed_settled :
      (r : Reader) (cs : List Text) (o : Outcome) → r.settled ≡ some o → all_of r cs ≡ (r, cs)
  unfolding feed unseen
  feed_settled r [] o e = refl
  feed_settled r (c ∷ cs) o e = rw e refl

  abbrev kept : Text → Reader → Reader
  kept c r = record r { chunks = r.chunks ++ c ∷ []; buffered_bytes = r.buffered_bytes + length c }

  on_data_more :
      (r : Reader) (c : Text)
      → split_line c ≡ none
      → (r.buffered_bytes + length c) ≤ max_bytes
      → on_data utf8 max_bytes c r ≡ kept c r
  unfolding on_data
  on_data_more r c n le = rw (n, on_data) (ground (arith, le))

  on_data_too_long :
      (r : Reader) (c : Text)
      → split_line c ≡ none
      → max_bytes < (r.buffered_bytes + length c)
      → r.settled ≡ none
      → (on_data utf8 max_bytes c r).settled ≡ some (rejected oversize)
  unfolding on_data
  on_data_too_long r c n lt e = rw (n, on_data) (ground (arith, lt, e))

  on_data_line :
      (r : Reader) (c b m : Text)
      → split_line c ≡ some (b, m)
      → (r.buffered_bytes + length b) ≤ max_bytes
      → r.settled ≡ none
      → on_data utf8 max_bytes c r
        ≡ record r { settled = some (resolved (utf8 (concat r.chunks ++ b))); unshifted = m }
  unfolding on_data
  on_data_line r c b m s le e = rw (s, on_data) (ground (arith, le, e))

  on_data_long_line :
      (r : Reader) (c b m : Text)
      → split_line c ≡ some (b, m)
      → max_bytes < (r.buffered_bytes + length b)
      → r.settled ≡ none
      → (on_data utf8 max_bytes c r).settled ≡ some (rejected oversize)
  unfolding on_data
  on_data_long_line r c b m s lt e = rw (s, on_data) (ground (arith, lt, e))

  -- What the stream and the reader have together.
  abbrev Reads : Text → Text → Reader × List Text → Type 0
  Reads line rest (r, left) =
      (r.settled ≡ some (resolved (utf8 line))) × (r.unshifted ++ concat left ≡ rest)

  kept-Waits : (c have : Text) (r : Reader) → Waits have r → Waits (have ++ c) (kept c r)
  kept-Waits c have r w = record {
    open_still = w.open_still;
    bytes = concat-snoc r.chunks c ∙ ap (λ t. t ++ c) w.bytes;
    counted = ground (arith, w.counted, length-append have c);
  }

  line_here :
      (r : Reader) (c : Text) (cs : List Text) (b m have : Text)
      → Waits have r
      → split_line c ≡ some (b, m)
      → (length have + length b) ≤ max_bytes
      → Reads (have ++ b) (m ++ concat cs) (all_of r (c ∷ cs))
  line_here r c cs b m have w found le =
      subst (Reads (have ++ b) (m ++ concat cs))
        (sym (
          feed_waits r c cs w.open_still
          ∙ ap (λ x. all_of x cs)
              (on_data_line r c b m found (ground (arith, w.counted, le)) w.open_still)
          ∙ feed_settled _ cs (resolved (utf8 (concat r.chunks ++ b))) refl))
        (ap (λ t. some (resolved (utf8 (t ++ b)))) w.bytes, refl)

  feed-Reads :
      (cs : List Text) (have l rest : Text) (r : Reader)
      → Waits have r
      → split_line (concat cs) ≡ some (l, rest)
      → (length have + length l) ≤ max_bytes
      → Reads (have ++ l) rest (all_of r cs)
  feed-Reads [] have l rest r w s le = absurd (ground (arith, s, split_empty))
  feed-Reads (c ∷ cs) have l rest r w s le = elim (Option-cases (split_line c)) [
    | inl more ↦
        let (m, q, t) = split_line-append_none c (concat cs) l rest more s in
        subst (λ x. Reads x rest (all_of r (c ∷ cs)))
          (append_assoc have c m ∙ ap (λ x. have ++ x) (sym q))
          (subst (Reads ((have ++ c) ++ m) rest)
            (sym (
              feed_waits r c cs w.open_still
              ∙ ap (λ x. all_of x cs)
                  (on_data_more r c more
                    (ground (arith, w.counted, le, ap length q, length-append c m)))))
            (feed-Reads cs (have ++ c) m rest (kept c r) (kept-Waits c have r w) t
              (ground (arith, le, ap length q, length-append c m, length-append have c))))
    | inr ((b, m), found) ↦
        let same = sym (split_line-append_some c (concat cs) b m found) ∙ s in
        let lines : b ≡ l = ground (arith, same) in
        let rests : m ++ concat cs ≡ rest = ground (arith, same) in
        subst (λ x. Reads (have ++ l) x (all_of r (c ∷ cs))) rests
          (subst (λ x. Reads (have ++ x) (m ++ concat cs) (all_of r (c ∷ cs))) lines
            (line_here r c cs b m have w found (ground (arith, le, ap length lines))))
  ]

  new-Waits : Waits [] new_reader
  new-Waits = unfold new_reader in record { open_still = refl; bytes = refl; counted = refl }

  -- If the bytes of the chunks have a line feed after at most `max_bytes` bytes, the reader returns the
  -- text of the bytes before it; and the bytes that it puts back are those after the line feed, but for
  -- those of the chunks that it does not see, however the bytes are cut into chunks.
  pub read_line_lem :
      (cs : List Text) (line rest : Text)
      → split_line (concat cs) ≡ some (line, rest)
      → length line ≤ max_bytes
      → ((feed utf8 max_bytes new_reader cs).settled ≡ some (resolved (utf8 line)))
        × ((feed utf8 max_bytes new_reader cs).unshifted ++ concat (unseen new_reader cs) ≡ rest)
  read_line_lem cs line rest s le =
      feed-Reads cs [] line rest new_reader new-Waits s (ground (arith, le))

  rejects :
      (r : Reader) (c : Text) (cs : List Text)
      → r.settled ≡ none
      → (on_data utf8 max_bytes c r).settled ≡ some (rejected oversize)
      → (feed utf8 max_bytes r (c ∷ cs)).settled ≡ some (rejected oversize)
  rejects r c cs w e =
      ap (λ x. x.0.settled) (feed_waits r c cs w ∙ feed_settled _ cs (rejected oversize) e) ∙ e

  feed-rejected :
      (cs : List Text) (have l rest : Text) (r : Reader)
      → Waits have r
      → split_line (concat cs) ≡ some (l, rest)
      → max_bytes < (length have + length l)
      → (feed utf8 max_bytes r cs).settled ≡ some (rejected oversize)
  feed-rejected [] have l rest r w s lt = absurd (ground (arith, s, split_empty))
  feed-rejected (c ∷ cs) have l rest r w s lt = elim (Option-cases (split_line c)) [
    | inl more ↦
        let (m, q, t) = split_line-append_none c (concat cs) l rest more s in
        elim (Bool-cases (ltb max_bytes (r.buffered_bytes + length c))) [
          | inl long ↦
              rejects r c cs w.open_still
                (on_data_too_long r c more (ground (arith, long)) w.open_still)
          | inr short ↦
              ap (λ x. x.0.settled)
                (feed_waits r c cs w.open_still
                  ∙ ap (λ x. all_of x cs) (on_data_more r c more (ground (arith, short))))
              ∙ feed-rejected cs (have ++ c) m rest (kept c r) (kept-Waits c have r w) t
                  (ground (arith, lt, ap length q, length-append c m, length-append have c))
        ]
    | inr ((b, m), found) ↦
        let lines : b ≡ l =
          ground (arith, sym (split_line-append_some c (concat cs) b m found) ∙ s) in
        rejects r c cs w.open_still (
          on_data_long_line r c b m found (ground (arith, w.counted, lt, ap length lines))
            w.open_still)
  ]

  -- A line of more than `max_bytes` bytes is rejected with the close code 1009, however the stream was
  -- cut into chunks.
  pub read_line-oversize :
      (cs : List Text) (line rest : Text)
      → split_line (concat cs) ≡ some (line, rest)
      → max_bytes < length line
      → (feed utf8 max_bytes new_reader cs).settled ≡ some (rejected oversize)
  read_line-oversize cs line rest s lt =
      feed-rejected cs [] line rest new_reader new-Waits s (ground (arith, lt))
