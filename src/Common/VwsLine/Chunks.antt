-- ===== src/Common/VwsLine/Chunks.antt =====
-- The line that is read does not depend on how the stream is cut into chunks.
use verser.Base.{
  ℕ, ◌≡◌, refl, sym, ap, ◌∙◌, inl, inr, Text, [], ◌∷◌, ◌++◌, Option, none, some, arith, ◌==◌,
  Bool-cases, true, false,
}
use verser.Common.VwsLine.{put_byte, split_line, feed}

put_byte-none : (x : ℕ) (m : Option (Text × Text)) → put_byte x m ≡ none → m ≡ none
put_byte-none x none e = refl
put_byte-none x (some (l, r)) e = absurd (cc)

-- How a byte before a split line changes it.
put_byte-some :
    (x : ℕ) (m : Option (Text × Text)) {l r : Text}
    → put_byte x m ≡ some (l, r)
    → (k : Text) × (m ≡ some (k, r)) × (l ≡ x ∷ k)
put_byte-some x none e = absurd (cc)
put_byte-some x (some (k, s)) e = (k, ground (arith, e), ground (arith, e))

split_at_feed : (x : ℕ) (xs : Text) → (x == 10) ≡ true → split_line (x ∷ xs) ≡ some ([], xs)
unfolding split_line
split_at_feed x xs h = rw h refl

split_at_byte :
    (x : ℕ) (xs : Text) → (x == 10) ≡ false → split_line (x ∷ xs) ≡ put_byte x (split_line xs)
unfolding split_line
split_at_byte x xs h = rw h refl

-- A line feed that is found is found in a longer text too.
pub split_line-append_some :
    (xs ys l r : Text) → split_line xs ≡ some (l, r) → split_line (xs ++ ys) ≡ some (l, r ++ ys)
split_line-append_some [] ys l r e = unfold split_line in ground (arith, e)
split_line-append_some (x ∷ xs) ys l r e = elim (Bool-cases (x == 10)) [
  | inl feed ↦ ground (arith, split_at_feed x xs feed, split_at_feed x (xs ++ ys) feed, e)
  | inr byte ↦
      let (k, s, q) = put_byte-some x (split_line xs) (sym (split_at_byte x xs byte) ∙ e) in
      split_at_byte x (xs ++ ys) byte
      ∙ ap (put_byte x) (split_line-append_some xs ys k r s)
      ∙ ap (λ t. some (t, r ++ ys)) (sym q)
]

pub split_line-append_none :
    (xs ys l r : Text)
    → split_line xs ≡ none
    → split_line (xs ++ ys) ≡ some (l, r)
    → (m : Text) × (l ≡ xs ++ m) × (split_line ys ≡ some (m, r))
split_line-append_none [] ys l r n e = (l, refl, e)
split_line-append_none (x ∷ xs) ys l r n e = elim (Bool-cases (x == 10)) [
  | inl feed ↦ absurd (ground (arith, split_at_feed x xs feed, n))
  | inr byte ↦
      let (k, s, q) =
        put_byte-some x (split_line (xs ++ ys)) (sym (split_at_byte x (xs ++ ys) byte) ∙ e) in
      let (m, t, u) =
        split_line-append_none xs ys k r
          (put_byte-none x (split_line xs) (sym (split_at_byte x xs byte) ∙ n)) s in
      (m, q ∙ ap (λ w. x ∷ w) t, u)
]
