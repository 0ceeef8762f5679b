-- ===== src/Common/Trim.antt =====
-- `String.prototype.trim`, of the language, on code units.
use verser.Base.{
  ℕ, ◌≡◌, refl, ap, ◌∙◌, inl, inr, Text, Bool, false, ◌&&◌, ◌||◌, [], ◌∷◌, arith, leb, ◌==◌,
  if◌then◌else◌, Bool-cases,
}

-- White space and line terminators of ECMAScript.
unfoldable pub is_space : ℕ → Bool
is_space c =
    (leb 9 c && leb c 13)
    || (c == 32)
    || (c == 160)
    || (c == 0x1680)
    || (leb 0x2000 c && leb c 0x200a)
    || (c == 0x2028)
    || (c == 0x2029)
    || (c == 0x202f)
    || (c == 0x205f)
    || (c == 0x3000)
    || (c == 0xfeff)

trim_start : Text → Text
trim_start [] = []
trim_start (c ∷ s) = let rest = trim_start s in if is_space c then rest else c ∷ s

-- A unit in front of a text that has no space at its end.
unfoldable pub put : ℕ → Text → Text
put c [] = if is_space c then [] else c ∷ []
put c (d ∷ s) = c ∷ d ∷ s

unfoldable pub trim_end : Text → Text
trim_end [] = []
trim_end (c ∷ s) = put c (trim_end s)

unfoldable pub trim : Text → Text
unfolding trim_start trim_end put is_space
trim s = trim_end (trim_start s)

StartsDark : Text → Type 0
StartsDark [] = Unit
StartsDark (c ∷ s) = is_space c ≡ false

trim_start-StartsDark : (s : Text) → StartsDark (trim_start s)
unfolding trim_start StartsDark
trim_start-StartsDark [] = tt
trim_start-StartsDark (c ∷ s) = elim (Bool-cases (is_space c)) [
  | inl light ↦ rw (light, trim_start) (trim_start-StartsDark s)
  | inr dark ↦ rw (dark, trim_start, StartsDark) dark
]

trim_start_dark : (s : Text) → StartsDark s → trim_start s ≡ s
unfolding trim_start StartsDark
trim_start_dark [] h = refl
trim_start_dark (c ∷ s) h = rw (h, trim_start) refl

put-dark : (c : ℕ) (s : Text) → is_space c ≡ false → put c s ≡ c ∷ s
unfolding put
put-dark c [] h = rw h refl
put-dark c (d ∷ s) h = refl

trim_end-StartsDark : (s : Text) → StartsDark s → StartsDark (trim_end s)
unfolding StartsDark trim_end
trim_end-StartsDark [] h = tt
trim_end-StartsDark (c ∷ s) h = rw (put-dark c (trim_end s) h) h

trim_end-put : (c : ℕ) (s : Text) → trim_end s ≡ s → trim_end (put c s) ≡ put c s
unfolding trim_end put
trim_end-put c [] h = ground arith
trim_end-put c (d ∷ s) h = ground arith

trim_end_idem : (s : Text) → trim_end (trim_end s) ≡ trim_end s
unfolding trim_end
trim_end_idem [] = refl
trim_end_idem (c ∷ s) = trim_end-put c (trim_end s) (trim_end_idem s)

-- A trimmed text is not trimmed further.
pub trim_idem : (s : Text) → trim (trim s) ≡ trim s
unfolding trim
trim_idem s =
    ap trim_end (
      trim_start_dark (trim_end (trim_start s))
        (trim_end-StartsDark (trim_start s) (trim_start-StartsDark s)))
    ∙ trim_end_idem (trim_start s)

-- A text that starts with no space is not trimmed away.
pub trim-present : (c : ℕ) (s : Text) → is_space c ≡ false → trim (c ∷ s) ≡ c ∷ trim_end s
unfolding trim trim_end
trim-present c s h = rw (h, trim_start) (put-dark c (trim_end s) h)
