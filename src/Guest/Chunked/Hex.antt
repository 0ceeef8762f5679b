-- ===== src/Guest/Chunked/Hex.antt =====
-- Numbers in hexadecimal digits, as size lines have them.
use verser.Base.{
  ℕ, zero, suc, ◌+◌, ◌*◌, ◌/◌, ◌%◌, ◌≤◌, ◌<◌, ◌≡◌, refl, ap, ◌∙◌, inl, inr, Text, Bool, true, false,
  ◌||◌, [], ◌∷◌, ◌++◌, some, arith, ltb, any, append_assoc, ◌==◌, if◌then◌else◌, All, All-append,
  All-imp, Bool-cases,
}
use verser.Js.{codes}
use verser.Guest.Chunked.{ascii, hex_value, size_from}

-- The digit at a place of a table of digits.
unfoldable pub digit_at : ℕ → Text → ℕ
digit_at n [] = 0
digit_at zero (d ∷ ds) = d
digit_at (suc n) (d ∷ ds) = digit_at n ds

abbrev pub digits : Bool → Text
digits upper = if upper then codes "0123456789ABCDEF" else codes "0123456789abcdef"

-- The digits of a number, the most significant first; the number itself is enough fuel.
unfoldable pub hex_within : ℕ → Bool → ℕ → Text
unfolding digit_at
hex_within zero upper n = digit_at n (digits upper) ∷ []
hex_within (suc fuel) upper n =
    let front = hex_within fuel upper (n / 16) in
    if ltb n 16
    then digit_at n (digits upper) ∷ []
    else front ++ digit_at (n % 16) (digits upper) ∷ []

unfoldable pub hex : Bool → ℕ → Text
unfolding hex_within
hex upper n = hex_within n upper n

-- What the decoder relies on of each digit.
abbrev Reads : Bool → ℕ → Type 0
Reads upper v =
    (hex_value (digit_at v (digits upper) % 128) ≡ some v)
    × ((digit_at v (digits upper) == 13) ≡ false)

digit_at-Reads : (upper : Bool) (v : ℕ) → v < 16 → Reads upper v
unfolding digit_at
digit_at-Reads true zero h = (refl, refl)
digit_at-Reads true (suc zero) h = (refl, refl)
digit_at-Reads true (suc (suc zero)) h = (refl, refl)
digit_at-Reads true (suc (suc (suc zero))) h = (refl, refl)
digit_at-Reads true (suc (suc (suc (suc zero)))) h = (refl, refl)
digit_at-Reads true (suc (suc (suc (suc (suc zero))))) h = (refl, refl)
digit_at-Reads true (suc (suc (suc (suc (suc (suc zero)))))) h = (refl, refl)
digit_at-Reads true (suc (suc (suc (suc (suc (suc (suc zero))))))) h = (refl, refl)
digit_at-Reads true (suc (suc (suc (suc (suc (suc (suc (suc zero)))))))) h = (refl, refl)
digit_at-Reads true (suc (suc (suc (suc (suc (suc (suc (suc (suc zero))))))))) h = (refl, refl)
digit_at-Reads true (suc (suc (suc (suc (suc (suc (suc (suc (suc (suc zero)))))))))) h =
    (refl, refl)
digit_at-Reads true (suc (suc (suc (suc (suc (suc (suc (suc (suc (suc (suc zero))))))))))) h =
    (refl, refl)
digit_at-Reads true (suc (suc (suc (suc (suc (suc (suc (suc (suc (suc (suc (suc zero)))))))))))) h =
    (refl, refl)
digit_at-Reads true
      (suc (suc (suc (suc (suc (suc (suc (suc (suc (suc (suc (suc (suc zero))))))))))))) h =
    (refl, refl)
digit_at-Reads true
      (suc (suc (suc (suc (suc (suc (suc (suc (suc (suc (suc (suc (suc (suc zero)))))))))))))) h =
    (refl, refl)
digit_at-Reads true
      (suc (suc (suc (suc (suc (suc (suc (suc (suc (suc (suc (suc (suc (suc (suc zero)))))))))))))))
      h =
    (refl, refl)
digit_at-Reads true
      (suc
        (suc (suc (suc (suc (suc (suc (suc (suc (suc (suc (suc (suc (suc (suc (suc n))))))))))))))))
      h =
    absurd (omega arith)
digit_at-Reads false zero h = (refl, refl)
digit_at-Reads false (suc zero) h = (refl, refl)
digit_at-Reads false (suc (suc zero)) h = (refl, refl)
digit_at-Reads false (suc (suc (suc zero))) h = (refl, refl)
digit_at-Reads false (suc (suc (suc (suc zero)))) h = (refl, refl)
digit_at-Reads false (suc (suc (suc (suc (suc zero))))) h = (refl, refl)
digit_at-Reads false (suc (suc (suc (suc (suc (suc zero)))))) h = (refl, refl)
digit_at-Reads false (suc (suc (suc (suc (suc (suc (suc zero))))))) h = (refl, refl)
digit_at-Reads false (suc (suc (suc (suc (suc (suc (suc (suc zero)))))))) h = (refl, refl)
digit_at-Reads false (suc (suc (suc (suc (suc (suc (suc (suc (suc zero))))))))) h = (refl, refl)
digit_at-Reads false (suc (suc (suc (suc (suc (suc (suc (suc (suc (suc zero)))))))))) h =
    (refl, refl)
digit_at-Reads false (suc (suc (suc (suc (suc (suc (suc (suc (suc (suc (suc zero))))))))))) h =
    (refl, refl)
digit_at-Reads false (suc (suc (suc (suc (suc (suc (suc (suc (suc (suc (suc (suc zero))))))))))))
      h =
    (refl, refl)
digit_at-Reads false
      (suc (suc (suc (suc (suc (suc (suc (suc (suc (suc (suc (suc (suc zero))))))))))))) h =
    (refl, refl)
digit_at-Reads false
      (suc (suc (suc (suc (suc (suc (suc (suc (suc (suc (suc (suc (suc (suc zero)))))))))))))) h =
    (refl, refl)
digit_at-Reads false
      (suc (suc (suc (suc (suc (suc (suc (suc (suc (suc (suc (suc (suc (suc (suc zero)))))))))))))))
      h =
    (refl, refl)
digit_at-Reads false
      (suc
        (suc (suc (suc (suc (suc (suc (suc (suc (suc (suc (suc (suc (suc (suc (suc n))))))))))))))))
      h =
    absurd (omega arith)

size_from-value :
    (seen : Bool) (m c v : ℕ) (t : Text)
    → hex_value c ≡ some v
    → size_from seen m (c ∷ t) ≡ size_from true (m * 16 + v) t
unfolding size_from
size_from-value seen m c v t h = rw (h, size_from) refl

size_from-digit :
    (upper : Bool) (seen : Bool) (m v : ℕ) (t : Text)
    → v < 16
    → size_from seen m ((digit_at v (digits upper) % 128) ∷ t) ≡ size_from true (m * 16 + v) t
size_from-digit upper seen m v t h =
    size_from-value seen m (digit_at v (digits upper) % 128) v t (digit_at-Reads upper v h).0

ascii-append : (xs ys : Text) → ascii (xs ++ ys) ≡ ascii xs ++ ascii ys
ascii-append [] ys = refl
ascii-append (x ∷ xs) ys = ap (◌∷◌ (x % 128)) (ascii-append xs ys)

hex_within-size :
    (fuel : ℕ) (upper : Bool) (n : ℕ) (t : Text)
    → n ≤ fuel
    → size_from false 0 (ascii (hex_within fuel upper n) ++ t) ≡ size_from true n t
unfolding hex_within
hex_within-size zero upper n t h =
    size_from-digit upper false 0 n t (omega (arith, h))
    ∙ ap (λ m. size_from true m t) (omega arith)
hex_within-size (suc fuel) upper n t h = elim (Bool-cases (ltb n 16)) [
  | inl small ↦
      rw (small, hex_within)
        (size_from-digit upper false 0 n t (ground (arith, small))
          ∙ ap (λ m. size_from true m t) (omega arith))
  | inr big ↦
      rw (big, hex_within)
        (ap (size_from false 0) (
            ap (λ x. x ++ t)
              (ascii-append (hex_within fuel upper (n / 16))
                (digit_at (n % 16) (digits upper) ∷ []))
            ∙ append_assoc (ascii (hex_within fuel upper (n / 16)))
                ((digit_at (n % 16) (digits upper) % 128) ∷ []) t)
          ∙ hex_within-size fuel upper (n / 16) ((digit_at (n % 16) (digits upper) % 128) ∷ t)
              (ground (arith, h, big))
          ∙ size_from-digit upper true (n / 16) (n % 16) t (omega arith)
          ∙ ap (λ m. size_from true m t) (omega arith))
]

abbrev pub NoCr : Text → Type 0
NoCr line = All (λ b. (b == 13) ≡ false) line

hex_within-NoCr : (fuel : ℕ) (upper : Bool) (n : ℕ) → n ≤ fuel → NoCr (hex_within fuel upper n)
unfolding hex_within
hex_within-NoCr zero upper n h = ((digit_at-Reads upper n (omega (arith, h))).1, tt)
hex_within-NoCr (suc fuel) upper n h = elim (Bool-cases (ltb n 16)) [
  | inl small ↦ rw (small, hex_within) ((digit_at-Reads upper n (ground (arith, small))).1, tt)
  | inr big ↦
      rw (big, hex_within)
        (All-append (λ b. (b == 13) ≡ false) (hex_within fuel upper (n / 16)) _
          (hex_within-NoCr fuel upper (n / 16) (ground (arith, h, big)))
          ((digit_at-Reads upper (n % 16) (omega arith)).1, tt))
]

-- A unit of an extension: ASCII, and no end of a line.
abbrev pub IsPlain : ℕ → Type 0
IsPlain b = (b < 128) × ((b == 10) ≡ false) × ((b == 13) ≡ false)

-- Nothing, or a semicolon and what follows.
abbrev pub IsExtension : Text → Type 0
IsExtension [] = Unit
IsExtension (c ∷ s) = (c ≡ 59) × All IsPlain s

plain_any : (s : Text) → All IsPlain s → any (λ d. d == 10 || d == 13) (ascii s) ≡ false
plain_any [] h = refl
plain_any (c ∷ s) h =
    let same : c % 128 ≡ c = omega (arith, h.0.0) in
    rw same (ground (arith, h.0.1, h.0.2, plain_any s h.1))

size_from-IsExtension :
    (n : ℕ) (ext : Text) → IsExtension ext → size_from true n (ascii ext) ≡ some n
unfolding size_from
size_from-IsExtension n [] h = refl
size_from-IsExtension n (c ∷ s) h =
    let same : c % 128 ≡ 59 = omega (arith, h.0) in rw (same, plain_any s h.1) refl

extension-NoCr : (ext : Text) → IsExtension ext → NoCr ext
extension-NoCr [] h = tt
extension-NoCr (c ∷ s) h = (ground (arith, h.0), All-imp (λ b p. p.2) s h.1)

-- A size line: the digits of the size, and an extension.
abbrev pub size_line : Bool → ℕ → Text → Text
size_line upper n ext = hex upper n ++ ext

pub size_from-size_line :
    (upper : Bool) (n : ℕ) (ext : Text)
    → IsExtension ext
    → size_from false 0 (ascii (size_line upper n ext)) ≡ some n
unfolding hex
size_from-size_line upper n ext h =
    ap (size_from false 0) (ascii-append (hex_within n upper n) ext)
    ∙ hex_within-size n upper n (ascii ext) (omega arith)
    ∙ size_from-IsExtension n ext h

pub size_line-NoCr :
    (upper : Bool) (n : ℕ) (ext : Text) → IsExtension ext → NoCr (size_line upper n ext)
unfolding hex
size_line-NoCr upper n ext h =
    All-append (λ b. (b == 13) ≡ false) (hex_within n upper n) ext
      (hex_within-NoCr n upper n (omega arith)) (extension-NoCr ext h)
