-- ===== src/Base/Lists.antt =====
-- Lists measured by native numbers, and predicates on lists by recursion.
use Prim.Native.Nat.{ℕ, zero, suc, ◌+◌, ◌≤◌}
use mathlib.Core.Path.{◌≡◌, refl, ap}
use mathlib.Core.Logic.{◌⊎◌, inl, inr}
use mathlib.Core.Bool.{Bool, true, false, ◌||◌, not}
use mathlib.Core.List.{List, [], ◌∷◌, ◌++◌, map}
use native.Mathlib.Omega.{arith}
use verser.Base.Tests.{if◌then◌else◌}

module _ {ℓ} {A : Type ℓ} where
  abbrev pub length : List A → ℕ
  length [] = 0
  length (x ∷ xs) = suc (length xs)

  abbrev pub take : ℕ → List A → List A
  take zero xs = []
  take (suc n) [] = []
  take (suc n) (x ∷ xs) = x ∷ take n xs

  abbrev pub drop : ℕ → List A → List A
  drop zero xs = xs
  drop (suc n) [] = []
  drop (suc n) (x ∷ xs) = drop n xs

  -- `Array.prototype.filter` with a Boolean test.
  abbrev pub keep_if : (A → Bool) → List A → List A
  keep_if p [] = []
  keep_if p (x ∷ xs) = if p x then x ∷ keep_if p xs else keep_if p xs

  abbrev pub any : (A → Bool) → List A → Bool
  any p [] = false
  any p (x ∷ xs) = p x || any p xs

  -- The number of entries that pass a test.
  abbrev pub count : (A → Bool) → List A → ℕ
  count p [] = 0
  count p (x ∷ xs) = (if p x then 1 else 0) + count p xs

  pub length-append : (xs ys : List A) → length (xs ++ ys) ≡ length xs + length ys
  length-append [] ys = omega arith
  length-append (x ∷ xs) ys = omega (arith, length-append xs ys)

  pub count-append : (p : A → Bool) (xs ys : List A) → count p (xs ++ ys) ≡ count p xs + count p ys
  count-append p [] ys = omega arith
  count-append p (x ∷ xs) ys = omega (arith, count-append p xs ys)

  pub count-keep_if-le : (p q : A → Bool) (xs : List A) → count p (keep_if q xs) ≤ count p xs
  count-keep_if-le p q [] = omega arith
  count-keep_if-le p q (x ∷ xs) = ground (arith, count-keep_if-le p q xs)

  -- What a filter keeps and what it drops make up the whole.
  pub count-keep_if-not :
      (p q : A → Bool) (xs : List A)
      → count p (keep_if q xs) + count p (keep_if (λ x. not (q x)) xs) ≡ count p xs
  count-keep_if-not p q [] = omega arith
  count-keep_if-not p q (x ∷ xs) = ground (arith, count-keep_if-not p q xs)

  pub take-append-drop : (n : ℕ) (xs : List A) → take n xs ++ drop n xs ≡ xs
  take-append-drop zero xs = refl
  take-append-drop (suc n) [] = refl
  take-append-drop (suc n) (x ∷ xs) = ap (◌∷◌ x) (take-append-drop n xs)

module _ {ℓ κ} {A : Type ℓ} (P : A → Type κ) where
  abbrev pub All : List A → Type κ
  All [] = Unit
  All (x ∷ xs) = P x × All xs

module _ {ℓ κ} {A : Type ℓ} (P : A → Type κ) where
  pub All-append : (xs ys : List A) → All P xs → All P ys → All P (xs ++ ys)
  All-append [] ys hx hy = hy
  All-append (x ∷ xs) ys hx hy = (hx.0, All-append xs ys hx.1 hy)

  All-keep_if_step :
      (b : Bool) (x : A) (xs : List A) → P x → All P xs → All P (if b then x ∷ xs else xs)
  All-keep_if_step true x xs p h = (p, h)
  All-keep_if_step false x xs p h = h

  pub All-keep_if : (q : A → Bool) (xs : List A) → All P xs → All P (keep_if q xs)
  All-keep_if q [] h = tt
  All-keep_if q (x ∷ xs) h = All-keep_if_step (q x) x (keep_if q xs) h.0 (All-keep_if q xs h.1)

module _ {ℓ κ} {A : Type ℓ} {P : A → Type κ} {Q : A → Type κ} where
  pub All-imp : ((x : A) → P x → Q x) → (xs : List A) → All P xs → All Q xs
  All-imp f [] h = tt
  All-imp f (x ∷ xs) h = (f x h.0, All-imp f xs h.1)

module _ {ℓ κ μ} {A : Type ℓ} {B : Type κ} (P : B → Type μ) (f : A → B) where
  pub All-map : (xs : List A) → All (λ x. P (f x)) xs → All P (map f xs)
  All-map [] h = tt
  All-map (x ∷ xs) h = (h.0, All-map xs h.1)

pub All-and-keep_if {ℓ κ μ} :
    {A : Type ℓ} (P : A → Type κ) (Q : A → Type μ) (q : A → Bool)
    → ((a : A) → P a → q a ≡ true → Q a)
    → (xs : List A) → All P xs
    → All Q (keep_if q xs)
All-and-keep_if P Q q f [] h = tt
All-and-keep_if {A} P Q q f (x ∷ xs) h = go (q x) refl (All-and-keep_if P Q q f xs h.1)
  where
    go :
        (b : Bool)
        → q x ≡ b
        → All Q (keep_if q xs)
        → All Q (if b then x ∷ keep_if q xs else keep_if q xs)
    go true e r = (f x h.0 e, r)
    go false e r = r

pub All-if {ℓ κ} :
    {A : Type ℓ} (P : A → Type κ) (b : Bool) (xs ys : List A)
    → All P xs
    → All P ys
    → All P (if b then xs else ys)
All-if P true xs ys hx hy = hx
All-if P false xs ys hx hy = hy

-- No value, at every level.
pub data Empty {ℓ} : Type ℓ where

-- An entry that satisfies a predicate, with its place.
module _ {ℓ κ} {A : Type ℓ} (P : A → Type κ) where
  abbrev pub Exists : List A → Type κ
  Exists [] = Empty
  Exists (x ∷ xs) = P x ⊎ Exists xs

module _ {ℓ κ} {A : Type ℓ} {P Q : A → Type κ} where
  pub Exists-imp : ((x : A) → P x → Q x) → (xs : List A) → Exists P xs → Exists Q xs
  Exists-imp f [] h = h
  Exists-imp f (x ∷ xs) (inl h) = inl (f x h)
  Exists-imp f (x ∷ xs) (inr h) = inr (Exists-imp f xs h)

module _ {ℓ κ} {A : Type ℓ} (P : A → Type κ) where
  pub Exists-append_left : (xs ys : List A) → Exists P xs → Exists P (xs ++ ys)
  Exists-append_left [] ys h = elim h [ ]
  Exists-append_left (x ∷ xs) ys (inl h) = inl h
  Exists-append_left (x ∷ xs) ys (inr h) = inr (Exists-append_left xs ys h)

  pub Exists-append_right : (xs ys : List A) → Exists P ys → Exists P (xs ++ ys)
  Exists-append_right [] ys h = h
  Exists-append_right (x ∷ xs) ys h = inr (Exists-append_right xs ys h)

module _ {ℓ κ μ} {A : Type ℓ} {B : Type κ} (P : B → Type μ) (f : A → B) where
  pub Exists-map : (xs : List A) → Exists (λ x. P (f x)) xs → Exists P (map f xs)
  Exists-map [] h = h
  Exists-map (x ∷ xs) (inl h) = inl h
  Exists-map (x ∷ xs) (inr h) = inr (Exists-map xs h)

  pub All-of_map : (xs : List A) → All P (map f xs) → All (λ x. P (f x)) xs
  All-of_map [] h = tt
  All-of_map (x ∷ xs) h = (h.0, All-of_map xs h.1)

module _ {ℓ κ} {A : Type ℓ} (P : A → Type κ) where
  pub All-left : (xs ys : List A) → All P (xs ++ ys) → All P xs
  All-left [] ys h = tt
  All-left (x ∷ xs) ys h = (h.0, All-left xs ys h.1)

  pub All-right : (xs ys : List A) → All P (xs ++ ys) → All P ys
  All-right [] ys h = h
  All-right (x ∷ xs) ys h = All-right xs ys h.1
