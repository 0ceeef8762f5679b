-- ===== src/Host/Registry/Each.antt =====
-- Mapping a validator over a list.
use verser.Base.{◌≡◌, subst, List, [], ◌∷◌, All, refl}
use verser.Errors.{Result, ok, >>=-eq-ok, ok_injective}
use verser.Host.Registry.{each}

pub each-All {ℓ κ μ} :
    {A : Type ℓ} {B : Type κ} (P : B → Type μ) (f : A → Result B)
    → ((a : A) (b : B) → f a ≡ ok b → P b)
    → (xs : List A) {ys : List B} → each f xs ≡ ok ys
    → All P ys
each-All P f p [] e = subst (All P) (ok_injective e) tt
each-All P f p (x ∷ xs) e =
    let (y, ey, k) = >>=-eq-ok (f x) _ e in
    let (ys, eys, m) = >>=-eq-ok (each f xs) _ k in
    subst (All P) (ok_injective m) (p x y ey, each-All P f p xs eys)

-- A validator that leaves each entry as it is leaves the list.
pub each-same {ℓ κ} :
    {A : Type ℓ} (P : A → Type κ) (f : A → Result A)
    → ((a : A) → P a → f a ≡ ok a)
    → (xs : List A) → All P xs
    → each f xs ≡ ok xs
each-same P f p [] h = refl
each-same P f p (x ∷ xs) h = rw (p x h.0, each-same P f p xs h.1) refl
