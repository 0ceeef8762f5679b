-- ===== src/Base/Dict.antt =====
-- A JavaScript `Map` with text keys: entries in the order of insertion. Writing to a key that is
-- there keeps its place.
use Prim.Native.Nat.{ℕ, ◌+◌, ◌≤◌}
use mathlib.Core.Path.{◌≡◌, refl, subst}
use mathlib.Core.Bool.{Bool, true, false, not, ◌&&◌, ◌||◌}
use mathlib.Core.List.{List, [], ◌∷◌}
use mathlib.Core.Option.{Option, none, some}
use native.Mathlib.Omega.{arith}
use verser.Base.Lists.{count, All}
use verser.Base.Tests.{Text, text_eq, text_eq_iff, text_eq_refl, if◌then◌else◌}

abbrev pub Dict {ℓ} : Type ℓ → Type ℓ
Dict V = List (Text × V)

module _ {ℓ} {V : Type ℓ} where
  unfoldable pub get : Text → Dict V → Option V
  get k [] = none
  get k ((j, v) ∷ d) = if text_eq j k then some v else get k d

  unfoldable pub set : Text → V → Dict V → Dict V
  set k v [] = (k, v) ∷ []
  set k v ((j, w) ∷ d) = if text_eq j k then (j, v) ∷ d else (j, w) ∷ set k v d

  unfoldable pub delete : Text → Dict V → Dict V
  delete k [] = []
  delete k ((j, v) ∷ d) = let rest = delete k d in if text_eq j k then rest else (j, v) ∷ rest

  unfoldable pub has : Text → Dict V → Bool
  has k [] = false
  has k ((j, v) ∷ d) = if text_eq j k then true else has k d

  pub get-set :
      (k j : Text) (v : V) (d : Dict V)
      → get j (set k v d) ≡ (if text_eq k j then some v else get j d)
  unfolding get set
  get-set k j v [] = refl
  get-set k j v ((i, w) ∷ d) =
      ground (arith, text_eq_iff k j, text_eq_iff i k, text_eq_iff i j, get-set k j v d)

  pub get-delete :
      (k j : Text) (d : Dict V) → get j (delete k d) ≡ (if text_eq k j then none else get j d)
  unfolding get delete
  get-delete k j [] = ground arith
  get-delete k j ((i, w) ∷ d) =
      ground (arith, text_eq_iff k j, text_eq_iff i k, text_eq_iff i j, get-delete k j d)

  pub get-set_self : (k : Text) (v : V) (d : Dict V) → get k (set k v d) ≡ some v
  get-set_self k v d = ground (arith, get-set k k v d, text_eq_refl k)

  pub get-delete_self : (k : Text) (d : Dict V) → get k (delete k d) ≡ none
  get-delete_self k d = ground (arith, get-delete k k d, text_eq_refl k)

  pub has-set : (k j : Text) (v : V) (d : Dict V) → has j (set k v d) ≡ (text_eq k j || has j d)
  unfolding has set
  has-set k j v [] = ground arith
  has-set k j v ((i, w) ∷ d) =
      ground (arith, text_eq_iff k j, text_eq_iff i k, text_eq_iff i j, has-set k j v d)

  pub has-delete : (k j : Text) (d : Dict V) → has j (delete k d) ≡ (not (text_eq k j) && has j d)
  unfolding has delete
  has-delete k j [] = ground arith
  has-delete k j ((i, w) ∷ d) =
      ground (arith, text_eq_iff k j, text_eq_iff i k, text_eq_iff i j, has-delete k j d)

  pub get-none_of_has : (k : Text) (d : Dict V) → has k d ≡ false → get k d ≡ none
  unfolding has get
  get-none_of_has k [] h = refl
  get-none_of_has k ((j, v) ∷ d) h = ground (arith, get-none_of_has k d)

  pub delete-absent : (k : Text) (d : Dict V) → has k d ≡ false → delete k d ≡ d
  unfolding has delete
  delete-absent k [] h = refl
  delete-absent k ((j, v) ∷ d) h = ground (arith, delete-absent k d)

  -- No key stands twice, as in every `Map`.
  abbrev pub Unique : Dict V → Type 0
  Unique [] = Unit
  Unique ((k, v) ∷ d) = (has k d ≡ false) × Unique d

  pub set-Unique : (k : Text) (v : V) (d : Dict V) → Unique d → Unique (set k v d)
  unfolding set has
  set-Unique k v [] u = (refl, tt)
  set-Unique k v ((j, w) ∷ d) u =
      ground (arith, text_eq_iff k j, text_eq_iff j k, set-Unique k v d u.1, has-set k j v d)

  pub delete-Unique : (k : Text) (d : Dict V) → Unique d → Unique (delete k d)
  unfolding delete has
  delete-Unique k [] u = tt
  delete-Unique k ((j, w) ∷ d) u = ground (arith, delete-Unique k d u.1, has-delete k j d)

module _ {ℓ} {A : Type ℓ} where
  -- `map.get(key) ?? []`
  unfoldable pub entries : Text → Dict (List A) → List A
  entries k [] = []
  entries k ((j, xs) ∷ d) = if text_eq j k then xs else entries k d

  -- How many entries pass a test, over all keys.
  unfoldable pub total : (A → Bool) → Dict (List A) → ℕ
  total p [] = 0
  total p ((k, xs) ∷ d) = count p xs + total p d

  pub entries-set :
      (k j : Text) (xs : List A) (d : Dict (List A))
      → entries j (set k xs d) ≡ (if text_eq k j then xs else entries j d)
  unfolding entries set
  entries-set k j xs [] = ground arith
  entries-set k j xs ((i, ys) ∷ d) =
      ground (arith, text_eq_iff k j, text_eq_iff i k, text_eq_iff i j, entries-set k j xs d)

  pub entries-delete :
      (k j : Text) (d : Dict (List A))
      → entries j (delete k d) ≡ (if text_eq k j then [] else entries j d)
  unfolding entries delete
  entries-delete k j [] = ground arith
  entries-delete k j ((i, ys) ∷ d) =
      ground (arith, text_eq_iff k j, text_eq_iff i k, text_eq_iff i j, entries-delete k j d)

  pub entries-absent : (k : Text) (d : Dict (List A)) → has k d ≡ false → entries k d ≡ []
  unfolding entries has
  entries-absent k [] h = refl
  entries-absent k ((i, ys) ∷ d) h = ground (arith, entries-absent k d)

  pub total-set :
      (p : A → Bool) (k : Text) (xs : List A) (d : Dict (List A))
      → total p (set k xs d) + count p (entries k d) ≡ total p d + count p xs
  unfolding total set entries
  total-set p k xs [] = omega arith
  total-set p k xs ((i, ys) ∷ d) = ground (arith, total-set p k xs d)

  pub total-delete :
      (p : A → Bool) (k : Text) (d : Dict (List A))
      → Unique d
      → total p (delete k d) + count p (entries k d) ≡ total p d
  unfolding total delete entries
  total-delete p k [] u = omega arith
  total-delete p k ((i, ys) ∷ d) u =
      ground (arith, text_eq_iff i k, total-delete p k d u.1, delete-absent k d, entries-absent k d)

  pub count-entries-le :
      (p : A → Bool) (k : Text) (d : Dict (List A)) → count p (entries k d) ≤ total p d
  unfolding total entries
  count-entries-le p k [] = omega arith
  count-entries-le p k ((i, ys) ∷ d) = ground (arith, count-entries-le p k d)

-- Every value satisfies a predicate.
module _ {ℓ κ} {V : Type ℓ} (P : V → Type κ) where
  abbrev pub Each : Dict V → Type κ
  Each [] = Unit
  Each ((k, v) ∷ d) = P v × Each d

module _ {ℓ κ} {V : Type ℓ} (P : V → Type κ) where
  Each-set_step :
      (b : Bool) (j k : Text) (v w : V) (d e : Dict V)
      → P v
      → P w
      → Each P d
      → Each P e
      → Each P (if b then (j, v) ∷ d else (j, w) ∷ e)
  Each-set_step true j k v w d e pv pw hd he = (pv, hd)
  Each-set_step false j k v w d e pv pw hd he = (pw, he)

  pub Each-set : (k : Text) (v : V) (d : Dict V) → P v → Each P d → Each P (set k v d)
  unfolding set
  Each-set k v [] p h = (p, tt)
  Each-set k v ((j, w) ∷ d) p h =
      Each-set_step (text_eq j k) j k v w d (set k v d) p h.0 h.1 (Each-set k v d p h.1)

  Each-delete_step :
      (b : Bool) (j : Text) (w : V) (d : Dict V)
      → P w
      → Each P d
      → Each P (if b then d else (j, w) ∷ d)
  Each-delete_step true j w d p h = h
  Each-delete_step false j w d p h = (p, h)

  pub Each-delete : (k : Text) (d : Dict V) → Each P d → Each P (delete k d)
  unfolding delete
  Each-delete k [] h = tt
  Each-delete k ((j, w) ∷ d) h =
      Each-delete_step (text_eq j k) j w (delete k d) h.0 (Each-delete k d h.1)

  Each-get_step :
      (b : Bool) (w v : V) (o : Option V)
      → P w
      → (o ≡ some v → P v)
      → (if b then some w else o) ≡ some v
      → P v
  Each-get_step true w v o p f e = subst P (cc) p
  Each-get_step false w v o p f e = f e

  pub Each-get : (k : Text) (v : V) (d : Dict V) → Each P d → get k d ≡ some v → P v
  unfolding get
  Each-get k v [] h e = absurd (ground arith)
  Each-get k v ((j, w) ∷ d) h e =
      Each-get_step (text_eq j k) w v (get k d) h.0 (Each-get k v d h.1) e

module _ {ℓ κ} {A : Type ℓ} (P : A → Type κ) where
  All-entries_step :
      (b : Bool) (xs ys : List A) → All P xs → All P ys → All P (if b then xs else ys)
  All-entries_step true xs ys h k = h
  All-entries_step false xs ys h k = k

  pub All-entries : (k : Text) (d : Dict (List A)) → Each (All P) d → All P (entries k d)
  unfolding entries
  All-entries k [] h = tt
  All-entries k ((j, xs) ∷ d) h =
      All-entries_step (text_eq j k) xs (entries k d) h.0 (All-entries k d h.1)
