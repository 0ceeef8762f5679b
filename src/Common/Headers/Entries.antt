-- ===== src/Common/Headers/Entries.antt =====
-- `Object.entries` of the records in packages/verser-common/src/lib/headers.ts: names that are array
-- indices, as `1`, come first, in the order of their numbers, and then the others as assigned.
use verser.Base.{
  ◌≡◌, refl, ap, Text, ℕ, ◌+◌, ◌-◌, ◌*◌, Bool, false, not, ◌&&◌, [], ◌∷◌, ◌++◌, if◌then◌else◌,
  keep_if, any, ltb, leb, ◌==◌, All,
}
use verser.Base.Dict.{Dict}

is_digit : ℕ → Bool
is_digit c = leb 48 c && leb c 57

-- The number that decimal digits write, after those that give `n`.
abbrev decimal : ℕ → Text → ℕ
decimal n [] = n
decimal n (c ∷ s) = decimal (n * 10 + (c - 48)) s

-- A number below 2^32 - 1 in decimal, without a zero before it.
unfoldable pub is_array_index : Text → Bool
unfolding is_digit
is_array_index [] = false
is_array_index (c ∷ []) = is_digit c
is_array_index (c ∷ d ∷ s) =
    is_digit c
    && not (c == 48)
    && not (any (λ u. not (is_digit u)) (d ∷ s))
    && ltb (decimal 0 (c ∷ d ∷ s)) 4294967295

module _ {ℓ} {V : Type ℓ} where
  put_index : Text × V → Dict V → Dict V
  put_index e [] = e ∷ []
  put_index e (f ∷ es) =
      let rest = put_index e es in
      if ltb (decimal 0 e.0) (decimal 0 f.0) then e ∷ f ∷ es else f ∷ rest

  sort_indices : Dict V → Dict V
  unfolding put_index
  sort_indices [] = []
  sort_indices (e ∷ es) = put_index e (sort_indices es)

  unfoldable pub object_entries : Dict V → Dict V
  unfolding sort_indices
  object_entries d =
      sort_indices (keep_if (λ e. is_array_index e.0) d)
      ++ keep_if (λ e. not (is_array_index e.0)) d

  -- No name is an array index.
  abbrev pub Plain : Dict V → Type 0
  Plain d = All (λ e. is_array_index e.0 ≡ false) d

  no-indices : (d : Dict V) → Plain d → keep_if (λ e. is_array_index e.0) d ≡ []
  no-indices [] h = refl
  no-indices (e ∷ d) h = rw (h.0) (no-indices d h.1)

  all-others : (d : Dict V) → Plain d → keep_if (λ e. not (is_array_index e.0)) d ≡ d
  all-others [] h = refl
  all-others (e ∷ d) h = rw (h.0) (ap (◌∷◌ e) (all-others d h.1))

  pub object_entries-Plain : (d : Dict V) → Plain d → object_entries d ≡ d
  unfolding object_entries sort_indices
  object_entries-Plain d h = rw (no-indices d h) (all-others d h)
