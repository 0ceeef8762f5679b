-- ===== src/Host/Authorizer/Maps.antt =====
-- Lookups in the maps of the authorizer after they were written to.
use verser.Base.{
  ℕ, ◌≡◌, ◌≢◌, refl, sym, ap, ◌∙◌, ◌⊎◌, inl, inr, Text, true, false, [], Option, none, some, ◌==◌,
  if◌then◌else◌, text_eq_iff, arith, Bool-cases, Option-cases,
}
use verser.Base.Dict.{Dict, get, set, delete, get-set, get-delete, get-delete_self}
use verser.Host.LeasePool.{update}
use verser.Host.Authorizer.{ExpiresAt, has_lapsed, is_live, insert_expiry, without}

-- A cache that has lost entries.
abbrev pub Fewer : Dict ExpiresAt → Dict ExpiresAt → Type 0
Fewer small large = (k : Text) → (get k small ≡ none) ⊎ (get k small ≡ get k large)

pub same-Fewer : (d : Dict ExpiresAt) → Fewer d d
same-Fewer d k = inr refl

pub delete-Fewer : (j : Text) (d : Dict ExpiresAt) → Fewer (delete j d) d
delete-Fewer j d k = ground (arith, get-delete j k d)

pub none-Fewer : (d : Dict ExpiresAt) → Fewer [] d
unfolding get
none-Fewer d k = inl refl

pub is_live-Fewer : (k : Text) (now : ℕ) (d : Dict ExpiresAt) → Fewer (is_live k now d).1 d
unfolding is_live
is_live-Fewer k now d = elim (Option-cases (get k d)) [
  | inl gone ↦ rw (gone, is_live) (same-Fewer d)
  | inr (e, found) ↦ elim (Bool-cases (has_lapsed now e)) [
    | inl late ↦ rw (found, is_live, late) (delete-Fewer k d)
    | inr early ↦ rw (found, is_live, early) (same-Fewer d)
  ]
]

pub is_live-none :
    (k : Text) (now : ℕ) (d : Dict ExpiresAt)
    → (is_live k now d).0 ≡ false
    → get k (is_live k now d).1 ≡ none
unfolding is_live
is_live-none k now d = elim (Option-cases (get k d)) [
  | inl gone ↦ rw (gone, is_live) (λ e. gone)
  | inr (e, found) ↦ elim (Bool-cases (has_lapsed now e)) [
    | inl late ↦ rw (found, is_live, late) (λ h. get-delete_self k d)
    | inr early ↦ rw (found, is_live, early) (λ h. absurd (cc))
  ]
]

pub some_injective {ℓ} : {A : Type ℓ} {x y : A} → some x ≡ some y → x ≡ y
some_injective h = cc

pub none_or_some {ℓ} : {A : Type ℓ} {x : A} → none ≡ some x → ⊥
none_or_some h = cc

pub update-same {ℓ} : {A : Type ℓ} (r : ℕ) (x : A) (f : ℕ → A) → update r x f r ≡ x
unfolding update
update-same r x f = ground arith

pub update-other {ℓ} :
    {A : Type ℓ} (r : ℕ) (x : A) (f : ℕ → A) (s : ℕ) → (s == r) ≡ false → update r x f s ≡ f s
unfolding update
update-other r x f s h = rw h refl

pub update-cases {ℓ} :
    {A : Type ℓ} (r : ℕ) (x : A) (f : ℕ → A) (s : ℕ) {y : A}
    → update r x f s ≡ y
    → ((s ≡ r) × (x ≡ y)) ⊎ (((s == r) ≡ false) × (f s ≡ y))
update-cases r x f s h = elim (Bool-cases (s == r)) [
  | inl e ↦
      let q : s ≡ r = ground (arith, e) in
      inl (q, sym (update-same r x f) ∙ ap (update r x f) (sym q) ∙ h)
  | inr e ↦ inr (e, sym (update-other r x f s e) ∙ h)
]

pub set-cases {ℓ} :
    {A : Type ℓ} (k j : Text) (v : A) (d : Dict A) {w : A}
    → get j (set k v d) ≡ some w
    → ((k ≡ j) × (v ≡ w)) ⊎ (get j d ≡ some w)
set-cases k j v d h = ground (arith, get-set k j v d, text_eq_iff k j, h)

pub without-none : (r : ℕ) (k : Text) (d : Dict ℕ) → get k d ≡ some r → get k (without r k d) ≡ none
unfolding without
without-none r k d h =
    rw (h, without)
      (ap (λ b. get k (if b then delete k d else d)) {x = r == r} {y = true} (ground arith)
        ∙ get-delete_self k d)

without-same : (r : ℕ) (k : Text) (d : Dict ℕ) → get k d ≢ some r → without r k d ≡ d
unfolding without
without-same r k d h = elim (Option-cases (get k d)) [
  | inl gone ↦ rw (gone, without) refl
  | inr (s, found) ↦
      let no : (s == r) ≡ false = elim (Bool-cases (s == r)) [
        | inl y ↦ absurd (h (found ∙ ap some (ground (arith, y))))
        | inr n ↦ n
      ] in
      rw (found, without, no) refl
]

without-deleted : (r : ℕ) (k : Text) (d : Dict ℕ) → get k d ≡ some r → without r k d ≡ delete k d
unfolding without
without-deleted r k d h =
    rw (h, without) (ap (λ b. if b then delete k d else d) {x = r == r} {y = true} (ground arith))

pub without-old :
    (r : ℕ) (k j : Text) (d : Dict ℕ) {t : ℕ} → get j (without r k d) ≡ some t → get j d ≡ some t
unfolding without
without-old r k j d {t} h = elim (Option-cases (get k d)) [
  | inl gone ↦ sym (ap (get j) (without-same r k d (λ e. cc))) ∙ h
  | inr (s, found) ↦ elim (Bool-cases (s == r)) [
    | inl y ↦
        let e : get j (delete k d) ≡ some t =
          sym (ap (get j) (without-deleted r k d (found ∙ ap some (ground (arith, y))))) ∙ h in
        ground (arith, get-delete k j d, e)
    | inr n ↦ sym (ap (get j) (without-same r k d (λ e. ground (arith, found, e, n)))) ∙ h
  ]
]

pub without-keeps :
    (r : ℕ) (k j : Text) (d : Dict ℕ) {t : ℕ}
    → get j d ≡ some t
    → (t == r) ≡ false
    → get j (without r k d) ≡ some t
without-keeps r k j d {t} h n = elim (Option-cases (get k d)) [
  | inl gone ↦ ap (get j) (without-same r k d (λ e. cc)) ∙ h
  | inr (s, found) ↦ elim (Bool-cases (s == r)) [
    | inl y ↦
        ap (get j) (without-deleted r k d (found ∙ ap some (ground (arith, y))))
        ∙ ground (arith, get-delete k j d, text_eq_iff k j, h, n, found, y)
    | inr m ↦ ap (get j) (without-same r k d (λ e. ground (arith, found, e, m))) ∙ h
  ]
]

pub insert_expiry-cases :
    (k j : Text) (o : Option ExpiresAt) (d : Dict ExpiresAt)
    → (k ≡ j) ⊎ (get j (insert_expiry k o d) ≡ get j d)
unfolding insert_expiry
insert_expiry-cases k j none d = inr refl
insert_expiry-cases k j (some x) d = ground (arith, get-set k j x d, text_eq_iff k j)

pub delete-cases :
    (k j : Text) (d : Dict ℕ) {t : ℕ} → get j (delete k d) ≡ some t → (get j d ≡ some t) × (k ≢ j)
delete-cases k j d {t} h = (
  ground (arith, get-delete k j d, h),
  λ e. none_or_some (sym (get-delete_self k d) ∙ ap (λ z. get z (delete k d)) e ∙ h),
)

pub delete-keeps :
    (k j : Text) (d : Dict ℕ) {t : ℕ} → get j d ≡ some t → k ≢ j → get j (delete k d) ≡ some t
delete-keeps k j d h n = ground (arith, get-delete k j d, text_eq_iff k j, h, n)
