-- ===== src/Host/LeasePool/Keys.antt =====
-- Active leases are found by the text `guest:lease`, in which the Guest's id is not escaped.
use verser.Base.{
  ℕ, ◌≡◌, ◌≢◌, ◌⊎◌, Text, text_eq_iff, [], ◌∷◌, ◌++◌, none, some, arith, All, append_assoc,
}
use verser.Base.Dict.{get, get-delete, get-delete_self}
use verser.Host.LeasePool.{Pool, Lease, lease_key, remove_lease}

abbrev pub IsColon : ℕ → Type 0
IsColon c = c ≡ b':'

abbrev pub HasNoColon : Text → Type 0
HasNoColon = All (λ c. ¬ IsColon c)

split_at_colon :
    (s t u v : Text)
    → HasNoColon s
    → HasNoColon t
    → s ++ b':' ∷ u ≡ t ++ b':' ∷ v
    → (s ≡ t) × (u ≡ v)
split_at_colon [] [] u v hs ht e = ground arith
split_at_colon [] (y ∷ t) u v hs ht e = absurd (ht.0 (ground arith))
split_at_colon (x ∷ s) [] u v hs ht e = absurd (hs.0 (ground arith))
split_at_colon (x ∷ s) (y ∷ t) u v hs ht e = ground (arith, split_at_colon s t u v hs.1 ht.1)

lease_key-injective :
    (l m : Lease)
    → HasNoColon l.guest_id
    → HasNoColon m.guest_id
    → lease_key l ≡ lease_key m
    → (l.guest_id ≡ m.guest_id) × (l.lease_id ≡ m.lease_id)
unfolding lease_key
lease_key-injective l m hl hm e = split_at_colon l.guest_id m.guest_id l.lease_id m.lease_id hl hm e

-- As long as no Guest id holds a colon, removing a lease leaves every other active lease: one of
-- another Guest, or one of the same Guest with another id.
pub remove_lease-keeps :
    (l m : Lease) (p : Pool)
    → HasNoColon l.guest_id
    → HasNoColon m.guest_id
    → (l.guest_id ≢ m.guest_id) ⊎ (l.lease_id ≢ m.lease_id)
    → get (lease_key m) p.active_leases ≡ some m
    → get (lease_key m) (remove_lease l p).active_leases ≡ some m
unfolding remove_lease
remove_lease-keeps l m p hl hm other e = ground (
  arith,
  get-delete (lease_key l) (lease_key m) p.active_leases,
  text_eq_iff (lease_key l) (lease_key m),
  lease_key-injective l m hl hm,
)

-- With a colon in a Guest id the keys of two Guests meet: removing the lease `h:id` of the Guest `g`
-- takes the lease `id` of the Guest `g:h` out of the active leases, for all texts g, h and id.
pub remove_lease-evicts :
    (g h id : Text) (l m : Lease) (p : Pool)
    → l.guest_id ≡ g
    → l.lease_id ≡ h ++ b':' ∷ id
    → m.guest_id ≡ g ++ b':' ∷ h
    → m.lease_id ≡ id
    → get (lease_key m) (remove_lease l p).active_leases ≡ none
unfolding remove_lease lease_key
remove_lease-evicts g h id l m p lg ll mg ml =
    rw (lg, ll, mg, ml, append_assoc g (b':' ∷ h) (b':' ∷ id))
      (get-delete_self (g ++ (b':' ∷ (h ++ b':' ∷ id))) p.active_leases)
