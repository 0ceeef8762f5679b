-- ===== src/Host/LeasePool/Balance.antt =====
-- The lease pool never lets a Guest's requests wait while it keeps an idle lease of that Guest.
use verser.Base.{
  ℕ, ◌≡◌, refl, ◌⊎◌, inl, inr, Text, text_eq, text_eq_iff, List, [], ◌∷◌, ◌++◌, arith,
  if◌then◌else◌, Bool-cases,
}
use verser.Base.Dict.{Dict, entries, entries-set, entries-delete}
use verser.Host.LeasePool.{
  Pool, Lease, Acquisition, Stream, is_closed, drop_closed, offer, add_idle_lease, put_back,
  acquisition, enqueue, take_idle, acquire_lease, try_idle,
}

-- For the Guest `g`, no one waits or no lease is idle.
abbrev pub IsBalanced : Text → Pool → Type 0
IsBalanced g p = (entries g p.queued ≡ []) ⊎ (entries g p.idle_leases ≡ [])

-- A call after which no Guest has idle leases or waiting requests that it did not have before.
pub record Shrinks (g : Text) (p q : Pool) : Type 0 where
  pub queues : entries g p.queued ≡ [] → entries g q.queued ≡ []
  pub leases : entries g p.idle_leases ≡ [] → entries g q.idle_leases ≡ []

pub Shrinks-IsBalanced : {g : Text} {p q : Pool} → Shrinks g p q → IsBalanced g p → IsBalanced g q
Shrinks-IsBalanced s (inl e) = inl (s.queues e)
Shrinks-IsBalanced s (inr e) = inr (s.leases e)

pub Shrinks-trans : {g : Text} {p q s : Pool} → Shrinks g p q → Shrinks g q s → Shrinks g p s
Shrinks-trans a b = record {
  queues = λ e. b.queues (a.queues e);
  leases = λ e. b.leases (a.leases e);
}

pub entries-put_back {ℓ} :
    {A : Type ℓ} (k j : Text) (xs : List A) (d : Dict (List A))
    → entries j (put_back k xs d) ≡ (if text_eq k j then xs else entries j d)
unfolding put_back
entries-put_back k j [] d = entries-delete k j d
entries-put_back k j (x ∷ xs) d = entries-set k j (x ∷ xs) d

offer-IsBalanced :
    (g : Text) (l : Lease) (xs : List Acquisition) (p : Pool)
    → entries l.guest_id p.queued ≡ xs
    → IsBalanced g p
    → IsBalanced g (offer l xs p)
unfolding offer
offer-IsBalanced g l [] p e b = ground (
  arith,
  text_eq_iff l.guest_id g,
  entries-set l.guest_id g (entries l.guest_id p.idle_leases ++ l ∷ []) p.idle_leases,
)
offer-IsBalanced g l (a ∷ rest) p e b =
    ground (arith, text_eq_iff l.guest_id g, entries-set l.guest_id g rest p.queued)

pub add_idle_lease-IsBalanced :
    (g : Text) (l : Lease) (p : Pool) → IsBalanced g p → IsBalanced g (add_idle_lease l p)
unfolding add_idle_lease
add_idle_lease-IsBalanced g l p b = elim (Bool-cases (is_closed p.streams l)) [
  | inl gone ↦ rw gone b
  | inr live ↦ rw live (offer-IsBalanced g l _ p refl b)
]

take_idle-IsBalanced :
    (g h id : Text) (ms : ℕ) (ls : List Lease) (p : Pool)
    → (entries h p.idle_leases ≡ [] → ls ≡ [])
    → IsBalanced g p
    → IsBalanced g (take_idle h id ms ls p).1
unfolding take_idle enqueue acquisition
take_idle-IsBalanced g h id ms [] p e b = ground (
  arith,
  text_eq_iff h g,
  entries-delete h g p.idle_leases,
  entries-set h g (entries h p.queued ++ acquisition h id ms p ∷ []) p.queued,
)
take_idle-IsBalanced g h id ms (l ∷ rest) p e b =
    ground (arith, text_eq_iff h g, entries-put_back h g rest p.idle_leases)

pub drop_closed-nil :
    (streams : ℕ → Stream) (xs : List Lease) → xs ≡ [] → drop_closed streams xs ≡ []
unfolding drop_closed
drop_closed-nil streams xs e = rw e refl

pub acquire_lease-IsBalanced :
    (g h id : Text) (ms : ℕ) (p : Pool) → IsBalanced g p → IsBalanced g (acquire_lease h id ms p).1
unfolding acquire_lease
acquire_lease-IsBalanced g h id ms p b =
    take_idle-IsBalanced g h id ms _ p (drop_closed-nil p.streams (entries h p.idle_leases)) b

pub try_idle-IsBalanced :
    (g h id : Text) (ms : ℕ) (ls : List Lease) (p : Pool)
    → (entries h p.idle_leases ≡ [] → ls ≡ [])
    → IsBalanced g p
    → IsBalanced g (try_idle h id ms ls p).1
unfolding try_idle
try_idle-IsBalanced g h id ms [] p e b = ground (arith, entries-delete h g p.idle_leases)
try_idle-IsBalanced g h id ms (l ∷ ls) p e b =
    acquire_lease-IsBalanced g h id ms _
      (ground (arith, text_eq_iff h g, entries-set h g (l ∷ ls) p.idle_leases))
