-- ===== src/Host/LeasePool/Serving.antt =====
-- Which lease and which request meet, and what a Guest's departure leaves.
use verser.Base.{
  ℕ, ◌≡◌, refl, ap, ◌⊎◌, inl, inr, Text, text_eq_refl, List, [], ◌∷◌, ◌++◌, none, some, Bool, true,
  false, arith, All, if◌then◌else◌, Bool-cases,
}
use verser.Base.Dict.{get, entries, entries-set, entries-delete, get-set_self}
use verser.Host.LeasePool.{
  Pool, Lease, Acquisition, Stream, Ticket, resolved, pending, granted, lease_key, is_closed,
  drop_closed, update, offer, add_idle_lease, acquisition, enqueue, take_idle, acquire_lease,
}
use verser.Host.LeasePool.Balance.{entries-put_back}

abbrev pub IsOpen : (ℕ → Stream) → Lease → Type 0
IsOpen streams l = is_closed streams l ≡ false

abbrev pub IsGone : (ℕ → Stream) → Lease → Type 0
IsGone streams l = is_closed streams l ≡ true

-- What `acquireLease` may answer for the idle leases that it finds.
data Serves (streams : ℕ → Stream) (ls rest : List Lease) : Type 0 where
  first :
      (gone : List Lease) (l : Lease) (more : List Lease)
      → ls ≡ gone ++ l ∷ more
      → All (IsGone streams) gone
      → IsOpen streams l
      → rest ≡ l ∷ more
      → Serves streams ls rest
  nothing : All (IsGone streams) ls → rest ≡ [] → Serves streams ls rest

Serves-cons :
    (streams : ℕ → Stream) (x : Lease) (ls rest : List Lease)
    → IsGone streams x
    → Serves streams ls rest
    → Serves streams (x ∷ ls) rest
Serves-cons streams x ls rest h (first gone l more e a o r) =
    first (x ∷ gone) l more (ap (◌∷◌ x) e) (h, a) o r
Serves-cons streams x ls rest h (nothing a r) = nothing (h, a) r

drop_closed-Serves :
    (streams : ℕ → Stream) (ls : List Lease) → Serves streams ls (drop_closed streams ls)
unfolding drop_closed
drop_closed-Serves streams [] = nothing tt refl
drop_closed-Serves streams (x ∷ ls) = elim (Bool-cases (is_closed streams x)) [
  | inl gone ↦ rw gone (Serves-cons streams x ls _ gone (drop_closed-Serves streams ls))
  | inr open_ ↦ rw open_ (first [] x ls refl tt open_ refl)
]

-- The outcome of an acquisition: the oldest idle lease of the Guest whose stream is open is handed
-- out and becomes active, and the closed ones before it are dropped; or all are closed, and the
-- request waits at the end of the queue of its Guest, with a timer.
abbrev pub Acquired : Text → Text → ℕ → Pool → Ticket × Pool → Type 0
Acquired g id ms p (t, q) =
    ((gone : List Lease) × (l : Lease) × (more : List Lease) × (entries g p.idle_leases
        ≡ gone ++ l ∷ more)
      × All (IsGone p.streams) gone
      × IsOpen p.streams l
      × (t ≡ resolved l)
      × (entries g q.idle_leases ≡ more)
      × (get (lease_key l) q.active_leases ≡ some l)
      × (q.active l.ref ≡ true)
      × (q.queued ≡ p.queued))
    ⊎ (All (IsGone p.streams) (entries g p.idle_leases)
        × (t ≡ pending p.next_ref)
        × (entries g q.idle_leases ≡ [])
        × (q.active_leases ≡ p.active_leases)
        × (entries g q.queued ≡ entries g p.queued ++ acquisition g id ms p ∷ [])
        × (q.timers p.next_ref ≡ some (acquisition g id ms p)))

take_idle-Acquired :
    (g id : Text) (ms : ℕ) (rest : List Lease) (p : Pool)
    → Serves p.streams (entries g p.idle_leases) rest
    → Acquired g id ms p (take_idle g id ms rest p)
unfolding take_idle enqueue acquisition update
take_idle-Acquired g id ms rest p (first gone l more e a o r) = rw r (
    inl (
      gone,
      l,
      more,
      e,
      a,
      o,
      refl,
      ground (arith, entries-put_back g g more p.idle_leases, text_eq_refl g),
      get-set_self (lease_key l) l p.active_leases,
      ground arith,
      refl,
    ))
take_idle-Acquired g id ms rest p (nothing a r) = rw r (
    inr (
      a,
      refl,
      ground (arith, entries-delete g g p.idle_leases, text_eq_refl g),
      refl,
      ground (
        arith,
        entries-set g g (entries g p.queued ++ acquisition g id ms p ∷ []) p.queued,
        text_eq_refl g,
      ),
      ground arith,
    ))

-- Acquiring a lease of a Guest hands out its first idle lease with an open stream, marks it active
-- and drops it with the closed ones before it; where no idle lease is open, it drops them all and
-- queues the request last, with its timer pending.
pub acquire_lease-Acquired :
    (g id : Text) (ms : ℕ) (p : Pool) → Acquired g id ms p (acquire_lease g id ms p)
unfolding acquire_lease
acquire_lease-Acquired g id ms p =
    take_idle-Acquired g id ms _ p (drop_closed-Serves p.streams (entries g p.idle_leases))

-- What `addIdleLease` does with a lease: nothing when its stream is gone; otherwise it serves the
-- request that has waited longest for this Guest, or keeps the lease as the last idle one.
abbrev pub Added : Lease → Pool → Pool → Type 0
Added l p q =
    (IsGone p.streams l × (q ≡ p))
    ⊎ (IsOpen p.streams l
        × (entries l.guest_id p.queued ≡ [])
        × (entries l.guest_id q.idle_leases ≡ entries l.guest_id p.idle_leases ++ l ∷ [])
        × (q.active_leases ≡ p.active_leases)
        × (q.settled ≡ p.settled))
    ⊎ ((a : Acquisition) × (rest : List Acquisition) × IsOpen p.streams l
        × (entries l.guest_id p.queued ≡ a ∷ rest)
        × (entries l.guest_id q.queued ≡ rest)
        × (q.settled ≡ p.settled ++ (a.ref, granted l) ∷ [])
        × (q.timers a.ref ≡ none)
        × (get (lease_key l) q.active_leases ≡ some l)
        × (q.active l.ref ≡ true)
        × (q.idle_leases ≡ p.idle_leases))

offer-Added :
    (l : Lease) (xs : List Acquisition) (p : Pool)
    → IsOpen p.streams l
    → entries l.guest_id p.queued ≡ xs
    → Added l p (offer l xs p)
unfolding offer update
offer-Added l [] p o e = inr (
    inl (
      o,
      e,
      ground (
        arith,
        entries-set l.guest_id l.guest_id (entries l.guest_id p.idle_leases ++ l ∷ [])
            p.idle_leases,
        text_eq_refl l.guest_id,
      ),
      refl,
      refl,
    ))
offer-Added l (a ∷ rest) p o e = inr (
    inr (
      a,
      rest,
      o,
      e,
      ground (arith, entries-set l.guest_id l.guest_id rest p.queued, text_eq_refl l.guest_id),
      refl,
      ground arith,
      get-set_self (lease_key l) l p.active_leases,
      ground arith,
      refl,
    ))

add_step :
    (l : Lease) (p : Pool) (b : Bool)
    → is_closed p.streams l ≡ b
    → Added l p (if b then p else offer l (entries l.guest_id p.queued) p)
add_step l p true gone = inl (gone, refl)
add_step l p false alive = offer-Added l _ p alive refl

-- A lease whose stream is closed is ignored. Another one is kept idle, last, where no request waits
-- for its Guest; and else it is marked active, the request that waited longest is resolved with it,
-- and the timer of that request is cleared.
pub add_idle_lease-Added : (l : Lease) (p : Pool) → Added l p (add_idle_lease l p)
unfolding add_idle_lease
add_idle_lease-Added l p = add_step l p (is_closed p.streams l) refl
