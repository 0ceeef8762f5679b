-- ===== src/Host/LeasePool/Departure.antt =====
-- What is left of a Guest in the lease pool when it disconnects.
use verser.Base.{
  ℕ, ◌≡◌, refl, sym, ◌∙◌, Text, text_eq, text_eq_iff, List, [], ◌∷◌, ◌++◌, Option, none, some, Bool,
  true, false, arith, ◌&&◌, ◌||◌, ◌==◌, any, map, append_assoc, append-nil, if◌then◌else◌,
}
use verser.Base.Dict.{
  Dict, get, delete, entries, entries-delete, get-delete, Unique, get-none_of_has,
}
use verser.Host.LeasePool.{
  Pool, Lease, Acquisition, rejected, nghttp2_cancel, close_stream, close_idle, discard_active,
  close_active, close_guest_leases, disconnected, fail_one, fail_each,
  fail_queued_lease_acquisitions,
}

abbrev pub stands_in : ℕ → List Lease → Bool
stands_in r ls = any (λ l. l.ref == r) ls

abbrev pub stands_for : Text → ℕ → Dict Lease → Bool
stands_for g r d = any (λ e. text_eq e.1.guest_id g && (e.1.ref == r)) d

close_idle-closed :
    (r : ℕ) (ls : List Lease) (p : Pool)
    → ((close_idle ls p).streams r).closed ≡ ((p.streams r).closed || stands_in r ls)
unfolding close_idle close_stream
close_idle-closed r [] p = ground arith
close_idle-closed r (l ∷ ls) p = ground (
  arith,
  close_idle-closed r ls (record p { streams = close_stream nghttp2_cancel l.ref p.streams }),
)

discard_active-closed :
    (k : Text) (l : Lease) (p : Pool) (r : ℕ)
    → ((discard_active k l p).streams r).closed ≡ ((p.streams r).closed || (l.ref == r))
unfolding discard_active close_stream
discard_active-closed k l p r = ground arith

close_active-closed :
    (g : Text) (r : ℕ) (d : Dict Lease) (p : Pool)
    → ((close_active g d p).streams r).closed ≡ ((p.streams r).closed || stands_for g r d)
unfolding close_active
close_active-closed g r [] p = ground arith
close_active-closed g r ((k, l) ∷ d) p = go (text_eq l.guest_id g) (close_active-closed g r d)
  where
    go :
        (b : Bool)
        → ((q : Pool)
            → ((close_active g d q).streams r).closed ≡ ((q.streams r).closed || stands_for g r d))
        → ((close_active g d (if b then discard_active k l p else p)).streams r).closed
          ≡ ((p.streams r).closed || (b && (l.ref == r) || stands_for g r d))
    go true ih = ground (arith, ih (discard_active k l p), discard_active-closed k l p r)
    go false ih = ground (arith, ih p)

abbrev pub not_of : Text → Option Lease → Option Lease
not_of g none = none
not_of g (some l) = if text_eq l.guest_id g then none else some l

abbrev and_not_in : Text → Text → Dict Lease → Option Lease → Option Lease
and_not_in g j d o = elim (get j d) [ none ↦ o | some l ↦ if text_eq l.guest_id g then none else o ]

discard_active-get :
    (k j : Text) (l : Lease) (p : Pool)
    → get j (discard_active k l p).active_leases
      ≡ (if text_eq k j then none else get j p.active_leases)
unfolding discard_active
discard_active-get k j l p = get-delete k j p.active_leases

close_active-get :
    (g j : Text) (d : Dict Lease) (p : Pool)
    → Unique d
    → get j (close_active g d p).active_leases ≡ and_not_in g j d (get j p.active_leases)
unfolding close_active get
close_active-get g j [] p u = refl
close_active-get g j ((k, l) ∷ d) p u = ground (
  arith,
  text_eq_iff k j,
  get-none_of_has k d,
  discard_active-get k j l p,
  close_active-get g j d (discard_active k l p) u.1,
  close_active-get g j d p u.1,
)

close_idle-active_leases :
    (ls : List Lease) (p : Pool) → (close_idle ls p).active_leases ≡ p.active_leases
unfolding close_idle
close_idle-active_leases [] p = refl
close_idle-active_leases (l ∷ ls) p = close_idle-active_leases ls _

close_idle-idle_leases :
    (ls : List Lease) (p : Pool) → (close_idle ls p).idle_leases ≡ p.idle_leases
unfolding close_idle
close_idle-idle_leases [] p = refl
close_idle-idle_leases (l ∷ ls) p = close_idle-idle_leases ls _

close_active-idle_leases :
    (g : Text) (d : Dict Lease) (p : Pool) → (close_active g d p).idle_leases ≡ p.idle_leases
unfolding close_active
close_active-idle_leases g [] p = refl
close_active-idle_leases g ((k, l) ∷ d) p = close_active-idle_leases g d _ ∙ ground arith

and_not_in_self : (g j : Text) (d : Dict Lease) → and_not_in g j d (get j d) ≡ not_of g (get j d)
and_not_in_self g j d = ground arith

-- Closing the leases of a Guest closes exactly the streams of its idle and active leases, leaves it
-- no idle lease, removes exactly its own entries from the active leases, and leaves the idle leases
-- of every other Guest.
pub close_guest_leases_lem :
    (g : Text) (p : Pool)
    → Unique p.active_leases
    → let q = close_guest_leases g p in
      ((r : ℕ)
        → (q.streams r).closed ≡ (
            (p.streams r).closed
            || stands_in r (entries g p.idle_leases)
            || stands_for g r p.active_leases))
      × ((j : Text) → get j q.active_leases ≡ not_of g (get j p.active_leases))
      × ((j : Text)
          → entries j q.idle_leases ≡ (if text_eq g j then [] else entries j p.idle_leases))
unfolding close_guest_leases
close_guest_leases_lem g p u = (
  λ r.
      close_active-closed g r closed.active_leases emptied
      ∙ rw (same, close_idle-closed r (entries g p.idle_leases) p) (ground arith),
  λ j.
      close_active-get g j closed.active_leases emptied (rw same u)
      ∙ rw same (and_not_in_self g j p.active_leases),
  λ j.
      rw (close_active-idle_leases g closed.active_leases emptied)
        (rw kept (entries-delete g j p.idle_leases)),
)
  where
    closed : Pool
    closed = close_idle (entries g p.idle_leases) p

    emptied : Pool
    emptied = record closed { idle_leases = delete g closed.idle_leases }

    same : closed.active_leases ≡ p.active_leases
    same = close_idle-active_leases (entries g p.idle_leases) p

    kept : closed.idle_leases ≡ p.idle_leases
    kept = close_idle-idle_leases (entries g p.idle_leases) p

fail_each-settled :
    (guest_id reason : Text) (xs : List Acquisition) (p : Pool)
    → (fail_each guest_id reason xs p).settled
      ≡ p.settled ++ map (λ a. (a.ref, rejected (disconnected guest_id a reason))) xs
unfolding fail_each
fail_each-settled guest_id reason [] p = sym (append-nil _)
fail_each-settled guest_id reason (a ∷ xs) p =
    fail_each-settled guest_id reason xs (fail_one guest_id reason a p) ∙ append_assoc p.settled _ _

fail_each-spares :
    (guest_id reason : Text) (xs : List Acquisition) (p : Pool)
    → ((fail_each guest_id reason xs p).queued ≡ p.queued)
      × ((fail_each guest_id reason xs p).idle_leases ≡ p.idle_leases)
      × ((fail_each guest_id reason xs p).active_leases ≡ p.active_leases)
unfolding fail_each
fail_each-spares guest_id reason [] p = (refl, refl, refl)
fail_each-spares guest_id reason (a ∷ xs) p =
    fail_each-spares guest_id reason xs (fail_one guest_id reason a p)

-- Failing the requests that wait for a Guest rejects all of them, oldest first and each with the
-- `disconnected-target` error that names it, empties the queue of this Guest and of no other, and
-- leaves the leases.
pub fail_queued_lease_acquisitions_lem :
    (g reason : Text) (p : Pool)
    → let q = fail_queued_lease_acquisitions g reason p in
      (q.settled
        ≡ p.settled ++ map (λ a. (a.ref, rejected (disconnected g a reason))) (entries g p.queued))
      × ((j : Text) → entries j q.queued ≡ (if text_eq g j then [] else entries j p.queued))
      × (q.idle_leases ≡ p.idle_leases)
      × (q.active_leases ≡ p.active_leases)
unfolding fail_queued_lease_acquisitions
fail_queued_lease_acquisitions_lem g reason p =
    let base = record p { queued = delete g p.queued } in
    let spared = fail_each-spares g reason (entries g p.queued) base in
    (
      fail_each-settled g reason (entries g p.queued) base,
      λ j. rw spared.0 (entries-delete g j p.queued),
      spared.1,
      spared.2,
    )
