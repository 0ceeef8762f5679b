-- ===== src/Host/LeasePool/Settled.antt =====
-- The calls of the lease pool keep its ledger of acquisitions.
use verser.Base.{
  ℕ, ◌+◌, ◌≡◌, refl, Text, text_eq_iff, List, [], ◌∷◌, Option, none, some, arith, ◌==◌, ltb, count,
  count-append, not, keep_if, if◌then◌else◌,
}
use verser.Base.Dict.{Dict, delete, entries, delete-Unique, entries-delete, total-delete, total}
use verser.Host.LeasePool.{
  Pool, Lease, Acquisition, Stream, rejected, update, fail_one, disconnected, disconnected,
  empty_pool, fail_each, expire, fire_timer, timed_out, fail_queued_lease_acquisitions,
  fail_all_queued_lease_acquisitions, fail_guests, try_idle, try_acquire_lease, remove_lease,
}
use verser.Host.LeasePool.Calls.{
  Call, adds, removes, acquires, tries, closes_guest, closes_all, fails, fails_all, times_out,
  resets, step, run, reset_stream,
}
use verser.Host.LeasePool.Closing.{close_guest_leases-Spares, close_all_leases-Spares}
use verser.Host.LeasePool.Ledger.{
  Ledger, is_acquisition, is_verdict, waiting, verdicts, armed, issued, Spares-Ledger, Settles,
  Settles-Ledger, add_idle_lease-Ledger, acquire_lease-Ledger,
}

try_idle-Ledger :
    (g id : Text) (ms : ℕ) (ls : List Lease) (p : Pool)
    → Ledger p
    → Ledger (try_idle g id ms ls p).1
unfolding try_idle
try_idle-Ledger g id ms [] p v =
    Spares-Ledger (record { queues = refl; clocks = refl; news = refl; next = refl }) v
try_idle-Ledger g id ms (l ∷ ls) p v =
    acquire_lease-Ledger g id ms _
      (Spares-Ledger (record { queues = refl; clocks = refl; news = refl; next = refl }) v)

-- What the loop over the acquisitions of a Guest that went away leaves behind.
fail_each-queued :
    (guest_id reason : Text) (xs : List Acquisition) (p : Pool)
    → ((fail_each guest_id reason xs p).queued ≡ p.queued)
      × ((fail_each guest_id reason xs p).next_ref ≡ p.next_ref)
unfolding fail_each
fail_each-queued guest_id reason [] p = (refl, refl)
fail_each-queued guest_id reason (a ∷ xs) p = fail_each-queued guest_id reason xs _

fail_each-timers :
    (guest_id reason : Text) (xs : List Acquisition) (p : Pool) (r : ℕ)
    → (fail_each guest_id reason xs p).timers r
      ≡ (if ltb 0 (count (is_acquisition r) xs) then none else p.timers r)
unfolding fail_each update
fail_each-timers guest_id reason [] p r = ground arith
fail_each-timers guest_id reason (a ∷ xs) p r =
    ground (arith, fail_each-timers guest_id reason xs (fail_one guest_id reason a p) r)

fail_each-verdicts :
    (guest_id reason : Text) (xs : List Acquisition) (p : Pool) (r : ℕ)
    → verdicts r (fail_each guest_id reason xs p) ≡ verdicts r p + count (is_acquisition r) xs
unfolding fail_each
fail_each-verdicts guest_id reason [] p r = omega arith
fail_each-verdicts guest_id reason (a ∷ xs) p r = ground (
  arith,
  fail_each-verdicts guest_id reason xs (fail_one guest_id reason a p) r,
  count-append (is_verdict r) p.settled ((a.ref, rejected (disconnected guest_id a reason)) ∷ []),
)

fail_queued-Ledger :
    (g reason : Text) (p : Pool) → Ledger p → Ledger (fail_queued_lease_acquisitions g reason p)
unfolding fail_queued_lease_acquisitions
fail_queued-Ledger g reason p v = record {
  unique = rw emptied.0 (delete-Unique g p.queued v.unique);
  timed = λ r. rw emptied.0 (
      ground (
        arith,
        fail_each-timers g reason (entries g p.queued) base r,
        total-delete (is_acquisition r) g p.queued v.unique,
        v.timed r,
      ));
  homed = λ r a h. rw emptied.0 (
      ground (
        arith,
        fail_each-timers g reason (entries g p.queued) base r,
        entries-delete g a.guest_id p.queued,
        text_eq_iff g a.guest_id,
        v.homed r a,
      ));
  once = λ r.
      rw (emptied.0, emptied.1, fail_each-verdicts g reason (entries g p.queued) base r)
        (omega (arith, total-delete (is_acquisition r) g p.queued v.unique, v.once r));
}
  where
    base : Pool
    base = record p { queued = delete g p.queued }

    emptied :
        ((fail_each g reason (entries g p.queued) base).queued ≡ delete g p.queued)
        × ((fail_each g reason (entries g p.queued) base).next_ref ≡ p.next_ref)
    emptied = fail_each-queued g reason (entries g p.queued) base

fail_guests-Ledger :
    (d : Dict (List Acquisition)) (reason : Text) (p : Pool)
    → Ledger p
    → Ledger (fail_guests d reason p)
unfolding fail_guests
fail_guests-Ledger [] reason p v = v
fail_guests-Ledger ((g, xs) ∷ d) reason p v =
    fail_guests-Ledger d reason _ (fail_queued-Ledger g reason p v)

count-keep_if_others :
    (r k : ℕ) (xs : List Acquisition)
    → count (is_acquisition r) (keep_if (λ c. not (c.ref == k)) xs)
      ≡ (if r == k then 0 else count (is_acquisition r) xs)
count-keep_if_others r k [] = ground arith
count-keep_if_others r k (a ∷ xs) = ground (arith, count-keep_if_others r k xs)

expire-Settles :
    (r : ℕ) (a : Acquisition) (p : Pool)
    → p.timers r ≡ some a
    → Ledger p
    → Settles a.guest_id a
        (keep_if (λ c. not (c.ref == a.ref)) (entries a.guest_id p.queued))
        (rejected (timed_out a))
        p
        (expire (some a) p)
unfolding expire
expire-Settles r a p h v = record {
  drops = λ s.
      ground (arith, count-keep_if_others s a.ref (entries a.guest_id p.queued), v.homed r a h);
  queues = refl;
  clocks = refl;
  news = refl;
  next = refl;
}

expire-Ledger :
    (r : ℕ) (o : Option Acquisition) (p : Pool) → p.timers r ≡ o → Ledger p → Ledger (expire o p)
unfolding expire
expire-Ledger r none p h v = v
expire-Ledger r (some a) p h v = Settles-Ledger (expire-Settles r a p h v) v

-- Every call keeps the ledger: the promise of an acquisition is settled when it leaves its queue,
-- its timer is pending as long as it waits, and no call settles it twice.
pub step-Ledger : (p : Pool) (c : Call) → Ledger p → Ledger (step p c)
unfolding step try_acquire_lease remove_lease fire_timer fail_all_queued_lease_acquisitions
    reset_stream
step-Ledger p (adds l) v = add_idle_lease-Ledger l p v
step-Ledger p (removes l) v =
    Spares-Ledger (record { queues = refl; clocks = refl; news = refl; next = refl }) v
step-Ledger p (acquires g id ms) v = acquire_lease-Ledger g id ms p v
step-Ledger p (tries g id ms) v = try_idle-Ledger g id ms _ p v
step-Ledger p (closes_guest g) v = Spares-Ledger (close_guest_leases-Spares g p) v
step-Ledger p closes_all v = Spares-Ledger (close_all_leases-Spares p) v
step-Ledger p (fails g reason) v = fail_queued-Ledger g reason p v
step-Ledger p (fails_all reason) v = fail_guests-Ledger p.queued reason p v
step-Ledger p (times_out r) v = expire-Ledger r (p.timers r) p refl v
step-Ledger p (resets r s) v =
    Spares-Ledger (record { queues = refl; clocks = refl; news = refl; next = refl }) v

empty_pool-Ledger : (streams : ℕ → Stream) → Ledger (empty_pool streams)
unfolding empty_pool total
empty_pool-Ledger streams = record {
  unique = tt;
  timed = λ r. refl;
  homed = λ r a h. cc;
  once = λ r. ground arith;
}

run-Ledger : (p : Pool) (cs : List Call) → Ledger p → Ledger (run p cs)
unfolding run
run-Ledger p [] v = v
run-Ledger p (c ∷ cs) v = run-Ledger (step p c) cs (step-Ledger p c v)

-- After any history of a new pool, each acquisition that was queued so far is either still waiting,
-- once and with its timer pending, or was settled exactly once.
pub settled_once :
    (streams : ℕ → Stream) (cs : List Call) (r : ℕ)
    → let p = run (empty_pool streams) cs in
      (waiting r p + verdicts r p ≡ issued p.next_ref r) × (waiting r p ≡ armed (p.timers r))
settled_once streams cs r =
    let v = run-Ledger (empty_pool streams) cs (empty_pool-Ledger streams) in (v.once r, v.timed r)
