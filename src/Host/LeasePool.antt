-- ===== src/Host/LeasePool.antt =====
-- The Host's pool of Guest lease streams: packages/verser2-host/src/lib/lease-pool.ts, a function
-- for each method. The proofs are in the modules below.
mod Types
pub mod Ledger
pub mod Calls
pub mod Closing
pub mod Settled
pub mod Balance
pub mod WorkConserving
pub mod Serving
pub mod Departure
pub mod Keys
mod Tests
pub use Types.{
  Stream, Lease, Acquisition, Outcome, granted, rejected, Ticket, resolved, pending, Pool,
}
unfoldable pub use Types.{
  nghttp2_no_error, nghttp2_cancel, update, lease_key, is_closed, close_stream,
}
use verser.Base.{
  ℕ, suc, Text, text_eq, Bool, true, false, not, List, [], ◌∷◌, ◌++◌, Option, none, some, String,
  ◌==◌, keep_if, if◌then◌else◌,
}
use verser.Base.Dict.{Dict, set, delete, entries}
use verser.Js.{nat}
use verser.Errors.{VerserError, create_verser_error, timeout, disconnected_target, text, number}

-- `lease.active = true; this.activeLeases.set(key, lease)`
activate : Lease → Pool → Pool
activate l p = record p {
  active = update l.ref true p.active;
  active_leases = set (lease_key l) l p.active_leases;
}

settle : ℕ → Outcome → Pool → Pool
settle r o p = record p { settled = p.settled ++ (r, o) ∷ [] }

clear_timeout : ℕ → Pool → Pool
clear_timeout r p = record p { timers = update r none p.timers }

-- The `shift` of a queue leaves its rest under the key, an empty one too.
offer : Lease → List Acquisition → Pool → Pool
unfolding activate settle clear_timeout
offer l [] p = record p {
  idle_leases = set l.guest_id (entries l.guest_id p.idle_leases ++ l ∷ []) p.idle_leases;
}
offer l (a ∷ rest) p =
    let shifted = record p { queued = set l.guest_id rest p.queued } in
    settle a.ref (granted l) (activate l (clear_timeout a.ref shifted))

pub add_idle_lease : Lease → Pool → Pool
unfolding offer is_closed
add_idle_lease l p = if is_closed p.streams l then p else offer l (entries l.guest_id p.queued) p

-- The leases from the first open one on.
pub drop_closed : (ℕ → Stream) → List Lease → List Lease
drop_closed streams [] = []
drop_closed streams (l ∷ ls) =
    let rest = drop_closed streams ls in if is_closed streams l then rest else l ∷ ls

-- The array of a guest after it was changed in place; an empty one is deleted.
pub put_back {ℓ} : {A : Type ℓ} → Text → List A → Dict (List A) → Dict (List A)
put_back g [] d = delete g d
put_back g (x ∷ xs) d = set g (x ∷ xs) d

pub acquisition : Text → Text → ℕ → Pool → Acquisition
acquisition guest_id request_id timeout_ms p = record {
  ref = p.next_ref;
  guest_id = guest_id;
  request_id = request_id;
  timeout_ms = timeout_ms;
}

enqueue : Acquisition → Pool → Ticket × Pool
enqueue a p = (
  pending a.ref,
  record p {
    queued = set a.guest_id (entries a.guest_id p.queued ++ a ∷ []) p.queued;
    timers = update a.ref (some a) p.timers;
    next_ref = suc p.next_ref;
  },
)

take_idle : Text → Text → ℕ → List Lease → Pool → Ticket × Pool
unfolding acquisition enqueue activate put_back
take_idle guest_id request_id timeout_ms [] p =
    enqueue (acquisition guest_id request_id timeout_ms p)
      (record p { idle_leases = delete guest_id p.idle_leases })
take_idle guest_id request_id timeout_ms (l ∷ rest) p =
    (resolved l, activate l (record p { idle_leases = put_back guest_id rest p.idle_leases }))

pub acquire_lease : Text → Text → ℕ → Pool → Ticket × Pool
unfolding take_idle
acquire_lease guest_id request_id timeout_ms p =
    take_idle guest_id request_id timeout_ms
      (drop_closed p.streams (entries guest_id p.idle_leases)) p

pub try_idle : Text → Text → ℕ → List Lease → Pool → Option Ticket × Pool
try_idle guest_id request_id timeout_ms [] p =
    (none, record p { idle_leases = delete guest_id p.idle_leases })
try_idle guest_id request_id timeout_ms (l ∷ rest) p =
    let (t, q) =
      acquire_lease guest_id request_id timeout_ms
        (record p { idle_leases = set guest_id (l ∷ rest) p.idle_leases }) in
    (some t, q)

pub try_acquire_lease : Text → Text → ℕ → Pool → Option Ticket × Pool
unfolding try_idle
try_acquire_lease guest_id request_id timeout_ms p =
    try_idle guest_id request_id timeout_ms (drop_closed p.streams (entries guest_id p.idle_leases))
      p

pub remove_lease : Lease → Pool → Pool
unfolding put_back
remove_lease l p = record p {
  idle_leases =
      put_back l.guest_id (keep_if (λ c. not (c.ref == l.ref)) (entries l.guest_id p.idle_leases))
        p.idle_leases;
  active = update l.ref false p.active;
  active_leases = delete (lease_key l) p.active_leases;
}

close_idle : List Lease → Pool → Pool
close_idle [] p = p
close_idle (l ∷ ls) p =
    close_idle ls (record p { streams = close_stream nghttp2_cancel l.ref p.streams })

discard_active : Text → Lease → Pool → Pool
discard_active key l p = record p {
  streams = close_stream nghttp2_cancel l.ref p.streams;
  active_leases = delete key p.active_leases;
}

-- The loop over the entries of `activeLeases` that closes and deletes those of one guest.
close_active : Text → Dict Lease → Pool → Pool
unfolding discard_active
close_active guest_id [] p = p
close_active guest_id ((key, l) ∷ rest) p =
    close_active guest_id rest (if text_eq l.guest_id guest_id then discard_active key l p else p)

pub close_guest_leases : Text → Pool → Pool
unfolding close_idle close_active
close_guest_leases guest_id p =
    let closed = close_idle (entries guest_id p.idle_leases) p in
    let emptied = record closed { idle_leases = delete guest_id closed.idle_leases } in
    close_active guest_id emptied.active_leases emptied

close_all_idle : Dict (List Lease) → Pool → Pool
close_all_idle [] p = p
close_all_idle ((g, ls) ∷ rest) p = close_all_idle rest (close_idle ls p)

close_all_active : Dict Lease → Pool → Pool
close_all_active [] p = p
close_all_active ((key, l) ∷ rest) p =
    close_all_active rest (record p { streams = close_stream nghttp2_cancel l.ref p.streams })

pub close_all_leases : Pool → Pool
unfolding close_idle close_all_idle close_all_active
close_all_leases p =
    let closed = close_all_active p.active_leases (close_all_idle p.idle_leases p) in
    record closed { idle_leases = []; active_leases = [] }

pub disconnected : Text → Acquisition → Text → VerserError
unfolding create_verser_error
disconnected guest_id a reason =
    create_verser_error disconnected_target "Guest disconnected while waiting for a lease" (
      ("targetId", text guest_id) ∷ ("requestId", text a.request_id) ∷ ("reason", text reason) ∷ [])

fail_one : Text → Text → Acquisition → Pool → Pool
unfolding disconnected settle clear_timeout
fail_one guest_id reason a p =
    settle a.ref (rejected (disconnected guest_id a reason)) (clear_timeout a.ref p)

fail_each : Text → Text → List Acquisition → Pool → Pool
unfolding fail_one
fail_each guest_id reason [] p = p
fail_each guest_id reason (a ∷ rest) p =
    fail_each guest_id reason rest (fail_one guest_id reason a p)

pub fail_queued_lease_acquisitions : Text → Text → Pool → Pool
unfolding fail_each
fail_queued_lease_acquisitions guest_id reason p =
    fail_each guest_id reason (entries guest_id p.queued)
      (record p { queued = delete guest_id p.queued })

-- The loop over the keys of the map, each of which is deleted on the way.
fail_guests : Dict (List Acquisition) → Text → Pool → Pool
fail_guests [] reason p = p
fail_guests ((g, waiting) ∷ rest) reason p =
    fail_guests rest reason (fail_queued_lease_acquisitions g reason p)

pub fail_all_queued_lease_acquisitions : Text → Pool → Pool
unfolding fail_guests
fail_all_queued_lease_acquisitions reason p = fail_guests p.queued reason p

remove_queued_lease_acquisition : Acquisition → Pool → Pool
remove_queued_lease_acquisition a p = record p {
  queued =
      set a.guest_id (keep_if (λ c. not (c.ref == a.ref)) (entries a.guest_id p.queued)) p.queued;
}

timed_out : Acquisition → VerserError
unfolding create_verser_error
timed_out a = create_verser_error timeout "Timed out waiting for a Guest lease stream" (
    ("targetId", text a.guest_id)
    ∷ ("requestId", text a.request_id)
    ∷ ("timeoutMs", number (nat a.timeout_ms))
    ∷ [])

expire : Option Acquisition → Pool → Pool
unfolding remove_queued_lease_acquisition timed_out settle clear_timeout
expire none p = p
expire (some a) p =
    settle a.ref (rejected (timed_out a))
      (remove_queued_lease_acquisition a (clear_timeout a.ref p))

-- The timer that belongs to a pending acquisition goes off.
pub fire_timer : ℕ → Pool → Pool
unfolding expire
fire_timer r p = expire (p.timers r) p

pub empty_pool : (ℕ → Stream) → Pool
empty_pool streams = record {
  idle_leases = [];
  active_leases = [];
  queued = [];
  streams = streams;
  active = λ _. false;
  timers = λ _. none;
  settled = [];
  next_ref = 0;
}
