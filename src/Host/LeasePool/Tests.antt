-- ===== src/Host/LeasePool/Tests.antt =====
-- Runs of the lease pool, and its theorems at concrete pools.
use verser.Base.{
  ℕ, ◌+◌, ◌≡◌, refl, Text, text_eq, false, List, [], ◌∷◌, ◌++◌, none, map, ◌||◌, if◌then◌else◌,
}
use verser.Base.Dict.{get, set, delete, entries, has}
use verser.Host.LeasePool.{
  Pool, Lease, Acquisition, Stream, rejected, lease_key, empty_pool, update, add_idle_lease,
  acquire_lease, fire_timer, drop_closed, remove_lease, close_guest_leases, disconnected,
  fail_queued_lease_acquisitions,
}
use verser.Host.LeasePool.Calls.{Call, adds, acquires, fails, times_out, step, run}
use verser.Host.LeasePool.Ledger.{waiting, verdicts, issued, armed}
use verser.Host.LeasePool.Settled.{settled_once}
use verser.Host.LeasePool.Balance.{IsBalanced}
use verser.Host.LeasePool.WorkConserving.{never_both_idle_and_waiting}
use verser.Host.LeasePool.Serving.{Acquired, Added, acquire_lease-Acquired, add_idle_lease-Added}
use verser.Host.LeasePool.Departure.{
  stands_in, stands_for, not_of, close_guest_leases_lem, fail_queued_lease_acquisitions_lem,
}
use verser.Host.LeasePool.Keys.{remove_lease-evicts}

abbrev all_open : ℕ → Stream
all_open r = record { closed = false; rst_code = 0 }

abbrev guest_a : Text
guest_a = b'a' ∷ []

abbrev guest_b : Text
guest_b = b'b' ∷ []

abbrev lease_1 : Lease
lease_1 = record { ref = 1; guest_id = guest_a; lease_id = b'1' ∷ [] }

abbrev lease_2 : Lease
lease_2 = record { ref = 2; guest_id = guest_a; lease_id = b'2' ∷ [] }

-- Three requests wait for `a`; the second times out, a lease serves the first, and `a` goes away.
abbrev busy_history : List Call
busy_history =
    acquires guest_a (b'x' ∷ []) 50
    ∷ acquires guest_a (b'y' ∷ []) 60
    ∷ acquires guest_a (b'z' ∷ []) 70
    ∷ times_out 1
    ∷ adds lease_1
    ∷ fails guest_a (b'!' ∷ [])
    ∷ adds lease_2
    ∷ []

abbrev busy : Pool
busy = run (empty_pool all_open) busy_history

busy_settles_first : map (λ s. s.0) busy.settled ≡ 1 ∷ 0 ∷ 2 ∷ []
unfolding run step add_idle_lease fail_queued_lease_acquisitions entries fire_timer acquire_lease
    drop_closed empty_pool delete update set text_eq
busy_settles_first = refl

settled_once_example :
    (waiting 2 busy + verdicts 2 busy ≡ issued busy.next_ref 2)
    × (waiting 2 busy ≡ armed (busy.timers 2))
settled_once_example = settled_once all_open busy_history 2

never_both_idle_and_waiting_example : IsBalanced guest_a busy
never_both_idle_and_waiting_example = never_both_idle_and_waiting all_open busy_history guest_a

acquire_lease-Acquired_example :
    Acquired guest_a (b'w' ∷ []) 10 busy (acquire_lease guest_a (b'w' ∷ []) 10 busy)
acquire_lease-Acquired_example = acquire_lease-Acquired guest_a (b'w' ∷ []) 10 busy

add_idle_lease-Added_example : Added lease_1 busy (add_idle_lease lease_1 busy)
add_idle_lease-Added_example = add_idle_lease-Added lease_1 busy

-- `a` holds one active and one idle lease, and a request waits for `b`.
abbrev waiting_b : Acquisition
waiting_b = record { ref = 0; guest_id = guest_b; request_id = b'r' ∷ []; timeout_ms = 5 }

abbrev settled_pool : Pool
settled_pool = record {
  idle_leases = (guest_a, lease_2 ∷ []) ∷ [];
  active_leases = (lease_key lease_1, lease_1) ∷ [];
  queued = (guest_b, waiting_b ∷ []) ∷ [];
  streams = all_open;
  active = λ _. false;
  timers = λ _. none;
  settled = [];
  next_ref = 1;
}

close_guest_leases_lem_example :
    let q = close_guest_leases guest_a settled_pool in
    ((r : ℕ)
      → (q.streams r).closed ≡ (
          (settled_pool.streams r).closed
          || stands_in r (entries guest_a settled_pool.idle_leases)
          || stands_for guest_a r settled_pool.active_leases))
    × ((j : Text) → get j q.active_leases ≡ not_of guest_a (get j settled_pool.active_leases))
    × ((j : Text)
        → entries j q.idle_leases
          ≡ (if text_eq guest_a j then [] else entries j settled_pool.idle_leases))
close_guest_leases_lem_example =
    close_guest_leases_lem guest_a settled_pool (unfold has in (refl, tt))

fail_queued_lease_acquisitions_lem_example :
    let q = fail_queued_lease_acquisitions guest_b (b'!' ∷ []) settled_pool in
    (q.settled
      ≡ []
        ++ map
            (λ a. (a.ref, rejected (disconnected guest_b a (b'!' ∷ []))))
            (entries guest_b settled_pool.queued))
    × ((j : Text)
        → entries j q.queued ≡ (if text_eq guest_b j then [] else entries j settled_pool.queued))
    × (q.idle_leases ≡ settled_pool.idle_leases)
    × (q.active_leases ≡ settled_pool.active_leases)
fail_queued_lease_acquisitions_lem_example =
    fail_queued_lease_acquisitions_lem guest_b (b'!' ∷ []) settled_pool

-- The Guest `a:b` with the lease `1`, and the Guest `a` with the lease `b:1`.
abbrev lease_of_pair : Lease
lease_of_pair = record { ref = 3; guest_id = b'a' ∷ b':' ∷ b'b' ∷ []; lease_id = b'1' ∷ [] }

abbrev lease_of_a : Lease
lease_of_a = record { ref = 4; guest_id = guest_a; lease_id = b'b' ∷ b':' ∷ b'1' ∷ [] }

remove_lease-evicts_example :
    get
      (lease_key lease_of_pair)
      (remove_lease lease_of_a (record settled_pool {
        active_leases = (lease_key lease_of_pair, lease_of_pair) ∷ [];
      })).active_leases
    ≡ none
remove_lease-evicts_example =
    remove_lease-evicts guest_a guest_b (b'1' ∷ []) lease_of_a lease_of_pair _ refl refl refl refl
