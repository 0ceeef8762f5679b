-- ===== src/Host/LeasePool/Calls.antt =====
-- A history of the lease pool: the methods and what the environment does in between.
use verser.Base.{ℕ, Text, List, [], ◌∷◌}
use verser.Host.LeasePool.{
  Pool, Lease, Stream, update, add_idle_lease, acquire_lease, try_acquire_lease, remove_lease,
  close_guest_leases, close_all_leases, fail_queued_lease_acquisitions,
  fail_all_queued_lease_acquisitions, fire_timer,
}

pub data Call : Type 0 where
  adds removes : Lease → Call
  acquires tries : Text → Text → ℕ → Call
  closes_guest : Text → Call
  closes_all : Call
  fails : Text → Text → Call
  fails_all : Text → Call
  times_out : ℕ → Call
  -- the peer or the transport changes the state of a stream
  resets : ℕ → Stream → Call

unfoldable pub reset_stream : ℕ → Stream → Pool → Pool
reset_stream r s p = record p { streams = update r s p.streams }

unfoldable pub step : Pool → Call → Pool
step p (adds l) = add_idle_lease l p
step p (removes l) = remove_lease l p
step p (acquires g id ms) = (acquire_lease g id ms p).1
step p (tries g id ms) = (try_acquire_lease g id ms p).1
step p (closes_guest g) = close_guest_leases g p
step p closes_all = close_all_leases p
step p (fails g reason) = fail_queued_lease_acquisitions g reason p
step p (fails_all reason) = fail_all_queued_lease_acquisitions reason p
step p (times_out r) = fire_timer r p
step p (resets r s) = reset_stream r s p

unfoldable pub run : Pool → List Call → Pool
run p [] = p
run p (c ∷ cs) = run (step p c) cs
