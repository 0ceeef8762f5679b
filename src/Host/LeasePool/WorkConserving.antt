-- ===== src/Host/LeasePool/WorkConserving.antt =====
-- No history makes a request wait for a Guest that has an idle lease in the pool.
use verser.Base.{
  ℕ, ◌≡◌, refl, ap, inl, inr, Text, text_eq_iff, List, [], ◌∷◌, Option, none, some, arith, not,
  ◌==◌, keep_if,
}
use verser.Base.Dict.{Dict, delete, entries, entries-set, entries-delete}
use verser.Host.LeasePool.{
  Pool, Lease, Acquisition, Stream, nghttp2_cancel, close_stream, try_acquire_lease, remove_lease,
  close_idle, close_active, close_guest_leases, close_all_leases, fail_one, fail_each,
  fail_queued_lease_acquisitions, fail_guests, fail_all_queued_lease_acquisitions, expire,
  fire_timer, empty_pool,
}
use verser.Host.LeasePool.Balance.{
  IsBalanced, Shrinks, Shrinks-IsBalanced, Shrinks-trans, entries-put_back,
  add_idle_lease-IsBalanced, acquire_lease-IsBalanced, try_idle-IsBalanced, drop_closed-nil,
}
use verser.Host.LeasePool.Calls.{
  Call, adds, removes, acquires, tries, closes_guest, closes_all, fails, fails_all, times_out,
  resets, reset_stream, step, run,
}

remove_lease-Shrinks : (g : Text) (l : Lease) (p : Pool) → Shrinks g p (remove_lease l p)
unfolding remove_lease
remove_lease-Shrinks g l p = record {
  queues = λ e. e;
  leases = λ e. ground (
    arith,
    text_eq_iff l.guest_id g,
    entries-put_back l.guest_id g
        (keep_if (λ c. not (c.ref == l.ref)) (entries l.guest_id p.idle_leases)) p.idle_leases,
    ap (keep_if (λ (c : Lease). not (c.ref == l.ref))) e,
  );
}

close_idle-Shrinks : (g : Text) (ls : List Lease) (p : Pool) → Shrinks g p (close_idle ls p)
unfolding close_idle
close_idle-Shrinks g [] p = record { queues = λ e. e; leases = λ e. e }
close_idle-Shrinks g (l ∷ ls) p =
    let next = record p { streams = close_stream nghttp2_cancel l.ref p.streams } in
    Shrinks-trans {q = next} (record { queues = λ e. e; leases = λ e. e })
      (close_idle-Shrinks g ls next)

close_active-Shrinks : (g h : Text) (d : Dict Lease) (p : Pool) → Shrinks g p (close_active h d p)
unfolding close_active
close_active-Shrinks g h [] p = record { queues = λ e. e; leases = λ e. e }
close_active-Shrinks g h ((k, l) ∷ d) p =
    Shrinks-trans (record { queues = λ e. ground arith; leases = λ e. ground arith })
      (close_active-Shrinks g h d _)

close_guest_leases-Shrinks : (g h : Text) (p : Pool) → Shrinks g p (close_guest_leases h p)
unfolding close_guest_leases
close_guest_leases-Shrinks g h p =
    let closed = close_idle (entries h p.idle_leases) p in
    let emptied = record closed { idle_leases = delete h closed.idle_leases } in
    let idle = close_idle-Shrinks g (entries h p.idle_leases) p in
    Shrinks-trans {q = emptied}
      (record {
        queues = idle.queues;
        leases = λ e. ground (arith, entries-delete h g closed.idle_leases, idle.leases e);
      })
      (close_active-Shrinks g h emptied.active_leases emptied)

fail_each-keeps :
    (guest_id reason : Text) (xs : List Acquisition) (p : Pool)
    → ((fail_each guest_id reason xs p).queued ≡ p.queued)
      × ((fail_each guest_id reason xs p).idle_leases ≡ p.idle_leases)
unfolding fail_each
fail_each-keeps guest_id reason [] p = (refl, refl)
fail_each-keeps guest_id reason (a ∷ xs) p =
    fail_each-keeps guest_id reason xs (fail_one guest_id reason a p)

fail_queued-Shrinks :
    (g h reason : Text) (p : Pool) → Shrinks g p (fail_queued_lease_acquisitions h reason p)
unfolding fail_queued_lease_acquisitions
fail_queued-Shrinks g h reason p =
    let base = record p { queued = delete h p.queued } in
    let kept = fail_each-keeps h reason (entries h p.queued) base in
    record {
      queues = λ e. rw kept.0 (ground (arith, entries-delete h g p.queued));
      leases = λ e. rw kept.1 e;
    }

fail_guests-Shrinks :
    (g : Text) (d : Dict (List Acquisition)) (reason : Text) (p : Pool)
    → Shrinks g p (fail_guests d reason p)
unfolding fail_guests
fail_guests-Shrinks g [] reason p = record { queues = λ e. e; leases = λ e. e }
fail_guests-Shrinks g ((h, xs) ∷ d) reason p =
    Shrinks-trans (fail_queued-Shrinks g h reason p) (fail_guests-Shrinks g d reason _)

expire-Shrinks : (g : Text) (o : Option Acquisition) (p : Pool) → Shrinks g p (expire o p)
unfolding expire
expire-Shrinks g none p = record { queues = λ e. e; leases = λ e. e }
expire-Shrinks g (some a) p = record {
  queues = λ e. ground (
    arith,
    text_eq_iff a.guest_id g,
    entries-set a.guest_id g (keep_if (λ c. not (c.ref == a.ref)) (entries a.guest_id p.queued))
        p.queued,
    ap (keep_if (λ (c : Acquisition). not (c.ref == a.ref))) e,
  );
  leases = λ e. e;
}

step-IsBalanced : (g : Text) (p : Pool) (c : Call) → IsBalanced g p → IsBalanced g (step p c)
unfolding step try_acquire_lease fire_timer fail_all_queued_lease_acquisitions reset_stream
    close_all_leases
step-IsBalanced g p (adds l) b = add_idle_lease-IsBalanced g l p b
step-IsBalanced g p (removes l) b = Shrinks-IsBalanced (remove_lease-Shrinks g l p) b
step-IsBalanced g p (acquires h id ms) b = acquire_lease-IsBalanced g h id ms p b
step-IsBalanced g p (tries h id ms) b =
    try_idle-IsBalanced g h id ms _ p (drop_closed-nil p.streams (entries h p.idle_leases)) b
step-IsBalanced g p (closes_guest h) b = Shrinks-IsBalanced (close_guest_leases-Shrinks g h p) b
step-IsBalanced g p closes_all b = inr (unfold entries in refl)
step-IsBalanced g p (fails h reason) b = Shrinks-IsBalanced (fail_queued-Shrinks g h reason p) b
step-IsBalanced g p (fails_all reason) b =
    Shrinks-IsBalanced (fail_guests-Shrinks g p.queued reason p) b
step-IsBalanced g p (times_out r) b = Shrinks-IsBalanced (expire-Shrinks g (p.timers r) p) b
step-IsBalanced g p (resets r s) b = b

run-IsBalanced : (g : Text) (p : Pool) (cs : List Call) → IsBalanced g p → IsBalanced g (run p cs)
unfolding run
run-IsBalanced g p [] b = b
run-IsBalanced g p (c ∷ cs) b = run-IsBalanced g (step p c) cs (step-IsBalanced g p c b)

-- After any history of a new pool, a Guest for which a request waits has no idle lease.
pub never_both_idle_and_waiting :
    (streams : ℕ → Stream) (cs : List Call) (g : Text) → IsBalanced g (run (empty_pool streams) cs)
never_both_idle_and_waiting streams cs g =
    run-IsBalanced g (empty_pool streams) cs (unfold empty_pool entries in inl refl)
