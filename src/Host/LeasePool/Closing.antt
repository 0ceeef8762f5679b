-- ===== src/Host/LeasePool/Closing.antt =====
-- Closing the streams of the lease pool does not touch its queues.
use verser.Base.{refl, Text, List, [], ◌∷◌, arith}
use verser.Base.Dict.{Dict, delete, entries}
use verser.Host.LeasePool.{
  Pool, Lease, close_idle, close_active, close_all_idle, close_all_active, close_guest_leases,
  close_all_leases,
}
use verser.Host.LeasePool.Ledger.{Spares}

Spares-trans : {p q s : Pool} → Spares p q → Spares q s → Spares p s
Spares-trans a b = record {
  queues = rw b.queues a.queues;
  clocks = rw b.clocks a.clocks;
  news = rw b.news a.news;
  next = rw b.next a.next;
}

close_idle-Spares : (ls : List Lease) (p : Pool) → Spares p (close_idle ls p)
unfolding close_idle
close_idle-Spares [] p = record { queues = refl; clocks = refl; news = refl; next = refl }
close_idle-Spares (l ∷ ls) p =
    Spares-trans (record { queues = refl; clocks = refl; news = refl; next = refl })
      (close_idle-Spares ls _)

close_active-Spares : (g : Text) (d : Dict Lease) (p : Pool) → Spares p (close_active g d p)
unfolding close_active
close_active-Spares g [] p = record { queues = refl; clocks = refl; news = refl; next = refl }
close_active-Spares g ((k, l) ∷ d) p = Spares-trans (ground arith) (close_active-Spares g d _)

close_all_idle-Spares : (d : Dict (List Lease)) (p : Pool) → Spares p (close_all_idle d p)
unfolding close_all_idle
close_all_idle-Spares [] p = record { queues = refl; clocks = refl; news = refl; next = refl }
close_all_idle-Spares ((g, ls) ∷ d) p =
    Spares-trans (close_idle-Spares ls p) (close_all_idle-Spares d _)

close_all_active-Spares : (d : Dict Lease) (p : Pool) → Spares p (close_all_active d p)
unfolding close_all_active
close_all_active-Spares [] p = record { queues = refl; clocks = refl; news = refl; next = refl }
close_all_active-Spares ((k, l) ∷ d) p =
    Spares-trans (record { queues = refl; clocks = refl; news = refl; next = refl })
      (close_all_active-Spares d _)

pub close_guest_leases-Spares : (g : Text) (p : Pool) → Spares p (close_guest_leases g p)
unfolding close_guest_leases
close_guest_leases-Spares g p =
    let closed = close_idle (entries g p.idle_leases) p in
    let emptied = record closed { idle_leases = delete g closed.idle_leases } in
    let idle = close_idle-Spares (entries g p.idle_leases) p in
    Spares-trans {q = emptied}
      (record { queues = idle.queues; clocks = idle.clocks; news = idle.news; next = idle.next })
      (close_active-Spares g emptied.active_leases emptied)

pub close_all_leases-Spares : (p : Pool) → Spares p (close_all_leases p)
unfolding close_all_leases
close_all_leases-Spares p =
    let all =
      Spares-trans (close_all_idle-Spares p.idle_leases p)
        (close_all_active-Spares p.active_leases _) in
    record { queues = all.queues; clocks = all.clocks; news = all.news; next = all.next }
