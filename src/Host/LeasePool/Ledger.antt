-- ===== src/Host/LeasePool/Ledger.antt =====
-- Every acquisition that a Guest's lease pool queues is settled once, whatever happens to it.
use verser.Base.{
  ℕ, suc, ◌+◌, ◌≡◌, refl, sym, ap, ◌∙◌, inl, inr, Text, text_eq_iff, Bool, List, [], ◌∷◌, ◌++◌,
  Option, none, some, arith, ◌==◌, ltb, count, count-append, if◌then◌else◌, Bool-cases,
}
use verser.Base.Dict.{
  set, entries, total, Unique, set-Unique, entries-set, total-set, count-entries-le,
}
use verser.Host.LeasePool.{
  Pool, Lease, Acquisition, Outcome, granted, update, is_closed, offer, add_idle_lease, enqueue,
  take_idle, acquire_lease,
}

abbrev pub is_acquisition : ℕ → Acquisition → Bool
is_acquisition r a = a.ref == r

abbrev pub is_verdict : ℕ → ℕ × Outcome → Bool
is_verdict r s = s.0 == r

-- How often an acquisition stands in a queue, and how often its promise was settled.
abbrev pub waiting : ℕ → Pool → ℕ
waiting r p = total (is_acquisition r) p.queued

abbrev pub verdicts : ℕ → Pool → ℕ
verdicts r p = count (is_verdict r) p.settled

abbrev pub armed : Option Acquisition → ℕ
armed none = 0
armed (some a) = 1

abbrev pub issued : ℕ → ℕ → ℕ
issued next r = if ltb r next then 1 else 0

pub record Ledger (p : Pool) : Type 0 where
  pub unique : Unique p.queued
  pub timed : (r : ℕ) → waiting r p ≡ armed (p.timers r)
  pub homed :
      (r : ℕ) (a : Acquisition)
      → p.timers r ≡ some a
      → (a.ref ≡ r) × (count (is_acquisition r) (entries a.guest_id p.queued) ≡ 1)
  pub once : (r : ℕ) → waiting r p + verdicts r p ≡ issued p.next_ref r

-- One acquisition leaves the queue of its Guest, its timer is cleared and its promise is settled.
pub record Settles (g : Text) (a : Acquisition) (rest : List Acquisition) (o : Outcome) (p q : Pool)
    : Type 0 where
  pub drops :
      (r : ℕ)
      → count (is_acquisition r) rest + (if a.ref == r then 1 else 0)
        ≡ count (is_acquisition r) (entries g p.queued)
  pub queues : q.queued ≡ set g rest p.queued
  pub clocks : q.timers ≡ update a.ref none p.timers
  pub news : q.settled ≡ p.settled ++ (a.ref, o) ∷ []
  pub next : q.next_ref ≡ p.next_ref

module _ {g : Text} {a : Acquisition} {rest : List Acquisition} {o : Outcome} {p q : Pool}
    (s : Settles g a rest o p q) (v : Ledger p) where
  Settles-timed : (r : ℕ) → waiting r q ≡ armed (q.timers r)
  unfolding update
  Settles-timed r =
      rw (s.queues, s.clocks)
        (ground (arith, total-set (is_acquisition r) g rest p.queued, s.drops r, v.timed r))

  Settles-homed :
      (r : ℕ) (b : Acquisition)
      → q.timers r ≡ some b
      → (b.ref ≡ r) × (count (is_acquisition r) (entries b.guest_id q.queued) ≡ 1)
  unfolding update
  Settles-homed r b h = rw s.queues (
      ground (
        arith,
        ap (λ (f : ℕ → Option Acquisition). f r) s.clocks,
        entries-set g b.guest_id rest p.queued,
        text_eq_iff g b.guest_id,
        s.drops r,
        v.homed r b,
      ))

  Settles-once : (r : ℕ) → waiting r q + verdicts r q ≡ issued q.next_ref r
  Settles-once r =
      rw (s.queues, s.news, s.next)
        (ground (
          arith,
          total-set (is_acquisition r) g rest p.queued,
          count-append (is_verdict r) p.settled ((a.ref, o) ∷ []),
          s.drops r,
          v.once r,
        ))

  pub Settles-Ledger : Ledger q
  Settles-Ledger = record {
    unique = rw s.queues (set-Unique g rest p.queued v.unique);
    timed = Settles-timed;
    homed = Settles-homed;
    once = Settles-once;
  }

-- A call that touches neither queues, timers nor promises.
pub record Spares (p q : Pool) : Type 0 where
  pub queues : q.queued ≡ p.queued
  pub clocks : q.timers ≡ p.timers
  pub news : q.settled ≡ p.settled
  pub next : q.next_ref ≡ p.next_ref

pub Spares-Ledger : {p q : Pool} → Spares p q → Ledger p → Ledger q
Spares-Ledger s v = record {
  unique = rw s.queues v.unique;
  timed = λ r. rw (s.queues, s.clocks) (v.timed r);
  homed = λ r a h.
      rw s.queues (v.homed r a (ap (λ (f : ℕ → Option Acquisition). f r) (sym s.clocks) ∙ h));
  once = λ r. rw (s.queues, s.news, s.next) (v.once r);
}

offer-Settles :
    (l : Lease) (a : Acquisition) (rest : List Acquisition) (p : Pool)
    → entries l.guest_id p.queued ≡ a ∷ rest
    → Settles l.guest_id a rest (granted l) p (offer l (a ∷ rest) p)
unfolding offer
offer-Settles l a rest p e = record {
  drops = λ r. rw e (omega arith);
  queues = refl;
  clocks = refl;
  news = refl;
  next = refl;
}

offer-Ledger :
    (l : Lease) (xs : List Acquisition) (p : Pool)
    → entries l.guest_id p.queued ≡ xs
    → Ledger p
    → Ledger (offer l xs p)
unfolding offer
offer-Ledger l [] p e v =
    Spares-Ledger (record { queues = refl; clocks = refl; news = refl; next = refl }) v
offer-Ledger l (a ∷ rest) p e v = Settles-Ledger (offer-Settles l a rest p e) v

pub add_idle_lease-Ledger : (l : Lease) (p : Pool) → Ledger p → Ledger (add_idle_lease l p)
unfolding add_idle_lease
add_idle_lease-Ledger l p v = elim (Bool-cases (is_closed p.streams l)) [
  | inl gone ↦ rw gone v
  | inr live ↦ rw live (offer-Ledger l _ p refl v)
]

-- A fresh acquisition goes to the end of the queue of its Guest, and its timer is armed.
record Queues (a : Acquisition) (p q : Pool) : Type 0 where
  fresh : a.ref ≡ p.next_ref
  pub queues : q.queued ≡ set a.guest_id (entries a.guest_id p.queued ++ a ∷ []) p.queued
  pub clocks : q.timers ≡ update a.ref (some a) p.timers
  pub news : q.settled ≡ p.settled
  pub next : q.next_ref ≡ suc p.next_ref

module _ {a : Acquisition} {p q : Pool} (s : Queues a p q) (v : Ledger p) where
  Queues-timed : (r : ℕ) → waiting r q ≡ armed (q.timers r)
  unfolding update
  Queues-timed r =
      rw (s.queues, s.clocks)
        (ground (
          arith,
          s.fresh,
          total-set (is_acquisition r) a.guest_id (entries a.guest_id p.queued ++ a ∷ []) p.queued,
          count-append (is_acquisition r) (entries a.guest_id p.queued) (a ∷ []),
          v.timed r,
          v.once r,
        ))

  Queues-homed :
      (r : ℕ) (b : Acquisition)
      → q.timers r ≡ some b
      → (b.ref ≡ r) × (count (is_acquisition r) (entries b.guest_id q.queued) ≡ 1)
  unfolding update
  Queues-homed r b h = rw s.queues (
      ground (
        arith,
        s.fresh,
        ap (λ (f : ℕ → Option Acquisition). f r) s.clocks,
        entries-set a.guest_id b.guest_id (entries a.guest_id p.queued ++ a ∷ []) p.queued,
        text_eq_iff a.guest_id b.guest_id,
        count-append (is_acquisition r) (entries a.guest_id p.queued) (a ∷ []),
        count-entries-le (is_acquisition r) a.guest_id p.queued,
        v.homed r b,
        v.once r,
      ))

  Queues-once : (r : ℕ) → waiting r q + verdicts r q ≡ issued q.next_ref r
  Queues-once r =
      rw (s.queues, s.news, s.next)
        (ground (
          arith,
          s.fresh,
          total-set (is_acquisition r) a.guest_id (entries a.guest_id p.queued ++ a ∷ []) p.queued,
          count-append (is_acquisition r) (entries a.guest_id p.queued) (a ∷ []),
          v.once r,
        ))

  Queues-Ledger : Ledger q
  Queues-Ledger = record {
    unique = rw s.queues (set-Unique a.guest_id _ p.queued v.unique);
    timed = Queues-timed;
    homed = Queues-homed;
    once = Queues-once;
  }

enqueue-Ledger :
    (a : Acquisition) (p : Pool) → a.ref ≡ p.next_ref → Ledger p → Ledger (enqueue a p).1
unfolding enqueue
enqueue-Ledger a p e v =
    Queues-Ledger (record { fresh = e; queues = refl; clocks = refl; news = refl; next = refl }) v

take_idle-Ledger :
    (g id : Text) (ms : ℕ) (ls : List Lease) (p : Pool)
    → Ledger p
    → Ledger (take_idle g id ms ls p).1
unfolding take_idle
take_idle-Ledger g id ms [] p v =
    enqueue-Ledger _ _ refl
      (Spares-Ledger (record { queues = refl; clocks = refl; news = refl; next = refl }) v)
take_idle-Ledger g id ms (l ∷ rest) p v =
    Spares-Ledger (record { queues = refl; clocks = refl; news = refl; next = refl }) v

pub acquire_lease-Ledger :
    (g id : Text) (ms : ℕ) (p : Pool) → Ledger p → Ledger (acquire_lease g id ms p).1
unfolding acquire_lease
acquire_lease-Ledger g id ms p v = take_idle-Ledger g id ms _ p v
