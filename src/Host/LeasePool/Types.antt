-- ===== src/Host/LeasePool/Types.antt =====
-- Leases, their streams and the promises of the lease pool:
-- packages/verser2-host/src/lib/lease-pool.ts. A lease is an object: `ref` is its identity and that
-- of its HTTP/2 stream. Streams, `active` flags, pending timers and settled promises are the heap
-- that the methods change.
use verser.Base.{ℕ, Text, Bool, true, not, ◌||◌, List, ◌∷◌, ◌++◌, Option, ◌==◌, if◌then◌else◌}
use verser.Base.Dict.{Dict}
use verser.Errors.{VerserError}

pub record Stream : Type 0 where
  pub closed : Bool
  pub rst_code : ℕ

abbrev pub nghttp2_no_error : ℕ
nghttp2_no_error = 0

abbrev pub nghttp2_cancel : ℕ
nghttp2_cancel = 8

pub record Lease : Type 0 where
  pub ref : ℕ
  pub guest_id : Text
  pub lease_id : Text

pub record Acquisition : Type 0 where
  pub ref : ℕ
  pub guest_id : Text
  pub request_id : Text
  pub timeout_ms : ℕ

-- How the promise of an acquisition was settled.
pub data Outcome : Type 0 where
  granted : Lease → Outcome
  rejected : VerserError → Outcome

-- What `acquireLease` returns: a settled promise, or one that a queued acquisition will settle.
pub data Ticket : Type 0 where
  resolved : Lease → Ticket
  pending : ℕ → Ticket

pub record Pool : Type 0 where
  pub idle_leases : Dict (List Lease)
  pub active_leases : Dict Lease
  pub queued : Dict (List Acquisition)
  pub streams : ℕ → Stream
  pub active : ℕ → Bool
  pub timers : ℕ → Option Acquisition
  pub settled : List (ℕ × Outcome)
  pub next_ref : ℕ

-- One cell of the heap is written.
unfoldable pub update {ℓ} : {A : Type ℓ} → ℕ → A → (ℕ → A) → ℕ → A
update r a f s = if s == r then a else f s

-- `${lease.guestId}:${lease.leaseId}`
unfoldable pub lease_key : Lease → Text
lease_key l = l.guest_id ++ b':' ∷ l.lease_id

unfoldable pub is_closed : (ℕ → Stream) → Lease → Bool
is_closed streams l = let s = streams l.ref in s.closed || not (s.rst_code == nghttp2_no_error)

-- `Http2Stream.close(code)`: a stream that is closed already stays as it is.
unfoldable pub close_stream : ℕ → ℕ → (ℕ → Stream) → ℕ → Stream
unfolding update
close_stream code r streams =
    if (streams r).closed
    then streams
    else update r (record { closed = true; rst_code = code }) streams
