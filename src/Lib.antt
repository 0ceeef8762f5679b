-- ===== src/Lib.antt =====
-- verser2 connects Guests, which serve requests, to Brokers, which send them, through Hosts. A Guest
-- opens HTTP/2 streams to a Host, its leases, on which the Host forwards requests; it registers the
-- domains that it serves; and Hosts advertise these routes to other Hosts. This library models the
-- parts of the Host and of the shared protocol package that decide: which lease serves which request,
-- which routes a Host knows, and which of them it uses, shows and advertises.
--
-- The shared protocol package, packages/verser-common/src/lib:
--   Errors         errors.ts and the error types of types.ts. A function that may throw returns a
--                  `Result`; the context of an error is kept, the formatted message is not.
--   Js             Values of the language as validators meet them (parsed JSON). Texts are lists of
--                  code units; numbers are split into those that the validators tell apart.
--   Common         utils.ts (Validate, Trim), federation.ts and routing.ts (Federation) and
--                  route-lifecycle.ts (Generation, Lifecycle);
--                  normalizeVerserRouteDomain (Domain), with lower case and the URL parser as arguments;
--                  the header pairs and response header records of headers.ts (Headers), with records
--                  listed as `Object.entries` does;
--                  readVwsLine of vws.ts (VwsLine) and readNdjsonLines of ndjson.ts (Ndjson), with
--                  the chunks of a stream as a list.
--
-- The Host, packages/verser2-host/src/lib:
--   Host.LeasePool lease-pool.ts. The state `Pool` has the three maps of the class, and the heap that
--                  its methods change: the streams, the `active` flags, the pending timers and the
--                  promises in the order in which they settle. A method is a function to the next
--                  pool: addIdleLease is `add_idle_lease`, and so on. A history (Calls) is a list of
--                  calls, of timers that fire and of streams that the peers reset.
--   Host.Registry  route-registry.ts. The state `Registry` has the options and the three maps of the
--                  class and its counter. A method is a function to the next table with its result,
--                  or what it throws. Selection has the order of candidates, the routes for Brokers
--                  and the routes for export; Degraded has the routes of Guests that went away;
--                  History has whole histories of calls.
--   Host.Authorizer
--                  route-authorizer.ts. The state `Authorizer` has the two caches, the pending decisions
--                  and the generation, and the objects of all decisions with how their promises were
--                  settled. A call of the callback and its answer are two steps (Calls): authorizeHop is
--                  `authorize_hop`, and `conclude` is what follows the await in it. Invariant, Sound and Late
--                  have the invariant and late answers; Verdicts and Answers the table that it implements. A callback that throws
--                  at once is an answer that follows at once.
--
-- The Guest for Node, packages/verser2-guest-node/src/lib:
--   Guest.Dispatch dispatch-controller.ts. The state `Controller` has the fields of the class and a log
--                  of what it does to callbacks, bodies and its signal. A method is a function to the
--                  next controller, and Calls has whole histories.
--   Guest.Chunked  chunked-body-decoder.ts. The state `Decoder` has the pending bytes, the size of the
--                  chunk that is waited for and what was written to the output; whether the output
--                  takes more is an argument. The loop of `flush` runs on fuel, one more than the
--                  pending bytes, as every round but the last takes a byte (Stops).
--
-- The Guest for Bun, packages/verser2-guest-bun/src/lib:
--   Bun.Routes     routes.ts. The table of routes is a list of entries, and resolveRoute is
--                  `resolve_route`, with its three loops over the entries of a kind.
--
-- A JavaScript Map is an association list in insertion order (Base.Dict). The time, `localeCompare` and
-- the decoding of UTF-8 are arguments. `Array.prototype.sort` is a stable insertion sort, which is what
-- the language promises for a consistent order. The only other fuel is that of the decimal digits of the
-- generation counter, where the number itself is enough.
--
-- Not modelled: the HTTP/2, TLS, WebSocket and URL code of the platform, and the glue on it in
-- node-http2-verser-host.ts, in the Guest packages and in the adapters; Broker routing, the
-- validators of header records and the codecs of envelopes.
pub mod Base
pub mod Errors
pub mod Js
pub mod Common
pub mod Host
pub mod Guest
pub mod Bun
