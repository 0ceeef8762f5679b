-- ===== src/Host/Registry/Types.antt =====
-- The state of the Host's route table: packages/verser2-host/src/lib/route-registry.ts.
use verser.Base.{ℕ, Text, Bool, List}
use verser.Base.Dict.{Dict}
use verser.Errors.{VerserError}
use verser.Common.Federation.{Route}
use verser.Common.Generation.{Generation}

pub record Candidate : Type 0 where
  pub owner_id : Text
  pub route : Route

pub record DegradedEntry : Type 0 where
  pub routes : List Route
  pub degraded_at : ℕ
  pub generation : Generation

pub record Registry : Type 0 where
  pub host_id : Text
  pub max_hop_count : ℕ
  pub local_routes : Dict (List Route)
  pub imported_routes : Dict (List Route)
  pub degraded_routes : Dict DegradedEntry
  pub generation_counter : ℕ

pub record Rejection : Type 0 where
  pub route : Route
  pub error : VerserError

pub record ImportedUpdate : Type 0 where
  pub rejected : List Rejection
  pub changed : Bool

pub record Revocation : Type 0 where
  pub revoked : List Text
  pub not_found : List Text

pub record Expiry : Type 0 where
  pub expired_peers : List Text
  pub expired_routes : ℕ
  pub expired_entries : List (Text × Text)
