-- ===== src/Host/Registry/Expire.antt =====
-- Degraded routes that stayed too long are removed, and no others.
use verser.Base.{ℕ, Text, Bool, false, List, [], ◌∷◌, Option, none, some, All, if◌then◌else◌}
use verser.Base.Dict.{Dict, delete, Each, Each-delete, Unique, delete-Unique}
use verser.Host.Registry.{Registry, DegradedEntry}
use verser.Host.Registry.Degraded.{is_expired, expired, delete_each, remove_expired_degraded_routes}
use verser.Host.Registry.Invariant.{IsLocal, IsWellFormed}

-- An entry that has not stayed too long.
abbrev pub unless_expired : ℕ → ℕ → Option DegradedEntry → Option DegradedEntry
unless_expired now timeout_ms none = none
unless_expired now timeout_ms (some e) = if is_expired now timeout_ms e then none else some e

abbrev pub expires : ℕ → ℕ → Option DegradedEntry → Bool
expires now timeout_ms none = false
expires now timeout_ms (some e) = is_expired now timeout_ms e

delete_each-Each :
    (host : Text) (ks : List Text) (d : Dict DegradedEntry)
    → Unique d × Each (λ e. All (IsLocal host) e.routes) d
    → Unique (delete_each ks d) × Each (λ e. All (IsLocal host) e.routes) (delete_each ks d)
unfolding delete_each
delete_each-Each host [] d h = h
delete_each-Each host (k ∷ ks) d h =
    delete_each-Each host ks (delete k d)
      (delete-Unique k d h.0, Each-delete (λ e. All (IsLocal host) e.routes) k d h.1)

pub remove_expired-IsWellFormed :
    (now timeout_ms : ℕ) (g : Registry)
    → IsWellFormed g
    → IsWellFormed (remove_expired_degraded_routes now timeout_ms g).1
unfolding remove_expired_degraded_routes
remove_expired-IsWellFormed now timeout_ms g w =
    let kept =
      delete_each-Each g.host_id (expired now timeout_ms g.degraded_routes).expired_peers
        g.degraded_routes (w.degraded_unique, w.degraded) in
    record {
      host = w.host;
      local_unique = w.local_unique;
      locals = w.locals;
      imported_unique = w.imported_unique;
      imports = w.imports;
      degraded_unique = kept.0;
      degraded = kept.1;
    }
