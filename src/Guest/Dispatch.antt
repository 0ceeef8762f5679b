-- ===== src/Guest/Dispatch.antt =====
-- The controller of one dispatched request: packages/verser2-guest-node/src/lib/
-- dispatch-controller.ts. Callbacks are run without calling the controller back; what a cleanup
-- throws is ignored, and what the notification of a failure throws comes after every change.
mod Types
pub mod Calls
pub mod Terminated
pub mod Final
pub mod Once
mod Tests
pub use Types.{
  Failure, thrown, made_from, Caught, error, other, Terminal, active, failed, completed, Effect,
  cleaned, destroyed_request, destroyed_response, paused, resumed, signalled, told_response_error,
  told_error, told_body_sent, Handler, Controller,
}
use verser.Base.{
  ℕ, ◌+◌, Bool, true, false, not, ◌||◌, List, [], ◌∷◌, ◌++◌, map, Option, none, some, any, keep_if,
  ◌==◌, if◌then◌else◌,
}

-- `error instanceof Error ? error : new Error(String(error))`
abbrev pub as_error : Caught → Failure
as_error (error e) = e
as_error (other t) = made_from t

pub new_controller : Controller
new_controller = record {
  terminal_state = active;
  response_body = none;
  request_body = none;
  listened = [];
  paused_state = false;
  abort_reason = none;
  failure_notified = false;
  total_bytes_sent = 0;
  cleanup_callbacks = [];
  log = [];
}

abbrev pub does : List Effect → Controller → Controller
does es c = record c { log = c.log ++ es }

abbrev to_body : (ℕ → Effect) → Option ℕ → List Effect
to_body f none = []
to_body f (some b) = f b ∷ []

pub attach_response_body : ℕ → Controller → Controller
attach_response_body body c =
    does (if c.paused_state then paused body ∷ [] else []) (record c { response_body = some body })

pub attach_request_body : ℕ → Controller → Controller
attach_request_body body c = elim c.terminal_state [
  | active ↦ record c { request_body = some body; listened = body ∷ c.listened }
  | _ ↦ c
]

-- The callbacks are a Set: one that is there already is not added again.
pub on_terminal : ℕ → Controller → Controller
on_terminal k c = elim c.terminal_state [
  | active ↦
      if any (λ j. j == k) c.cleanup_callbacks
      then c
      else record c { cleanup_callbacks = c.cleanup_callbacks ++ k ∷ [] }
  | _ ↦ does (cleaned k ∷ []) c
]

-- The function that `onTerminal` returns; the one for a controller that has ended does nothing.
pub forget : ℕ → Controller → Controller
forget k c = record c { cleanup_callbacks = keep_if (λ j. not (j == k)) c.cleanup_callbacks }

pub cleanup : Controller → Controller
cleanup c = record (does (map cleaned c.cleanup_callbacks) c) { cleanup_callbacks = [] }

notify_failure : Handler → Failure → Controller → Controller
notify_failure h e c =
    if c.failure_notified
    then c
    else does
        (if h.on_response_error
          then told_response_error e ∷ []
          else if h.on_error
          then told_error e ∷ []
          else [])
        (record c { failure_notified = true })

pub complete : Controller → Controller
unfolding cleanup
complete c = elim c.terminal_state [
  | active ↦ cleanup (record c { terminal_state = completed })
  | _ ↦ c
]

destroy_bodies : Failure → Controller → Controller
destroy_bodies e c =
    does
      (to_body (λ b. destroyed_request b e) c.request_body
        ++ to_body destroyed_response c.response_body)
      c

pub abort_active : Handler → Failure → Controller → Controller
unfolding cleanup notify_failure destroy_bodies
abort_active h e c = notify_failure h e (
    destroy_bodies e (
      cleanup
        (does (signalled e ∷ []) (record c { terminal_state = failed; abort_reason = some e }))))

pub abort : Handler → Failure → Controller → Controller
unfolding abort_active
abort h e c = elim c.terminal_state [ active ↦ abort_active h e c | _ ↦ c ]

pub pause : Controller → Controller
pause c = does (to_body paused c.response_body) (record c { paused_state = true })

pub resume : Controller → Controller
resume c = does (to_body resumed c.response_body) (record c { paused_state = false })

pub fail : Handler → Failure → Controller → Controller
unfolding abort
fail h e c = abort h e c

pub fail_from_unknown : Handler → Caught → Controller → Controller
unfolding abort
fail_from_unknown h e c = abort h (as_error e) c

-- `invoke`, by what the callback throws.
pub invoke : Handler → Option Caught → Controller → Bool × Controller
unfolding abort
invoke h none c = (true, c)
invoke h (some e) c = (false, abort h (as_error e) c)

abort_if : Handler → Option Caught → Controller → Controller
unfolding abort
abort_if h none c = c
abort_if h (some e) c = abort h (as_error e) c

send_body : Handler → ℕ → Controller → Controller
unfolding abort_if
send_body h n c =
    let total = c.total_bytes_sent + n in
    let sent = record c { total_bytes_sent = total } in
    elim h.on_body_sent [
      | none ↦ sent
      | some f ↦ abort_if h (f n total) (does (told_body_sent n total ∷ []) sent)
    ]

pub emit_body_sent : Handler → ℕ → Controller → Controller
unfolding send_body
emit_body_sent h n c = elim c.terminal_state [ active ↦ send_body h n c | _ ↦ c ]

-- The `error` and `close` events of a request body.
pub body_error : Handler → ℕ → Failure → Controller → Controller
unfolding abort
body_error h body e c = if any (λ b. b == body) c.listened then abort h e c else c

pub body_close : ℕ → Controller → Controller
body_close body c = record c { listened = keep_if (λ b. not (b == body)) c.listened }
