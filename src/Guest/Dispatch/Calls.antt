-- ===== src/Guest/Dispatch/Calls.antt =====
-- A history of a dispatch: the calls of its controller and the events of its request bodies.
use verser.Base.{ℕ, List, [], ◌∷◌, Option}
use verser.Guest.Dispatch.{
  Handler, Failure, Caught, Controller, attach_response_body, attach_request_body, on_terminal,
  forget, complete, abort, pause, resume, fail, fail_from_unknown, invoke, emit_body_sent,
  body_error, body_close,
}

pub data Call : Type 0 where
  attaches_response attaches_request registers forgets body_closes sends : ℕ → Call
  completes pauses resumes : Call
  aborts fails : Failure → Call
  fails_unknown : Caught → Call
  invokes : Option Caught → Call
  body_fails : ℕ → Failure → Call

unfoldable pub step : Handler → Controller → Call → Controller
unfolding attach_response_body attach_request_body on_terminal forget complete abort pause resume
    fail fail_from_unknown invoke emit_body_sent body_error body_close
step h c (attaches_response b) = attach_response_body b c
step h c (attaches_request b) = attach_request_body b c
step h c (registers k) = on_terminal k c
step h c (forgets k) = forget k c
step h c (body_closes b) = body_close b c
step h c (sends n) = emit_body_sent h n c
step h c completes = complete c
step h c pauses = pause c
step h c resumes = resume c
step h c (aborts e) = abort h e c
step h c (fails e) = fail h e c
step h c (fails_unknown e) = fail_from_unknown h e c
step h c (invokes e) = (invoke h e c).1
step h c (body_fails b e) = body_error h b e c

unfoldable pub run : Handler → Controller → List Call → Controller
unfolding step
run h c [] = c
run h c (x ∷ xs) = run h (step h c x) xs
