-- ===== src/Guest/Dispatch/Once.antt =====
-- Whole histories of a dispatch: it ends at most once, and stays ended.
use verser.Base.{
  ℕ, ◌≡◌, refl, sym, ap, ◌∙◌, ◌⊎◌, inl, inr, Bool, true, false, List, [], ◌∷◌, Option, none, some,
  count, arith, any, ◌==◌, subst, if◌then◌else◌,
}
use verser.Guest.Dispatch.{
  Handler, Caught, Controller, Terminal, active, failed, completed, new_controller, as_error, abort,
  fail, fail_from_unknown, invoke, body_error,
}
use verser.Guest.Dispatch.Calls.{
  Call, attaches_response, attaches_request, registers, forgets, body_closes, sends, completes,
  pauses, resumes, aborts, fails, fails_unknown, invokes, body_fails, step, run,
}
use verser.Guest.Dispatch.Terminated.{
  is_notice, is_signal, is_failed, is_active, has_reason, times, both, hears, IsSound, new-IsSound,
}
use verser.Guest.Dispatch.Final.{
  Quiet, Quiet-IsSound, abort_ended, abort-IsSound, attach_response_body-Quiet,
  attach_request_body-Quiet, on_terminal-Quiet, forget-Quiet, body_close-Quiet, pause-Quiet,
  resume-Quiet, complete-IsSound, emit_body_sent-IsSound, emits_nothing, completes_nothing,
  same-Quiet,
}

invoke-IsSound :
    (h : Handler) (e : Option Caught) (c : Controller) → IsSound h c → IsSound h (invoke h e c).1
unfolding invoke
invoke-IsSound h none c s = s
invoke-IsSound h (some e) c s = abort-IsSound h (as_error e) c s

if-IsSound :
    (h : Handler) (b : Bool) (c d : Controller)
    → IsSound h c
    → IsSound h d
    → IsSound h (if b then c else d)
if-IsSound h true c d sc sd = sc
if-IsSound h false c d sc sd = sd

step-IsSound : (h : Handler) (c : Controller) (x : Call) → IsSound h c → IsSound h (step h c x)
unfolding step fail fail_from_unknown body_error
step-IsSound h c (attaches_response b) s = Quiet-IsSound h c _ (attach_response_body-Quiet b c) s
step-IsSound h c (attaches_request b) s = Quiet-IsSound h c _ (attach_request_body-Quiet b c) s
step-IsSound h c (registers k) s = Quiet-IsSound h c _ (on_terminal-Quiet k c) s
step-IsSound h c (forgets k) s = Quiet-IsSound h c _ (forget-Quiet k c) s
step-IsSound h c (body_closes b) s = Quiet-IsSound h c _ (body_close-Quiet b c) s
step-IsSound h c (sends n) s = emit_body_sent-IsSound h n c s
step-IsSound h c completes s = complete-IsSound h c s
step-IsSound h c pauses s = Quiet-IsSound h c _ (pause-Quiet c) s
step-IsSound h c resumes s = Quiet-IsSound h c _ (resume-Quiet c) s
step-IsSound h c (aborts e) s = abort-IsSound h e c s
step-IsSound h c (fails e) s = abort-IsSound h e c s
step-IsSound h c (fails_unknown e) s = abort-IsSound h (as_error e) c s
step-IsSound h c (invokes e) s = invoke-IsSound h e c s
step-IsSound h c (body_fails b e) s =
    if-IsSound h (any (λ k. k == b) c.listened) (abort h e c) c (abort-IsSound h e c s) s

run-IsSound : (h : Handler) (c : Controller) (xs : List Call) → IsSound h c → IsSound h (run h c xs)
unfolding run
run-IsSound h c [] s = s
run-IsSound h c (x ∷ xs) s = run-IsSound h (step h c x) xs (step-IsSound h c x s)

ended_or_active :
    (t : Terminal) (ks : List ℕ)
    → (is_active t ≡ false → ks ≡ [])
    → (is_active t ≡ true) ⊎ (ks ≡ [])
ended_or_active active ks e = inl refl
ended_or_active failed ks e = inr (e refl)
ended_or_active completed ks e = inr (e refl)

-- After any history of a new controller, the handler was notified of a failure exactly once if the
-- dispatch has failed and the handler has a callback for it, and else never; the signal was aborted
-- exactly once if it has failed, and else never; a reason is kept exactly if it has failed; and if the
-- dispatch has ended, no cleanup is left to run.
pub ends_once :
    (h : Handler) (xs : List Call)
    → let c = run h new_controller xs in
      (count is_notice c.log ≡ times (both (is_failed c.terminal_state) (hears h)))
      × (count is_signal c.log ≡ times (is_failed c.terminal_state))
      × (has_reason c.abort_reason ≡ is_failed c.terminal_state)
      × ((is_active c.terminal_state ≡ true) ⊎ (c.cleanup_callbacks ≡ []))
ends_once h xs =
    let s = run-IsSound h new_controller xs (new-IsSound h) in
    (s.notices, s.signals, s.reason, ended_or_active _ _ s.ended)

still-Quiet : (c d : Controller) → d ≡ c → Quiet c d
still-Quiet c d e =
    subst (Quiet c) (sym e)
      (same-Quiet c.request_body c.listened c.paused_state c.total_bytes_sent c)

invoke_ended :
    (h : Handler) (e : Option Caught) (c : Controller)
    → is_active c.terminal_state ≡ false
    → (invoke h e c).1 ≡ c
unfolding invoke
invoke_ended h none c d = refl
invoke_ended h (some e) c d = abort_ended h (as_error e) c d

step-Quiet :
    (h : Handler) (c : Controller) (x : Call)
    → is_active c.terminal_state ≡ false
    → Quiet c (step h c x)
unfolding step fail fail_from_unknown body_error
step-Quiet h c (attaches_response b) d = attach_response_body-Quiet b c
step-Quiet h c (attaches_request b) d = attach_request_body-Quiet b c
step-Quiet h c (registers k) d = on_terminal-Quiet k c
step-Quiet h c (forgets k) d = forget-Quiet k c
step-Quiet h c (body_closes b) d = body_close-Quiet b c
step-Quiet h c (sends n) d = still-Quiet c _ (emits_nothing h n c d)
step-Quiet h c completes d = still-Quiet c _ (completes_nothing c d)
step-Quiet h c pauses d = pause-Quiet c
step-Quiet h c resumes d = resume-Quiet c
step-Quiet h c (aborts e) d = still-Quiet c _ (abort_ended h e c d)
step-Quiet h c (fails e) d = still-Quiet c _ (abort_ended h e c d)
step-Quiet h c (fails_unknown e) d = still-Quiet c _ (abort_ended h (as_error e) c d)
step-Quiet h c (invokes e) d = still-Quiet c _ (invoke_ended h e c d)
step-Quiet h c (body_fails b e) d = still-Quiet c _ (ground (arith, abort_ended h e c d))

-- A dispatch that has ended stays as it ended, whatever is called: completed or failed, with the
-- reason that it has, and with no further notification or abort of the signal.
pub stays_ended :
    (h : Handler) (c : Controller) (xs : List Call)
    → is_active c.terminal_state ≡ false
    → ((run h c xs).terminal_state ≡ c.terminal_state)
      × ((run h c xs).abort_reason ≡ c.abort_reason)
      × (count is_notice (run h c xs).log ≡ count is_notice c.log)
      × (count is_signal (run h c xs).log ≡ count is_signal c.log)
unfolding run
stays_ended h c [] d = (refl, refl, refl, refl)
stays_ended h c (x ∷ xs) d =
    let q = step-Quiet h c x d in
    let (t, r, n, s) = stays_ended h (step h c x) xs (ap is_active q.state ∙ d) in
    (t ∙ q.state, r ∙ q.reason, n ∙ q.notices, s ∙ q.signals)
