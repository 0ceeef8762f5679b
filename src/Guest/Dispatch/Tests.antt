-- ===== src/Guest/Dispatch/Tests.antt =====
-- A dispatch that fails, and the theorems about it.
use verser.Base.{◌≡◌, refl, ◌⊎◌, true, false, List, [], ◌∷◌, none, count}
use verser.Guest.Dispatch.{
  Handler, thrown, Controller, active, signalled, cleaned, destroyed_request, told_error,
  new_controller, abort,
}
use verser.Guest.Dispatch.Calls.{Call, attaches_request, registers, aborts, completes, run}
use verser.Guest.Dispatch.Terminated.{
  is_notice, is_signal, is_failed, is_active, has_reason, times, both, hears, new-IsSound,
  aborted_with,
}
use verser.Guest.Dispatch.Final.{abort_lem}
use verser.Guest.Dispatch.Once.{ends_once, stays_ended}

abbrev old_handler : Handler
old_handler = record { on_response_error = false; on_error = true; on_body_sent = none }

abbrev failing : List Call
failing = attaches_request 7 ∷ registers 1 ∷ registers 2 ∷ aborts (thrown 0) ∷ completes ∷ []

failing_log :
    (run old_handler new_controller failing).log
    ≡ signalled (thrown 0)
      ∷ cleaned 1
      ∷ cleaned 2
      ∷ destroyed_request 7 (thrown 0)
      ∷ told_error (thrown 0)
      ∷ []
unfolding run new_controller
failing_log = refl

ends_once_example :
    let c = run old_handler new_controller failing in
    (count is_notice c.log ≡ times (both (is_failed c.terminal_state) (hears old_handler)))
    × (count is_signal c.log ≡ times (is_failed c.terminal_state))
    × (has_reason c.abort_reason ≡ is_failed c.terminal_state)
    × ((is_active c.terminal_state ≡ true) ⊎ (c.cleanup_callbacks ≡ []))
ends_once_example = ends_once old_handler failing

abbrev done : Controller
done = run old_handler new_controller failing

stays_ended_example :
    ((run old_handler done (completes ∷ [])).terminal_state ≡ done.terminal_state)
    × ((run old_handler done (completes ∷ [])).abort_reason ≡ done.abort_reason)
    × (count is_notice (run old_handler done (completes ∷ [])).log ≡ count is_notice done.log)
    × (count is_signal (run old_handler done (completes ∷ [])).log ≡ count is_signal done.log)
stays_ended_example =
    stays_ended old_handler done (completes ∷ []) (unfold run new_controller in refl)

abort_lem_example :
    ((new_controller.terminal_state ≡ active)
      × (abort old_handler (thrown 3) new_controller
          ≡ aborted_with old_handler (thrown 3) new_controller))
    ⊎ ((is_active new_controller.terminal_state ≡ false)
        × (abort old_handler (thrown 3) new_controller ≡ new_controller))
abort_lem_example = abort_lem old_handler (thrown 3) new_controller (new-IsSound old_handler)
