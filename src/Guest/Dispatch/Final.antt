-- ===== src/Guest/Dispatch/Final.antt =====
-- Histories of a dispatch: how it ends, and that it stays ended.
use verser.Base.{
  ℕ, ◌+◌, ◌≡◌, refl, sym, ap, ◌∙◌, ◌⊎◌, inl, inr, Bool, true, false, List, [], ◌∷◌, Option, none,
  some, count, count-append, arith, ◌==◌, keep_if, not, subst, if◌then◌else◌,
}
use verser.Guest.Dispatch.{
  Handler, Failure, Caught, Controller, active, completed, Effect, cleaned, paused, resumed,
  told_body_sent, to_body, does, as_error, attach_response_body, attach_request_body, on_terminal,
  forget, cleanup, complete, abort, pause, resume, abort_if, send_body, emit_body_sent, body_close,
}
use verser.Guest.Dispatch.Terminated.{
  is_notice, is_signal, is_failed, is_active, IsSound, Terminal-cases, complete-IsSound_active,
  aborted_with, abort_active-eq, aborted_with-IsSound, to_body-count,
}

pub abort_ended :
    (h : Handler) (e : Failure) (c : Controller)
    → is_active c.terminal_state ≡ false
    → abort h e c ≡ c
unfolding abort
abort_ended h e c d = ground (arith, d)

abort_now :
    (h : Handler) (e : Failure) (c : Controller)
    → IsSound h c
    → c.terminal_state ≡ active
    → abort h e c ≡ aborted_with h e c
unfolding abort
abort_now h e c s a = rw (a, abort) (abort_active-eq h e c (s.notified ∙ ap is_failed a))

-- An abort of an active dispatch does, in this order: it aborts the signal, runs the cleanups in the
-- order in which they were registered, destroys the request body and then the response body, and
-- notifies the handler once; and it does nothing to a dispatch that has ended.
pub abort_lem :
    (h : Handler) (e : Failure) (c : Controller)
    → IsSound h c
    → ((c.terminal_state ≡ active) × (abort h e c ≡ aborted_with h e c))
      ⊎ ((is_active c.terminal_state ≡ false) × (abort h e c ≡ c))
abort_lem h e c s = elim (Terminal-cases c.terminal_state) [
  | inl a ↦ inl (a, abort_now h e c s a)
  | inr d ↦ inr (d, abort_ended h e c d)
]

pub abort-IsSound :
    (h : Handler) (e : Failure) (c : Controller) → IsSound h c → IsSound h (abort h e c)
abort-IsSound h e c s = elim (abort_lem h e c s) [
  | inl (a, q) ↦ subst (IsSound h) (sym q) (aborted_with-IsSound h e c a s)
  | inr (d, q) ↦ subst (IsSound h) (sym q) s
]

-- A dispatch of which only the bodies, the counters and harmless effects change.
pub record Quiet (c d : Controller) : Type 0 where
  pub state : d.terminal_state ≡ c.terminal_state
  pub reason : d.abort_reason ≡ c.abort_reason
  pub notified : d.failure_notified ≡ c.failure_notified
  pub notices : count is_notice d.log ≡ count is_notice c.log
  pub signals : count is_signal d.log ≡ count is_signal c.log
  pub left :
      is_active c.terminal_state ≡ false → c.cleanup_callbacks ≡ [] → d.cleanup_callbacks ≡ []

pub Quiet-IsSound : (h : Handler) (c d : Controller) → Quiet c d → IsSound h c → IsSound h d
Quiet-IsSound h c d q s = record {
  notified = ground (arith, q.state, q.notified, s.notified);
  notices = ground (arith, q.state, q.notices, s.notices);
  signals = ground (arith, q.state, q.signals, s.signals);
  reason = ground (arith, q.state, q.reason, s.reason);
  ended = λ e. q.left (ap is_active (sym q.state) ∙ e) (s.ended (ap is_active (sym q.state) ∙ e));
}

-- Doing something that is no news.
does-Quiet :
    (es : List Effect) (c : Controller)
    → count is_notice es ≡ 0
    → count is_signal es ≡ 0
    → Quiet c (does es c)
does-Quiet es c n m = record {
  state = refl;
  reason = refl;
  notified = refl;
  notices = ground (arith, n, count-append is_notice c.log es);
  signals = ground (arith, m, count-append is_signal c.log es);
  left = λ _ e. e;
}

to_body-Quiet :
    (f : ℕ → Effect) (b : Option ℕ) (c d : Controller)
    → ((k : ℕ) → is_notice (f k) ≡ false)
    → ((k : ℕ) → is_signal (f k) ≡ false)
    → Quiet c d
    → Quiet c (does (to_body f b) d)
to_body-Quiet f b c d n m q = record {
  state = q.state;
  reason = q.reason;
  notified = q.notified;
  notices =
      ground (
        arith,
        q.notices,
        to_body-count is_notice f b n,
        count-append is_notice d.log (to_body f b),
      );
  signals =
      ground (
        arith,
        q.signals,
        to_body-count is_signal f b m,
        count-append is_signal d.log (to_body f b),
      );
  left = q.left;
}

pub attach_response_body-Quiet : (b : ℕ) (c : Controller) → Quiet c (attach_response_body b c)
unfolding attach_response_body
attach_response_body-Quiet b c = record {
  state = refl;
  reason = refl;
  notified = refl;
  notices =
      ground (arith, count-append is_notice c.log (if c.paused_state then paused b ∷ [] else []));
  signals =
      ground (arith, count-append is_signal c.log (if c.paused_state then paused b ∷ [] else []));
  left = λ _ e. e;
}

pub attach_request_body-Quiet : (b : ℕ) (c : Controller) → Quiet c (attach_request_body b c)
unfolding attach_request_body
attach_request_body-Quiet b c = record {
  state = ground arith;
  reason = ground arith;
  notified = ground arith;
  notices = ground arith;
  signals = ground arith;
  left = ground arith;
}

pub on_terminal-Quiet : (k : ℕ) (c : Controller) → Quiet c (on_terminal k c)
unfolding on_terminal
on_terminal-Quiet k c = record {
  state = ground arith;
  reason = ground arith;
  notified = ground arith;
  notices = ground (arith, count-append is_notice c.log (cleaned k ∷ []));
  signals = ground (arith, count-append is_signal c.log (cleaned k ∷ []));
  left = ground arith;
}

-- Other bodies, another pause and another count of bytes.
pub same-Quiet :
    (request : Option ℕ) (ls : List ℕ) (p : Bool) (n : ℕ) (c : Controller)
    → Quiet c
        (record c { request_body = request; listened = ls; paused_state = p; total_bytes_sent = n })
same-Quiet request ls p n c = record {
  state = refl;
  reason = refl;
  notified = refl;
  notices = refl;
  signals = refl;
  left = λ _ e. e;
}

pub forget-Quiet : (k : ℕ) (c : Controller) → Quiet c (forget k c)
unfolding forget
forget-Quiet k c = record {
  state = refl;
  reason = refl;
  notified = refl;
  notices = refl;
  signals = refl;
  left = λ _ e. rw e refl;
}

pub body_close-Quiet : (b : ℕ) (c : Controller) → Quiet c (body_close b c)
unfolding body_close
body_close-Quiet b c =
    same-Quiet c.request_body (keep_if (λ k. not (k == b)) c.listened) c.paused_state
      c.total_bytes_sent c

pub pause-Quiet : (c : Controller) → Quiet c (pause c)
unfolding pause
pause-Quiet c =
    to_body-Quiet paused c.response_body c (record c { paused_state = true }) (λ k. refl)
      (λ k. refl) (same-Quiet c.request_body c.listened true c.total_bytes_sent c)

pub resume-Quiet : (c : Controller) → Quiet c (resume c)
unfolding resume
resume-Quiet c =
    to_body-Quiet resumed c.response_body c (record c { paused_state = false }) (λ k. refl)
      (λ k. refl) (same-Quiet c.request_body c.listened false c.total_bytes_sent c)

abort_if-IsSound :
    (h : Handler) (e : Option Caught) (c : Controller) → IsSound h c → IsSound h (abort_if h e c)
unfolding abort_if
abort_if-IsSound h none c s = s
abort_if-IsSound h (some e) c s = abort-IsSound h (as_error e) c s

tell-IsSound :
    (h : Handler) (f : Option (ℕ → ℕ → Option Caught)) (n total : ℕ) (c : Controller)
    → IsSound h c
    → IsSound h (elim f [
      | none ↦ c
      | some g ↦ abort_if h (g n total) (does (told_body_sent n total ∷ []) c)
    ])
tell-IsSound h none n total c s = s
tell-IsSound h (some g) n total c s =
    abort_if-IsSound h (g n total) (does (told_body_sent n total ∷ []) c)
      (Quiet-IsSound h c _ (does-Quiet (told_body_sent n total ∷ []) c refl refl) s)

pub emits_nothing :
    (h : Handler) (n : ℕ) (c : Controller)
    → is_active c.terminal_state ≡ false
    → emit_body_sent h n c ≡ c
unfolding emit_body_sent
emits_nothing h n c d = ground (arith, d)

pub completes_nothing : (c : Controller) → is_active c.terminal_state ≡ false → complete c ≡ c
unfolding complete
completes_nothing c d = ground (arith, d)

send_body-IsSound :
    (h : Handler) (n : ℕ) (c : Controller) → IsSound h c → IsSound h (send_body h n c)
unfolding send_body
send_body-IsSound h n c s = tell-IsSound h h.on_body_sent n (c.total_bytes_sent + n) _ (
    Quiet-IsSound h c _
      (same-Quiet c.request_body c.listened c.paused_state (c.total_bytes_sent + n) c) s)

pub emit_body_sent-IsSound :
    (h : Handler) (n : ℕ) (c : Controller) → IsSound h c → IsSound h (emit_body_sent h n c)
emit_body_sent-IsSound h n c s = elim (Terminal-cases c.terminal_state) [
  | inl a ↦ subst (IsSound h) (sym (sends_now a)) (send_body-IsSound h n c s)
  | inr d ↦ subst (IsSound h) (sym (emits_nothing h n c d)) s
]
  where
    sends_now : c.terminal_state ≡ active → emit_body_sent h n c ≡ send_body h n c
    sends_now a = unfold emit_body_sent in rw a refl

pub complete-IsSound : (h : Handler) (c : Controller) → IsSound h c → IsSound h (complete c)
complete-IsSound h c s = elim (Terminal-cases c.terminal_state) [
  | inl a ↦ subst (IsSound h) (sym (completes_now a)) (complete-IsSound_active h c a s)
  | inr d ↦ subst (IsSound h) (sym (completes_nothing c d)) s
]
  where
    completes_now :
        c.terminal_state ≡ active → complete c ≡ cleanup (record c { terminal_state = completed })
    completes_now a = unfold complete in rw a refl
