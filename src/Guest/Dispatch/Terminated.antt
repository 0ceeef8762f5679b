-- ===== src/Guest/Dispatch/Terminated.antt =====
-- A dispatch ends once: one notification of a failure, one abort of its signal, no cleanup left.
use verser.Base.{
  ℕ, ◌+◌, ◌≡◌, refl, ap, ◌∙◌, ◌⊎◌, inl, inr, Bool, true, false, ◌||◌, List, [], ◌∷◌, ◌++◌, map,
  Option, none, some, count, count-append, append_assoc, arith, if◌then◌else◌,
}
use verser.Guest.Dispatch.{
  Handler, Failure, Controller, Terminal, active, failed, completed, Effect, cleaned, signalled,
  destroyed_request, destroyed_response, told_response_error, told_error, new_controller, to_body,
  cleanup, abort_active, notify_failure, destroy_bodies,
}

abbrev pub is_notice : Effect → Bool
is_notice (told_response_error e) = true
is_notice (told_error e) = true
is_notice _ = false

abbrev pub is_signal : Effect → Bool
is_signal (signalled e) = true
is_signal _ = false

abbrev pub is_failed : Terminal → Bool
is_failed failed = true
is_failed _ = false

abbrev pub is_active : Terminal → Bool
is_active active = true
is_active _ = false

-- How often the caller hears of a failure, and how often the signal is aborted.
abbrev pub times : Bool → ℕ
times true = 1
times false = 0

abbrev pub hears : Handler → Bool
hears h = h.on_response_error || h.on_error

abbrev pub both : Bool → Bool → Bool
both true b = b
both false b = false

abbrev pub has_reason : Option Failure → Bool
has_reason none = false
has_reason (some e) = true

pub record IsSound (h : Handler) (c : Controller) : Type 0 where
  pub notified : c.failure_notified ≡ is_failed c.terminal_state
  pub notices : count is_notice c.log ≡ times (both (is_failed c.terminal_state) (hears h))
  pub signals : count is_signal c.log ≡ times (is_failed c.terminal_state)
  pub reason : has_reason c.abort_reason ≡ is_failed c.terminal_state
  pub ended : is_active c.terminal_state ≡ false → c.cleanup_callbacks ≡ []

pub new-IsSound : (h : Handler) → IsSound h new_controller
unfolding new_controller
new-IsSound h = record {
  notified = refl;
  notices = refl;
  signals = refl;
  reason = refl;
  ended = λ e. refl;
}

-- Cleanups and what is done to bodies are no news of a failure.
cleaned-is_notice : (ks : List ℕ) → count is_notice (map cleaned ks) ≡ 0
cleaned-is_notice [] = refl
cleaned-is_notice (k ∷ ks) = ground (arith, cleaned-is_notice ks)

cleaned-is_signal : (ks : List ℕ) → count is_signal (map cleaned ks) ≡ 0
cleaned-is_signal [] = refl
cleaned-is_signal (k ∷ ks) = ground (arith, cleaned-is_signal ks)

pub Terminal-cases : (t : Terminal) → (t ≡ active) ⊎ (is_active t ≡ false)
Terminal-cases active = inl refl
Terminal-cases failed = inr refl
Terminal-cases completed = inr refl

pub complete-IsSound_active :
    (h : Handler) (c : Controller)
    → c.terminal_state ≡ active
    → IsSound h c
    → IsSound h (cleanup (record c { terminal_state = completed }))
unfolding cleanup
complete-IsSound_active h c e s = record {
  notified = ground (arith, s.notified, e);
  notices = ground (
    arith,
    s.notices,
    e,
    count-append is_notice c.log (map cleaned c.cleanup_callbacks),
    cleaned-is_notice c.cleanup_callbacks,
  );
  signals = ground (
    arith,
    s.signals,
    e,
    count-append is_signal c.log (map cleaned c.cleanup_callbacks),
    cleaned-is_signal c.cleanup_callbacks,
  );
  reason = ground (arith, s.reason, e);
  ended = λ _. refl;
}

abbrev pub notice : Handler → Failure → List Effect
notice h e =
    if h.on_response_error
    then told_response_error e ∷ []
    else if h.on_error
    then told_error e ∷ []
    else []

-- What an abort does, in this order: the signal, the cleanups, the bodies, and the notification.
abbrev pub abort_effects : Handler → Failure → Controller → List Effect
abort_effects h e c =
    signalled e
    ∷ (map cleaned c.cleanup_callbacks
        ++ (to_body (λ b. destroyed_request b e) c.request_body
            ++ (to_body destroyed_response c.response_body ++ notice h e)))

abbrev pub aborted_with : Handler → Failure → Controller → Controller
aborted_with h e c = record c {
  terminal_state = failed;
  abort_reason = some e;
  failure_notified = true;
  cleanup_callbacks = [];
  log = c.log ++ abort_effects h e c;
}

append_five {ℓ} :
    {A : Type ℓ} (xs : List A) (x : A) (ks bs cs ds : List A)
    → (((xs ++ x ∷ []) ++ ks) ++ (bs ++ cs)) ++ ds ≡ xs ++ x ∷ (ks ++ (bs ++ (cs ++ ds)))
append_five xs x ks bs cs ds =
    append_assoc ((xs ++ x ∷ []) ++ ks) (bs ++ cs) ds
    ∙ append_assoc (xs ++ x ∷ []) ks ((bs ++ cs) ++ ds)
    ∙ append_assoc xs (x ∷ []) (ks ++ ((bs ++ cs) ++ ds))
    ∙ ap (λ ys. xs ++ x ∷ (ks ++ ys)) (append_assoc bs cs ds)

pub abort_active-eq :
    (h : Handler) (e : Failure) (c : Controller)
    → c.failure_notified ≡ false
    → abort_active h e c ≡ aborted_with h e c
unfolding abort_active cleanup notify_failure destroy_bodies
abort_active-eq h e c new = rw (new) (
    ap
      (λ l. record c {
        terminal_state = failed;
        abort_reason = some e;
        failure_notified = true;
        cleanup_callbacks = [];
        log = l;
      })
      (append_five c.log (signalled e) (map cleaned c.cleanup_callbacks)
        (to_body (λ b. destroyed_request b e) c.request_body)
        (to_body destroyed_response c.response_body) (notice h e)))

-- What is done to a body is no news either.
pub to_body-count :
    (p : Effect → Bool) (f : ℕ → Effect) (b : Option ℕ)
    → ((k : ℕ) → p (f k) ≡ false)
    → count p (to_body f b) ≡ 0
to_body-count p f none q = refl
to_body-count p f (some k) q = ground (arith, q k)

notice-is_notice : (h : Handler) (e : Failure) → count is_notice (notice h e) ≡ times (hears h)
notice-is_notice h e = ground arith

notice-is_signal : (h : Handler) (e : Failure) → count is_signal (notice h e) ≡ 0
notice-is_signal h e = ground arith

count_effects :
    (p : Effect → Bool) (h : Handler) (e : Failure) (c : Controller)
    → count p (map cleaned c.cleanup_callbacks) ≡ 0
    → ((k : ℕ) → p (destroyed_request k e) ≡ false)
    → ((k : ℕ) → p (destroyed_response k) ≡ false)
    → count p (abort_effects h e c) ≡ times (p (signalled e)) + count p (notice h e)
count_effects p h e c q r t = ground (
  arith,
  count-append p (map cleaned c.cleanup_callbacks) (
      to_body (λ b. destroyed_request b e) c.request_body
      ++ (to_body destroyed_response c.response_body ++ notice h e)),
  count-append p (to_body (λ b. destroyed_request b e) c.request_body)
      (to_body destroyed_response c.response_body ++ notice h e),
  count-append p (to_body destroyed_response c.response_body) (notice h e),
  to_body-count p (λ b. destroyed_request b e) c.request_body r,
  to_body-count p destroyed_response c.response_body t,
)

pub aborted_with-IsSound :
    (h : Handler) (e : Failure) (c : Controller)
    → c.terminal_state ≡ active
    → IsSound h c
    → IsSound h (aborted_with h e c)
aborted_with-IsSound h e c a s = record {
  notified = refl;
  notices = ground (
    arith,
    a,
    s.notices,
    count-append is_notice c.log (abort_effects h e c),
    count_effects is_notice h e c (cleaned-is_notice c.cleanup_callbacks) (λ k. refl) (λ k. refl),
    notice-is_notice h e,
  );
  signals = ground (
    arith,
    a,
    s.signals,
    count-append is_signal c.log (abort_effects h e c),
    count_effects is_signal h e c (cleaned-is_signal c.cleanup_callbacks) (λ k. refl) (λ k. refl),
    notice-is_signal h e,
  );
  reason = refl;
  ended = λ _. refl;
}
