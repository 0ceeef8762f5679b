-- ===== src/Guest/Dispatch/Types.antt =====
-- The state of a dispatch: packages/verser2-guest-node/src/lib/dispatch-controller.ts. Callbacks and
-- streams are objects, named by numbers; what is done to them is a log in order of time.
use verser.Base.{ℕ, Text, Bool, List, Option}

-- An `Error` object that was thrown, or one made from the text of another value.
pub data Failure : Type 0 where
  thrown : ℕ → Failure
  made_from : Text → Failure

-- A value of a `catch`: an error or another value, with its `String(value)`.
pub data Caught : Type 0 where
  error : Failure → Caught
  other : Text → Caught

pub data Terminal : Type 0 where
  active failed completed : Terminal

pub data Effect : Type 0 where
  cleaned : ℕ → Effect
  destroyed_request : ℕ → Failure → Effect
  destroyed_response paused resumed : ℕ → Effect
  signalled : Failure → Effect
  told_response_error told_error : Failure → Effect
  told_body_sent : ℕ → ℕ → Effect

-- The callbacks that the caller's handler has; `onBodySent` is given by what it throws.
pub record Handler : Type 0 where
  pub on_response_error : Bool
  pub on_error : Bool
  pub on_body_sent : Option (ℕ → ℕ → Option Caught)

pub record Controller : Type 0 where
  pub terminal_state : Terminal
  pub response_body : Option ℕ
  pub request_body : Option ℕ
  pub listened : List ℕ
  pub paused_state : Bool
  pub abort_reason : Option Failure
  pub failure_notified : Bool
  pub total_bytes_sent : ℕ
  pub cleanup_callbacks : List ℕ
  pub log : List Effect
