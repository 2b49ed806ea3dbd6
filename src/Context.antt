-- ===== src/Context.antt =====
-- actix-async/src/context_future.rs and actix-async/src/context.rs: the context of an actor. What its
-- mailbox, its streams, its delayed messages and the user's futures do at a poll are parameters.
pub mod Select
pub mod State
pub mod Run
pub mod Polls
pub mod Invariant
pub mod Cases
pub mod Steps
pub mod Reach
pub mod Room
pub mod Bounds
pub mod Ending
pub mod PollRun
pub mod Calls
pub mod Spawned
pub mod Actor
mod CallTests
mod Tests
use actix_async.Prelude.{ℕ, Option, none, some, List, [], ◌∷◌, ◌++◌, Poll}
use actix_async.Message.{ActorState, stop, running, stop_graceful, ActorMessage}

-- `ContextInner`, of a mailbox `Rx`, streams `Str` and delayed messages `Del`
pub record ContextInner {ℓ} (Rx Str Del : Type ℓ) : Type ℓ where
  pub state : ActorState
  pub future_cache : List Del
  pub stream_cache : List Str
  pub rx : Rx

module _ {ℓ} {Rx Str Del : Type ℓ} where
  -- `ContextInner::new`
  abbrev pub new : Rx → ContextInner Rx Str Del
  new rx = record { state = ActorState.stop; future_cache = []; stream_cache = []; rx = rx }
