-- ===== src/Context/State.antt =====
-- actix-async/src/context_future.rs: the locals of `ContextFuture::run`, and where it stands.
use actix_async.Prelude.{ℕ, Bool, true, false, Option, none, some, Poll}
use actix_async.Waker.{ActorWaker}
use actix_async.Tasks.{TaskPoll, TaskRef}
use actix_async.Message.{ActorMessage}
use actix_async.Context.{ContextInner}

-- The user's part, and the parts that bring messages: the futures of a handler object run side by
-- side or alone, and of the two hooks, and what a poll of each does.
pub record Parts {ℓ} (H Fut Rx Str Del : Type ℓ) : Type ℓ where
  pub handle : H → Fut
  pub handle_wait : H → Fut
  pub on_start : Fut
  pub on_stop : Fut
  pub size_hint : ℕ
  pub poll_task : ActorWaker → Fut → TaskPoll Fut
  pub poll_fut : ℕ → Fut → Poll (Unit {0}) × Fut
  pub poll_rx : ℕ → Rx → Poll (Option (ActorMessage H)) × Rx
  pub poll_str : ℕ → Str → Poll (Option (ActorMessage H)) × Str
  pub poll_del : ℕ → Del → Poll (Option (ActorMessage H)) × Del

-- Where `run` stands: at an `await` of one of its futures, or at the head of a loop.
pub data Pc {ℓ} (Fut : Type ℓ) : Type ℓ where
  starting : (fut : Fut) → Pc Fut  -- `on_start`
  task_loop : Pc Fut  -- the loop 'task
  exclusive : (fut : Fut) → Pc Fut  -- `handle_wait` in that loop
  inner_loop : Pc Fut  -- the match on the state
  selecting : (fut1 fut2 fut34 : Bool) → Pc Fut  -- the select, with the futures that are there
  yielding : (yielded : Bool) → Pc Fut
  resolving : Pc Fut  -- the test of `graceful_resolve`
  polling_tasks : Pc Fut
  resolve_yielding : (yielded : Bool) → Pc Fut
  after_loop : Pc Fut
  last : (fut : Fut) → Pc Fut  -- `handle_wait` behind the loop
  stopping : (fut : Fut) → Pc Fut  -- `on_stop`
  finished : Pc Fut

-- what the futures of the select work on
pub record Board {ℓ} (Slab Rx Str Del : Type ℓ) : Type ℓ where
  pub ctx : ContextInner Rx Str Del
  pub tasks : TaskRef Slab

-- The locals of `run`, and a log: the requester that was notified, how many tasks were dropped
-- before they were done and how many exclusive messages before they were handled, and whether
-- the loop was left at `ActorState::Stop`.
pub record Run {ℓ} (H Fut Slab Rx Str Del : Type ℓ) : Type ℓ where
  pub board : Board Slab Rx Str Del
  pub task_mut : Option H
  pub notify : Option ℕ
  pub pc : Pc Fut
  pub notified : Option ℕ
  pub dropped : ℕ
  pub lost : ℕ
  pub forced : Bool

pub data Progress : Type 0 where
  goes : Progress  -- runs on
  waits : Progress  -- the future of `run` is pending
  done : Progress

abbrev pub is_some {ℓ} : {A : Type ℓ} → Option A → Bool
is_some none = false
is_some (some x) = true

-- a future that is made under a condition
abbrev pub given {ℓ} : {A : Type ℓ} → Bool → A → Option A
given true x = some x
given false x = none
