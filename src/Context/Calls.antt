-- ===== src/Context/Calls.antt =====
-- actix-async/src/context.rs: what the user's code does with a context. The cell of a join handle is
-- shared by the handle that is returned and the future that it cancels.
use actix_async.Prelude.{ℕ, Bool, true, false, Option, none, some, [], ◌∷◌, ◌++◌, ok, err, ◌>>=◌}
use actix_async.Oneshot
use actix_async.Channel.{Chan}
use actix_async.Channel
use actix_async.Channel.Queue.{QueueOps}
use actix_async.Message.{
  ActorState, ActorMessage, MessageContainer, clone_ref, clone_mut, new_ref, new_mut, Handle,
  Runtime, FutureMessage, IntervalMessage, StreamContainer, new_future, new_interval, StreamMessage,
  interval, boxed,
}
use actix_async.Context
use actix_async.Context.{ContextInner}
use actix_async.Address.{from_recv}

-- a context with the caches of the crate, for messages `M` and the user's streams `S`
abbrev pub Ctx {ℓ} : (Sleep M S Rx : Type ℓ) → Type ℓ
Ctx Sleep M S Rx =
    ContextInner Rx (StreamMessage Sleep M S) (FutureMessage Sleep (MessageContainer M))

module _ {ℓ} {Sleep M S Rx : Type ℓ} where
  -- `Context::interval`, `Context::later` and `Context::stream`: the handle, and the context
  unfoldable pub add_interval :
      (Handle → IntervalMessage Sleep M) → Ctx Sleep M S Rx → Handle × Ctx Sleep M S Rx
  add_interval f ctx =
      let rx : Handle = Oneshot.new in
      (rx, record ctx { stream_cache = ctx.stream_cache ++ interval (f rx) ∷ [] })

  unfoldable pub later :
      (Handle → FutureMessage Sleep (MessageContainer M))
      → Ctx Sleep M S Rx
      → Handle × Ctx Sleep M S Rx
  later f ctx =
      let rx : Handle = Oneshot.new in
      (rx, record ctx { future_cache = ctx.future_cache ++ f rx ∷ [] })

  unfoldable pub stream : Bool → S → Ctx Sleep M S Rx → Handle × Ctx Sleep M S Rx
  stream exclusive s ctx =
      let rx : Handle = Oneshot.new in
      let container : StreamContainer S = record { stream = s; handle = some rx } in
      (rx, record ctx { stream_cache = ctx.stream_cache ++ boxed exclusive container ∷ [] })

  -- `Context::add_stream` and `Context::add_wait_stream`
  abbrev pub add_stream : S → Ctx Sleep M S Rx → Handle × Ctx Sleep M S Rx
  add_stream s ctx = stream false s ctx

  abbrev pub add_wait_stream : S → Ctx Sleep M S Rx → Handle × Ctx Sleep M S Rx
  add_wait_stream s ctx = stream true s ctx

-- the closures that the user hands over become messages: `FunctionMessage` and `FunctionMutMessage`
module _ {ℓ} {Sleep M S Rx F G : Type ℓ} (R : Runtime Sleep) (function : F → M)
    (function_mut : G → M) where
  -- `Context::run_interval` and `Context::run_wait_interval`
  abbrev pub run_interval : ℕ → F → Ctx Sleep M S Rx → Handle × Ctx Sleep M S Rx
  run_interval dur f ctx = add_interval (λ rx. new_interval R dur rx (clone_ref (function f))) ctx

  abbrev pub run_wait_interval : ℕ → G → Ctx Sleep M S Rx → Handle × Ctx Sleep M S Rx
  run_wait_interval dur f ctx =
      add_interval (λ rx. new_interval R dur rx (clone_mut (function_mut f))) ctx

  -- `Context::run_later` and `Context::run_wait_later`
  abbrev pub run_later : ℕ → F → Ctx Sleep M S Rx → Handle × Ctx Sleep M S Rx
  run_later dur f ctx = later (λ rx. new_future R dur rx (new_ref (function f) none)) ctx

  abbrev pub run_wait_later : ℕ → G → Ctx Sleep M S Rx → Handle × Ctx Sleep M S Rx
  run_wait_later dur f ctx = later (λ rx. new_future R dur rx (new_mut (function_mut f) none)) ctx

module _ {ℓ} {M Str Del : Type ℓ} (Q : QueueOps (ActorMessage (MessageContainer M))) where
  -- `Context::stop`
  unfoldable pub stop : ContextInner (Chan Q) Str Del → Option (ContextInner (Chan Q) Str Del)
  stop ctx = do
    (first, c) ← Channel.close Q ctx.rx
    some (record ctx { rx = c; state = ActorState.stop_graceful })

  -- `Context::address`
  unfoldable pub address : ContextInner (Chan Q) Str Del → Option (Option (Chan Q))
  address ctx = do r ← from_recv Q ctx.rx; elim r [ ok c ↦ some (some c) | err e ↦ some none ]

  -- `_create_context` of actix-async/src/actor.rs; the address is the sender of the context's channel
  unfoldable pub create_context : ℕ → Option (ContextInner (Chan Q) Str Del)
  create_context size_hint = do c ← Channel.channel Q size_hint; some (Context.new c)

-- `Actor::size_hint`, unless an actor has its own
abbrev pub size_hint : ℕ
size_hint = 256
