-- ===== src/Context/Spawned.antt =====
-- actix-async/src/context.rs: what becomes of a context after the calls of the user's code.
use actix_async.Prelude.{
  ℕ, ◌≡◌, refl, Bool, true, false, Option, none, some, List, [], ◌∷◌, Poll, ready, pending, ◌>>=◌,
}
use actix_async.Oneshot
use actix_async.Oneshot.Calls.{IsOpen, poll-IsOpen}
use actix_async.Listener.{usize_max}
use actix_async.Listener.View.{View}
use actix_async.Listener.Refine.{notify_up_to}
use actix_async.Channel.{Chan, as_sender}
use actix_async.Channel.Queue.{QueueOps}
use actix_async.Channel.State.{Holds, close-open}
use actix_async.Message.{
  ActorState, stop_graceful, Handle, ActorMessage, MessageContainer, new_ref, new_mut, Runtime,
  FutureMessage, StreamMessage, boxed, new_future, poll_handle, future_after, container_after,
  poll_container, poll_stream_message, to_msg,
}
use actix_async.Message
use actix_async.Message.Handles.{poll_handle-IsOpen}
use actix_async.Message.Timers.{FiresAfter}
use actix_async.Cache
use actix_async.Context.{ContextInner}
use actix_async.Context.Calls.{
  Ctx, later, stream, run_later, run_wait_later, add_stream, add_wait_stream, stop, address,
}
use actix_async.Address.{from_recv}
use actix_async.Address.Turns.{new-IsOpen}

module _ {ℓ} {M Str Del : Type ℓ} (Q : QueueOps (ActorMessage (MessageContainer M))) where
  -- `Context::stop` of an actor whose channel is open: the state is `StopGraceful`, the channel is
  -- closed, so that no address can be made from it, and the messages stay in it.
  pub stop-refuses :
      (ctx : ContextInner (Chan Q) Str Del) (xs : List (ActorMessage (MessageContainer M))) (n : ℕ)
      (se st : View)
      → Holds Q ctx.rx xs false n se st
      → (ctx' : ContextInner (Chan Q) Str Del) × (stop Q ctx ≡ some ctx')
        × (ctx'.state ≡ ActorState.stop_graceful)
        × Holds Q ctx'.rx xs true n (notify_up_to usize_max se) (notify_up_to usize_max st)
        × (address Q ctx' ≡ some none)
  unfolding stop address from_recv as_sender
  stop-refuses ctx xs n se st h =
      let (c, closed, holds, _, _, _, _, _, _) = close-open Q ctx.rx xs n se st h in
      (
        record ctx { rx = c; state = ActorState.stop_graceful },
        rw (closed, ◌>>=◌) refl,
        refl,
        holds,
        rw (Q.is_closed-Stands c.queue xs true n holds.queue, ◌>>=◌, as_sender, from_recv) refl,
      )

module _ {ℓ κ} {E : Type ℓ} {N : Type κ} (poll : ℕ → E → Poll (Option N) × E) where
  -- The polls of a cache with the wakers of `ws`, which must be pending, and the last, with `w`.
  unfoldable pub drive_futures : List ℕ → ℕ → List E → Option (Poll N × List E)
  drive_futures [] w xs = Cache.poll_future (poll w) xs
  drive_futures (v ∷ ws) w xs = do
    (r, xs') ← Cache.poll_future (poll v) xs
    elim r [ ready _ ↦ none | pending ↦ drive_futures ws w xs' ]

  unfoldable pub drive_streams : List ℕ → ℕ → List E → Option (Poll N × List E)
  drive_streams [] w xs = Cache.poll_stream (poll w) xs
  drive_streams (v ∷ ws) w xs = do
    (r, xs') ← Cache.poll_stream (poll v) xs
    elim r [ ready _ ↦ none | pending ↦ drive_streams ws w xs' ]

  -- It is pending at each of the polls with the wakers `ws`, and yields `m` at the next, with `w`.
  abbrev pub YieldsAfter : List ℕ → ℕ → E → N → Type κ
  YieldsAfter [] w x m = (poll w x).0 ≡ ready (some m)
  YieldsAfter (v ∷ ws) w x m = ((poll v x).0 ≡ pending) × YieldsAfter ws w (poll v x).1 m

  one_future :
      (ws : List ℕ) (w : ℕ) (x : E) (m : N)
      → YieldsAfter ws w x m
      → drive_futures ws w (x ∷ []) ≡ some (ready m, [])
  unfolding drive_futures Cache.poll_future Cache.scan
  one_future [] w x m e = rw (e, drive_futures, Cache.poll_future, Cache.scan) refl
  one_future (v ∷ ws) w x m e =
      rw (e.0, drive_futures, Cache.poll_future, Cache.scan) (one_future ws w (poll v x).1 m e.1)

  one_stream :
      (ws : List ℕ) (w : ℕ) (x : E) (m : N)
      → YieldsAfter ws w x m
      → (x' : E) × (drive_streams ws w (x ∷ []) ≡ some (ready m, x' ∷ []))
  unfolding drive_streams Cache.poll_stream Cache.scan
  one_stream [] w x m e = ((poll w x).1, rw (e, drive_streams, Cache.poll_stream, Cache.scan) refl)
  one_stream (v ∷ ws) w x m e =
      let (x', run) = one_stream ws w (poll v x).1 m e.1 in
      (x', rw (e.0, drive_streams, Cache.poll_stream, Cache.scan) run)

module _ {ℓ} {Sleep M S : Type ℓ} (R : Runtime Sleep)
    (poll_stream : ℕ → S → Poll (Option M) × S) where
  -- the poll of one entry of the cache of streams
  abbrev pub poll_entry :
      ℕ
      → StreamMessage Sleep M S
      → Poll (Option (ActorMessage (MessageContainer M))) × StreamMessage Sleep M S
  poll_entry w s = let (p, s', wakes) = poll_stream_message R poll_stream w s in (p, s')

  timer-YieldsAfter :
      (ws : List ℕ) (w : ℕ) (i : Handle) (d : Sleep) (msg : ActorMessage (MessageContainer M))
      → IsOpen i
      → FiresAfter R ws w d
      → YieldsAfter
          (Message.poll_future R)
          ws
          w
          (record { delay = d; handle = some i; msg = some msg })
          msg
  unfolding Message.poll_future future_after
  timer-YieldsAfter [] w i d msg o e =
      rw (poll_handle-IsOpen w i o, e, Message.poll_future, future_after) refl
  timer-YieldsAfter (v ∷ ws) w i d msg o e = (
    rw (poll_handle-IsOpen v i o, e.0, Message.poll_future, future_after) refl,
    rw (poll_handle-IsOpen v i o, e.0, Message.poll_future, future_after)
        (timer-YieldsAfter ws w (Oneshot.poll v i).1 (R.poll_sleep v d).1 msg (poll-IsOpen v i o).3
          e.1),
  )

  stream-YieldsAfter :
      (ws : List ℕ) (w : ℕ) (i : Handle) (exclusive : Bool) (s : S) (item : M)
      → IsOpen i
      → YieldsAfter poll_stream ws w s item
      → YieldsAfter poll_entry ws w
          (boxed exclusive (record { stream = s; handle = some i }))
          (to_msg R poll_stream exclusive item)
  unfolding poll_stream_message poll_container container_after
  stream-YieldsAfter [] w i exclusive s item o e =
      rw (poll_handle-IsOpen w i o, e, poll_stream_message, poll_container, container_after) refl
  stream-YieldsAfter (v ∷ ws) w i exclusive s item o e = (
    rw (poll_handle-IsOpen v i o, e.0, poll_stream_message, poll_container, container_after) refl,
    rw (poll_handle-IsOpen v i o, e.0, poll_stream_message, poll_container, container_after)
        (stream-YieldsAfter ws w (Oneshot.poll v i).1 exclusive (poll_stream v s).1 item
          (poll-IsOpen v i o).3 e.1),
  )

module _ {ℓ} {Sleep M S Rx F G : Type ℓ} (R : Runtime Sleep)
    (poll_stream : ℕ → S → Poll (Option M) × S) (function : F → M) (function_mut : G → M) where
  -- In a context without others, a closure of `run_later` becomes a concurrent message when its timer
  -- is done, however often the cache is polled before, one of `run_wait_later` an exclusive one, and
  -- both are gone then. The first item of a stream of `add_stream` becomes a concurrent message, that
  -- of one of `add_wait_stream` an exclusive one, however often the stream is pending before.
  pub spawned-fires :
      (ws vs : List ℕ) (w dur : ℕ) (f : F) (g : G) (s : S) (item : M) (ctx : Ctx Sleep M S Rx)
      → ctx.future_cache ≡ []
      → ctx.stream_cache ≡ []
      → FiresAfter R ws w (R.sleep dur)
      → YieldsAfter poll_stream vs w s item
      → (drive_futures
            (Message.poll_future R)
            ws
            w
            (run_later R function function_mut dur f ctx).1.future_cache
          ≡ some (ready (new_ref (function f) none), []))
        × (drive_futures
              (Message.poll_future R)
              ws
              w
              (run_wait_later R function function_mut dur g ctx).1.future_cache
            ≡ some (ready (new_mut (function_mut g) none), []))
        × (x y : StreamMessage Sleep M S) × (drive_streams
              (poll_entry R poll_stream)
              vs
              w
              (add_stream s ctx).1.stream_cache
            ≡ some (ready (new_ref item none), x ∷ []))
        × (drive_streams (poll_entry R poll_stream) vs w (add_wait_stream s ctx).1.stream_cache
            ≡ some (ready (new_mut item none), y ∷ []))
  unfolding later stream
  spawned-fires ws vs w dur f g s item ctx no_futures no_streams timer yields =
      let fires = λ (msg : ActorMessage (MessageContainer M)).
        one_future (Message.poll_future R) ws w (new_future R dur Oneshot.new msg) msg
          (timer-YieldsAfter R poll_stream ws w Oneshot.new (R.sleep dur) msg new-IsOpen timer) in
      let becomes = λ (exclusive : Bool).
        one_stream (poll_entry R poll_stream) vs w
          (boxed exclusive (record { stream = s; handle = some Oneshot.new }))
          (to_msg R poll_stream exclusive item)
          (stream-YieldsAfter R poll_stream vs w Oneshot.new exclusive s item new-IsOpen yields) in
      (
        rw no_futures (fires (new_ref (function f) none)),
        rw no_futures (fires (new_mut (function_mut g) none)),
        (becomes false).0,
        (becomes true).0,
        rw no_streams (becomes false).1,
        rw no_streams (becomes true).1,
      )
