-- ===== src/Message/Handles.antt =====
-- actix-async/src/message.rs, actix-async/src/context.rs: the join handle of a delayed message, an
-- interval or a stream, after each thing that its owner can do with it.
use actix_async.Prelude.{ℕ, ◌≡◌, refl, ap, true, false, Option, none, some, Poll, ready}
use actix_async.Oneshot
use actix_async.Oneshot.Calls.{IsOpen, poll-send, poll-drop_tx, poll-IsOpen}
use actix_async.Message.{
  ActorMessage, Handle, cancel, poll_handle, Runtime, FutureMessage, IntervalMessage,
  StreamContainer, future_after, interval_after, container_after, poll_future, poll_interval,
  poll_container,
}

poll_handle-cancel : (w : ℕ) (i : Handle) → IsOpen i → (poll_handle w (some (cancel i))).0 ≡ true
unfolding poll_handle
poll_handle-cancel w i o = rw ((poll-send tt w i o).2, poll_handle) refl

pub poll_handle-drop :
    (w : ℕ) (i : Handle) → IsOpen i → poll_handle w (some (Oneshot.drop_tx false i)) ≡ (false, none)
unfolding poll_handle
poll_handle-drop w i o = rw ((poll-drop_tx w i o).1, poll_handle) refl

pub poll_handle-IsOpen :
    (w : ℕ) (i : Handle) → IsOpen i → poll_handle w (some i) ≡ (false, some (Oneshot.poll w i).1)
unfolding poll_handle
poll_handle-IsOpen w i o = rw ((poll-IsOpen w i o).0, poll_handle) refl

module _ {ℓ κ μ} {Sleep : Type ℓ} (R : Runtime Sleep) {H M I : Type κ} {S : Type μ} where
  -- When a join handle whose task is still pending has been cancelled, the next poll of the delayed
  -- message is ready with nothing, and the next poll of the interval or of the stream ends it,
  -- whatever its timer or its stream would have answered.
  pub cancel_ends :
      (w : ℕ) (i : Handle)
      → IsOpen i
      → ((f : FutureMessage Sleep H)
          → (poll_future R w (record f { handle = some (cancel i) })).0 ≡ ready none)
        × ((f : IntervalMessage Sleep M)
            → (poll_interval R w (record f { handle = some (cancel i) })).0 ≡ ready none)
        × ((poll_stream : ℕ → S → Poll (Option I) × S) (to_msg : I → ActorMessage H)
              (c : StreamContainer S)
            → (poll_container poll_stream to_msg w (record c { handle = some (cancel i) })).0
              ≡ ready none)
  unfolding poll_future poll_interval poll_container future_after interval_after container_after
  cancel_ends w i o = (
    λ f. rw (poll_handle-cancel w i o, poll_future, future_after) refl,
    λ f. rw (poll_handle-cancel w i o, poll_interval, interval_after) refl,
    λ poll_stream to_msg c. rw (poll_handle-cancel w i o, poll_container, container_after) refl,
  )

  -- When the join handle has been dropped while its task was pending, the delayed message, the
  -- interval and the stream go on exactly as without a handle.
  pub drop_detaches :
      (w : ℕ) (i : Handle)
      → IsOpen i
      → ((f : FutureMessage Sleep H)
          → poll_future R w (record f { handle = some (Oneshot.drop_tx false i) })
            ≡ poll_future R w (record f { handle = none }))
        × ((f : IntervalMessage Sleep M)
            → poll_interval R w (record f { handle = some (Oneshot.drop_tx false i) })
              ≡ poll_interval R w (record f { handle = none }))
        × ((poll_stream : ℕ → S → Poll (Option I) × S) (to_msg : I → ActorMessage H)
              (c : StreamContainer S)
            → poll_container poll_stream to_msg w
                (record c { handle = some (Oneshot.drop_tx false i) })
              ≡ poll_container poll_stream to_msg w (record c { handle = none }))
  unfolding poll_future poll_interval poll_container poll_handle future_after interval_after
      container_after
  drop_detaches w i o =
      let alike : poll_handle w (some (Oneshot.drop_tx false i)) ≡ poll_handle w none =
        poll_handle-drop w i o in
      (
        λ f. ap (future_after R w (record f { handle = none })) alike,
        λ f. ap (interval_after R w (record f { handle = none })) alike,
        λ poll_stream to_msg c.
            ap (container_after poll_stream to_msg w (record c { handle = none })) alike,
      )
