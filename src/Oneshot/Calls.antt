-- ===== src/Oneshot/Calls.antt =====
-- The calls of the two ends of a oneshot channel, each run to its end.
use actix_async.Prelude.{
  ℕ, ◌<◌, ◌≡◌, true, false, none, some, if◌then◌else◌, ready, pending, ok, err, arith,
}
use actix_async.Error.{ActixAsyncError}
use actix_async.Oneshot.{
  Inner, wake, send, after_set, drop_tx, after_close_tx, handle_state, after_register, poll,
  drop_rx, after_close_rx, drop_inner,
}
use actix_async.Oneshot.Flags.{
  is_closed, is_ready, has_send, has_recv, closed-Sets, recv-Sets, ready-Sets,
}

module _ {ℓ} {T : Type ℓ} where
  -- A channel on which nothing is decided yet.
  pub record IsOpen (i : Inner T) : Type 0 where
    pub small : i.state < 16
    pub not_closed : is_closed i.state ≡ false
    pub not_ready : is_ready i.state ≡ false

  -- On an open channel `send` succeeds and wakes the registered receiver, if there is one; the
  -- next poll, with any waker, is ready with the value.
  pub poll-send :
      (v : T) (w : ℕ) (i : Inner T)
      → IsOpen i
      → ((send v i).0 ≡ ok tt)
        × ((send v i).1.woken ≡ (if has_recv i.state then wake i.recv i.woken else i.woken))
        × ((poll w (send v i).1).0 ≡ ready (ok (some v)))
  unfolding send after_set poll handle_state
  poll-send v w i o = ground (arith, ready-Sets i.state)

  -- If the sender is dropped instead, the registered receiver is woken too, and the next poll is
  -- ready with `Closed`.
  pub poll-drop_tx :
      (w : ℕ) (i : Inner T)
      → IsOpen i
      → ((drop_tx false i).woken ≡ (if has_recv i.state then wake i.recv i.woken else i.woken))
        × ((poll w (drop_tx false i)).0 ≡ ready (err ActixAsyncError.closed))
  unfolding drop_tx after_close_tx poll handle_state
  poll-drop_tx w i o = ground (arith, closed-Sets i.state)

  -- A poll of an open channel registers the waker and is pending, and leaves the channel open.
  pub poll-IsOpen :
      (w : ℕ) (i : Inner T)
      → IsOpen i
      → ((poll w i).0 ≡ pending)
        × ((poll w i).1.recv ≡ some w)
        × (has_recv (poll w i).1.state ≡ true)
        × IsOpen (poll w i).1
  unfolding poll handle_state after_register
  poll-IsOpen w i o = ground (arith, recv-Sets i.state)

  -- When the receiver of an open channel has been dropped, `send` fails with `Closed`, takes the
  -- value back out of the slot, and wakes nobody.
  pub send-drop_rx :
      (v : T) (i : Inner T)
      → IsOpen i
      → has_send i.state ≡ false
      → ((send v (drop_rx false i)).0 ≡ err ActixAsyncError.closed)
        × ((send v (drop_rx false i)).1.value ≡ none)
        × ((send v (drop_rx false i)).1.woken ≡ i.woken)
  unfolding send after_set drop_rx after_close_rx
  send-drop_rx v i o n = ground (arith, closed-Sets i.state)

  -- A value that was sent with success is never dropped if the receiver goes before it polls: the
  -- slot still holds it when `drop` of the receiver and of the shared cell have run.
  pub value_leaks :
      (v : T) (i : Inner T)
      → IsOpen i
      → ((send v i).0 ≡ ok tt)
        × ((drop_inner (drop_rx false (drop_tx true (send v i).1))).value ≡ some v)
  unfolding send after_set drop_rx after_close_rx drop_tx drop_inner
  value_leaks v i o = ground (arith, ready-Sets i.state)
