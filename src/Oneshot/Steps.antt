-- ===== src/Oneshot/Steps.antt =====
-- actix-async/src/util/async_oneshot.rs: the two ends of a oneshot channel on two threads,
-- interleaved an atomic access at a time. What an end does with a state word that it has read is
-- local to it and goes with the access.
use actix_async.Prelude.{ℕ, Bool, true, false, ◌||◌, Option, if◌then◌else◌}
use actix_async.Oneshot.{
  Inner, new, write_recv, write_value, fetch_or, take_value, wake_recv, wake_send,
}
use actix_async.Oneshot.Flags.{
  closed_bit, recv_bit, ready_bit, is_closed, is_ready, has_send, has_recv,
}

-- Where the sender stands. `sent` and `closing` hold the old state that `fetch_or` returned.
pub data TxPc {ℓ} (T : Type ℓ) : Type ℓ where
  tx_live : TxPc T
  tx_written : TxPc T  -- in `set_value`, before its `fetch_or`
  tx_sent : (old : ℕ) → TxPc T
  tx_dropping : TxPc T  -- in `drop`, the state was not closed
  tx_closing : (old : ℕ) → TxPc T
  tx_ok : TxPc T  -- `send` returned `Ok`
  tx_failed : (back : Option T) → TxPc T  -- `send` took its value back and returned `Err`
  tx_dropped : TxPc T

-- Where the receiver stands. `rx_parked w` is an idle receiver whose last poll, with the waker
-- `w`, returned `Pending`.
pub data RxPc {ℓ} (T : Type ℓ) : Type ℓ where
  rx_idle : RxPc T
  rx_polling : (w : ℕ) → RxPc T  -- the first `handle_state` was pending
  rx_wrote : (w : ℕ) → RxPc T  -- in `set_recv`, before its `fetch_or`
  rx_parked : (w : ℕ) → RxPc T
  rx_received : (got : Option T) → RxPc T
  rx_closed : RxPc T  -- a poll returned `Err(Closed)`
  rx_dropping : RxPc T
  rx_dropped : RxPc T

pub record System {ℓ} (T : Type ℓ) : Type ℓ where
  pub inner : Inner T
  pub tx : TxPc T
  pub rx : RxPc T

module _ {ℓ} {T : Type ℓ} where
  unfoldable pub start : System T
  start = record { inner = new; tx = tx_live; rx = rx_idle }

  -- one access of the sender, which holds `v`; `drop` chooses between `send` and `drop`
  unfoldable pub tx_step : T → Bool → Inner T → TxPc T → Inner T × TxPc T
  tx_step v true i tx_live = (i, if is_closed i.state then tx_dropped else tx_dropping)
  tx_step v false i tx_live = (write_value v i, tx_written)
  tx_step v drop i tx_written = let (old, i') = fetch_or ready_bit i in (i', tx_sent old)
  tx_step v drop i (tx_sent old) =
      if is_closed old
      then (let (back, i') = take_value i in (i', tx_failed back))
      else if has_recv old
      then (wake_recv i, tx_ok)
      else (i, tx_ok)
  tx_step v drop i tx_dropping = let (old, i') = fetch_or closed_bit i in (i', tx_closing old)
  tx_step v drop i (tx_closing old) = (if has_recv old then wake_recv i else i, tx_dropped)
  tx_step v drop i done = (i, done)

  -- What a poll returns when it has read the state `old`, and `later` where it is pending.
  abbrev pub rx_handle : ℕ → Inner T → Inner T × RxPc T → Inner T × RxPc T
  rx_handle old i later =
      if is_ready old
      then (let (got, i') = take_value i in (i', rx_received got))
      else if is_closed old
      then (i, rx_closed)
      else later

  abbrev pub rx_start : ℕ → Bool → Inner T → RxPc T → Inner T × RxPc T
  rx_start w true i pc =
      (i, if is_closed i.state || is_ready i.state then rx_dropped else rx_dropping)
  rx_start w false i pc = rx_handle i.state i (i, rx_polling w)

  -- one access of the receiver. Its owner polls it with a waker `w`, or drops it.
  unfoldable pub rx_step : ℕ → Bool → Inner T → RxPc T → Inner T × RxPc T
  rx_step w drop i rx_idle = rx_start w drop i rx_idle
  rx_step w drop i (rx_parked w') = rx_start w drop i (rx_parked w')
  rx_step w drop i (rx_polling w') = (write_recv w' i, rx_wrote w')
  rx_step w drop i (rx_wrote w') =
      let (old, i') = fetch_or recv_bit i in
      rx_handle old i' (if has_send old then wake_send i' else i', rx_parked w')
  rx_step w drop i rx_dropping =
      let (old, i') = fetch_or closed_bit i in
      (if has_send old then wake_send i' else i', rx_dropped)
  rx_step w drop i done = (i, done)

  -- A schedule: either end moves, and the owner of an idle end chooses what it does.
  pub data Step (v : T) (s : System T) : System T → Type ℓ where
    tx_moves :
        (drop : Bool)
        → Step v s (record {
          inner = (tx_step v drop s.inner s.tx).0;
          tx = (tx_step v drop s.inner s.tx).1;
          rx = s.rx;
        })
    rx_moves :
        (w : ℕ) (drop : Bool)
        → Step v s (record {
          inner = (rx_step w drop s.inner s.rx).0;
          tx = s.tx;
          rx = (rx_step w drop s.inner s.rx).1;
        })

  pub data Reach (v : T) : System T → Type ℓ where
    here : Reach v start
    later : {s t : System T} → Reach v s → Step v s t → Reach v t
