-- ===== src/Oneshot.antt =====
-- actix-async/src/util/async_oneshot.rs: the oneshot channel. `Inner` is the shared cell; the
-- operations below run without interference, and child modules interleave their atomic accesses.
-- A waker is a number. `woken` logs the calls of `wake_by_ref`, newest first.
-- `MaybeUninit` slots are options, and `none` is an uninitialised or moved-out slot.
pub mod Flags
pub mod Steps
pub mod Invariant
pub mod Safety
pub mod Calls
mod Tests
use actix_async.Prelude.{
  ℕ, bit_or, ◌≡◌, refl, Bool, true, false, ◌||◌, Option, none, some, List, [], ◌∷◌, if◌then◌else◌,
  Poll, ready, pending, Result, ok, err, map_poll,
}
use actix_async.Error.{ActixAsyncError}
use Flags.{closed_bit, recv_bit, ready_bit, is_closed, is_ready, has_send, has_recv}

pub record Inner {ℓ} (T : Type ℓ) : Type ℓ where
  pub state : ℕ
  pub value : Option T
  pub send : Option ℕ
  pub recv : Option ℕ
  pub woken : List ℕ

-- `wake_by_ref` on the waker in a slot
abbrev pub wake : Option ℕ → List ℕ → List ℕ
wake none log = log
wake (some w) log = w ∷ log

module _ {ℓ} {T : Type ℓ} where
  -- `Inner::new`
  abbrev pub new : Inner T
  new = record { state = 0; value = none; send = none; recv = none; woken = [] }

  -- `Inner::set_recv` is a write of the slot, then a `fetch_or` that returns the old state.
  abbrev pub write_recv : ℕ → Inner T → Inner T
  write_recv w i = record i { recv = some w }

  abbrev pub fetch_or : ℕ → Inner T → ℕ × Inner T
  fetch_or bit i = (i.state, record i { state = bit_or i.state bit })

  abbrev pub set_recv : ℕ → Inner T → ℕ × Inner T
  set_recv w i = fetch_or recv_bit (write_recv w i)

  -- `Inner::set_value`, likewise
  abbrev pub write_value : T → Inner T → Inner T
  write_value v i = record i { value = some v }

  abbrev pub set_value : T → Inner T → ℕ × Inner T
  set_value v i = fetch_or ready_bit (write_value v i)

  -- `Inner::take_value` moves the value out: a second read finds nothing.
  abbrev pub take_value : Inner T → Option T × Inner T
  take_value i = (i.value, record i { value = none })

  -- `Inner::close`
  abbrev pub close : Inner T → ℕ × Inner T
  close i = fetch_or closed_bit i

  abbrev pub wake_recv : Inner T → Inner T
  wake_recv i = record i { woken = wake i.recv i.woken }

  abbrev pub wake_send : Inner T → Inner T
  wake_send i = record i { woken = wake i.send i.woken }

  -- What `OneshotSender::send` does with the state that `set_value` returned.
  unfoldable pub after_set : ℕ → Inner T → Result (Unit {0}) ActixAsyncError × Inner T
  after_set old i =
      if is_closed old
      then (err ActixAsyncError.closed, (take_value i).1)
      else if has_recv old
      then (ok tt, wake_recv i)
      else (ok tt, i)

  -- `OneshotSender::send`
  unfoldable pub send : T → Inner T → Result (Unit {0}) ActixAsyncError × Inner T
  send v i = let (old, i') = set_value v i in after_set old i'

  -- the end of `OneshotSender::drop`, with the state that `close` returned
  unfoldable pub after_close_tx : ℕ → Inner T → Inner T
  after_close_tx old i = if has_recv old then wake_recv i else i

  -- `OneshotSender::drop`, which does nothing once `send` has set `done`
  unfoldable pub drop_tx : Bool → Inner T → Inner T
  drop_tx done i =
      if done
      then i
      else if is_closed i.state
      then i
      else let (old, i') = close i in after_close_tx old i'

  -- `OneshotReceiver::handle_state`. A value that is read is `some` iff the slot was initialised.
  unfoldable pub handle_state : ℕ → Inner T → Poll (Result (Option T) ActixAsyncError) × Inner T
  handle_state s i =
      if is_ready s
      then (ready (ok (take_value i).0), (take_value i).1)
      else if is_closed s
      then (ready (err ActixAsyncError.closed), i)
      else (pending, i)

  abbrev pub is_pending : Poll (Result (Option T) ActixAsyncError) → Bool
  is_pending pending = true
  is_pending (ready r) = false

  -- the part of `OneshotReceiver::poll` behind `set_recv`
  unfoldable pub after_register : ℕ → Inner T → Poll (Result (Option T) ActixAsyncError) × Inner T
  after_register old i =
      let (r, i') = handle_state old i in
      if is_pending r then (pending, if has_send old then wake_send i' else i') else (r, i')

  -- `OneshotReceiver::poll` with the waker `w` of the task
  unfoldable pub poll : ℕ → Inner T → Poll (Result (Option T) ActixAsyncError) × Inner T
  poll w i =
      let (r, i') = handle_state i.state i in
      if is_pending r then (let (old, i'') = set_recv w i' in after_register old i'') else (r, i')

  -- the end of `OneshotReceiver::drop`
  unfoldable pub after_close_rx : ℕ → Inner T → Inner T
  after_close_rx old i = if has_send old then wake_send i else i

  -- `OneshotReceiver::drop`; `done` is set once a poll was ready.
  unfoldable pub drop_rx : Bool → Inner T → Inner T
  drop_rx done i =
      if done
      then i
      else if is_closed i.state || is_ready i.state
      then i
      else let (old, i') = close i in after_close_rx old i'

  -- `Drop for Inner` drops the wakers that the state says are there, and nothing else.
  unfoldable pub drop_inner : Inner T → Inner T
  drop_inner i = record i {
    recv = if has_recv i.state then none else i.recv;
    send = if has_send i.state then none else i.send;
  }
