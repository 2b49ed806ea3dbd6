-- ===== src/Channel.antt =====
-- actix-async/src/util/async_channel/mod.rs: the actor's mailbox, a queue with a soft capacity.
-- The queue is behind the interface `QueueOps`, and the two events are those of `Listener`.
-- Each access to the channel is one step; `none` is a panic or a fault. A listener is its entry.
-- `compare_exchange_weak` fails only where the value differs.
pub mod Queue
pub mod State
pub mod Send
pub mod Room
pub mod Mailbox
pub mod Moves
pub mod Sends
pub mod Refine
pub mod Stuck
pub mod Counts
pub mod Receive
pub mod Wake
pub mod Notified
mod Tests
use actix_async.Prelude.{
  ℕ, zero, suc, ◌+◌, ◌-◌, ◌*◌, ◌/◌, ◌%◌, ◌^◌, Bool, true, false, ◌==◌, ltb, leb, if◌then◌else◌,
  Option, none, some, Poll, ready, pending, Result, ok, err, ◌>>=◌,
}
use actix_async.Error.{ActixAsyncError}
use actix_async.Listener.{Event, usize_max}
use actix_async.Listener
use Queue.{QueueOps, TryRecvError}

-- `Channel`
pub record Channel {ℓ} (Queue : Type ℓ) : Type ℓ where
  pub queue : Queue
  pub in_queue : ℕ
  pub cap : ℕ
  pub send_ops : Event
  pub stream_ops : Event
  pub sender_count : ℕ
  pub receiver_count : ℕ

-- `SendFuture`
pub record SendFuture {ℓ} (T : Type ℓ) : Type ℓ where
  pub listener : Option ℕ
  pub msg : Option T

abbrev pub usize_mod : ℕ
usize_mod = 2 ^ 64

-- `fetch_sub(1)`, which wraps
abbrev pub wrapping_dec : ℕ → ℕ
wrapping_dec n = (n + (usize_mod - 1)) % usize_mod

-- `EventListener::poll` of the listener with the entry `a`
abbrev pub poll_listener : ℕ → ℕ → Event → Option (Poll (Unit {0}) × Option ℕ × Event)
poll_listener w a ev = Listener.poll w (some a) ev

module _ {ℓ} {T : Type ℓ} (Q : QueueOps T) where
  abbrev pub Chan : Type ℓ
  Chan = Channel (Q.Queue)

  -- `channel`
  unfoldable pub channel : ℕ → Option Chan
  channel cap =
      if ltb 0 cap
      then some (record {
        queue = Q.new;
        in_queue = 0;
        cap = cap;
        send_ops = Listener.new;
        stream_ops = Listener.new;
        sender_count = 1;
        receiver_count = 1;
      })
      else none

  -- `Channel::close`, behind the close of its queue
  unfoldable pub after_close : Bool × Q.Queue → Chan → Option (Bool × Chan)
  after_close (true, q) c = do
    sends ← Listener.notify usize_max c.send_ops
    streams ← Listener.notify usize_max c.stream_ops
    some (true, record c { queue = q; send_ops = sends; stream_ops = streams })
  after_close (false, q) c = some (false, record c { queue = q })

  -- `Channel::close`
  unfoldable pub close : Chan → Option (Bool × Chan)
  unfolding after_close
  close c = after_close (Q.close c.queue) c

  -- `Channel::dequeue`
  unfoldable pub dequeue : Chan → Bool × Chan
  dequeue c = (leb c.in_queue c.cap, record c { in_queue = wrapping_dec c.in_queue })

  -- `Sender::do_send`
  unfoldable pub do_send : T → Chan → Option (Result (Unit {0}) T × Chan)
  do_send msg c = do
    (r, q) ← Q.push msg c.queue
    elim r [
      | ok _ ↦ (do
        streams ← Listener.notify usize_max c.stream_ops
        some (ok tt, record c { queue = q; stream_ops = streams }))
      | err back ↦ some (err back, record c { queue = q })
    ]

  -- `Sender::clone_sender`, which panics on a count that may overflow
  unfoldable pub clone_sender : Chan → Option Chan
  clone_sender c =
      if ltb (usize_max / 2) c.sender_count
      then none
      else some (record c { sender_count = c.sender_count + 1 })

  -- `Drop for Sender`
  unfoldable pub drop_sender : Chan → Option Chan
  drop_sender c = do
    let left = record c { sender_count = wrapping_dec c.sender_count }
    if c.sender_count == 1 then (do (_, c') ← close left; some c') else some left

  -- `WeakSender::upgrade`: `alive` says whether the reference count of the channel is above 0.
  unfoldable pub upgrade : Bool → Chan → Option Chan
  upgrade alive c =
      if alive
      then if c.sender_count == 0
        then none
        else some (record c { sender_count = c.sender_count + 1 })
      else none

  -- `Receiver::try_recv`
  unfoldable pub try_recv : Chan → Option (Result T TryRecvError × Chan)
  try_recv c = do
    (r, q) ← Q.pop c.queue
    elim r [
      | ok msg ↦ (do
        let (room, c') = dequeue (record c { queue = q })
        sends ← (if room then Listener.notify 1 c'.send_ops else some c'.send_ops)
        some (ok msg, record c' { send_ops = sends }))
      | err e ↦ some (err e, record c { queue = q })
    ]

  -- `Receiver::as_sender`: no sender for a closed channel
  unfoldable pub as_sender : Chan → Option (Option Chan)
  as_sender c = if Q.is_closed c.queue then some none else (do c' ← clone_sender c; some (some c'))

  -- `Clone for Receiver`, `Drop for Receiver`
  unfoldable pub clone_receiver : Chan → Option Chan
  clone_receiver c =
      if ltb (usize_max / 2) c.receiver_count
      then none
      else some (record c { receiver_count = c.receiver_count + 1 })

  unfoldable pub drop_receiver : Chan → Option Chan
  drop_receiver c = do
    let left = record c { receiver_count = wrapping_dec c.receiver_count }
    if c.receiver_count == 1 then (do (_, c') ← close left; some c') else some left

  -- The branch of `SendFuture::poll` that has counted its message in, when `cur` were counted.
  unfoldable pub send_counted :
      ℕ
      → Option ℕ
      → T
      → Chan
      → Option (Poll (Result (Unit {0}) ActixAsyncError) × SendFuture T × Chan)
  send_counted cur l msg c = do
    (r, c1) ← do_send msg c
    let sent : SendFuture T = record { listener = l; msg = none }
    elim r [
      | ok _ ↦ (do
        sends ← (if c.cap - cur == 1 then some c1.send_ops else Listener.notify 1 c1.send_ops)
        some (ready (ok tt), sent, record c1 { send_ops = sends }))
      | err _ ↦ some (ready (err ActixAsyncError.closed), sent, c1)
    ]

  -- The loop of `SendFuture::poll`, on fuel. `cur` is its local copy of the counter `in_queue`,
  -- which only a failed `compare_exchange` refreshes.
  unfoldable pub send_loop :
      ℕ
      → ℕ
      → ℕ
      → Option ℕ
      → T
      → Chan
      → Option (Poll (Result (Unit {0}) ActixAsyncError) × SendFuture T × Chan)
  send_loop zero w cur l msg c = none
  send_loop (suc fuel) w cur l msg c = elim (ltb cur c.cap) [
    | true ↦ elim (c.in_queue == cur) [
      | true ↦ send_counted cur l msg (record c { in_queue = cur + 1 })
      | false ↦ send_loop fuel w c.in_queue l msg c
    ]
    | false ↦ elim l [
      | none ↦ (do
        (a, sends) ← Listener.listen c.send_ops
        send_loop fuel w cur (some a) msg (record c { send_ops = sends }))
      | some a ↦ (do
        (r, l', sends) ← poll_listener w a c.send_ops
        let c' = record c { send_ops = sends }
        elim r [
          | ready _ ↦ send_loop fuel w cur none msg c'
          | pending ↦ some (pending, record { listener = some a; msg = some msg }, c')
        ])
    ]
  ]

  -- enough for every path through the loop
  abbrev pub send_rounds : ℕ
  send_rounds = 5

  -- `SendFuture::poll` for a task with the waker `w`; a resolved future has no message, and panics.
  unfoldable pub send_poll :
      ℕ
      → SendFuture T
      → Chan
      → Option (Poll (Result (Unit {0}) ActixAsyncError) × SendFuture T × Chan)
  send_poll w fut c = do msg ← fut.msg; send_loop send_rounds w c.in_queue fut.listener msg c

  -- the drop of a `SendFuture`, which drops its listener
  unfoldable pub drop_send : SendFuture T → Chan → Option Chan
  drop_send fut c = do
    sends ← Listener.drop_listener fut.listener c.send_ops
    some (record c { send_ops = sends })

  -- `self.listener = None` in a receiver
  unfoldable pub clear_listener : Option ℕ → Chan → Option Chan
  clear_listener l c = do
    streams ← Listener.drop_listener l c.stream_ops
    some (record c { stream_ops = streams })

  -- The loops of `Receiver::poll_next`, on fuel, behind the wait for the listener.
  unfoldable pub recv_loop : ℕ → ℕ → Option ℕ → Chan → Option (Poll (Option T) × Option ℕ × Chan)
  recv_loop zero w l c = none
  recv_loop (suc fuel) w l c = do
    (r, c1) ← try_recv c
    elim r [
      | ok msg ↦ (do c2 ← clear_listener l c1; some (ready (some msg), none, c2))
      | err TryRecvError.closed ↦ (do c2 ← clear_listener l c1; some (ready none, none, c2))
      | err TryRecvError.empty ↦ elim l [
        | none ↦ (do
          (a, streams) ← Listener.listen c1.stream_ops
          recv_loop fuel w (some a) (record c1 { stream_ops = streams }))
        | some a ↦ (do
          (p, l', streams) ← poll_listener w a c1.stream_ops
          let c2 = record c1 { stream_ops = streams }
          elim p [ ready _ ↦ recv_loop fuel w none c2 | pending ↦ some (pending, some a, c2) ])
      ]
    ]

  abbrev pub recv_rounds : ℕ
  recv_rounds = 4

  -- `Receiver::poll_next`: a receiver that listens first waits for its notification.
  unfoldable pub poll_next : ℕ → Option ℕ → Chan → Option (Poll (Option T) × Option ℕ × Chan)
  poll_next w none c = recv_loop recv_rounds w none c
  poll_next w (some a) c = do
    (p, l', streams) ← poll_listener w a c.stream_ops
    let c' = record c { stream_ops = streams }
    elim p [ ready _ ↦ recv_loop recv_rounds w none c' | pending ↦ some (pending, some a, c') ]
