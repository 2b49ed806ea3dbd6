-- ===== src/Address.antt =====
-- actix-async/src/address.rs: the addresses of an actor, over its channel, the oneshot channel of an
-- answer, and a request. A `Recipient` is one of these behind a trait object. A sender of an answer
-- is a number; `none` is a panic or a fault.
pub mod Replies
pub mod Shared
pub mod Turns
pub mod Timeouts
pub mod Weak
mod Tests
use actix_async.Prelude.{
  ℕ, Bool, true, false, if◌then◌else◌, Option, none, some, Poll, ready, pending, Result, ok, err,
  ◌>>=◌,
}
use actix_async.Error.{ActixAsyncError}
use actix_async.Oneshot
use actix_async.Channel
use actix_async.Channel.{Chan, SendFuture, send_poll, drop_send, drop_sender, as_sender}
use actix_async.Channel.Queue.{QueueOps}
use actix_async.Message.{
  ActorState, stop_graceful, ActorMessage, MessageContainer, set_state, new_ref, new_mut,
}
use actix_async.Request
use actix_async.Request.{MessageRequest}

-- `_send_weak`, where it stands: before its upgrade, or with the sender that it holds until the
-- message is sent.
pub data WeakSending {ℓ} (T : Type ℓ) : Type ℓ where
  unsent : (msg : T) → WeakSending T
  in_flight : (fut : SendFuture T) → WeakSending T
  finished : WeakSending T

module _ {ℓ} {M : Type ℓ} (Q : QueueOps (ActorMessage (MessageContainer M))) where
  abbrev pub Message : Type ℓ
  Message = ActorMessage (MessageContainer M)

  -- A future that sends, with the channel as it finds it
  abbrev pub Sending : Type ℓ
  Sending = SendFuture Message × Chan Q

  abbrev pub Answer : Type ℓ → Type ℓ
  Answer Fut = Option (Poll (Result (Unit {0}) ActixAsyncError) × Fut)

  -- the poll of `Sender::send`
  unfoldable pub poll_sending : ℕ → Sending → Answer Sending
  poll_sending w s = do (r, fut, c) ← send_poll Q w s.0 s.1; some (r, (fut, c))

  -- its drop, as that of the `SendFuture`
  unfoldable pub drop_sending : Sending → Option Sending
  drop_sending s = do c ← drop_send Q s.0 s.1; some (record { listener = none; msg = none }, c)

  -- `Sender::send`
  abbrev pub sending : Chan Q → Message → Sending
  sending c msg = (record { listener = none; msg = some msg }, c)

  -- the function `send`: the message carries the sender `tx` of the answer
  abbrev pub send_by {κ μ ν} :
      {Sleep : Type κ} {Fut : Type μ} {R : Type ν}
      → (ℕ → Message)
      → (Message → Fut)
      → ℕ
      → MessageRequest Sleep Fut R
  send_by f fs tx = Request.new (fs (f tx)) Oneshot.new

  module _ {κ ν} {Sleep : Type κ} {R : Type ν} where
    -- `Addr::_send`, of which `run` and `run_wait` are `send` and `wait` of a closure
    abbrev pub send_request : (ℕ → Message) → ℕ → Chan Q → MessageRequest Sleep Sending R
    send_request f tx c = send_by f (sending c) tx

    -- `Addr::send` and `Addr::wait`
    abbrev pub send : M → ℕ → Chan Q → MessageRequest Sleep Sending R
    send msg tx c = send_request (λ t. new_ref msg (some t)) tx c

    abbrev pub wait : M → ℕ → Chan Q → MessageRequest Sleep Sending R
    wait msg tx c = send_request (λ t. new_mut msg (some t)) tx c

  -- `Addr::stop`
  abbrev pub stop {κ} :
      {Sleep : Type κ} → Bool → ℕ → Chan Q → MessageRequest Sleep Sending (Unit {0})
  stop graceful tx c =
      Request.new
        (sending c (set_state (if graceful then ActorState.stop_graceful else ActorState.stop) tx))
        Oneshot.new

  -- `Addr::_do_send`
  unfoldable pub do_send_by : Message → Chan Q → Option (Chan Q)
  do_send_by msg c = do (r, c') ← Channel.do_send Q msg c; some c'

  -- `Addr::do_send` and `Addr::do_wait`
  abbrev pub do_send : M → Chan Q → Option (Chan Q)
  do_send msg c = do_send_by (new_ref msg none) c

  abbrev pub do_wait : M → Chan Q → Option (Chan Q)
  do_wait msg c = do_send_by (new_mut msg none) c

  -- `Addr::from_recv`, and `Context::address`
  unfoldable pub from_recv : Chan Q → Option (Result (Chan Q) ActixAsyncError)
  from_recv c = do
    o ← as_sender Q c
    elim o [ none ↦ some (err ActixAsyncError.closed) | some c' ↦ some (ok c') ]

  -- `WeakAddr::upgrade`; `alive` says whether the reference count of the channel is above 0
  abbrev pub upgrade : Bool → Chan Q → Option (Chan Q)
  upgrade alive c = Channel.upgrade Q alive c

  -- what follows the poll of the `SendFuture` in `_send_weak`: once it is ready, it is dropped, and the
  -- upgraded address after it
  unfoldable pub after_send :
      Poll (Result (Unit {0}) ActixAsyncError)
      → SendFuture Message
      → Chan Q
      → Answer (WeakSending Message × Chan Q)
  after_send pending fut c = some (pending, (in_flight fut, c))
  after_send (ready r) fut c = do
    c1 ← drop_send Q fut c
    c2 ← drop_sender Q c1
    some (ready r, (finished, c2))

  unfoldable pub poll_flight :
      ℕ → SendFuture Message → Chan Q → Answer (WeakSending Message × Chan Q)
  poll_flight w fut c = do (r, fut', c') ← send_poll Q w fut c; after_send r fut' c'

  -- `WeakAddr::_send_weak`
  unfoldable pub poll_weak :
      Bool → ℕ → WeakSending Message × Chan Q → Answer (WeakSending Message × Chan Q)
  poll_weak alive w (unsent msg, c) = elim (upgrade alive c) [
    | none ↦ some (ready (err ActixAsyncError.closed), (finished, c))
    | some c' ↦ poll_flight w (record { listener = none; msg = some msg }) c'
  ]
  poll_weak alive w (in_flight fut, c) = poll_flight w fut c
  poll_weak alive w (finished, c) = none

  -- `WeakAddr::send_weak`, of `AddrHandler::send` and `AddrHandler::wait` of a weak address
  abbrev pub send_weak {κ ν} :
      {Sleep : Type κ} {R : Type ν}
      → (ℕ → Message)
      → ℕ
      → Chan Q
      → MessageRequest Sleep (WeakSending Message × Chan Q) R
  send_weak f tx c = send_by f (λ msg. (unsent msg, c)) tx

  -- `AddrHandler::do_send` and `AddrHandler::do_wait` of a weak address, which panic if it is dead,
  -- and drop the upgraded address
  unfoldable pub do_weak_by : Message → Bool → Chan Q → Option (Chan Q)
  do_weak_by msg alive c = do c1 ← upgrade alive c; c2 ← do_send_by msg c1; drop_sender Q c2
