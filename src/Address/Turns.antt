-- ===== src/Address/Turns.antt =====
-- actix-async/src/address.rs and actix-async/src/handler.rs: a single turn of the requester or of the
-- handler, where the requester waits on the cell that they share.
use actix_async.Prelude.{
  ℕ, ◌≡◌, refl, Bool, true, false, Option, none, some, Poll, ready, pending, ok, ◌>>=◌, arith,
}
use actix_async.Oneshot
use actix_async.Oneshot.{Inner, drop_tx}
use actix_async.Oneshot.Flags.{is_closed, is_ready, has_recv}
use actix_async.Oneshot.Calls.{IsOpen, poll-IsOpen}
use actix_async.Channel.Queue.{QueueOps}
use actix_async.Message.{
  Runtime, ActorMessage, MessageContainer, by_ref, by_mut, set_state, new_ref, new_mut, take,
}
use actix_async.Handler.{Handling, unstarted, waiting, finished, answer, await_fut, poll_handling}
use actix_async.Request
use actix_async.Request.{MessageRequest, response}
use actix_async.Address.Shared.{Cells, put_cell, start_handling, poll_request, poll_handler}

pub new-IsOpen {μ} : {R : Type μ} → IsOpen (Oneshot.new {T = R})
unfolding is_closed is_ready
new-IsOpen = record { small = omega arith; not_closed = refl; not_ready = refl }

pub put_cell-same {ν} :
    {R : Type ν} (tx : ℕ) (i : Inner R) (cells : Cells R) → put_cell tx i cells tx ≡ i
put_cell-same tx i cells = ground arith

-- The requester waits on the cell with the waker `w`.
pub record Waits {μ} {R : Type μ} (w : ℕ) (i : Inner R) : Type μ where
  pub opened : IsOpen i
  pub waker : i.recv ≡ some w
  pub flag : has_recv i.state ≡ true

pub polled-Waits {μ} : {R : Type μ} (w : ℕ) (i : Inner R) → IsOpen i → Waits w (Oneshot.poll w i).1
polled-Waits w i o = let p = poll-IsOpen w i o in record { opened = p.3; waker = p.1; flag = p.2 }

-- the message of `Addr::wait` or of `Addr::send`, and the container that a message carries
abbrev pub message {ℓ} : {M : Type ℓ} → Bool → M → ℕ → ActorMessage (MessageContainer M)
message true msg tx = new_mut msg (some tx)
message false msg tx = new_ref msg (some tx)

abbrev pub container {ℓ} : {H : Type ℓ} → ActorMessage H → Option H
container (by_ref h) = some h
container (by_mut h) = some h
container (set_state s tx) = none

pub starts {ℓ ν} :
    {M : Type ℓ} {Fut : Type ν} (handle : M → Fut) (exclusive : Bool) (msg : M) (tx : ℕ)
    → (container (message exclusive msg tx) >>= λ h. start_handling handle h)
      ≡ some (unstarted true (handle msg), some tx)
unfolding start_handling take
starts handle true msg tx = refl
starts handle false msg tx = refl

module _ {ℓ κ μ ν} {M : Type ℓ} {Sleep : Type κ} {R : Type μ} {Fut : Type ν}
    (Q : QueueOps (ActorMessage (MessageContainer M))) (T : Runtime Sleep)
    (poll_fut : ℕ → Fut → Poll R × Fut) where
  -- a handler that is to poll `fut` next
  pub data IsAt : Handling Fut → Fut → Type ν where
    fresh : (fut : Fut) → IsAt (unstarted true fut) fut
    going : (fut : Fut) → IsAt (waiting true fut) fut

  handling-pends :
      (u : ℕ) (h : Handling Fut) (fut : Fut) (i : Inner R)
      → IsAt h fut
      → is_closed i.state ≡ false
      → (poll_fut u fut).0 ≡ pending
      → poll_handling poll_fut u h i ≡ some (pending, waiting true (poll_fut u fut).1, i)
  unfolding poll_handling await_fut
  handling-pends u _ _ i (fresh fut) o e = rw (o, e, poll_handling, await_fut) refl
  handling-pends u _ _ i (going fut) o e = rw (e, poll_handling, await_fut) refl

  handling-ends :
      (u : ℕ) (h : Handling Fut) (fut : Fut) (i : Inner R) (res : R)
      → IsAt h fut
      → is_closed i.state ≡ false
      → (poll_fut u fut).0 ≡ ready res
      → poll_handling poll_fut u h i ≡ some (ready tt, finished, answer poll_fut true res i)
  unfolding poll_handling await_fut
  handling-ends u _ _ i res (fresh fut) o e = rw (o, e, poll_handling, await_fut) refl
  handling-ends u _ _ i res (going fut) o e = rw (e, poll_handling, await_fut) refl

  module _ (tx : ℕ) (k : Cells R) where
    pub handler-pends :
        (u : ℕ) (h : Handling Fut) (fut : Fut)
        → IsAt h fut
        → is_closed (k tx).state ≡ false
        → (poll_fut u fut).0 ≡ pending
        → poll_handler Q T poll_fut u (some tx) h k
          ≡ some (pending, waiting true (poll_fut u fut).1, put_cell tx (k tx) k)
    unfolding poll_handler
    handler-pends u h fut at o e =
        rw (handling-pends u h fut (k tx) at o e, poll_handler, ◌>>=◌) refl

    pub handler-ends :
        (u : ℕ) (h : Handling Fut) (fut : Fut) (res : R)
        → IsAt h fut
        → is_closed (k tx).state ≡ false
        → (poll_fut u fut).0 ≡ ready res
        → poll_handler Q T poll_fut u (some tx) h k
          ≡ some (ready tt, finished, put_cell tx (answer poll_fut true res (k tx)) k)
    unfolding poll_handler
    handler-ends u h fut res at o e =
        rw (handling-ends u h fut (k tx) res at o e, poll_handler, ◌>>=◌) refl

    pub request-pends :
        (w : ℕ) (rx : Inner R)
        → IsOpen (k tx)
        → poll_request Q T poll_fut w tx (response rx none) k
          ≡ some (
            pending,
            response (Oneshot.poll w (k tx)).1 none,
            put_cell tx (Oneshot.poll w (k tx)).1 k,
            none,
          )
    unfolding poll_request Request.poll Request.poll_response
    request-pends w rx o =
        rw ((poll-IsOpen w (k tx) o).0, poll_request, Request.poll, Request.poll_response) refl

    pub request-ends :
        (w : ℕ) (rx : Inner R) (res : R)
        → (Oneshot.poll w (k tx)).0 ≡ ready (ok (some res))
        → poll_request Q T poll_fut w tx (response rx none) k
          ≡ some (
            ready (ok (some res)),
            response (Oneshot.poll w (k tx)).1 none,
            put_cell tx (Oneshot.poll w (k tx)).1 k,
            none,
          )
    unfolding poll_request Request.poll Request.poll_response
    request-ends w rx res e = rw (e, poll_request, Request.poll, Request.poll_response) refl
