-- ===== src/Request/Outcome.antt =====
-- actix-async/src/request.rs: what a request is answered with, and what an error says of its message.
use actix_async.Prelude.{
  ℕ, ◌≡◌, refl, ◌>>=◌, Bool, true, false, ◌||◌, Option, none, some, Poll, ready, Result, ok, err,
  arith,
}
use actix_async.Error.{ActixAsyncError}
use actix_async.Oneshot
use actix_async.Oneshot.{Inner}
use actix_async.Oneshot.Calls.{IsOpen, poll-IsOpen, poll-send}
use actix_async.Message.{Runtime}
use actix_async.Request.{MessageRequest, request, response, poll, poll_response, poll_timer}

-- the timeout of the answer, or of the sending
abbrev pub is_timeout_of : Bool → ActixAsyncError → Bool
is_timeout_of true ActixAsyncError.receive_timeout = true
is_timeout_of false ActixAsyncError.send_timeout = true
is_timeout_of _ _ = false

abbrev pub is_timeout : ActixAsyncError → Bool
is_timeout e = is_timeout_of true e || is_timeout_of false e

-- The answer's channel fails with `Closed` only.
poll-error {μ} :
    {R : Type μ} (w : ℕ) (rx : Inner R) (e : ActixAsyncError)
    → (Oneshot.poll w rx).0 ≡ ready (err e)
    → e ≡ ActixAsyncError.closed
unfolding Oneshot.poll Oneshot.handle_state Oneshot.after_register
poll-error w rx e h = ground arith

module _ {ℓ κ μ} {Sleep : Type ℓ} {Fut : Type κ} {R : Type μ} (T : Runtime Sleep)
    (poll_fut : ℕ → Fut → Option (Poll (Result (Unit {0}) ActixAsyncError) × Fut))
    (drop_fut : Fut → Option Fut) where
  -- The poll of a request with a timeout for its answer at which its message is sent, where the drop
  -- of the future that sent it does not fault, drops that future, registers its waker for the answer,
  -- if the answer's channel is open, and starts the timer of the answer, which it polls once. When the
  -- actor answers after that, the next poll is ready with the answer, even if that timer has run out.
  pub sent-answered :
      (w w' d : ℕ) (v : R) (fut fut' left : Fut) (rx : Inner R) (t : Option Sleep)
      → poll_fut w fut ≡ some (ready (ok tt), fut')
      → drop_fut fut' ≡ some left
      → IsOpen rx
      → (r : Poll (Result (Option R) ActixAsyncError)) × (rx' : Inner R) × (t' : Sleep) × (poll T
            poll_fut drop_fut w
            (request fut rx t (some d))
          ≡ some (r, response rx' (some t'), some left))
        × (rx'.recv ≡ some w)
        × (t' ≡ (T.poll_sleep w (T.sleep d)).1)
        × (m : MessageRequest Sleep Fut R) × (poll T poll_fut drop_fut w'
              (response (Oneshot.send v rx').1 (some t'))
            ≡ some (ready (ok (some v)), m, none))
  unfolding poll poll_response
  sent-answered w w' d v fut fut' left rx t sent dropped o =
      let opened = poll-IsOpen w rx o in
      let rx' = (Oneshot.poll w rx).1 in
      let answered = (poll-send v w' rx' opened.3).2 in
      (
        (poll_timer {R = R} T poll_fut ActixAsyncError.receive_timeout w (some (T.sleep d))).0,
        rx',
        (T.poll_sleep w (T.sleep d)).1,
        rw (sent, dropped, ◌>>=◌, opened.0, poll, poll_response) refl,
        opened.1,
        refl,
        response (Oneshot.poll w' (Oneshot.send v rx').1).1 (some (T.poll_sleep w (T.sleep d)).1),
        rw (answered, poll, poll_response) refl,
      )

  -- Once the message is sent, a poll does not answer with the timeout of the sending.
  pub poll_response-tells :
      (w : ℕ) (rx : Inner R) (t : Option Sleep) (e : ActixAsyncError)
      → (poll_response T poll_fut w rx t).0 ≡ ready (err e)
      → is_timeout e ≡ true
      → e ≡ ActixAsyncError.receive_timeout
  unfolding poll_response
  poll_response-tells w rx t e run late = ground (arith, poll-error w rx e)
