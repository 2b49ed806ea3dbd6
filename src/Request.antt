-- ===== src/Request.antt =====
-- actix-async/src/request.rs: the future of a request, which sends a message and waits for its
-- answer, each with a timeout of its own. The future that sends the message is a parameter, and the
-- timers are the runtime's. `none` is a panic.
pub mod Outcome
mod Tests
use actix_async.Prelude.{ℕ, Option, none, some, Poll, ready, pending, Result, ok, err, ◌>>=◌}
use actix_async.Error.{ActixAsyncError}
use actix_async.Oneshot
use actix_async.Oneshot.{Inner}
use actix_async.Message.{Runtime}

-- `_MessageRequest`
pub data MessageRequest {ℓ κ μ} (Sleep : Type ℓ) (Fut : Type κ) (R : Type μ)
    : Type (ℓ ⊔ κ ⊔ μ) where
  request :
      (fut : Fut) (rx : Inner R) (timeout : Option Sleep) (timeout_response : Option ℕ)
      → MessageRequest Sleep Fut R
  response : (rx : Inner R) (timeout_response : Option Sleep) → MessageRequest Sleep Fut R
  place_holder : MessageRequest Sleep Fut R

-- `_MessageRequest::new`
abbrev pub new {ℓ κ μ} :
    {Sleep : Type ℓ} {Fut : Type κ} {R : Type μ} → Fut → Inner R → MessageRequest Sleep Fut R
new fut rx = request fut rx none none

abbrev pub start_timer {ℓ} : {Sleep : Type ℓ} → Runtime Sleep → Option ℕ → Option Sleep
start_timer T none = none
start_timer T (some dur) = some (T.sleep dur)

module _ {ℓ κ μ} {Sleep : Type ℓ} {Fut : Type κ} {R : Type μ} (T : Runtime Sleep)
    (poll_fut : ℕ → Fut → Option (Poll (Result (Unit {0}) ActixAsyncError) × Fut)) where
  -- `_MessageRequest::timeout` and `_MessageRequest::timeout_response`, which panic once it is sent
  unfoldable pub timeout : ℕ → MessageRequest Sleep Fut R → Option (MessageRequest Sleep Fut R)
  timeout dur (request fut rx t d) = some (request fut rx (some (T.sleep dur)) d)
  timeout dur m = none

  unfoldable pub timeout_response :
      ℕ → MessageRequest Sleep Fut R → Option (MessageRequest Sleep Fut R)
  timeout_response dur (request fut rx t d) = some (request fut rx t (some dur))
  timeout_response dur m = none

  -- the poll of an optional timer, whose end is the error `e`
  abbrev pub poll_timer :
      ActixAsyncError → ℕ → Option Sleep → Poll (Result (Option R) ActixAsyncError) × Option Sleep
  poll_timer e w none = (pending, none)
  poll_timer e w (some d) =
      let (r, d') = T.poll_sleep w d in
      (elim r [ ready _ ↦ ready (err e) | pending ↦ pending ], some d')

  -- the arm of `poll` for a request that was sent
  unfoldable pub poll_response :
      ℕ
      → Inner R
      → Option Sleep
      → Poll (Result (Option R) ActixAsyncError) × MessageRequest Sleep Fut R
  poll_response w rx t =
      let (r, rx') = Oneshot.poll w rx in
      elim r [
        | ready res ↦ (ready res, response rx' t)
        | pending ↦
            let (late, t') = poll_timer ActixAsyncError.receive_timeout w t in
            (late, response rx' t')
      ]

module _ {ℓ κ μ} {Sleep : Type ℓ} {Fut : Type κ} {R : Type μ} (T : Runtime Sleep)
    (poll_fut : ℕ → Fut → Option (Poll (Result (Unit {0}) ActixAsyncError) × Fut))
    (drop_fut : Fut → Option Fut) where
  -- `_MessageRequest::poll`. Its loop goes round once, when the message is sent: `project_replace`
  -- then drops the future that sent it, and what that drop leaves behind is handed out.
  unfoldable pub poll :
      ℕ
      → MessageRequest Sleep Fut R
      → Option (Poll (Result (Option R) ActixAsyncError) × MessageRequest Sleep Fut R × Option Fut)
  poll w (request fut rx t d) = do
    (r, fut') ← poll_fut w fut
    elim r [
      | ready (err e) ↦ some (ready (err e), request fut' rx t d, none)
      | ready (ok _) ↦ (do
        left ← drop_fut fut'
        let (p, m) = poll_response T poll_fut w rx (start_timer T d)
        some (p, m, some left))
      | pending ↦
          let (late, t') = poll_timer T poll_fut ActixAsyncError.send_timeout w t in
          some (late, request fut' rx t' d, none)
    ]
  poll w (response rx t) = let (p, m) = poll_response T poll_fut w rx t in some (p, m, none)
  poll w place_holder = none
