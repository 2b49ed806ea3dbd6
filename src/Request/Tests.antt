-- ===== src/Request/Tests.antt =====
-- A request at a future that sends after some polls, and a clock of polls.
use actix_async.Prelude.{
  ℕ, zero, suc, ◌≡◌, refl, Option, none, some, Poll, ready, pending, Result, ok, err, arith,
}
use actix_async.Error.{ActixAsyncError}
use actix_async.Oneshot
use actix_async.Oneshot.{Inner}
use actix_async.Message.{Runtime}
use actix_async.Request.{MessageRequest, request, response, poll}
use actix_async.Oneshot.Calls.{IsOpen}
use actix_async.Oneshot.Flags.{is_ready, is_closed}
use actix_async.Request.Outcome.{sent-answered}

abbrev count_down : ℕ → ℕ → Poll (Unit {0}) × ℕ
count_down w zero = (ready tt, zero)
count_down w (suc n) = (pending, n)

abbrev clock : Runtime ℕ
clock = record { sleep = λ n. n; poll_sleep = count_down }

abbrev sending : ℕ → ℕ → Option (Poll (Result (Unit {0}) ActixAsyncError) × ℕ)
sending w zero = some (ready (ok tt), zero)
sending w (suc n) = some (pending, n)

abbrev answer : Inner ℕ
answer = Oneshot.new

-- The request runs out of time while its future is pending.
abbrev late : MessageRequest ℕ ℕ ℕ
late = request 3 answer (some 0) none

late-runs_out :
    poll clock sending some 4 late
    ≡ some (ready (err ActixAsyncError.send_timeout), request 2 answer (some 0) none, none)
unfolding poll
late-runs_out = refl

answer-IsOpen : IsOpen answer
unfolding is_closed is_ready
answer-IsOpen = record { small = omega arith; not_closed = refl; not_ready = refl }

-- The timer of the answer runs out at the poll that sends, and the answer comes behind it.
sent-answered_example :
    (r : Poll (Result (Option ℕ) ActixAsyncError)) × (rx : Inner ℕ) × (t : ℕ) × (poll clock sending
        some 4
        (request 0 answer none (some 0))
      ≡ some (r, response rx (some t), some 0))
    × (rx.recv ≡ some 4)
    × (t ≡ 0)
    × (m : MessageRequest ℕ ℕ ℕ) × (poll clock sending some 6
          (response (Oneshot.send 9 rx).1 (some t))
        ≡ some (ready (ok (some 9)), m, none))
sent-answered_example =
    sent-answered clock sending some 4 6 0 9 0 0 0 answer none refl refl answer-IsOpen
