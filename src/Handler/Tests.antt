-- ===== src/Handler/Tests.antt =====
-- The theorems about the answer of a handler, for one that is done with 7 after some polls.
use actix_async.Prelude.{
  ℕ, zero, suc, ◌≡◌, refl, true, false, none, some, [], ◌∷◌, if◌then◌else◌, Poll, ready, pending,
  ok, arith,
}
use actix_async.Oneshot
use actix_async.Oneshot.{Inner, wake}
use actix_async.Oneshot.Flags.{is_closed, is_ready, has_recv, has_send}
use actix_async.Oneshot.Calls.{IsOpen}
use actix_async.Handler.{unstarted, finished, poll_handling}
use actix_async.Handler.Answers.{drive, handled-answered, left-unanswered, closed-unhandled}

abbrev seven : ℕ → ℕ → Poll ℕ × ℕ
seven w zero = (ready 7, zero)
seven w (suc n) = (pending, n)

abbrev unasked : Inner ℕ
unasked = Oneshot.new

-- the task 9 waits for the answer
abbrev asked : Inner ℕ
asked = record { state = 2; value = none; send = none; recv = some 9; woken = [] }

asked-IsOpen : IsOpen asked
unfolding is_closed is_ready
asked-IsOpen = record { small = omega arith; not_closed = refl; not_ready = refl }

unasked-open : is_closed unasked.state ≡ false
unfolding is_closed
unasked-open = refl

handled-answered_example :
    (i : Inner ℕ) × (drive seven ((1, unasked) ∷ []) 2 asked (unstarted true 1)
      ≡ some (ready tt, finished, i))
    × (i.woken ≡ (if has_recv asked.state then wake asked.recv asked.woken else asked.woken))
    × ((Oneshot.poll 4 i).0 ≡ ready (ok (some 7)))
handled-answered_example =
    handled-answered seven ((1, unasked) ∷ []) 2 4 asked 7 1 unasked-open asked-IsOpen (refl, refl)

asked-no_send : has_send asked.state ≡ false
unfolding has_send
asked-no_send = refl

left-unanswered_example :
    (i : Inner ℕ) × (drive seven
        ((1, unasked) ∷ [])
        2
        (Oneshot.drop_rx false asked)
        (unstarted true 1)
      ≡ some (ready tt, finished, i))
    × (i.value ≡ none)
    × (i.woken ≡ asked.woken)
left-unanswered_example =
    left-unanswered seven ((1, unasked) ∷ []) 2 asked 7 1 unasked-open asked-IsOpen asked-no_send
      (refl, refl)

abbrev left : Inner ℕ
left = record { state = 8; value = none; send = none; recv = none; woken = [] }

left-closed : is_closed left.state ≡ true
unfolding is_closed
left-closed = refl

closed-unhandled_example :
    poll_handling seven 1 (unstarted true 1) left ≡ some (ready tt, finished, left)
closed-unhandled_example = closed-unhandled seven 1 left 1 left-closed
