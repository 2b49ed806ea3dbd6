-- ===== src/Message/Tests.antt =====
-- The theorems about messages at a runtime whose timers count polls.
use actix_async.Prelude.{
  ℕ, zero, suc, ◌≡◌, refl, Option, none, some, [], ◌∷◌, Poll, ready, pending, arith,
}
use actix_async.Oneshot
use actix_async.Oneshot.Flags.{is_closed, is_ready}
use actix_async.Oneshot.Calls.{IsOpen}
use actix_async.Message.{
  ActorMessage, MessageContainer, new_mut, clone_mut, clone, Handle, cancel, Runtime, FutureMessage,
  IntervalMessage, StreamContainer, new_future, new_interval, poll_future, poll_interval,
  poll_container,
}
use actix_async.Message.Handles.{cancel_ends}
use actix_async.Message.Timers.{
  drive_future, drive_interval, drive_future-FiresAfter, drive_interval-FiresAfter,
}

-- A timer is the number of polls before it fires.
abbrev count_down : ℕ → ℕ → Poll (Unit {0}) × ℕ
count_down w zero = (ready tt, zero)
count_down w (suc n) = (pending, n)

abbrev clock : Runtime ℕ
clock = record { sleep = λ n. n; poll_sleep = count_down }

abbrev fresh : Handle
fresh = Oneshot.new

fresh-IsOpen : IsOpen fresh
unfolding is_closed is_ready
fresh-IsOpen = record { small = omega arith; not_closed = refl; not_ready = refl }

abbrev later : FutureMessage ℕ (MessageContainer ℕ)
later = new_future clock 1 fresh (new_mut 7 none)

abbrev ticking : IntervalMessage ℕ ℕ
ticking = new_interval clock 1 fresh (clone_mut 7)

drive_future-FiresAfter_example :
    (f : FutureMessage ℕ (MessageContainer ℕ)) × (drive_future clock (4 ∷ []) 5 later
      ≡ some (ready later.msg, f))
    × (f.msg ≡ none)
drive_future-FiresAfter_example =
    drive_future-FiresAfter clock (4 ∷ []) 5 fresh later fresh-IsOpen refl (refl, refl)

drive_interval-FiresAfter_example :
    (i : Handle) × (drive_interval clock (4 ∷ []) 5 ticking
      ≡ some
          (ready (some (clone ticking.msg)), record ticking { delay = 1; handle = some i }, 5 ∷ []))
    × IsOpen i
drive_interval-FiresAfter_example =
    drive_interval-FiresAfter clock (4 ∷ []) 5 fresh ticking fresh-IsOpen refl (refl, refl)

cancel_ends_example :
    ((f : FutureMessage ℕ (MessageContainer ℕ))
      → (poll_future clock 4 (record f { handle = some (cancel fresh) })).0 ≡ ready none)
    × ((f : IntervalMessage ℕ ℕ)
        → (poll_interval clock 4 (record f { handle = some (cancel fresh) })).0 ≡ ready none)
    × ((poll_stream : ℕ → ℕ → Poll (Option ℕ) × ℕ) (to_msg : ℕ → ActorMessage (MessageContainer ℕ))
          (c : StreamContainer ℕ)
        → (poll_container poll_stream to_msg 4 (record c { handle = some (cancel fresh) })).0
          ≡ ready none)
cancel_ends_example = cancel_ends clock 4 fresh fresh-IsOpen
