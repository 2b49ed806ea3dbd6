-- ===== src/Cache/Tests.antt =====
-- The theorem about the caches for delayed messages of the crate, on a clock of polls.
use actix_async.Prelude.{ℕ, zero, suc, ◌≡◌, Option, none, some, List, [], ◌∷◌, Poll, ready, pending}
use actix_async.Oneshot
use actix_async.Message.{
  ActorMessage, MessageContainer, new_ref, new_mut, Runtime, FutureMessage, new_future, poll_future,
}
use actix_async.Cache
use actix_async.Cache.{poll_stream, scan}
use actix_async.Cache.Scan.{Outcome, polls-Outcome}

abbrev count_down : ℕ → ℕ → Poll (Unit {0}) × ℕ
count_down w zero = (ready tt, zero)
count_down w (suc n) = (pending, n)

abbrev clock : Runtime ℕ
clock = record { sleep = λ n. n; poll_sleep = count_down }

abbrev Delayed : Type 0
Delayed = FutureMessage ℕ (MessageContainer ℕ)

abbrev poll_delayed : Delayed → Poll (Option (ActorMessage (MessageContainer ℕ))) × Delayed
poll_delayed = poll_future clock 4

abbrev delayed : List Delayed
delayed =
    new_future clock 2 Oneshot.new (new_ref 7 none)
    ∷ new_future clock 0 Oneshot.new (new_mut 8 none)
    ∷ []

polls-Outcome_example :
    ((r : Poll (ActorMessage (MessageContainer ℕ))) × (after : List Delayed) × (poll_stream
          poll_delayed delayed
        ≡ some (r, after))
      × Outcome poll_delayed r after [] delayed)
    × ((r : Poll (ActorMessage (MessageContainer ℕ))) × (after : List Delayed) × (Cache.poll_future
            poll_delayed delayed
          ≡ some (r, after))
        × Outcome poll_delayed r after [] delayed)
polls-Outcome_example = polls-Outcome poll_delayed delayed
