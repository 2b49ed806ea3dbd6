-- ===== src/Handler.antt =====
-- actix-async/src/handler.rs: the future that handles a message and sends the answer back. The
-- handler is the user's: its future is a parameter. The cell of the answer is shared with the
-- requester and handed in at every poll. `none` is a poll after the end, which panics.
pub mod Answers
mod Tests
use actix_async.Prelude.{
  ℕ, Bool, true, false, if◌then◌else◌, Option, none, some, Poll, ready, pending,
}
use actix_async.Oneshot
use actix_async.Oneshot.{Inner}
use actix_async.Oneshot.Flags.{is_closed}

-- The async block of `handle`, where it stands; `wants` says whether there is a sender `tx`.
pub data Handling {ℓ} (Fut : Type ℓ) : Type ℓ where
  unstarted : (wants : Bool) (fut : Fut) → Handling Fut
  waiting : (wants : Bool) (fut : Fut) → Handling Fut
  finished : Handling Fut

module _ {ℓ κ} {Fut : Type ℓ} {R : Type κ} (poll_fut : ℕ → Fut → Poll R × Fut) where
  -- `let _ = tx.send(res)`, and the drop of a sender that has sent
  abbrev pub answer : Bool → R → Inner R → Inner R
  answer true res i = Oneshot.drop_tx true (Oneshot.send res i).1
  answer false res i = i

  -- `fut.await`, and what follows it
  unfoldable pub await_fut :
      ℕ → Bool → Fut → Inner R → Option (Poll (Unit {0}) × Handling Fut × Inner R)
  await_fut w wants fut i =
      let (r, fut') = poll_fut w fut in
      elim r [
        | ready res ↦ some (ready tt, finished, answer wants res i)
        | pending ↦ some (pending, waiting wants fut', i)
      ]

  -- `handle`: a message whose answer nobody waits for is not handled at all.
  unfoldable pub poll_handling :
      ℕ → Handling Fut → Inner R → Option (Poll (Unit {0}) × Handling Fut × Inner R)
  poll_handling w (unstarted true fut) i =
      if is_closed i.state
      then some (ready tt, finished, Oneshot.drop_tx false i)
      else await_fut w true fut i
  poll_handling w (unstarted false fut) i = await_fut w false fut i
  poll_handling w (waiting wants fut) i = await_fut w wants fut i
  poll_handling w finished i = none
