-- ===== src/Handler/Answers.antt =====
-- actix-async/src/handler.rs: the answer of a handler, run to its end.
use actix_async.Prelude.{
  ℕ, ◌≡◌, refl, Bool, true, false, if◌then◌else◌, Option, none, some, List, [], ◌∷◌, ◌>>=◌, Poll,
  ready, pending, ok,
}
use actix_async.Oneshot
use actix_async.Oneshot.{Inner, wake, drop_tx}
use actix_async.Oneshot.Flags.{is_closed, has_recv, has_send}
use actix_async.Oneshot.Calls.{IsOpen, poll-send, send-drop_rx}
use actix_async.Handler.{Handling, unstarted, waiting, finished, answer, await_fut, poll_handling}

-- the cell at the first poll
abbrev pub first_cell {κ} : {R : Type κ} → List (ℕ × Inner R) → Inner R → Inner R
first_cell [] last = last
first_cell ((w, i) ∷ waits) last = i

module _ {ℓ κ} {Fut : Type ℓ} {R : Type κ} (poll_fut : ℕ → Fut → Poll R × Fut) where
  -- The polls of a task, each with its waker and the shared cell that it finds, since the requester
  -- may poll or leave in between: those in `waits`, which must be pending, and the last.
  unfoldable pub drive :
      List (ℕ × Inner R)
      → ℕ
      → Inner R
      → Handling Fut
      → Option (Poll (Unit {0}) × Handling Fut × Inner R)
  drive [] w last h = poll_handling poll_fut w h last
  drive ((v, i) ∷ waits) w last h = do
    (r, h', i') ← poll_handling poll_fut v h i
    elim r [ ready _ ↦ none | pending ↦ drive waits w last h' ]

  -- The handler's future is pending at the polls of `waits`, and done with `res` at the last.
  abbrev pub DoneAfter : List (ℕ × Inner R) → ℕ → R → Fut → Type κ
  DoneAfter [] w res fut = (poll_fut w fut).0 ≡ ready res
  DoneAfter ((v, i) ∷ waits) w res fut =
      ((poll_fut v fut).0 ≡ pending) × DoneAfter waits w res (poll_fut v fut).1

  drive-waiting :
      (waits : List (ℕ × Inner R)) (w : ℕ) (last : Inner R) (wants : Bool) (res : R) (fut : Fut)
      → DoneAfter waits w res fut
      → drive waits w last (waiting wants fut)
        ≡ some (ready tt, finished, answer poll_fut wants res last)
  unfolding drive poll_handling await_fut
  drive-waiting [] w last wants res fut h = rw (h, drive, poll_handling, await_fut) refl
  drive-waiting ((v, i) ∷ waits) w last wants res fut h =
      rw (h.0, drive, poll_handling, await_fut)
        (drive-waiting waits w last wants res (poll_fut v fut).1 h.1)

  drive-unstarted :
      (waits : List (ℕ × Inner R)) (w : ℕ) (last : Inner R) (res : R) (fut : Fut)
      → is_closed (first_cell waits last).state ≡ false
      → DoneAfter waits w res fut
      → drive waits w last (unstarted true fut)
        ≡ some (ready tt, finished, answer poll_fut true res last)
  unfolding drive poll_handling await_fut
  drive-unstarted [] w last res fut open_first h =
      rw (open_first, h, drive, poll_handling, await_fut) refl
  drive-unstarted ((v, i) ∷ waits) w last res fut open_first h =
      rw (open_first, h.0, drive, poll_handling, await_fut)
        (drive-waiting waits w last true res (poll_fut v fut).1 h.1)

  -- Let the requester be there when the handler starts, and its channel be open when the handler's
  -- future is done. Then the handler runs to its end, however often it is pending before; the
  -- registered requester is woken, and its next poll yields the result.
  pub handled-answered :
      (waits : List (ℕ × Inner R)) (w w' : ℕ) (last : Inner R) (res : R) (fut : Fut)
      → is_closed (first_cell waits last).state ≡ false
      → IsOpen last
      → DoneAfter waits w res fut
      → (i : Inner R) × (drive waits w last (unstarted true fut) ≡ some (ready tt, finished, i))
        × (i.woken ≡ (if has_recv last.state then wake last.recv last.woken else last.woken))
        × ((Oneshot.poll w' i).0 ≡ ready (ok (some res)))
  unfolding drop_tx
  handled-answered waits w w' last res fut open_first o h =
      let (sent, woken, got) = poll-send res w' last o in
      (answer poll_fut true res last, drive-unstarted waits w last res fut open_first h, woken, got)

  -- If the requester is there when the handler starts, but leaves before the handler's future is
  -- done, the handler still runs to its end, wakes nobody, and its result does not stay behind in
  -- the shared cell.
  pub left-unanswered :
      (waits : List (ℕ × Inner R)) (w : ℕ) (before : Inner R) (res : R) (fut : Fut)
      → is_closed (first_cell waits (Oneshot.drop_rx false before)).state ≡ false
      → IsOpen before
      → has_send before.state ≡ false
      → DoneAfter waits w res fut
      → (i : Inner R) × (drive waits w (Oneshot.drop_rx false before) (unstarted true fut)
          ≡ some (ready tt, finished, i))
        × (i.value ≡ none)
        × (i.woken ≡ before.woken)
  unfolding drop_tx
  left-unanswered waits w before res fut open_first o no_send h =
      let (failed, empty, woken) = send-drop_rx res before o no_send in
      (
        answer poll_fut true res (Oneshot.drop_rx false before),
        drive-unstarted waits w (Oneshot.drop_rx false before) res fut open_first h,
        empty,
        woken,
      )

  -- If the requester has left before the message is handled, the handler never runs: the future is
  -- finished at its first poll and leaves the shared cell alone, whatever the handler would do.
  pub closed-unhandled :
      (w : ℕ) (i : Inner R) (fut : Fut)
      → is_closed i.state ≡ true
      → poll_handling poll_fut w (unstarted true fut) i ≡ some (ready tt, finished, i)
  unfolding poll_handling drop_tx
  closed-unhandled w i fut closed = rw (closed, poll_handling, drop_tx) refl
