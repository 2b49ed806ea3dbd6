-- ===== src/Message/Timers.antt =====
-- actix-async/src/message.rs: what a delayed message and an interval do with the time and with the
-- message that they carry, while their handle is pending.
use actix_async.Prelude.{
  ℕ, ◌≡◌, refl, ap, ◌∙◌, false, Option, none, some, List, [], ◌∷◌, Poll, ready, pending,
}
use actix_async.Oneshot
use actix_async.Oneshot.Calls.{IsOpen, poll-IsOpen}
use actix_async.Message.{
  ActorMessage, MessageContainer, Handle, clone, poll_handle, Runtime, FutureMessage,
  IntervalMessage, future_after, interval_after, poll_future, poll_interval,
}
use actix_async.Message.Handles.{poll_handle-IsOpen}

-- A task that goes on with a future while it is pending.
abbrev pub if_pending {ℓ κ μ} :
    {A : Type ℓ} {F : Type κ} {X : Type μ} → (F → Option X) → Poll A × F → Option X
if_pending go (ready _, f) = none
if_pending go (pending, f) = go f

module _ {ℓ} {Sleep : Type ℓ} (R : Runtime Sleep) where
  -- The timer is pending at each of the polls with the wakers `ws`, and ready at the next, with `w`.
  abbrev pub FiresAfter : List ℕ → ℕ → Sleep → Type 0
  FiresAfter [] w d = (R.poll_sleep w d).0 ≡ ready tt
  FiresAfter (v ∷ ws) w d = ((R.poll_sleep v d).0 ≡ pending) × FiresAfter ws w (R.poll_sleep v d).1

module _ {ℓ κ} {Sleep : Type ℓ} (R : Runtime Sleep) where
  -- A task that polls with the wakers `ws` while the answer is pending, and then with `w`; `none`
  -- if a poll before the last is ready.
  unfoldable pub drive_future :
      {H : Type κ}
      → List ℕ
      → ℕ
      → FutureMessage Sleep H
      → Option (Poll (Option (ActorMessage H)) × FutureMessage Sleep H)
  drive_future [] w f = some (poll_future R w f)
  drive_future (v ∷ ws) w f = if_pending (drive_future ws w) (poll_future R v f)

  unfoldable pub drive_interval :
      {M : Type κ}
      → List ℕ
      → ℕ
      → IntervalMessage Sleep M
      → Option
          (Poll (Option (ActorMessage (MessageContainer M))) × IntervalMessage Sleep M × List ℕ)
  drive_interval [] w f = some (poll_interval R w f)
  drive_interval (v ∷ ws) w f =
      let (r, f', woken) = poll_interval R v f in if_pending (drive_interval ws w) (r, f')

  -- a poll whose handle is pending, before and after the timer has fired
  module _ {H : Type κ} (w : ℕ) (i : Handle) (f : FutureMessage Sleep H) (o : IsOpen i)
      (e : f.handle ≡ some i) where
    handled_future : poll_future R w f ≡ future_after R w f (false, some (Oneshot.poll w i).1)
    unfolding poll_future
    handled_future = ap (future_after R w f) (ap (poll_handle w) e ∙ poll_handle-IsOpen w i o)

    future_waits :
        (R.poll_sleep w f.delay).0 ≡ pending
        → poll_future R w f ≡ (
          pending,
          record f { delay = (R.poll_sleep w f.delay).1; handle = some (Oneshot.poll w i).1 },
        )
    unfolding future_after
    future_waits p = handled_future ∙ rw (p, future_after) refl

    future_fires :
        (R.poll_sleep w f.delay).0 ≡ ready tt
        → (f' : FutureMessage Sleep H) × (poll_future R w f ≡ (ready f.msg, f')) × (f'.msg ≡ none)
    unfolding future_after
    future_fires p =
        let done : FutureMessage Sleep H = record {
          delay = (R.poll_sleep w f.delay).1;
          handle = some (Oneshot.poll w i).1;
          msg = none;
        } in
        (done, handled_future ∙ rw (p, future_after) refl, refl)

  module _ {M : Type κ} (w : ℕ) (i : Handle) (f : IntervalMessage Sleep M) (o : IsOpen i)
      (e : f.handle ≡ some i) where
    handled_interval : poll_interval R w f ≡ interval_after R w f (false, some (Oneshot.poll w i).1)
    unfolding poll_interval
    handled_interval = ap (interval_after R w f) (ap (poll_handle w) e ∙ poll_handle-IsOpen w i o)

    interval_waits :
        (R.poll_sleep w f.delay).0 ≡ pending
        → poll_interval R w f ≡ (
          pending,
          record f { delay = (R.poll_sleep w f.delay).1; handle = some (Oneshot.poll w i).1 },
          [],
        )
    unfolding interval_after
    interval_waits p = handled_interval ∙ rw (p, interval_after) refl

    interval_fires :
        (R.poll_sleep w f.delay).0 ≡ ready tt
        → poll_interval R w f ≡ (
          ready (some (clone f.msg)),
          record f { delay = R.sleep f.dur; handle = some (Oneshot.poll w i).1 },
          w ∷ [],
        )
    unfolding interval_after
    interval_fires p = handled_interval ∙ rw (p, interval_after) refl

  -- A delayed message whose handle is left alone is pending until its timer fires, however often it
  -- is polled before; then it hands its message out, and keeps nothing.
  pub drive_future-FiresAfter :
      {H : Type κ} (ws : List ℕ) (w : ℕ) (i : Handle) (f : FutureMessage Sleep H)
      → IsOpen i
      → f.handle ≡ some i
      → FiresAfter R ws w f.delay
      → (f' : FutureMessage Sleep H) × (drive_future ws w f ≡ some (ready f.msg, f'))
        × (f'.msg ≡ none)
  unfolding drive_future
  drive_future-FiresAfter [] w i f o e fires =
      let (f', run, done) = future_fires w i f o e fires in (f', ap some run, done)
  drive_future-FiresAfter {H = H} (v ∷ ws) w i f o e fires =
      let next : FutureMessage Sleep H = record f {
        delay = (R.poll_sleep v f.delay).1;
        handle = some (Oneshot.poll v i).1;
      } in
      let (f', run, done) =
        drive_future-FiresAfter ws w (Oneshot.poll v i).1 next (poll-IsOpen v i o).3 refl fires.1 in
      (f', ap (if_pending (drive_future ws w)) (future_waits v i f o e fires.0) ∙ run, done)

  -- An interval whose handle is left alone is pending until its timer fires. Then it hands out a copy
  -- of its message without an answer, has a new timer of the same duration and the same message for
  -- the next round, and wakes the task that polled it, and only that.
  pub drive_interval-FiresAfter :
      {M : Type κ} (ws : List ℕ) (w : ℕ) (i : Handle) (f : IntervalMessage Sleep M)
      → IsOpen i
      → f.handle ≡ some i
      → FiresAfter R ws w f.delay
      → (i' : Handle) × (drive_interval ws w f
          ≡ some (
            ready (some (clone f.msg)),
            record f { delay = R.sleep f.dur; handle = some i' },
            w ∷ [],
          ))
        × IsOpen i'
  unfolding drive_interval
  drive_interval-FiresAfter [] w i f o e fires =
      ((Oneshot.poll w i).1, ap some (interval_fires w i f o e fires), (poll-IsOpen w i o).3)
  drive_interval-FiresAfter {M = M} (v ∷ ws) w i f o e fires =
      let next : IntervalMessage Sleep M = record f {
        delay = (R.poll_sleep v f.delay).1;
        handle = some (Oneshot.poll v i).1;
      } in
      let (i', run, still) =
        drive_interval-FiresAfter ws w (Oneshot.poll v i).1 next (poll-IsOpen v i o).3 refl
          fires.1 in
      (
        i',
        ap (λ p. if_pending (drive_interval ws w) (p.0, p.1)) (interval_waits v i f o e fires.0)
            ∙ run,
        still,
      )
