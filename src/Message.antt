-- ===== src/Message.antt =====
-- actix-async/src/message.rs and the join handle of actix-async/src/context.rs: the messages of an
-- actor, and the futures and streams that a context keeps to make messages later. A timer is the
-- runtime's, a stream and the handler objects are the user's: they are parameters.
pub mod Handles
pub mod Timers
mod Tests
use actix_async.Prelude.{
  ℕ, Bool, true, false, Option, none, some, List, [], ◌∷◌, Poll, ready, pending, ok, err,
}
use actix_async.Oneshot
use actix_async.Oneshot.{Inner}

-- `ActorState`
pub data ActorState : Type 0 where
  running stop stop_graceful : ActorState

-- `MessageContainer`, with the sender of its answer by a number
pub record MessageContainer {ℓ} (M : Type ℓ) : Type ℓ where
  pub msg : Option M
  pub tx : Option ℕ

-- `MessageContainer::take`, which panics on a container that was taken before
unfoldable pub take {ℓ} :
    {M : Type ℓ} → MessageContainer M → Option (M × Option ℕ × MessageContainer M)
take c = elim c.msg [ none ↦ none | some m ↦ some (m, c.tx, record { msg = none; tx = none }) ]

-- `ActorMessage`, of handler objects `H`; a message of state carries the sender of its answer.
pub data ActorMessage {ℓ} (H : Type ℓ) : Type ℓ where
  by_ref : H → ActorMessage H
  by_mut : H → ActorMessage H
  set_state : ActorState → (tx : ℕ) → ActorMessage H

-- `ActorMessage::new_ref` and `ActorMessage::new_mut`
abbrev pub new_ref {ℓ} : {M : Type ℓ} → M → Option ℕ → ActorMessage (MessageContainer M)
new_ref m tx = by_ref (record { msg = some m; tx = tx })

abbrev pub new_mut {ℓ} : {M : Type ℓ} → M → Option ℕ → ActorMessage (MessageContainer M)
new_mut m tx = by_mut (record { msg = some m; tx = tx })

-- `ActorMessageClone`, and its `clone` by `MessageObjectClone::clone_object`: a copy of the message
-- in a container without an answer
pub data ActorMessageClone {ℓ} (M : Type ℓ) : Type ℓ where
  clone_ref : M → ActorMessageClone M
  clone_mut : M → ActorMessageClone M

abbrev pub clone {ℓ} : {M : Type ℓ} → ActorMessageClone M → ActorMessage (MessageContainer M)
clone (clone_ref m) = new_ref m none
clone (clone_mut m) = new_mut m none

-- the cell that a `ContextJoinHandle` and the future it cancels share
abbrev pub Handle : Type 0
Handle = Inner (Unit {0})

-- `ContextJoinHandle::cancel` and `ContextJoinHandle::is_terminated`
abbrev pub cancel : Handle → Handle
cancel i = (Oneshot.send tt i).1

abbrev pub is_terminated : Handle → Bool
is_terminated i = Oneshot.Flags.is_closed i.state

-- The poll of the handle that `FutureMessage`, `IntervalMessage` and `StreamContainer` begin with:
-- whether the task was cancelled, and the handle that it keeps.
unfoldable pub poll_handle : ℕ → Option Handle → Bool × Option Handle
poll_handle w none = (false, none)
poll_handle w (some i) =
    let (r, i') = Oneshot.poll w i in
    elim r [
      | ready (ok _) ↦ (true, some i')
      | ready (err _) ↦ (false, none)
      | pending ↦ (false, some i')
    ]

-- `RuntimeService::sleep` and the poll of the timer
pub record Runtime {ℓ} (Sleep : Type ℓ) : Type ℓ where
  pub sleep : ℕ → Sleep
  pub poll_sleep : ℕ → Sleep → Poll (Unit {0}) × Sleep

-- `FutureMessage`
pub record FutureMessage {ℓ κ} (Sleep : Type ℓ) (H : Type κ) : Type (ℓ ⊔ κ) where
  pub delay : Sleep
  pub handle : Option Handle
  pub msg : Option (ActorMessage H)

-- `IntervalMessage`
pub record IntervalMessage {ℓ κ} (Sleep : Type ℓ) (M : Type κ) : Type (ℓ ⊔ κ) where
  pub dur : ℕ
  pub delay : Sleep
  pub handle : Option Handle
  pub msg : ActorMessageClone M

-- `StreamContainer`; its stream and `to_msg` are the user's
pub record StreamContainer {ℓ} (S : Type ℓ) : Type ℓ where
  pub stream : S
  pub handle : Option Handle

module _ {ℓ κ} {Sleep : Type ℓ} (R : Runtime Sleep) where
  -- `FutureMessage::new` and `IntervalMessage::new`
  abbrev pub new_future : {H : Type κ} → ℕ → Handle → ActorMessage H → FutureMessage Sleep H
  new_future dur rx msg = record { delay = R.sleep dur; handle = some rx; msg = some msg }

  abbrev pub new_interval :
      {M : Type κ} → ℕ → Handle → ActorMessageClone M → IntervalMessage Sleep M
  new_interval dur rx msg = record { dur = dur; delay = R.sleep dur; handle = some rx; msg = msg }

  -- `FutureMessage::poll` behind the poll of its handle
  unfoldable pub future_after :
      {H : Type κ}
      → ℕ
      → FutureMessage Sleep H
      → Bool × Option Handle
      → Poll (Option (ActorMessage H)) × FutureMessage Sleep H
  future_after w f (true, h) = (ready none, record f { handle = h })
  future_after w f (false, h) =
      let (r, d) = R.poll_sleep w f.delay in
      elim r [
        | ready _ ↦ (ready f.msg, record { delay = d; handle = h; msg = none })
        | pending ↦ (pending, record f { delay = d; handle = h })
      ]

  -- `FutureMessage::poll`
  unfoldable pub poll_future :
      {H : Type κ}
      → ℕ
      → FutureMessage Sleep H
      → Poll (Option (ActorMessage H)) × FutureMessage Sleep H
  poll_future w f = future_after w f (poll_handle w f.handle)

  -- `IntervalMessage::poll_next` behind the poll of its handle, with the wakers that it wakes
  unfoldable pub interval_after :
      {M : Type κ}
      → ℕ
      → IntervalMessage Sleep M
      → Bool × Option Handle
      → Poll (Option (ActorMessage (MessageContainer M))) × IntervalMessage Sleep M × List ℕ
  interval_after w f (true, h) = (ready none, record f { handle = h }, [])
  interval_after w f (false, h) =
      let (r, d) = R.poll_sleep w f.delay in
      elim r [
        | ready _ ↦
            (ready (some (clone f.msg)), record f { delay = R.sleep f.dur; handle = h }, w ∷ [])
        | pending ↦ (pending, record f { delay = d; handle = h }, [])
      ]

  -- `IntervalMessage::poll_next`
  unfoldable pub poll_interval :
      {M : Type κ}
      → ℕ
      → IntervalMessage Sleep M
      → Poll (Option (ActorMessage (MessageContainer M))) × IntervalMessage Sleep M × List ℕ
  poll_interval w f = interval_after w f (poll_handle w f.handle)

module _ {ℓ κ μ} {S : Type ℓ} {I : Type κ} {H : Type μ} (poll_stream : ℕ → S → Poll (Option I) × S)
    (to_msg : I → ActorMessage H) where
  -- `StreamContainer::poll_next`, likewise
  unfoldable pub container_after :
      ℕ
      → StreamContainer S
      → Bool × Option Handle
      → Poll (Option (ActorMessage H)) × StreamContainer S
  container_after w c (true, h) = (ready none, record c { handle = h })
  container_after w c (false, h) =
      let (r, s) = poll_stream w c.stream in
      let c' = record c { stream = s; handle = h } in
      elim r [
        | ready (some item) ↦ (ready (some (to_msg item)), c')
        | ready none ↦ (ready none, c')
        | pending ↦ (pending, c')
      ]

  unfoldable pub poll_container :
      ℕ → StreamContainer S → Poll (Option (ActorMessage H)) × StreamContainer S
  poll_container w c = container_after w c (poll_handle w c.handle)

-- `StreamMessage`, with a `StreamContainer` boxed: `exclusive` says which message its `to_msg` makes
pub data StreamMessage {ℓ} (Sleep M S : Type ℓ) : Type ℓ where
  interval : (stream : IntervalMessage Sleep M) → StreamMessage Sleep M S
  boxed : (exclusive : Bool) (stream : StreamContainer S) → StreamMessage Sleep M S

module _ {ℓ} {Sleep M S : Type ℓ} (R : Runtime Sleep)
    (poll_stream : ℕ → S → Poll (Option M) × S) where
  abbrev pub to_msg : Bool → M → ActorMessage (MessageContainer M)
  to_msg true item = new_mut item none
  to_msg false item = new_ref item none

  -- `StreamMessage::poll_next`, with the wakers that it wakes
  unfoldable pub poll_stream_message :
      ℕ
      → StreamMessage Sleep M S
      → Poll (Option (ActorMessage (MessageContainer M))) × StreamMessage Sleep M S × List ℕ
  poll_stream_message w (interval f) =
      let (p, f', wakes) = poll_interval R w f in (p, interval f', wakes)
  poll_stream_message w (boxed exclusive c) =
      let (p, c') = poll_container poll_stream (to_msg exclusive) w c in (p, boxed exclusive c', [])
