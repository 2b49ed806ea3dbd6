-- ===== src/Supervisor/Starts.antt =====
-- actix-async/src/supervisor/mod.rs: `Supervisor::start`, which hands the futures of an actor to the
-- workers. Each holds a receiver of the actor's channel.
use actix_async.Prelude.{
  ℕ, zero, suc, ◌+◌, ◌/◌, ◌≤◌, ◌<◌, ◌≡◌, refl, sym, ap, ◌∙◌, false, ◌==◌, Option, none, some, List,
  [], ◌∷◌, ◌++◌, append_assoc, append-nil, Poll, ready, pending, Result, ok, err, ◌>>=◌, ltb, subst,
  arith,
}
use actix_async.Error.{ActixAsyncError}
use actix_async.Listener
use actix_async.Listener.{usize_max}
use actix_async.Listener.View.{View}
use actix_async.Channel.{
  Chan, SendFuture, send_poll, drop_send, clone_receiver, drop_receiver, wrapping_dec,
}
use actix_async.Channel.Queue.{QueueOps}
use actix_async.Channel.State.{Holds}
use actix_async.Channel.Room.{send_poll-open}
use actix_async.Channel.Counts.{wrapping_dec-suc}

-- the sum, by recursion on the first number
abbrev beyond : ℕ → ℕ → ℕ
beyond zero m = m
beyond (suc n) m = suc (beyond n m)

beyond-sum : (n m : ℕ) → beyond n m ≡ n + m
beyond-sum zero m = omega arith
beyond-sum (suc n) m = omega (arith, beyond-sum n m)

-- `start`, where it stands: how many futures are left, and the send that is under way
pub record Starting {ℓ κ} (T : Type ℓ) (C : Type ℓ) (CA : Type κ) : Type (ℓ ⊔ κ) where
  pub left : ℕ
  pub fut : Option (SendFuture T)
  pub tx : C
  pub rx : CA

module _ {ℓ κ} {T : Type ℓ} {A : Type κ} (Q : QueueOps T) (QA : QueueOps A) (task : T) where
  abbrev pub Start : Type (ℓ ⊔ κ)
  Start = Starting T (Chan Q) (Chan QA)

  -- the future of the send, made with a clone of the receiver if none is under way
  unfoldable pub next_send : Option (SendFuture T) → Chan QA → Option (SendFuture T × Chan QA)
  next_send none rx = do
    rx' ← clone_receiver QA rx
    some (record { listener = none; msg = some task }, rx')
  next_send (some fut) rx = some (fut, rx)

  -- A send that fails drops its future, and with it the receiver.
  unfoldable pub after_send : Result (Unit {0}) ActixAsyncError → Chan QA → Option (Chan QA)
  after_send (ok _) rx = some rx
  after_send (err _) rx = drop_receiver QA rx

  -- A poll of `start` with `left` futures left; at the end the receiver it made is dropped.
  unfoldable pub poll_start :
      ℕ → ℕ → Option (SendFuture T) → Chan Q → Chan QA → Option (Poll (Unit {0}) × Start)
  poll_start w zero fut tx rx = do
    rx' ← drop_receiver QA rx
    some (ready tt, record { left = 0; fut = none; tx = tx; rx = rx' })
  poll_start w (suc n) fut tx rx = do
    (send, rx1) ← next_send fut rx
    (p, send', tx1) ← send_poll Q w send tx
    elim p [
      | pending ↦ some (pending, record { left = suc n; fut = some send'; tx = tx1; rx = rx1 })
      | ready r ↦ (do
        tx2 ← drop_send Q send' tx1
        rx2 ← after_send r rx1
        poll_start w n none tx2 rx2)
    ]

  abbrev pub copies : ℕ → List T
  copies zero = []
  copies (suc n) = task ∷ copies n

  abbrev counted : ℕ → Chan QA → Chan QA
  counted r rx = record rx { receiver_count = r }

  -- the clones that `n` futures hold
  abbrev clones : ℕ → Chan QA → Chan QA
  clones zero rx = rx
  clones (suc n) rx = clones n (counted (rx.receiver_count + 1) rx)

  clones-counted : (n : ℕ) (rx : Chan QA) → clones n rx ≡ counted (rx.receiver_count + n) rx
  clones-counted zero rx =
      ap (λ r. counted r rx) (let e : rx.receiver_count ≡ rx.receiver_count + 0 = omega arith in e)
  clones-counted (suc n) rx =
      clones-counted n (counted (rx.receiver_count + 1) rx)
      ∙ ap (λ r. counted r rx)
          (let e : rx.receiver_count + 1 + n ≡ rx.receiver_count + suc n = omega arith in e)

  -- what the sends of `n` futures come to
  record Handed (w n m : ℕ) (tx : Chan Q) (xs : List T) (rx : Chan QA) : Type (ℓ ⊔ κ) where
    chan : Chan Q
    sends : View
    streams : View
    result : poll_start w n none tx rx ≡ poll_start w 0 none chan (clones n rx)
    holds : Holds Q chan (xs ++ copies n) false m sends streams

  hands_one :
      (w n : ℕ) (tx tx1 : Chan Q) (rx : Chan QA)
      → send_poll Q w (record { listener = none; msg = some task }) tx
        ≡ some (ready (ok tt), record { listener = none; msg = none }, tx1)
      → rx.receiver_count < usize_max / 2
      → poll_start w (suc n) none tx rx
        ≡ poll_start w n none tx1 (counted (rx.receiver_count + 1) rx)
  unfolding poll_start next_send after_send clone_receiver drop_send Listener.drop_listener
  hands_one w n tx tx1 rx sent few =
      let small : ltb (usize_max / 2) rx.receiver_count ≡ false = ground arith in
      rw (small, sent, ◌>>=◌) refl

  hands_out :
      (w n m : ℕ) (tx : Chan Q) (xs : List T) (rx : Chan QA) (se st : View)
      → Holds Q tx xs false (beyond n m) se st
      → tx.in_queue + n ≤ tx.cap
      → rx.receiver_count + n ≤ usize_max / 2
      → Handed w n m tx xs rx
  hands_out w zero m tx xs rx se st h room few = record {
    chan = tx;
    sends = se;
    streams = st;
    result = refl;
    holds = subst (λ ys. Holds Q tx ys false m se st) (sym (append-nil xs)) h;
  }
  hands_out w (suc n) m tx xs rx se st h room few =
      let sent = send_poll-open Q w none task tx xs (beyond n m) se st h (omega arith) in
      let rest =
        hands_out w n m sent.next (xs ++ task ∷ []) (counted (rx.receiver_count + 1) rx) _ _
          sent.holds (omega (arith, sent.counted, sent.capacity)) (omega arith) in
      record {
        chan = rest.chan;
        sends = rest.sends;
        streams = rest.streams;
        result = hands_one w n tx sent.next rx sent.result (omega arith) ∙ rest.result;
        holds =
            subst (λ ys. Holds Q rest.chan ys false m rest.sends rest.streams)
              (append_assoc xs (task ∷ []) (copies n)) rest.holds;
      }

  drops_own :
      (w n : ℕ) (tx : Chan Q) (rx : Chan QA)
      → suc n < usize_max / 2
      → poll_start w 0 none tx (counted (suc (suc n)) rx)
        ≡ some (ready tt, record { left = 0; fut = none; tx = tx; rx = counted (suc n) rx })
  unfolding poll_start drop_receiver
  drops_own w n tx rx few =
      let many : (suc (suc n) == 1) ≡ false = ground arith in
      let less : wrapping_dec (suc (suc n)) ≡ suc n = wrapping_dec-suc (suc n) (omega arith) in
      rw (many, less, ◌>>=◌) refl

  -- `start` of at least one future, when the channel of the supervisor is open and has room for all:
  -- its first poll is ready, all futures stand in that channel, behind what was in it, and each holds
  -- a receiver of the actor's channel, which is open still.
  pub poll_start-open :
      (w n m : ℕ) (tx : Chan Q) (xs : List T) (rx : Chan QA) (se st : View)
      → Holds Q tx xs false (suc n + m) se st
      → tx.in_queue + suc n ≤ tx.cap
      → rx.receiver_count ≡ 1
      → suc n < usize_max / 2
      → (tx' : Chan Q) × (se' st' : View) × (poll_start w (suc n) none tx rx
          ≡ some (
            ready tt,
            record { left = 0; fut = none; tx = tx'; rx = record rx { receiver_count = suc n } },
          ))
        × Holds Q tx' (xs ++ copies (suc n)) false m se' st'
  poll_start-open w n m tx xs rx se st h room one few =
      let d =
        hands_out w (suc n) m tx xs rx se st
          (subst (λ k. Holds Q tx xs false k se st) (sym (beyond-sum (suc n) m)) h) room
          (omega arith) in
      let all : clones (suc n) rx ≡ counted (suc (suc n)) rx =
        clones-counted (suc n) rx
        ∙ ap (λ r. counted r rx)
            (let e : rx.receiver_count + suc n ≡ suc (suc n) = omega arith in e) in
      (
        d.chan,
        d.sends,
        d.streams,
        d.result ∙ ap (poll_start w 0 none d.chan) all ∙ drops_own w n d.chan rx few,
        d.holds,
      )
