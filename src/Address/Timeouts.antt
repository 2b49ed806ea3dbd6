-- ===== src/Address/Timeouts.antt =====
-- actix-async/src/address.rs and actix-async/src/request.rs: what a timeout says of the message.
use actix_async.Prelude.{
  from_bind, ℕ, suc, ◌+◌, ◌≡◌, ◌<◌, Bool-cases, ltb, ltb→lt, refl, sym, ◌∙◌, subst, inl, inr, Bool,
  true, false, Option, none, some, List, [], ◌∷◌, ◌++◌, Poll, ready, pending, Result, ok, err,
  ◌>>=◌, arith,
}
use actix_async.Error.{ActixAsyncError}
use actix_async.Listener
use actix_async.Listener.View.{View}
use actix_async.Oneshot.{Inner}
use actix_async.Channel.{Chan, SendFuture, drop_send}
use actix_async.Channel.Queue.{QueueOps}
use actix_async.Channel.State.{Holds}
use actix_async.Channel.Send.{Listens, send_poll-full}
use actix_async.Channel.Room.{send_poll-open, send_poll-closed}
use actix_async.Message.{Runtime, ActorMessage, MessageContainer}
use actix_async.Request
use actix_async.Request.{MessageRequest, request, start_timer, poll_response, poll_timer}
use actix_async.Request.Outcome.{is_timeout, poll_response-tells}
use actix_async.Address.{Message, Sending, poll_sending, drop_sending}

module _ {ℓ} {T : Type ℓ} (Q : QueueOps T) where
  drop_send-queue :
      (fut : SendFuture T) (c c' : Chan Q) → drop_send Q fut c ≡ some c' → c'.queue ≡ c.queue
  unfolding drop_send
  drop_send-queue fut c c' run =
      from_bind (Listener.drop_listener fut.listener c.send_ops) _ c' run
        (λ ev there same. ground arith)

module _ {ℓ κ μ} {M : Type ℓ} {Sleep : Type κ} {R : Type μ}
    (Q : QueueOps (ActorMessage (MessageContainer M))) (T : Runtime Sleep) where
  -- What a poll leaves that ends with the timeout `e`: after `ReceiveTimeout` the message stands in
  -- the queue, behind the others; after `SendTimeout` it does not, and the request still has it.
  pub data Tells (msg : Message Q) (xs : List (Message Q)) (closed : Bool) (n : ℕ) (st : View)
      : ActixAsyncError
        → MessageRequest Sleep (Sending Q) R
        → Option (Sending Q)
        → Type (ℓ ⊔ κ ⊔ μ) where
    received :
        (m : MessageRequest Sleep (Sending Q) R) (s : Sending Q)
        → Q.Stands s.1.queue (xs ++ msg ∷ []) false n
        → Tells msg xs closed n st ActixAsyncError.receive_timeout m (some s)
    unsent :
        (s : Sending Q) (rx : Inner R) (t : Option Sleep) (d : Option ℕ) (se : View)
        → s.0.msg ≡ some msg
        → Holds Q s.1 xs closed (suc n) se st
        → Tells msg xs closed n st ActixAsyncError.send_timeout (request s rx t d) none

  module _ (w : ℕ) (s s' : Sending Q) (rx : Inner R) (t : Option Sleep) (d : Option ℕ) where
    abbrev polled : Option (
        Poll (Result (Option R) ActixAsyncError)
        × MessageRequest Sleep (Sending Q) R
        × Option (Sending Q))
    polled = Request.poll T (poll_sending Q) (drop_sending Q) w (request s rx t d)

    abbrev answered : Poll (Result (Option R) ActixAsyncError) × MessageRequest Sleep (Sending Q) R
    answered = poll_response T (poll_sending Q) w rx (start_timer T d)

    poll-sent :
        poll_sending Q w s ≡ some (ready (ok tt), s')
        → polled ≡ (drop_sending Q s' >>= λ left. some (answered.0, answered.1, some left))
    unfolding Request.poll
    poll-sent e = rw (e, Request.poll, ◌>>=◌) refl

    poll-failed :
        (e : ActixAsyncError)
        → poll_sending Q w s ≡ some (ready (err e), s')
        → polled ≡ some (ready (err e), request s' rx t d, none)
    unfolding Request.poll
    poll-failed x e = rw (e, Request.poll, ◌>>=◌) refl

    abbrev waited : Poll (Result (Option R) ActixAsyncError) × Option Sleep
    waited = poll_timer T (poll_sending Q) ActixAsyncError.send_timeout w t

    poll-waits :
        poll_sending Q w s ≡ some (pending, s')
        → polled ≡ some (waited.0, request s' rx waited.1 d, none)
    unfolding Request.poll
    poll-waits e = rw (e, Request.poll, ◌>>=◌) refl

    waited-timeout :
        (e : ActixAsyncError) → waited.0 ≡ ready (err e) → e ≡ ActixAsyncError.send_timeout
    waited-timeout e run = ground arith

  module _ (msg : Message Q) (xs : List (Message Q)) (closed : Bool) (n : ℕ) (st : View) (w : ℕ)
      (s s' : Sending Q) (rx : Inner R) (t : Option Sleep) (d : Option ℕ)
      (m' : MessageRequest Sleep (Sending Q) R) (left : Option (Sending Q)) (e : ActixAsyncError)
      (late : is_timeout e ≡ true)
      (run : polled w s s' rx t d ≡ some (ready (err e), m', left)) where
    drop_sending-queue : (s1 : Sending Q) → drop_sending Q s' ≡ some s1 → s1.1.queue ≡ s'.1.queue
    unfolding drop_sending
    drop_sending-queue s1 dropped =
        from_bind (drop_send Q s'.0 s'.1) _ s1 dropped
          (λ c there same. drop_send-queue Q s'.0 s'.1 s1.1 (there ∙ ground arith))

    sent-Tells :
        poll_sending Q w s ≡ some (ready (ok tt), s')
        → Q.Stands s'.1.queue (xs ++ msg ∷ []) false n
        → Tells msg xs closed n st e m' left
    sent-Tells sent stands =
        from_bind (drop_sending Q s') _ (ready (err e), m', left)
          (sym (poll-sent w s s' rx t d sent) ∙ run)
          (λ s1 dropped same.
            subst (λ x. Tells msg xs closed n st x m' left)
              (sym (
                poll_response-tells T (poll_sending Q) (drop_sending Q) w rx (start_timer T d) e
                  (ground arith) late))
              (subst (λ o. Tells msg xs closed n st ActixAsyncError.receive_timeout m' o)
                (ground arith)
                (received m' s1 (
                  subst (λ q. Q.Stands q (xs ++ msg ∷ []) false n)
                    (sym (drop_sending-queue s1 dropped)) stands))))

    failed-Tells :
        poll_sending Q w s ≡ some (ready (err ActixAsyncError.closed), s')
        → Tells msg xs closed n st e m' left
    failed-Tells failed =
        let same = sym (poll-failed w s s' rx t d ActixAsyncError.closed failed) ∙ run in
        absurd (ground arith)

    waits-Tells :
        (se : View)
        → poll_sending Q w s ≡ some (pending, s')
        → s'.0.msg ≡ some msg
        → Holds Q s'.1 xs closed (suc n) se st
        → Tells msg xs closed n st e m' left
    waits-Tells se waits kept holds =
        let same = sym (poll-waits w s s' rx t d waits) ∙ run in
        subst (λ x. Tells msg xs closed n st x m' left)
          (sym (waited-timeout w s s' rx t d e (ground arith)))
          (subst (λ m. Tells msg xs closed n st ActixAsyncError.send_timeout m left) (ground arith)
            (subst
              (λ o.
                Tells msg xs closed n st ActixAsyncError.send_timeout
                  (request s' rx (waited w s s' rx t d).1 d) o)
              (ground arith) (unsent s' rx (waited w s s' rx t d).1 d se kept holds)))

  room-Tells :
      (w : ℕ) (l : Option ℕ) (msg : Message Q) (c : Chan Q) (rx : Inner R) (t : Option Sleep)
      (d : Option ℕ) (xs : List (Message Q)) (closed : Bool) (n : ℕ) (se st : View)
      (m' : MessageRequest Sleep (Sending Q) R) (left : Option (Sending Q)) (e : ActixAsyncError)
      → Holds Q c xs closed (suc n) se st
      → c.in_queue < c.cap
      → is_timeout e ≡ true
      → Request.poll T
          (poll_sending Q)
          (drop_sending Q)
          w
          (request (record { listener = l; msg = some msg }, c) rx t d)
        ≡ some (ready (err e), m', left)
      → Tells msg xs closed n st e m' left
  unfolding poll_sending
  room-Tells w l msg c rx t d xs false n se st m' left e h room late run =
      let sent = send_poll-open Q w l msg c xs n se st h room in
      sent-Tells msg xs false n st w (record { listener = l; msg = some msg }, c)
        (record { listener = l; msg = none }, sent.next) rx t d m' left e late run
        (rw (sent.result, ◌>>=◌) refl) sent.holds.queue
  room-Tells w l msg c rx t d xs true n se st m' left e h room late run =
      failed-Tells msg xs true n st w (record { listener = l; msg = some msg }, c)
        (record { listener = l; msg = none }, record c { in_queue = c.in_queue + 1 }) rx t d m' left
        e late run (rw (send_poll-closed Q w l msg c xs (suc n) se st h room, ◌>>=◌) refl)

  -- If a poll of a request through an address that is about to send its message answers with a
  -- timeout, whether its task waits for room already or not, and the channel is open or closed, then
  -- it is `ReceiveTimeout` and the message stands in the queue, behind all others, or it is
  -- `SendTimeout`, the channel holds the messages that it held, and the request keeps its own.
  pub address_timeouts-tell :
      (w : ℕ) (l : Option ℕ) (msg : Message Q) (c : Chan Q) (rx : Inner R) (t : Option Sleep)
      (d : Option ℕ) (xs : List (Message Q)) (closed : Bool) (n : ℕ) (se st : View)
      (m' : MessageRequest Sleep (Sending Q) R) (left : Option (Sending Q)) (e : ActixAsyncError)
      → Holds Q c xs closed (suc n) se st
      → Listens se l
      → is_timeout e ≡ true
      → Request.poll T
          (poll_sending Q)
          (drop_sending Q)
          w
          (request (record { listener = l; msg = some msg }, c) rx t d)
        ≡ some (ready (err e), m', left)
      → Tells msg xs closed n st e m' left
  unfolding poll_sending
  address_timeouts-tell w l msg c rx t d xs closed n se st m' left e h listens late run =
      elim (Bool-cases (ltb c.in_queue c.cap)) [
        | inl room ↦
            room-Tells w l msg c rx t d xs closed n se st m' left e h (ltb→lt c.in_queue c.cap room)
              late run
        | inr full ↦
            let p = send_poll-full Q w l msg c xs closed (suc n) se st h listens (ground arith) in
            let s' : Sending Q =
              (record { listener = some p.entry; msg = some msg }, record c { send_ops = p.ev }) in
            waits-Tells msg xs closed n st w (record { listener = l; msg = some msg }, c) s' rx t d
              m' left e late run _ (rw (p.result, ◌>>=◌) refl) refl
              (record { queue = h.queue; send_ops = p.waits; stream_ops = h.stream_ops })
      ]
