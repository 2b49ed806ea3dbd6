-- ===== src/Channel/State.antt =====
-- actix-async/src/util/async_channel/mod.rs: what a channel stands for, and its calls that neither
-- wait nor loop.
use actix_async.Prelude.{
  ℕ, suc, ◌≡◌, refl, ap, ◌∙◌, Bool, true, false, leb, if◌then◌else◌, some, List, [], ◌∷◌, ◌++◌, ok,
  err, bind_some, arith,
}
use actix_async.Listener.{Event, usize_max}
use actix_async.Listener
use actix_async.Listener.View.{View}
use actix_async.Listener.Refine.{notify_up_to, woken_up_to}
use actix_async.Listener.Events.{Stands, woken, notify-Stands}
use actix_async.Channel.{Chan, wrapping_dec, close, after_close, dequeue, do_send, try_recv}
use actix_async.Channel.Queue.{QueueOps, TryRecvError}

module _ {ℓ} {T : Type ℓ} (Q : QueueOps T) where
  -- The channel holds the messages `xs`, is closed iff `closed`, has index space for `n` more, and
  -- `sends` and `streams` are the queues of those that wait to send and to receive.
  pub record Holds (c : Chan Q) (xs : List T) (closed : Bool) (n : ℕ) (sends streams : View)
      : Type ℓ where
    pub queue : Q.Stands c.queue xs closed n
    pub send_ops : Stands c.send_ops sends
    pub stream_ops : Stands c.stream_ops streams

  -- An open channel takes every message of `do_send`, whatever its capacity: the message goes
  -- behind all others, the counter stays as it is, and every receiver that listens is notified
  -- and woken.
  pub do_send-open :
      (msg : T) (c : Chan Q) (xs : List T) (n : ℕ) (se st : View)
      → Holds c xs false (suc n) se st
      → (q : Q.Queue) × (ev : Event) × (do_send Q msg c
          ≡ some (ok tt, record c { queue = q; stream_ops = ev }))
        × Holds
            (record c { queue = q; stream_ops = ev })
            (xs ++ msg ∷ [])
            false
            n
            se
            (notify_up_to usize_max st)
        × (woken ev ≡ woken_up_to usize_max st (woken c.stream_ops))
  unfolding do_send
  do_send-open msg c xs n se st h =
      let (q, pushed, stands) = Q.push-open msg c.queue xs n h.queue in
      let (ev, told, log, listeners) =
        notify-Stands usize_max c.stream_ops st h.stream_ops (omega arith) in
      (
        q,
        ev,
        bind_some (Q.push msg c.queue) _ (ok tt, q) _ pushed
            (bind_some (Listener.notify usize_max c.stream_ops) _ ev _ told refl),
        record { queue = stands; send_ops = h.send_ops; stream_ops = listeners },
        log,
      )

  -- A closed channel gives the message of `do_send` back and stays as it is.
  pub do_send-closed :
      (msg : T) (c : Chan Q) (xs : List T) (n : ℕ) (se st : View)
      → Holds c xs true n se st
      → do_send Q msg c ≡ some (err msg, c)
  unfolding do_send
  do_send-closed msg c xs n se st h =
      bind_some (Q.push msg c.queue) _ (err msg, c.queue) _ (Q.push-closed msg c.queue xs n h.queue)
        refl

  -- the senders that are told when a message is taken out
  abbrev pub told_room : Chan Q → View → View
  told_room c se = if leb c.in_queue c.cap then notify_up_to 1 se else se

  notify_room :
      (room : Bool) (ev : Event) (se : View)
      → Stands ev se
      → (ev' : Event) × ((if room then Listener.notify 1 ev else some ev) ≡ some ev')
        × Stands ev' (if room then notify_up_to 1 se else se)
  notify_room true ev se h =
      let (ev', told, log, stands) = notify-Stands 1 ev se h (omega arith) in (ev', told, stands)
  notify_room false ev se h = (ev, refl, h)

  -- `try_recv` takes the oldest message out, also of a closed channel, counts the counter down by
  -- one modulo 2⁶⁴, and notifies a waiting sender unless the counter was above the capacity.
  pub try_recv-some :
      (x : T) (c : Chan Q) (xs : List T) (closed : Bool) (n : ℕ) (se st : View)
      → Holds c (x ∷ xs) closed n se st
      → (q : Q.Queue) × (ev : Event) × (try_recv Q c
          ≡ some (ok x, record c { queue = q; send_ops = ev; in_queue = wrapping_dec c.in_queue }))
        × Holds
            (record c { queue = q; send_ops = ev; in_queue = wrapping_dec c.in_queue })
            xs
            closed
            n
            (told_room c se)
            st
  unfolding try_recv dequeue
  try_recv-some x c xs closed n se st h =
      let (q, popped, stands) = Q.pop-some x c.queue xs closed n h.queue in
      let (ev, told, listeners) = notify_room (leb c.in_queue c.cap) c.send_ops se h.send_ops in
      (
        q,
        ev,
        bind_some (Q.pop c.queue) _ (ok x, q) _ popped
            (bind_some
              (if leb c.in_queue c.cap then Listener.notify 1 c.send_ops else some c.send_ops) _ ev
              _ told refl),
        record { queue = stands; send_ops = listeners; stream_ops = h.stream_ops },
      )

  -- Without a message `try_recv` says whether the channel is closed, and leaves it as it is.
  pub try_recv-none :
      (c : Chan Q) (closed : Bool) (n : ℕ) (se st : View)
      → Holds c [] closed n se st
      → try_recv Q c ≡ some (err (if closed then TryRecvError.closed else TryRecvError.empty), c)
  unfolding try_recv
  try_recv-none c closed n se st h =
      bind_some (Q.pop c.queue) _ _ _ (Q.pop-none c.queue closed n h.queue) refl

  -- The first `close` notifies and wakes all senders and receivers that listen; the messages stay.
  pub close-open :
      (c : Chan Q) (xs : List T) (n : ℕ) (se st : View)
      → Holds c xs false n se st
      → (c' : Chan Q) × (close Q c ≡ some (true, c'))
        × Holds c' xs true n (notify_up_to usize_max se) (notify_up_to usize_max st)
        × (c'.in_queue ≡ c.in_queue)
        × (c'.cap ≡ c.cap)
        × (woken c'.send_ops ≡ woken_up_to usize_max se (woken c.send_ops))
        × (woken c'.stream_ops ≡ woken_up_to usize_max st (woken c.stream_ops))
        × (c'.sender_count ≡ c.sender_count)
        × (c'.receiver_count ≡ c.receiver_count)
  unfolding close
  close-open c xs n se st h =
      let (q, shut, stands) = Q.close-Stands c.queue xs false n h.queue in
      let (s, s_told, s_log, s_stands) =
        notify-Stands usize_max c.send_ops se h.send_ops (omega arith) in
      let (r, r_told, r_log, r_stands) =
        notify-Stands usize_max c.stream_ops st h.stream_ops (omega arith) in
      (
        record c { queue = q; send_ops = s; stream_ops = r },
        ap (λ x. after_close Q x c) shut
            ∙ bind_some (Listener.notify usize_max c.send_ops) _ s _ s_told
                (bind_some (Listener.notify usize_max c.stream_ops) _ r _ r_told refl),
        record { queue = stands; send_ops = s_stands; stream_ops = r_stands },
        refl,
        refl,
        s_log,
        r_log,
        refl,
        refl,
      )

  -- A second `close` says so and does nothing to the messages and the listeners.
  pub close-closed :
      (c : Chan Q) (xs : List T) (n : ℕ) (se st : View)
      → Holds c xs true n se st
      → (q : Q.Queue) × (close Q c ≡ some (false, record c { queue = q }))
        × Holds (record c { queue = q }) xs true n se st
  unfolding close
  close-closed c xs n se st h =
      let (q, shut, stands) = Q.close-Stands c.queue xs true n h.queue in
      (
        q,
        ap (λ x. after_close Q x c) shut,
        record { queue = stands; send_ops = h.send_ops; stream_ops = h.stream_ops },
      )
