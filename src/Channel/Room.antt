-- ===== src/Channel/Room.antt =====
-- actix-async/src/util/async_channel/mod.rs: `SendFuture::poll` on a channel with room, and the
-- count of the messages.
use actix_async.Prelude.{
  ℕ, suc, ◌+◌, ◌-◌, ◌<◌, ◌≡◌, refl, ◌∙◌, Bool, true, false, ◌==◌, if◌then◌else◌, Option, none, some,
  List, [], ◌∷◌, ◌++◌, Poll, ready, Result, ok, err, bind_some, arith,
}
use actix_async.Error.{ActixAsyncError}
use actix_async.Listener.{Event, usize_max}
use actix_async.Listener
use actix_async.Listener.View.{View}
use actix_async.Listener.Refine.{notify_up_to, woken_up_to}
use actix_async.Listener.Events.{Stands, woken, notify-Stands}
use actix_async.Channel.{Chan, SendFuture, do_send, send_counted, send_poll}
use actix_async.Channel.Queue.{QueueOps}
use actix_async.Channel.State.{Holds, do_send-open, do_send-closed}
use actix_async.Channel.Send.{loop_counts}

-- Who is told by a send when `cur` messages were counted before it: the last free place is not
-- passed on.
abbrev pub told_next : ℕ → ℕ → View → View
told_next cap cur se = if cap - cur == 1 then se else notify_up_to 1 se

module _ {ℓ} {T : Type ℓ} (Q : QueueOps T) where
  notify_next :
      (last : Bool) (ev : Event) (se : View)
      → Stands ev se
      → (ev' : Event) × ((if last then some ev else Listener.notify 1 ev) ≡ some ev')
        × Stands ev' (if last then se else notify_up_to 1 se)
  notify_next true ev se h = (ev, refl, h)
  notify_next false ev se h =
      let (ev', told, log, stands) = notify-Stands 1 ev se h (omega arith) in (ev', told, stands)

  -- What a send that took place leaves behind.
  pub record Sent (msg : T) (l : Option ℕ) (c : Chan Q) (xs : List T) (n : ℕ) (se st : View)
      (r : Option (Poll (Result (Unit {0}) ActixAsyncError) × SendFuture T × Chan Q)) : Type ℓ where
    pub next : Chan Q
    pub result : r ≡ some (ready (ok tt), record { listener = l; msg = none }, next)
    pub holds :
        Holds Q next
          (xs ++ msg ∷ [])
          false
          n
          (told_next c.cap c.in_queue se)
          (notify_up_to usize_max st)
    pub counted : next.in_queue ≡ c.in_queue + 1
    pub capacity : next.cap ≡ c.cap
    pub senders : next.sender_count ≡ c.sender_count
    pub wakes : woken next.stream_ops ≡ woken_up_to usize_max st (woken c.stream_ops)

  -- A poll that finds an open channel with room is ready: the message is counted and put behind all
  -- others, every receiver that listens is woken, and a waiting sender is notified if there is room
  -- for more.
  pub send_poll-open :
      (w : ℕ) (l : Option ℕ) (msg : T) (c : Chan Q) (xs : List T) (n : ℕ) (se st : View)
      → Holds Q c xs false (suc n) se st
      → c.in_queue < c.cap
      → Sent msg l c xs n se st (send_poll Q w (record { listener = l; msg = some msg }) c)
  unfolding send_poll send_counted
  send_poll-open w l msg c xs n se st h room =
      let c1 : Chan Q = record c { in_queue = c.in_queue + 1 } in
      let (q, ev, sent, holds, log) =
        do_send-open Q msg c1 xs n se st
          (record { queue = h.queue; send_ops = h.send_ops; stream_ops = h.stream_ops }) in
      let (ev', told, stands) = notify_next (c.cap - c.in_queue == 1) c.send_ops se h.send_ops in
      record {
        next = record c1 { queue = q; stream_ops = ev; send_ops = ev' };
        result =
            loop_counts Q 4 w c.in_queue l msg c room refl
            ∙ bind_some (do_send Q msg c1) _ _ _ sent (
                bind_some
                  (if c.cap - c.in_queue == 1
                    then some c.send_ops
                    else Listener.notify 1 c.send_ops)
                  _ ev' _ told refl);
        holds = record { queue = holds.queue; send_ops = stands; stream_ops = holds.stream_ops };
        counted = refl;
        capacity = refl;
        senders = refl;
        wakes = log;
      }

  -- A poll that finds a closed channel with room fails with `Closed`, loses the message, and leaves
  -- the channel as it was, but for the counter, which it has counted up.
  pub send_poll-closed :
      (w : ℕ) (l : Option ℕ) (msg : T) (c : Chan Q) (xs : List T) (n : ℕ) (se st : View)
      → Holds Q c xs true n se st
      → c.in_queue < c.cap
      → send_poll Q w (record { listener = l; msg = some msg }) c
        ≡ some (
          ready (err ActixAsyncError.closed),
          record { listener = l; msg = none },
          record c { in_queue = c.in_queue + 1 },
        )
  unfolding send_poll send_counted
  send_poll-closed w l msg c xs n se st h room =
      let c1 : Chan Q = record c { in_queue = c.in_queue + 1 } in
      loop_counts Q 4 w c.in_queue l msg c room refl
      ∙ bind_some (do_send Q msg c1) _ (err msg, c1) _
          (do_send-closed Q msg c1 xs n se st
            (record { queue = h.queue; send_ops = h.send_ops; stream_ops = h.stream_ops }))
          refl
