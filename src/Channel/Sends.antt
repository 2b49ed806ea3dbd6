-- ===== src/Channel/Sends.antt =====
-- actix-async/src/util/async_channel/mod.rs: a send that gives up when it has to wait does what the
-- mailbox does, with room, without, and on a closed channel.
use actix_async.Prelude.{
  ℕ, suc, ◌+◌, ◌≤◌, ◌<◌, refl, ap, ◌∙◌, true, false, none, some, List, [], ◌∷◌, ◌++◌, bind_some,
  arith,
}
use actix_async.Listener
use actix_async.Listener.{polling}
use actix_async.Listener.Events.{drop_listener-waiting}
use actix_async.Channel.{Chan, send_poll, drop_send}
use actix_async.Channel.Queue.{QueueOps}
use actix_async.Channel.Send.{send_poll-full}
use actix_async.Channel.Room.{send_poll-open, send_poll-closed}
use actix_async.Channel.Mailbox.{sends, sent, refused, full, Mailbox, step}
use actix_async.Channel.Moves.{Is, Does}

module _ {ℓ} {T : Type ℓ} (Q : QueueOps T) where
  -- A future that does not find room listens, and is dropped: its listener leaves.
  pub send_full-Does :
      (w : ℕ) (msg : T) (c : Chan Q) (m : Mailbox T) (n : ℕ)
      → Is Q c m (suc n)
      → c.cap ≤ c.in_queue
      → Does Q (full, m) n (step Q (sends w msg) c)
  unfolding step drop_send
  send_full-Does w msg c m n i no_room =
      let p =
        send_poll-full Q w none msg c m.messages m.closed (suc n) i.se i.st i.holds tt no_room in
      let (ev, dropped, log, stands) =
        drop_listener-waiting p.ev p.entry (polling w) p.done p.before p.after p.waits in
      (
        record c { send_ops = ev },
        bind_some (send_poll Q w (record { listener = none; msg = some msg }) c) _ _ _ p.result (
            bind_some _ _ _ _
              (bind_some (Listener.drop_listener (some p.entry) p.ev) _ ev _ dropped refl) refl),
        record {
          se = _;
          st = i.st;
          holds = record {
            queue = Q.Stands-spend c.queue m.messages m.closed n i.holds.queue;
            send_ops = stands;
            stream_ops = i.holds.stream_ops;
          };
          counter = i.counter;
          cap = i.cap;
        },
      )

  pub send_open-Does :
      (w : ℕ) (msg : T) (c : Chan Q) (xs : List T) (k room n : ℕ)
      → (let m : Mailbox T = record { messages = xs; closed = false; counter = k; cap = room } in
          Is Q c m (suc n)
          → k < room
          → Does Q
              (sent, record m { counter = k + 1; messages = xs ++ msg ∷ [] })
              n
              (step Q (sends w msg) c))
  unfolding step drop_send
  send_open-Does w msg c xs k room n i h =
      let p =
        send_poll-open Q w none msg c xs n i.se i.st i.holds (omega (arith, i.counter, i.cap)) in
      (
        p.next,
        bind_some (send_poll Q w (record { listener = none; msg = some msg }) c) _ _ _ p.result (
            bind_some _ _ _ _
              (bind_some (Listener.drop_listener none p.next.send_ops) _ p.next.send_ops _
                (unfold Listener.drop_listener in refl) refl)
              refl),
        record {
          se = _;
          st = _;
          holds = p.holds;
          counter = p.counted ∙ ap (λ (x : ℕ). x + 1) i.counter;
          cap = p.capacity ∙ i.cap;
        },
      )

  pub send_closed-Does :
      (w : ℕ) (msg : T) (c : Chan Q) (xs : List T) (k room n : ℕ)
      → (let m : Mailbox T = record { messages = xs; closed = true; counter = k; cap = room } in
          Is Q c m (suc n)
          → k < room
          → Does Q (refused, record m { counter = k + 1 }) n (step Q (sends w msg) c))
  unfolding step drop_send
  send_closed-Does w msg c xs k room n i h = (
    record c { in_queue = c.in_queue + 1 },
    bind_some (send_poll Q w (record { listener = none; msg = some msg }) c) _ _ _
        (send_poll-closed Q w none msg c xs (suc n) i.se i.st i.holds
          (omega (arith, i.counter, i.cap)))
        (bind_some _ _ _ _
          (bind_some (Listener.drop_listener none c.send_ops) _ c.send_ops _
            (unfold Listener.drop_listener in refl) refl)
          refl),
    record {
      se = i.se;
      st = i.st;
      holds = record {
        queue = Q.Stands-spend c.queue xs true n i.holds.queue;
        send_ops = i.holds.send_ops;
        stream_ops = i.holds.stream_ops;
      };
      counter = ap (λ (x : ℕ). x + 1) i.counter;
      cap = i.cap;
    },
  )
