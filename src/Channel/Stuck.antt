-- ===== src/Channel/Stuck.antt =====
-- actix-async/src/util/async_channel/mod.rs: a sender that looked at the counter before a receiver
-- took a message out, and listens after it. `SendFuture::poll` reads `in_queue` once, before its
-- loop; the code behind that read is `send_loop`, which is run here after a `try_recv`.
use actix_async.Prelude.{ℕ, ◌≡◌, refl, false, none, some, [], ◌∷◌, pending, ok, arith}
use actix_async.Listener.View.{View}
use actix_async.Listener.Events.{woken}
use actix_async.Channel.{Chan, wrapping_dec, send_loop, send_rounds, try_recv, poll_next}
use actix_async.Channel.Queue.{QueueOps}
use actix_async.Channel.State.{Holds, try_recv-some, told_room}
use actix_async.Channel.Send.{full-none}
use actix_async.Channel.Receive.{poll_next-empty}

module _ {ℓ} {T : Type ℓ} (Q : QueueOps T) where
  -- On a channel of capacity 1 that holds one counted message, a sender reads the counter, and then
  -- the receiver takes the message out. The sender goes on with the counter that it read: it is
  -- pending and listens, although the channel is empty, open, and has its whole capacity free. The
  -- receiver's next poll is pending too, and wakes no sender: both wait for the other.
  pub sender_misses_room :
      (w w' : ℕ) (x msg : T) (c : Chan Q) (n : ℕ) (se st : View)
      → Holds Q c (x ∷ []) false n se st
      → c.cap ≡ 1
      → c.in_queue ≡ 1
      → (a b : ℕ) × (c1 c2 c3 : Chan Q) × (try_recv Q c ≡ some (ok x, c1))
        × (c1.in_queue ≡ 0)
        × (send_loop Q (send_rounds Q) w c.in_queue none msg c1
            ≡ some (pending, record { listener = some a; msg = some msg }, c2))
        × (poll_next Q w' none c2 ≡ some (pending, some b, c3))
        × (c3.in_queue ≡ 0)
        × (c3.cap ≡ 1)
        × (woken c3.send_ops ≡ woken c1.send_ops)
  sender_misses_room w w' x msg c n se st h single counted =
      let (q, ev, took, holds) = try_recv-some Q x c [] false n se st h in
      let c1 : Chan Q = record c { queue = q; send_ops = ev; in_queue = wrapping_dec c.in_queue } in
      let none_left : wrapping_dec c.in_queue ≡ 0 = rw counted refl in
      let p = full-none Q 3 w c.in_queue msg c1 (told_room Q c se) (omega arith) holds.send_ops in
      let c2 : Chan Q = record c1 { send_ops = p.ev } in
      let r =
        poll_next-empty Q w' c2 n _ st
          (record { queue = holds.queue; send_ops = p.waits; stream_ops = holds.stream_ops }) in
      (
        p.entry,
        r.entry,
        c1,
        c2,
        record c2 { stream_ops = r.ev },
        took,
        none_left,
        p.result,
        r.result,
        none_left,
        single,
        p.silent,
      )
