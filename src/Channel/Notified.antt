-- ===== src/Channel/Notified.antt =====
-- actix-async/src/util/async_channel/mod.rs: a poll of a receiver that need not wait first, since it
-- does not listen, or since its listener has been notified.
use actix_async.Prelude.{
  bind_some, ℕ, ◌≡◌, Bool, true, Option, none, some, List, [], ◌∷◌, ◌++◌, ready,
}
use actix_async.Listener.{State}
use actix_async.Listener.Segments.{Items}
use actix_async.Listener.View.{View}
use actix_async.Listener.Events.{poll-done}
use actix_async.Channel.{Chan, poll_listener, poll_next}
use actix_async.Channel.Queue.{QueueOps}
use actix_async.Channel.State.{Holds, try_recv-some, try_recv-none, told_room}
use actix_async.Channel.Receive.{recv_got, recv_ends, clear_none, poll_next-some, poll_next-closed}

-- The listener of a receiver among those in the first view, which need not wait: there is none, or
-- it was notified. The second view has the others.
pub data IsFree : Option ℕ → View → View → Type 0 where
  idle : (st : View) → IsFree none st st
  told :
      (a : ℕ) (s : State) (ys zs ws : Items)
      → IsFree
          (some a)
          (record { done = ys ++ (a, s) ∷ zs; waiting = ws })
          (record { done = ys ++ zs; waiting = ws })

module _ {ℓ} {T : Type ℓ} (Q : QueueOps T) where
  -- It takes the oldest message of an open or a closed channel, tells a sender of the room, and
  -- listens no more.
  pub free_receives :
      (w : ℕ) (l : Option ℕ) (x : T) (c : Chan Q) (xs : List T) (closed : Bool) (n : ℕ)
      (se st st' : View)
      → Holds Q c (x ∷ xs) closed n se st
      → IsFree l st st'
      → (c' : Chan Q) × (poll_next Q w l c ≡ some (ready (some x), none, c'))
        × Holds Q c' xs closed n (told_room Q c se) st'
  unfolding poll_next
  free_receives w none x c xs closed n se _ _ h (idle st) =
      let (c', took, holds, counted) = poll_next-some Q w x c xs closed n se st h in
      (c', took, holds)
  free_receives w (some _) x c xs closed n se _ _ h (told a s ys zs ws) =
      let (ev, polled, quiet, stands) = poll-done w c.stream_ops a s ys zs ws h.stream_ops in
      let c1 : Chan Q = record c { stream_ops = ev } in
      let (q, sends, took, holds) =
        try_recv-some Q x c1 xs closed n se _
          (record { queue = h.queue; send_ops = h.send_ops; stream_ops = stands }) in
      (
        _,
        bind_some (poll_listener w a c.stream_ops) _ (ready tt, none, ev) _ polled
            (recv_got Q 3 w c1 none x _ _ took (clear_none Q _)),
        holds,
      )

  -- Of an empty, closed channel it says that the stream has ended, and listens no more.
  pub free_ends :
      (w : ℕ) (l : Option ℕ) (c : Chan Q) (n : ℕ) (se st st' : View)
      → Holds Q c [] true n se st
      → IsFree l st st'
      → (c' : Chan Q) × (poll_next Q w l c ≡ some (ready none, none, c'))
        × Holds Q c' [] true n se st'
  unfolding poll_next
  free_ends w none c n se _ _ h (idle st) = (c, poll_next-closed Q w c n se st h, h)
  free_ends w (some _) c n se _ _ h (told a s ys zs ws) =
      let (ev, polled, quiet, stands) = poll-done w c.stream_ops a s ys zs ws h.stream_ops in
      let c1 : Chan Q = record c { stream_ops = ev } in
      let h1 : Holds Q c1 [] true n se _ = record {
        queue = h.queue;
        send_ops = h.send_ops;
        stream_ops = stands;
      } in
      (
        c1,
        bind_some (poll_listener w a c.stream_ops) _ (ready tt, none, ev) _ polled
            (recv_ends Q 3 w c1 none c1 c1 (try_recv-none Q c1 true n se _ h1) (clear_none Q c1)),
        h1,
      )
