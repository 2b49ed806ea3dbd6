-- ===== src/Channel/Send.antt =====
-- actix-async/src/util/async_channel/mod.rs: `SendFuture::poll` on every path.
use actix_async.Prelude.{
  ℕ, suc, ◌+◌, ◌≤◌, ◌<◌, ◌≡◌, refl, subst, ◌∙◌, ◌⊎◌, inl, inr, Bool, ==_iff, lt→ltb, le→ltb, Option,
  none, some, List, [], ◌∷◌, ◌++◌, Poll, ready, pending, Result, ◌>>=◌, bind_some,
}
use actix_async.Error.{ActixAsyncError}
use actix_async.Listener.{State, polling, created, Event, usize_max}
use actix_async.Listener
use actix_async.Listener.Segments.{Items}
use actix_async.Listener.View.{View}
use actix_async.Listener.Events.{Stands, woken, listen-Stands, poll-waiting, poll-done}
use actix_async.Channel.{Chan, SendFuture, poll_listener, send_counted, send_loop, send_poll}
use actix_async.Channel.Queue.{QueueOps}
use actix_async.Channel.State.{Holds}

-- An entry of the queue of listeners, with those before and behind it.
pub record Waits (v : View) (a : ℕ) : Type 0 where
  pub state : State
  pub before : Items
  pub after : Items
  pub place : v ≡ record { done = v.done; waiting = before ++ (a, state) ∷ after }

pub record IsNotified (v : View) (a : ℕ) : Type 0 where
  pub state : State
  pub before : Items
  pub after : Items
  pub place : v ≡ record { done = before ++ (a, state) ∷ after; waiting = v.waiting }

-- The listener of a future stands in the queue.
abbrev pub Listens : View → Option ℕ → Type 0
Listens v none = Unit
Listens v (some a) = Waits v a ⊎ IsNotified v a

-- A poll that ends with the task waiting, its waker `w` in the entry `a`.
abbrev pub parked : View → ℕ → ℕ → View
parked v a w = record v { waiting = v.waiting ++ (a, polling w) ∷ [] }

module _ {ℓ} {T : Type ℓ} (Q : QueueOps T) where
  module _ (fuel w cur : ℕ) (l : Option ℕ) (msg : T) (c : Chan Q) where
    pub loop_counts :
        cur < c.cap
        → c.in_queue ≡ cur
        → send_loop Q (suc fuel) w cur l msg c
          ≡ send_counted Q cur l msg (record c { in_queue = cur + 1 })
    unfolding send_loop
    loop_counts h e =
        rw (lt→ltb cur c.cap h, send_loop) (rw ((==_iff c.in_queue cur).1 e, send_loop) refl)

  module _ (fuel w cur : ℕ) (msg : T) (c : Chan Q) where
    loop_listens :
        c.cap ≤ cur
        → send_loop Q (suc fuel) w cur none msg c ≡ (
            Listener.listen c.send_ops >>= λ r.
            send_loop Q fuel w cur (some r.0) msg (record c { send_ops = r.1 }))
    unfolding send_loop
    loop_listens h = rw (le→ltb cur c.cap h, send_loop) refl

    loop_pends :
        (a : ℕ) (l' : Option ℕ) (ev : Event)
        → c.cap ≤ cur
        → poll_listener w a c.send_ops ≡ some (pending, l', ev)
        → send_loop Q (suc fuel) w cur (some a) msg c
          ≡ some (pending, record { listener = some a; msg = some msg }, record c { send_ops = ev })
    unfolding send_loop
    loop_pends a l' ev h e =
        rw (le→ltb cur c.cap h, send_loop)
          (bind_some (poll_listener w a c.send_ops) _ (pending, l', ev) _ e refl)

    loop_wakes :
        (a : ℕ) (l' : Option ℕ) (ev : Event)
        → c.cap ≤ cur
        → poll_listener w a c.send_ops ≡ some (ready tt, l', ev)
        → send_loop Q (suc fuel) w cur (some a) msg c
          ≡ send_loop Q fuel w cur none msg (record c { send_ops = ev })
    unfolding send_loop
    loop_wakes a l' ev h e =
        rw (le→ltb cur c.cap h, send_loop)
          (bind_some (poll_listener w a c.send_ops) _ (ready tt, l', ev) _ e refl)

  -- What a poll that ends pending leaves behind: the future listens in the entry `a`, whose waker
  -- is that of the task; the messages, the counter and the receivers are as they were.
  pub record Parked (w : ℕ) (msg : T) (c : Chan Q)
      (r : Option (Poll (Result (Unit {0}) ActixAsyncError) × SendFuture T × Chan Q)) : Type ℓ where
    pub entry : ℕ
    pub ev : Event
    pub before : Items
    pub after : Items
    pub done : Items
    pub result :
        r
        ≡ some
            (pending, record { listener = some entry; msg = some msg }, record c { send_ops = ev })
    pub waits : Stands ev (record { done = done; waiting = before ++ (entry, polling w) ∷ after })
    pub silent : woken ev ≡ woken c.send_ops

  -- Without a listener a future that takes the channel for full starts to listen, and does not look
  -- at the counter again.
  pub full-none :
      (fuel w cur : ℕ) (msg : T) (c : Chan Q) (se : View)
      → c.cap ≤ cur
      → Stands c.send_ops se
      → Parked w msg c (send_loop Q (suc (suc fuel)) w cur none msg c)
  full-none fuel w cur msg c se h s =
      let (a, ev, heard, away, quiet, stands) = listen-Stands c.send_ops se s in
      let (ev', polled, quiet', stands') =
        poll-waiting w ev a created se.done se.waiting [] stands in
      record {
        entry = a;
        ev = ev';
        before = se.waiting;
        after = [];
        done = se.done;
        result =
            loop_listens (suc fuel) w cur msg c h
            ∙ bind_some (Listener.listen c.send_ops) _ (a, ev) _ heard
                (loop_pends fuel w cur msg (record c { send_ops = ev }) a (some a) ev' h polled);
        waits = stands';
        silent = quiet' ∙ quiet;
      }

  -- With a listener it keeps it until it is notified, and then listens anew.
  pub full-some :
      (fuel w cur a : ℕ) (msg : T) (c : Chan Q) (se : View)
      → c.cap ≤ cur
      → Stands c.send_ops se
      → Listens se (some a)
      → Parked w msg c (send_loop Q (suc (suc (suc fuel))) w cur (some a) msg c)
  full-some fuel w cur a msg c se h s (inl p) =
      let (ev, polled, quiet, stands) =
        poll-waiting w c.send_ops a p.state se.done p.before p.after
          (subst (Stands c.send_ops) p.place s) in
      record {
        entry = a;
        ev = ev;
        before = p.before;
        after = p.after;
        done = se.done;
        result = loop_pends (suc (suc fuel)) w cur msg c a (some a) ev h polled;
        waits = stands;
        silent = quiet;
      }
  full-some fuel w cur a msg c se h s (inr p) =
      let (ev, polled, quiet, stands) =
        poll-done w c.send_ops a p.state p.before p.after se.waiting
          (subst (Stands c.send_ops) p.place s) in
      let again = full-none fuel w cur msg (record c { send_ops = ev }) _ h stands in
      record {
        entry = again.entry;
        ev = again.ev;
        before = again.before;
        after = again.after;
        done = again.done;
        result = loop_wakes (suc (suc fuel)) w cur msg c a none ev h polled ∙ again.result;
        waits = again.waits;
        silent = again.silent ∙ quiet;
      }

  full_loop :
      (w : ℕ) (l : Option ℕ) (msg : T) (c : Chan Q) (se : View)
      → c.cap ≤ c.in_queue
      → Stands c.send_ops se
      → Listens se l
      → Parked w msg c (send_loop Q 5 w c.in_queue l msg c)
  full_loop w none msg c se h s p = full-none 3 w c.in_queue msg c se h s
  full_loop w (some a) msg c se h s p = full-some 2 w c.in_queue a msg c se h s p

  -- A poll that finds the counter at the capacity is pending, whether the channel is open or closed:
  -- the task's waker is in the entry of the future's listener.
  pub send_poll-full :
      (w : ℕ) (l : Option ℕ) (msg : T) (c : Chan Q) (xs : List T) (closed : Bool) (n : ℕ)
      (se st : View)
      → Holds Q c xs closed n se st
      → Listens se l
      → c.cap ≤ c.in_queue
      → Parked w msg c (send_poll Q w (record { listener = l; msg = some msg }) c)
  unfolding send_poll
  send_poll-full w l msg c xs closed n se st h p full = full_loop w l msg c se full h.send_ops p
