-- ===== src/Channel/Receive.antt =====
-- actix-async/src/util/async_channel/mod.rs: `Receiver::poll_next`, and a receiver that waits.
use actix_async.Prelude.{
  bind_some, ℕ, zero, suc, ◌-◌, ◌≤◌, ◌≡◌, refl, ◌∙◌, ap, Bool, true, false, Option, none, some,
  List, [], ◌∷◌, ◌++◌, length, length-append, take, drop, contains, Poll, ready, pending, ok, err,
  arith,
}
use actix_async.Listener.{State, created, notified, polling, Event, usize_max}
use actix_async.Listener
use actix_async.Listener.Segments.{Items}
use actix_async.Listener.View.{View, items}
use actix_async.Listener.Notify.{mark, wakes}
use actix_async.Listener.Refine.{notify_up_to, woken_up_to}
use actix_async.Listener.Events.{Stands, woken, listen-Stands, poll-waiting}
use actix_async.Channel.{
  Chan, poll_listener, try_recv, clear_listener, recv_loop, poll_next, wrapping_dec,
}
use actix_async.Channel.Queue.{QueueOps, TryRecvError}
use actix_async.Channel.State.{Holds, try_recv-some, try_recv-none, told_room}

take-all {ℓ} : {A : Type ℓ} (n : ℕ) (xs : List A) → length xs ≤ n → take n xs ≡ xs
take-all zero [] h = refl
take-all (suc n) [] h = refl
take-all zero (x ∷ xs) h = absurd (omega arith)
take-all (suc n) (x ∷ xs) h = ap (λ ys. x ∷ ys) (take-all n xs (omega arith))

drop-all {ℓ} : {A : Type ℓ} (n : ℕ) (xs : List A) → length xs ≤ n → drop n xs ≡ []
drop-all zero [] h = refl
drop-all (suc n) [] h = refl
drop-all zero (x ∷ xs) h = absurd (omega arith)
drop-all (suc n) (x ∷ xs) h = drop-all n xs (omega arith)

pub mark-append : (b : Bool) (xs ys : Items) → mark b (xs ++ ys) ≡ mark b xs ++ mark b ys
mark-append b [] ys = refl
mark-append b ((a, s) ∷ xs) ys = ap (λ zs. (a, notified b) ∷ zs) (mark-append b xs ys)

-- The last listener of the queue is woken when all are.
pub contains-wakes :
    (a w : ℕ) (xs : Items) (log : List ℕ)
    → contains (wakes (xs ++ (a, polling w) ∷ []) log) w ≡ true
contains-wakes a w [] log = ground arith
contains-wakes a w ((b, s) ∷ xs) log = contains-wakes a w xs (Listener.wake s log)

-- the queue once everybody in it has been notified
abbrev pub all_told : View → View
all_told v = record { done = v.done ++ mark false v.waiting; waiting = [] }

pub notify_all : (v : View) → length (items v) ≤ usize_max → notify_up_to usize_max v ≡ all_told v
notify_all v h =
    let k = usize_max - length v.done in
    let l : length v.waiting ≤ k = omega (arith, length-append v.done v.waiting) in
    λ i. record {
      done = v.done ++ mark false (take-all k v.waiting l i);
      waiting = drop-all k v.waiting l i;
    }

pub wakes_all :
    (v : View) (log : List ℕ)
    → length (items v) ≤ usize_max
    → woken_up_to usize_max v log ≡ wakes v.waiting log
wakes_all v log h =
    ap (λ xs. wakes xs log)
      (take-all (usize_max - length v.done) v.waiting
        (omega (arith, length-append v.done v.waiting)))

-- A receiver with the waker `w` in the entry `a`, behind all others
abbrev pub joined_by : View → ℕ → ℕ → View
joined_by v a w = record v { waiting = v.waiting ++ (a, polling w) ∷ [] }

module _ {ℓ} {T : Type ℓ} (Q : QueueOps T) where
  module _ (f w : ℕ) (c : Chan Q) where
    pub recv_got :
        (l : Option ℕ) (x : T) (c1 c2 : Chan Q)
        → try_recv Q c ≡ some (ok x, c1)
        → clear_listener Q l c1 ≡ some c2
        → recv_loop Q (suc f) w l c ≡ some (ready (some x), none, c2)
    unfolding recv_loop
    recv_got l x c1 c2 h k =
        bind_some (try_recv Q c) _ (ok x, c1) _ h (bind_some (clear_listener Q l c1) _ c2 _ k refl)

    pub recv_ends :
        (l : Option ℕ) (c1 c2 : Chan Q)
        → try_recv Q c ≡ some (err TryRecvError.closed, c1)
        → clear_listener Q l c1 ≡ some c2
        → recv_loop Q (suc f) w l c ≡ some (ready none, none, c2)
    unfolding recv_loop
    recv_ends l c1 c2 h k =
        bind_some (try_recv Q c) _ (err TryRecvError.closed, c1) _ h
          (bind_some (clear_listener Q l c1) _ c2 _ k refl)

    recv_listens :
        (a : ℕ) (ev : Event)
        → try_recv Q c ≡ some (err TryRecvError.empty, c)
        → Listener.listen c.stream_ops ≡ some (a, ev)
        → recv_loop Q (suc f) w none c ≡ recv_loop Q f w (some a) (record c { stream_ops = ev })
    unfolding recv_loop
    recv_listens a ev h k =
        bind_some (try_recv Q c) _ (err TryRecvError.empty, c) _ h
          (bind_some (Listener.listen c.stream_ops) _ (a, ev) _ k refl)

    recv_pends :
        (a : ℕ) (l : Option ℕ) (ev : Event)
        → try_recv Q c ≡ some (err TryRecvError.empty, c)
        → poll_listener w a c.stream_ops ≡ some (pending, l, ev)
        → recv_loop Q (suc f) w (some a) c ≡ some (pending, some a, record c { stream_ops = ev })
    unfolding recv_loop
    recv_pends a l ev h k =
        bind_some (try_recv Q c) _ (err TryRecvError.empty, c) _ h
          (bind_some (poll_listener w a c.stream_ops) _ (pending, l, ev) _ k refl)

  pub clear_none : (c : Chan Q) → clear_listener Q none c ≡ some c
  unfolding clear_listener Listener.drop_listener
  clear_none c = refl

  -- What a poll of an empty, open channel leaves behind.
  pub record Parked (w : ℕ) (c : Chan Q) (st : View)
      (r : Option (Poll (Option T) × Option ℕ × Chan Q)) : Type ℓ where
    pub entry : ℕ
    pub ev : Event
    pub result : r ≡ some (pending, some entry, record c { stream_ops = ev })
    pub stands : Stands ev (joined_by st entry w)
    pub silent : woken ev ≡ woken c.stream_ops

  -- A poll of an empty, open channel by a receiver that does not listen is pending: the receiver
  -- listens behind all others, with the waker of its task; all else stays as it is.
  pub poll_next-empty :
      (w : ℕ) (c : Chan Q) (n : ℕ) (se st : View)
      → Holds Q c [] false n se st
      → Parked w c st (poll_next Q w none c)
  unfolding poll_next
  poll_next-empty w c n se st h =
      let (a, ev, heard, away, quiet, stands) = listen-Stands c.stream_ops st h.stream_ops in
      let (ev', polled, quiet', stands') =
        poll-waiting w ev a created st.done st.waiting [] stands in
      let h1 : Holds Q (record c { stream_ops = ev }) [] false n se _ = record {
        queue = h.queue;
        send_ops = h.send_ops;
        stream_ops = stands;
      } in
      record {
        entry = a;
        ev = ev';
        result =
            recv_listens 3 w c a ev (try_recv-none Q c false n se st h) heard
            ∙ recv_pends 2 w (record c { stream_ops = ev }) a (some a) ev'
                (try_recv-none Q _ false n se _ h1) polled;
        stands = stands';
        silent = quiet' ∙ quiet;
      }

  -- The queue and the counter behind a poll that received `x`.
  abbrev pub Received :
      T
      → Chan Q
      → List T
      → Bool
      → ℕ
      → View
      → View
      → Option (Poll (Option T) × Option ℕ × Chan Q)
      → Type ℓ
  Received x c xs closed n se st r =
      (c' : Chan Q) × (r ≡ some (ready (some x), none, c'))
      × Holds Q c' xs closed n se st
      × (c'.in_queue ≡ wrapping_dec c.in_queue)

  -- A poll by a receiver that does not listen is ready with the oldest message, of an open or a
  -- closed channel; it counts the message out and tells a sender of the room.
  pub poll_next-some :
      (w : ℕ) (x : T) (c : Chan Q) (xs : List T) (closed : Bool) (n : ℕ) (se st : View)
      → Holds Q c (x ∷ xs) closed n se st
      → Received x c xs closed n (told_room Q c se) st (poll_next Q w none c)
  unfolding poll_next
  poll_next-some w x c xs closed n se st h =
      let (q, ev, took, holds) = try_recv-some Q x c xs closed n se st h in
      (_, recv_got 3 w c none x _ _ took (clear_none _), holds, refl)

  -- A poll of an empty, closed channel says that the stream has ended, and leaves it as it is.
  pub poll_next-closed :
      (w : ℕ) (c : Chan Q) (n : ℕ) (se st : View)
      → Holds Q c [] true n se st
      → poll_next Q w none c ≡ some (ready none, none, c)
  unfolding poll_next
  poll_next-closed w c n se st h =
      recv_ends 3 w c none c c (try_recv-none Q c true n se st h) (clear_none c)
