-- ===== src/Channel/Moves.antt =====
-- actix-async/src/util/async_channel/mod.rs: do_send, try_recv and close do what the mailbox does.
use actix_async.Prelude.{
  ℕ, suc, ◌≡◌, refl, ap, ◌∙◌, Bool, true, false, Option, some, List, [], ◌∷◌, bind_some,
}
use actix_async.Listener.View.{View}
use actix_async.Channel.{Chan, wrapping_dec, do_send, try_recv, close}
use actix_async.Channel.Queue.{QueueOps}
use actix_async.Channel.State.{
  Holds, do_send-open, do_send-closed, try_recv-some, try_recv-none, close-open, close-closed,
}
use actix_async.Channel.Mailbox.{do_sends, receives, closes, Reply, Mailbox, answer, step}

module _ {ℓ} {T : Type ℓ} (Q : QueueOps T) where
  -- The channel stands for the mailbox, whoever listens, with index space for `n` more messages.
  pub record Is (c : Chan Q) (m : Mailbox T) (n : ℕ) : Type ℓ where
    pub se : View
    pub st : View
    pub holds : Holds Q c m.messages m.closed n se st
    pub counter : c.in_queue ≡ m.counter
    pub cap : c.cap ≡ m.cap

  abbrev pub Does : Reply T × Mailbox T → ℕ → Option (Reply T × Chan Q) → Type ℓ
  Does (r, m) n o = (c : Chan Q) × (o ≡ some (r, c)) × Is c m n

  pub spend :
      (c : Chan Q) (xs : List T) (closed : Bool) (n : ℕ) (se st : View)
      → Holds Q c xs closed (suc n) se st
      → Holds Q c xs closed n se st
  spend c xs closed n se st h = record {
    queue = Q.Stands-spend c.queue xs closed n h.queue;
    send_ops = h.send_ops;
    stream_ops = h.stream_ops;
  }

  pub do_send-Does :
      (msg : T) (c : Chan Q) (xs : List T) (closed : Bool) (k room n : ℕ)
      → (let m : Mailbox T = record { messages = xs; closed = closed; counter = k; cap = room } in
          Is c m (suc n) → Does (answer (do_sends msg) m) n (step Q (do_sends msg) c))
  unfolding answer step
  do_send-Does msg c xs false k room n i =
      let (q, ev, took, holds, log) = do_send-open Q msg c xs n i.se i.st i.holds in
      (
        _,
        bind_some (do_send Q msg c) _ _ _ took refl,
        record { se = i.se; st = _; holds = holds; counter = i.counter; cap = i.cap },
      )
  do_send-Does msg c xs true k room n i = (
    c,
    bind_some (do_send Q msg c) _ _ _ (do_send-closed Q msg c xs (suc n) i.se i.st i.holds) refl,
    record {
      se = i.se;
      st = i.st;
      holds = spend c xs true n i.se i.st i.holds;
      counter = i.counter;
      cap = i.cap;
    },
  )

  pub receive-Does :
      (c : Chan Q) (xs : List T) (closed : Bool) (k room n : ℕ)
      → (let m : Mailbox T = record { messages = xs; closed = closed; counter = k; cap = room } in
          Is c m (suc n) → Does (answer receives m) n (step Q receives c))
  unfolding answer step
  receive-Does c [] false k room n i = (
    c,
    bind_some (try_recv Q c) _ _ _ (try_recv-none Q c false (suc n) i.se i.st i.holds) refl,
    record {
      se = i.se;
      st = i.st;
      holds = spend c [] false n i.se i.st i.holds;
      counter = i.counter;
      cap = i.cap;
    },
  )
  receive-Does c [] true k room n i = (
    c,
    bind_some (try_recv Q c) _ _ _ (try_recv-none Q c true (suc n) i.se i.st i.holds) refl,
    record {
      se = i.se;
      st = i.st;
      holds = spend c [] true n i.se i.st i.holds;
      counter = i.counter;
      cap = i.cap;
    },
  )
  receive-Does c (x ∷ xs) closed k room n i =
      let (q, ev, took, holds) = try_recv-some Q x c xs closed (suc n) i.se i.st i.holds in
      (
        _,
        bind_some (try_recv Q c) _ _ _ took refl,
        record {
          se = _;
          st = i.st;
          holds = spend _ xs closed n _ i.st holds;
          counter = ap wrapping_dec i.counter;
          cap = i.cap;
        },
      )

  pub close-Does :
      (c : Chan Q) (xs : List T) (closed : Bool) (k room n : ℕ)
      → (let m : Mailbox T = record { messages = xs; closed = closed; counter = k; cap = room } in
          Is c m (suc n) → Does (answer closes m) n (step Q closes c))
  unfolding answer step
  close-Does c xs false k room n i =
      let (c', done, holds, counted, capped, _, _, _, _) =
        close-open Q c xs (suc n) i.se i.st i.holds in
      (
        c',
        bind_some (close Q c) _ _ _ done refl,
        record {
          se = _;
          st = _;
          holds = spend c' xs true n _ _ holds;
          counter = counted ∙ i.counter;
          cap = capped ∙ i.cap;
        },
      )
  close-Does c xs true k room n i =
      let (q, done, holds) = close-closed Q c xs (suc n) i.se i.st i.holds in
      (
        _,
        bind_some (close Q c) _ _ _ done refl,
        record {
          se = i.se;
          st = i.st;
          holds = spend _ xs true n i.se i.st holds;
          counter = i.counter;
          cap = i.cap;
        },
      )
