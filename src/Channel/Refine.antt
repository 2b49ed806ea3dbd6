-- ===== src/Channel/Refine.antt =====
-- actix-async/src/util/async_channel/mod.rs: the channel does what the mailbox promises.
use actix_async.Prelude.{
  ℕ, suc, ◌+◌, ◌-◌, ◌≤◌, ◌<◌, ◌≡◌, refl, subst, inl, inr, Bool, true, false, ltb, lt→ltb, ltb→lt,
  if◌then◌else◌, Bool-cases, some, List, [], ◌∷◌, ◌++◌, length, bind_some, arith,
}
use actix_async.Listener
use actix_async.Listener.{polling}
use actix_async.Listener.Events.{new-Stands}
use actix_async.Channel.{Chan, channel}
use actix_async.Channel.Queue.{QueueOps}
use actix_async.Channel.Mailbox.{
  Call, sends, do_sends, receives, closes, sent, refused, Mailbox, answer, answers, step, run,
  new_mailbox,
}
use actix_async.Channel.Moves.{Is, Does, do_send-Does, receive-Does, close-Does}
use actix_async.Channel.Sends.{send_full-Does, send_open-Does, send_closed-Does}

module _ {ℓ} {T : Type ℓ} (Q : QueueOps T) where
  send-Does :
      (w : ℕ) (msg : T) (c : Chan Q) (xs : List T) (closed : Bool) (k room n : ℕ)
      → (let m : Mailbox T = record { messages = xs; closed = closed; counter = k; cap = room } in
          Is Q c m (suc n) → Does Q (answer (sends w msg) m) n (step Q (sends w msg) c))
  unfolding answer
  send-Does w msg c xs closed k room n i = elim (Bool-cases (ltb k room)) [
    | inl e ↦ simp e (with_room closed i e)
    | inr e ↦ simp e (send_full-Does Q w msg c _ n i (ground (arith, i.counter, i.cap)))
  ]
    where
      with_room :
          (b : Bool)
          → Is Q c (record { messages = xs; closed = b; counter = k; cap = room }) (suc n)
          → ltb k room ≡ true
          → Does Q
              (if b
                then (refused, record { messages = xs; closed = b; counter = k + 1; cap = room })
                else (
                  sent,
                  record { messages = xs ++ msg ∷ []; closed = b; counter = k + 1; cap = room },
                ))
              n
              (step Q (sends w msg) c)
      with_room true j e = send_closed-Does Q w msg c xs k room n j (ltb→lt k room e)
      with_room false j e = send_open-Does Q w msg c xs k room n j (ltb→lt k room e)

  -- Each call is answered as the mailbox answers it, and never faults.
  pub step-Does :
      (k : Call T) (c : Chan Q) (m : Mailbox T) (n : ℕ)
      → Is Q c m (suc n)
      → Does Q (answer k m) n (step Q k c)
  step-Does (sends w msg) c m n i = send-Does w msg c m.messages m.closed m.counter m.cap n i
  step-Does (do_sends msg) c m n i = do_send-Does Q msg c m.messages m.closed m.counter m.cap n i
  step-Does receives c m n i = receive-Does Q c m.messages m.closed m.counter m.cap n i
  step-Does closes c m n i = close-Does Q c m.messages m.closed m.counter m.cap n i

  run-Does :
      (ks : List (Call T)) (c : Chan Q) (m : Mailbox T) (n : ℕ)
      → Is Q c m (length ks + n)
      → (c' : Chan Q) × (run Q ks c ≡ some ((answers ks m).0, c')) × Is Q c' (answers ks m).1 n
  unfolding run answers
  run-Does [] c m n i = (c, refl, subst (Is Q c m) (omega arith) i)
  run-Does (k ∷ ks) c m n i =
      let (c1, took, i1) = step-Does k c m (length ks + n) (subst (Is Q c m) (omega arith) i) in
      let (c2, ran, i2) = run-Does ks c1 (answer k m).1 n i1 in
      (c2, bind_some (step Q k c) _ _ _ took (bind_some (run Q ks c1) _ _ _ ran refl), i2)

  -- The channel refines its mailbox: a new channel with a capacity above 0 answers every sequence of
  -- `send`, `do_send`, `try_recv` and `close` as the mailbox does, and never faults, as long as the
  -- queue has index space for as many messages as there are calls.
  pub channel_refines :
      (ks : List (Call T)) (cap : ℕ)
      → 0 < cap
      → length ks ≤ Q.space
      → (c c' : Chan Q) × (channel Q cap ≡ some c)
        × (run Q ks c ≡ some ((answers ks (new_mailbox cap)).0, c'))
        × Is Q c' (answers ks (new_mailbox cap)).1 (Q.space - length ks)
  unfolding channel
  channel_refines ks cap positive fits =
      let c : Chan Q = record {
        queue = Q.new;
        in_queue = 0;
        cap = cap;
        send_ops = Listener.new;
        stream_ops = Listener.new;
        sender_count = 1;
        receiver_count = 1;
      } in
      let start : Is Q c (new_mailbox cap) Q.space = record {
        se = _;
        st = _;
        holds = record { queue = Q.new-Stands; send_ops = new-Stands; stream_ops = new-Stands };
        counter = refl;
        cap = refl;
      } in
      let (c', ran, is) =
        run-Does ks c (new_mailbox cap) (Q.space - length ks)
          (subst (Is Q c (new_mailbox cap)) (omega arith) start) in
      (c, c', rw (lt→ltb 0 cap positive), ran, is)
