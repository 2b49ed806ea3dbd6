-- ===== src/Channel/Wake.antt =====
-- actix-async/src/util/async_channel/mod.rs: a receiver that waits is woken by the next message.
use actix_async.Prelude.{
  ℕ, suc, ◌≤◌, ◌<◌, ◌≡◌, ◌∙◌, sym, ap, subst, true, false, none, some, [], ◌∷◌, ◌++◌, append_assoc,
  length, length-append, contains, ready, pending, ok, arith,
}
use actix_async.Listener.{notified, polling, usize_max}
use actix_async.Listener.View.{View, items}
use actix_async.Listener.Notify.{mark}
use actix_async.Listener.Events.{woken}
use actix_async.Channel.{Chan, do_send, poll_next}
use actix_async.Channel.Queue.{QueueOps}
use actix_async.Channel.Notified.{told, free_receives}
use actix_async.Channel.State.{Holds, do_send-open}
use actix_async.Channel.Receive.{
  notify_all, all_told, contains-wakes, mark-append, joined_by, poll_next-empty, wakes_all,
}

-- A receiver behind all others is the last of those that have been told.
told_last :
    (v : View) (a w : ℕ)
    → all_told (joined_by v a w)
      ≡ record { done = (v.done ++ mark false v.waiting) ++ (a, notified false) ∷ []; waiting = [] }
told_last v a w = λ i. record {
  done =
      (ap (λ xs. v.done ++ xs) (mark-append false v.waiting ((a, polling w) ∷ []))
          ∙ sym (append_assoc v.done (mark false v.waiting) ((a, notified false) ∷ [])))
        i;
  waiting = [];
}

module _ {ℓ} {T : Type ℓ} (Q : QueueOps T) where
  -- No wake-up of a receiver is lost: a receiver that polls an empty, open channel with fewer than
  -- 2⁶⁴ - 1 listeners is pending; a message that is then sent by `do_send` wakes its task; and its
  -- next poll, with any waker, is ready with that message.
  pub poll_next-do_send :
      (w w' : ℕ) (msg : T) (c : Chan Q) (n : ℕ) (se st : View)
      → Holds Q c [] false (suc n) se st
      → length (items st) < usize_max
      → (a : ℕ) × (c1 c2 c3 : Chan Q) × (poll_next Q w none c ≡ some (pending, some a, c1))
        × (do_send Q msg c1 ≡ some (ok tt, c2))
        × (contains (woken c2.stream_ops) w ≡ true)
        × (poll_next Q w' (some a) c2 ≡ some (ready (some msg), none, c3))
  poll_next-do_send w w' msg c n se st h few =
      let p = poll_next-empty Q w c (suc n) se st h in
      let st1 = joined_by st p.entry w in
      let (q, ev, sent, holds, log) =
        do_send-open Q msg (record c { stream_ops = p.ev }) [] n se st1
          (record { queue = h.queue; send_ops = h.send_ops; stream_ops = p.stands }) in
      let c2 : Chan Q = record c { queue = q; stream_ops = ev } in
      let all : length (items st1) ≤ usize_max = omega (
        arith,
        length-append st.done (st.waiting ++ (p.entry, polling w) ∷ []),
        length-append st.waiting ((p.entry, polling w) ∷ []),
        length-append st.done st.waiting,
      ) in
      let last = notify_all st1 all ∙ told_last st p.entry w in
      let (c3, received, rest) =
        free_receives Q w' (some p.entry) msg c2 [] false n se _ _
          (subst (λ v. Holds Q c2 (msg ∷ []) false n se v) last holds)
          (told p.entry (notified false) (st.done ++ mark false st.waiting) [] []) in
      let woke : contains (woken ev) w ≡ true =
        ap (λ l. contains l w) (log ∙ wakes_all st1 (woken p.ev) all)
        ∙ contains-wakes p.entry w st.waiting (woken p.ev) in
      (p.entry, record c { stream_ops = p.ev }, c2, c3, p.result, sent, woke, received)
