-- ===== src/Channel/Mailbox.antt =====
-- actix-async/src/util/async_channel/mod.rs: what the channel promises, as a mailbox: a list of
-- messages with a counter, and calls with their replies. `send` is a `SendFuture` that is polled
-- once and dropped.
use actix_async.Prelude.{
  ℕ, ◌+◌, Bool, true, false, not, ltb, if◌then◌else◌, Option, none, some, List, [], ◌∷◌, ◌++◌, Poll,
  ready, pending, Result, ok, err, ◌>>=◌,
}
use actix_async.Error.{ActixAsyncError}
use actix_async.Channel.{Chan, wrapping_dec, do_send, send_poll, drop_send, try_recv, close}
use actix_async.Channel.Queue.{QueueOps, TryRecvError}

pub data Call {ℓ} (T : Type ℓ) : Type ℓ where
  sends : (w : ℕ) → (msg : T) → Call T
  do_sends : (msg : T) → Call T
  receives : Call T
  closes : Call T

pub data Reply {ℓ} (T : Type ℓ) : Type ℓ where
  sent refused full empty ended : Reply T
  given_back : (msg : T) → Reply T
  got : (msg : T) → Reply T
  shut : (first : Bool) → Reply T

pub record Mailbox {ℓ} (T : Type ℓ) : Type ℓ where
  pub messages : List T
  pub closed : Bool
  pub counter : ℕ
  pub cap : ℕ

module _ {ℓ} {T : Type ℓ} where
  -- the mailbox of a new channel
  abbrev pub new_mailbox : ℕ → Mailbox T
  new_mailbox cap = record { messages = []; closed = false; counter = 0; cap = cap }

  unfoldable pub answer_send : T → Mailbox T → Reply T × Mailbox T
  answer_send msg m =
      if ltb m.counter m.cap
      then if m.closed
        then (refused, record m { counter = m.counter + 1 })
        else (sent, record m { counter = m.counter + 1; messages = m.messages ++ msg ∷ [] })
      else (full, m)

  unfoldable pub answer_do_send : T → Mailbox T → Reply T × Mailbox T
  answer_do_send msg m =
      if m.closed
      then (given_back msg, m)
      else (sent, record m { messages = m.messages ++ msg ∷ [] })

  unfoldable pub answer_receive : List T → Mailbox T → Reply T × Mailbox T
  answer_receive [] m = (if m.closed then ended else empty, m)
  answer_receive (x ∷ xs) m = (got x, record m { messages = xs; counter = wrapping_dec m.counter })

  -- The reply to a call, and the mailbox after it.
  unfoldable pub answer : Call T → Mailbox T → Reply T × Mailbox T
  unfolding answer_send answer_do_send answer_receive
  answer (sends w msg) m = answer_send msg m
  answer (do_sends msg) m = answer_do_send msg m
  answer receives m = answer_receive m.messages m
  answer closes m = (shut (not m.closed), record m { closed = true })

  unfoldable pub answers : List (Call T) → Mailbox T → List (Reply T) × Mailbox T
  answers [] m = ([], m)
  answers (k ∷ ks) m = let (r, m1) = answer k m in let (rs, m2) = answers ks m1 in (r ∷ rs, m2)

module _ {ℓ} {T : Type ℓ} (Q : QueueOps T) where
  abbrev pub send_reply : Poll (Result (Unit {0}) ActixAsyncError) → Reply T
  send_reply (ready (ok _)) = sent
  send_reply (ready (err _)) = refused
  send_reply pending = full

  abbrev pub do_send_reply : Result (Unit {0}) T → Reply T
  do_send_reply (ok _) = sent
  do_send_reply (err back) = given_back back

  abbrev pub receive_reply : Result T TryRecvError → Reply T
  receive_reply (ok msg) = got msg
  receive_reply (err TryRecvError.empty) = empty
  receive_reply (err TryRecvError.closed) = ended

  -- The call on the channel.
  unfoldable pub step : Call T → Chan Q → Option (Reply T × Chan Q)
  step (sends w msg) c = do
    (r, fut, c1) ← send_poll Q w (record { listener = none; msg = some msg }) c
    c2 ← drop_send Q fut c1
    some (send_reply r, c2)
  step (do_sends msg) c = do (r, c1) ← do_send Q msg c; some (do_send_reply r, c1)
  step receives c = do (r, c1) ← try_recv Q c; some (receive_reply r, c1)
  step closes c = do (first, c1) ← close Q c; some (shut first, c1)

  unfoldable pub run : List (Call T) → Chan Q → Option (List (Reply T) × Chan Q)
  run [] c = some ([], c)
  run (k ∷ ks) c = do (r, c1) ← step k c; (rs, c2) ← run ks c1; some (r ∷ rs, c2)
