-- ===== src/Channel/Tests.antt =====
-- The theorems about the channel, over the queue of the crate, at inputs where their hypotheses
-- hold.
use actix_async.Prelude.{
  ◌>>=◌, ℕ, ◌-◌, ◌<◌, ◌≡◌, refl, true, false, none, some, List, [], ◌∷◌, length, contains, ready,
  pending, ok, err, arith,
}
use actix_async.Error.{ActixAsyncError}
use actix_async.Listener.{Event, usize_max}
use actix_async.Listener
use actix_async.Listener.Refine.{empty}
use actix_async.Listener.Events.{woken, new-Stands}
use actix_async.Unbounded.{Unbounded}
use actix_async.Unbounded
use actix_async.Unbounded.Ops.{unbounded, space}
use actix_async.Unbounded.Ops
use actix_async.Channel.{
  Chan, channel, do_send, try_recv, send_poll, send_loop, send_rounds, poll_next, drop_sender,
  clone_sender, upgrade,
}
use actix_async.Channel.State.{Holds}
use actix_async.Channel.Room.{send_poll-closed}
use actix_async.Channel.Mailbox.{Call, sends, do_sends, receives, closes, answers, run, new_mailbox}
use actix_async.Channel.Moves.{Is}
use actix_async.Channel.Refine.{channel_refines}
use actix_async.Channel.Counts.{Shut, senders_are_counted}
use actix_async.Channel.Wake.{poll_next-do_send}
use actix_async.Channel.Stuck.{sender_misses_room}

abbrev left : ℕ
left = space - 1

-- the queue of the crate, empty, with the message 7, and closed
pushed :
    (q : Unbounded ℕ) × (Unbounded.Push.push 7 Unbounded.new ≡ some (ok tt, q))
    × Ops.Stands q (7 ∷ []) false left
pushed = Ops.push-open 7 Unbounded.new [] left Ops.new-Stands

shut : (q : Unbounded ℕ) × (Unbounded.close Unbounded.new ≡ (true, q)) × Ops.Stands q [] true space
shut = Ops.close-Stands Unbounded.new [] false space Ops.new-Stands

abbrev chan : Unbounded ℕ → ℕ → ℕ → Chan (unbounded ℕ)
chan q counted cap = record {
  queue = q;
  in_queue = counted;
  cap = cap;
  send_ops = Listener.new;
  stream_ops = Listener.new;
  sender_count = 1;
  receiver_count = 1;
}

abbrev idle : Chan (unbounded ℕ)
idle = chan Unbounded.new 0 2

abbrev busy : Chan (unbounded ℕ)
busy = chan pushed.0 1 1

idle-Holds : Holds (unbounded ℕ) idle [] false space empty empty
idle-Holds = record { queue = Ops.new-Stands; send_ops = new-Stands; stream_ops = new-Stands }

busy-Holds : Holds (unbounded ℕ) busy (7 ∷ []) false left empty empty
busy-Holds = record { queue = pushed.2; send_ops = new-Stands; stream_ops = new-Stands }

shut-Holds : Holds (unbounded ℕ) (chan shut.0 0 2) [] true space empty empty
shut-Holds = record { queue = shut.2; send_ops = new-Stands; stream_ops = new-Stands }

send_poll-closed_example :
    send_poll (unbounded ℕ) 4 (record { listener = none; msg = some 8 }) (chan shut.0 0 2)
    ≡ some (
      ready (err ActixAsyncError.closed),
      record { listener = none; msg = none },
      chan shut.0 1 2,
    )
send_poll-closed_example =
    send_poll-closed (unbounded ℕ) 4 none 8 (chan shut.0 0 2) [] space empty empty shut-Holds
      (omega arith)

abbrev calls : List (Call ℕ)
calls = sends 4 7 ∷ do_sends 8 ∷ receives ∷ closes ∷ sends 4 9 ∷ receives ∷ receives ∷ []

channel_refines_example :
    (c c' : Chan (unbounded ℕ)) × (channel (unbounded ℕ) 2 ≡ some c)
    × (run (unbounded ℕ) calls c ≡ some ((answers calls (new_mailbox 2)).0, c'))
    × Is (unbounded ℕ) c' (answers calls (new_mailbox 2)).1 (space - length calls)
channel_refines_example = channel_refines (unbounded ℕ) calls 2 (omega arith) (omega arith)

senders_are_counted_example :
    (◌≡◌ {A = ℕ} 0 0
      → Shut (unbounded ℕ) (7 ∷ []) left empty empty (drop_sender (unbounded ℕ) busy))
    × (0 < 0 → drop_sender (unbounded ℕ) busy ≡ some (record busy { sender_count = 0 }))
    × ((clone_sender (unbounded ℕ) busy >>= drop_sender (unbounded ℕ)) ≡ some busy)
    × ((upgrade (unbounded ℕ) true busy >>= drop_sender (unbounded ℕ)) ≡ some busy)
senders_are_counted_example =
    senders_are_counted (unbounded ℕ) busy (7 ∷ []) left 0 empty empty busy-Holds refl (omega arith)

poll_next-do_send_example :
    (a : ℕ) × (c1 c2 c3 : Chan (unbounded ℕ)) × (poll_next (unbounded ℕ) 9 none idle
      ≡ some (pending, some a, c1))
    × (do_send (unbounded ℕ) 7 c1 ≡ some (ok tt, c2))
    × (contains (woken c2.stream_ops) 9 ≡ true)
    × (poll_next (unbounded ℕ) 5 (some a) c2 ≡ some (ready (some 7), none, c3))
poll_next-do_send_example =
    poll_next-do_send (unbounded ℕ) 9 5 7 idle left empty empty idle-Holds (omega arith)

sender_misses_room_example :
    (a b : ℕ) × (c1 c2 c3 : Chan (unbounded ℕ)) × (try_recv (unbounded ℕ) busy ≡ some (ok 7, c1))
    × (c1.in_queue ≡ 0)
    × (send_loop (unbounded ℕ) (send_rounds (unbounded ℕ)) 4 1 none 8 c1
        ≡ some (pending, record { listener = some a; msg = some 8 }, c2))
    × (poll_next (unbounded ℕ) 9 none c2 ≡ some (pending, some b, c3))
    × (c3.in_queue ≡ 0)
    × (c3.cap ≡ 1)
    × (woken c3.send_ops ≡ woken c1.send_ops)
sender_misses_room_example =
    sender_misses_room (unbounded ℕ) 4 9 7 8 busy left empty empty busy-Holds refl refl
