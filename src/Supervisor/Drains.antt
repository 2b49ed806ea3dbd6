-- ===== src/Supervisor/Drains.antt =====
-- actix-async/src/supervisor/worker.rs: what a worker does once the channel of the supervisor is closed.
use actix_async.Prelude.{
  ℕ, zero, suc, ◌+◌, ◌-◌, ◌≤◌, ◌≡◌, refl, sym, ◌∙◌, true, Option, none, some, List, [], ◌∷◌, ◌++◌,
  length, append_assoc, append-nil, ready, pending, ◌>>=◌, arith,
}
use actix_async.Oneshot
use actix_async.Oneshot.{Inner}
use actix_async.Oneshot.Calls.{IsOpen, poll-send}
use actix_async.Listener.View.{View}
use actix_async.Channel.{Chan, poll_next}
use actix_async.Channel.Queue.{QueueOps}
use actix_async.Channel.State.{Holds, told_room}
use actix_async.Channel.Notified.{IsFree, idle, free_receives, free_ends}
use actix_async.Supervisor.Worker.{WorkerFuture, limit, on_received, poll, send_exit, stop_worker}

module _ {ℓ} {T : Type ℓ} (Q : QueueOps T) where
  -- `k` polls of the future of a worker that are all pending
  unfoldable pub drive : ℕ → ℕ → WorkerFuture T → Chan Q → Option (WorkerFuture T × Chan Q)
  drive zero w f c = some (f, c)
  drive (suc k) w f c = do
    (r, f', c') ← poll Q w f c
    elim r [ ready _ ↦ none | pending ↦ drive k w f' c' ]

  abbrev spawned_one : ℕ → T → ℕ → WorkerFuture T → WorkerFuture T
  spawned_one w x p f = record f {
    listener = none;
    permits = p;
    spawned = f.spawned ++ x ∷ [];
    woken = w ∷ f.woken;
  }

  poll-spawns :
      (w p : ℕ) (x : T) (f : WorkerFuture T) (c : Chan Q) (xs : List T) (n : ℕ) (se st st' : View)
      → Holds Q c (x ∷ xs) true n se st
      → IsFree f.listener st st'
      → f.permits ≡ suc p
      → (c' : Chan Q) × (poll Q w f c ≡ some (pending, spawned_one w x p f, c'))
        × Holds Q c' xs true n (told_room Q c se) st'
  unfolding poll on_received
  poll-spawns w p x f c xs n se st st' h free permits =
      let (c', took, holds) = free_receives Q w f.listener x c xs true n se st st' h free in
      (c', rw (took, ◌>>=◌, on_received, permits) refl, holds)

  -- What the polls that drain a channel leave behind
  pub record Drained (w : ℕ) (f : WorkerFuture T) (c : Chan Q) (xs : List T) : Type ℓ where
    pub future : WorkerFuture T
    pub chan : Chan Q
    pub last : Chan Q
    pub driven : drive (length xs) w f c ≡ some (future, chan)
    pub in_order : future.spawned ≡ f.spawned ++ xs
    pub permits : future.permits + length xs ≡ f.permits
    pub exit : future.exit ≡ f.exit
    pub ended : poll_next Q w future.listener chan ≡ some (ready none, none, last)

  drains :
      (w : ℕ) (f : WorkerFuture T) (c : Chan Q) (xs : List T) (p n : ℕ) (se st st' : View)
      → Holds Q c xs true n se st
      → IsFree f.listener st st'
      → f.permits ≡ p + length xs
      → Drained w f c xs
  unfolding drive
  drains w f c [] p n se st st' h free enough =
      let (c', ended, holds) = free_ends Q w f.listener c n se st st' h free in
      record {
        future = f;
        chan = c;
        last = c';
        driven = refl;
        in_order = sym (append-nil f.spawned);
        permits = omega arith;
        exit = refl;
        ended = ended;
      }
  drains w f c (x ∷ xs) p n se st st' h free enough =
      let (c', polled, holds) =
        poll-spawns w (p + length xs) x f c xs n se st st' h free (omega arith) in
      let d =
        drains w (spawned_one w x (p + length xs) f) c' xs p n (told_room Q c se) st' st' holds
          (idle st') refl in
      record {
        future = d.future;
        chan = d.chan;
        last = d.last;
        driven = rw (polled, ◌>>=◌) d.driven;
        in_order = d.in_order ∙ append_assoc f.spawned (x ∷ []) xs;
        permits = omega (arith, d.permits);
        exit = d.exit;
        ended = d.ended;
      }

  -- A graceful stop of a worker that has no actor at the moment goes through at once. If futures are
  -- left in the closed channel of the supervisor, the worker, which does not listen or whose listener
  -- has been notified, then spawns each of them, in order, and at its next poll returns, while none
  -- of their permits has been given back.
  pub stop-drains :
      (w : ℕ) (f : WorkerFuture T) (c : Chan Q) (xs : List T) (n : ℕ) (se st st' : View)
      → Holds Q c xs true n se st
      → IsFree f.listener st st'
      → f.permits ≡ limit
      → length xs ≤ limit
      → IsOpen f.exit
      → (f1 f2 f3 : WorkerFuture T) × (c2 c3 : Chan Q) × (stop_worker Q true f ≡ (ready tt, f1))
        × (drive (length xs) w f1 c ≡ some (f2, c2))
        × (f2.spawned ≡ f.spawned ++ xs)
        × (f2.permits + length xs ≡ limit)
        × (poll Q w f2 c2 ≡ some (ready tt, f3, c3))
  unfolding stop_worker poll on_received
  stop-drains w f c xs n se st st' h free unused few o =
      let f1 = send_exit Q f in
      let d =
        drains w f1 c xs (f.permits - length xs) n se st st' h free (omega (arith, few, unused)) in
      (
        f1,
        d.future,
        record d.future { listener = none; exit = (Oneshot.poll w f1.exit).1 },
        d.chan,
        d.last,
        rw unused refl,
        d.driven,
        d.in_order,
        d.permits ∙ unused,
        rw (d.ended, ◌>>=◌, on_received, d.exit, (poll-send tt w f.exit o).2) refl,
      )
