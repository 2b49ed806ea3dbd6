-- ===== src/Supervisor/Worker.antt =====
-- actix-async/src/supervisor/worker.rs: a worker, which spawns the futures that it receives on its
-- thread and counts them with the permits of a semaphore. The semaphore is tokio's: `try_acquire`
-- takes a permit if there is one, `acquire_many` waits for as many as it asks for. `none` is a panic.
use actix_async.Prelude.{
  ℕ, zero, suc, ◌-◌, ◌^◌, Bool, true, false, leb, if◌then◌else◌, Option, none, some, List, [], ◌∷◌,
  ◌++◌, Poll, ready, pending, ◌>>=◌,
}
use actix_async.Oneshot
use actix_async.Oneshot.{Inner}
use actix_async.Channel.{Chan, poll_next}
use actix_async.Channel.Queue.{QueueOps}

-- `LIMIT`
abbrev pub limit : ℕ
limit = 2 ^ 29 - 1

-- `WorkerFuture`, with the permits that are left of the semaphore it shares with its `Worker`, the
-- cell of the exit signal, and a log of what it spawned and of the calls of its own waker
pub record WorkerFuture {ℓ} (T : Type ℓ) : Type ℓ where
  pub listener : Option ℕ
  pub permits : ℕ
  pub exit : Inner (Unit {0})
  pub spawned : List T
  pub woken : List ℕ

module _ {ℓ} {T : Type ℓ} (Q : QueueOps T) where
  -- `Worker::new`
  abbrev pub new : WorkerFuture T
  new = record { listener = none; permits = limit; exit = Oneshot.new; spawned = []; woken = [] }

  abbrev pub Polls : Type ℓ
  Polls = Option (Poll (Unit {0}) × WorkerFuture T × Chan Q)

  abbrev pub spawn : ℕ → T → ℕ → WorkerFuture T → Chan Q → Polls
  spawn w msg zero f c = none
  spawn w msg (suc n) f c =
      some
        (pending, record f { permits = n; spawned = f.spawned ++ msg ∷ []; woken = w ∷ f.woken }, c)

  -- `WorkerFuture::poll`, behind the poll of its receiver
  unfoldable pub on_received : ℕ → Poll (Option T) → WorkerFuture T → Chan Q → Polls
  on_received w pending f c = some (pending, f, c)
  on_received w (ready (some msg)) f c = spawn w msg f.permits f c
  on_received w (ready none) f c =
      let (r, exit) = Oneshot.poll w f.exit in
      some (elim r [ ready _ ↦ ready tt | pending ↦ pending ], record f { exit = exit }, c)

  -- `WorkerFuture::poll`
  unfoldable pub poll : ℕ → WorkerFuture T → Chan Q → Polls
  poll w f c = do
    (p, l, c') ← poll_next Q w f.listener c
    on_received w p (record f { listener = l }) c'

  -- a spawned future that is done gives its permit back
  abbrev pub task_done : WorkerFuture T → WorkerFuture T
  task_done f = record f { permits = suc f.permits }

  -- `exit_tx.send(())`
  abbrev pub send_exit : WorkerFuture T → WorkerFuture T
  send_exit f = record f { exit = (Oneshot.send tt f.exit).1 }

  -- `Worker::stop` up to the join of the thread: a graceful stop waits for all permits, which it gives
  -- back at once, and then sends the signal. `Drop for Worker` sends it as well if no stop did.
  unfoldable pub stop_worker : Bool → WorkerFuture T → Poll (Unit {0}) × WorkerFuture T
  stop_worker true f = if leb limit f.permits then (ready tt, send_exit f) else (pending, f)
  stop_worker false f = (ready tt, send_exit f)

  abbrev pub drop_worker : Bool → WorkerFuture T → WorkerFuture T
  drop_worker stopped f = if stopped then f else send_exit f
