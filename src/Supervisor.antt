-- ===== src/Supervisor.antt =====
-- actix-async/src/supervisor/mod.rs and `supervised` of actix-async/src/actor.rs: a supervisor hands
-- the futures of its actors to its workers, and restarts an actor that panics. The threads, the
-- tasks and the timer are the runtime's: what they answer is a parameter.
pub mod Restarts
pub mod Worker
pub mod Drains
pub mod Starts
pub mod Stops
pub mod Builds
mod Tests
use actix_async.Prelude.{
  ℕ, zero, suc, Bool, true, false, not, if◌then◌else◌, Option, none, some, List, [], ◌∷◌, ◌>>=◌,
  Poll, ready, pending, map_poll,
}
use actix_async.Channel.{Chan}
use actix_async.Channel
use actix_async.Channel.Queue.{QueueOps}
use actix_async.Message.{ActorState, stop, running, stop_graceful}

-- `SupervisedState`, with the errors of a task
pub record SupervisedState {ℓ} (E : Type ℓ) : Type ℓ where
  pub error : Option E

-- How many times an actor was started, and whether its loop has ended.
pub record Supervised : Type 0 where
  pub launched : ℕ
  pub over : Bool

-- the match in the loop of `Supervisor::start`: whether it goes round again
abbrev pub goes_round : ActorState → Bool → Bool
goes_round ActorState.running is_closed = not is_closed
goes_round state is_closed = false

abbrev pub launch : Supervised
launch = record { launched = 1; over = false }

module _ {ℓ} {E : Type ℓ} where
  -- `SupervisedState::take_error`
  abbrev pub take_error : SupervisedState E → Option E × SupervisedState E
  take_error s = (s.error, record { error = none })

  abbrev pub after_error : (E → Bool) → Option E → ActorState
  after_error is_panic none = ActorState.stop
  after_error is_panic (some e) = if is_panic e then ActorState.running else ActorState.stop

  -- `Actor::supervised`, unless an actor has its own
  unfoldable pub supervised : (E → Bool) → SupervisedState E → ActorState
  supervised is_panic s = after_error is_panic (take_error s).0

  -- One round of that loop, behind the launch: the error of the task, if it ended with one, and
  -- whether the actor's channel is closed then. The next launch belongs to it.
  unfoldable pub round :
      (SupervisedState E → ActorState) → Option E × Bool → Supervised → Supervised
  round supervise (error, is_closed) s =
      if goes_round (supervise (record { error = error })) is_closed
      then record { launched = suc s.launched; over = false }
      else record s { over = true }

  -- The loop, over what happens in its rounds
  unfoldable pub rounds :
      (SupervisedState E → ActorState) → List (Option E × Bool) → Supervised → Supervised
  rounds supervise [] s = s
  rounds supervise (x ∷ xs) s =
      let s' = round supervise x s in
      let rest = rounds supervise xs s' in if s'.over then s' else rest

-- `SupervisorBuilder`, a duration in milliseconds
pub record SupervisorBuilder : Type 0 where
  pub workers : ℕ
  pub shutdown_timeout : ℕ

-- `SupervisorBuilder::new`, and its two setters
abbrev pub builder : SupervisorBuilder
builder = record { workers = 4; shutdown_timeout = 30000 }

abbrev pub workers : ℕ → SupervisorBuilder → SupervisorBuilder
workers n b = record b { workers = n }

abbrev pub shutdown_timeout : ℕ → SupervisorBuilder → SupervisorBuilder
shutdown_timeout dur b = record b { shutdown_timeout = dur }

-- `Supervisor`, with workers `W` and the channel of the futures that it hands out
pub record Supervisor {ℓ κ} (W : Type ℓ) (C : Type κ) : Type (ℓ ⊔ κ) where
  pub join_handles : List W
  pub tx : C
  pub shutdown_timeout : ℕ

-- `Supervisor::stop`, where it stands: it has answered, or stops these workers with a time limit.
pub data Stopping {ℓ} (W : Type ℓ) : Type ℓ where
  answered : Bool → Stopping W
  stopping : List W → Stopping W

-- The `select!` of `Supervisor::stop`, which polls the stop of the workers and the time limit in
-- an order that it chooses at random
unfoldable pub poll_stopping : Bool → Poll (Unit {0}) → Poll (Unit {0}) → Poll Bool
poll_stopping true (ready _) timeout = ready true
poll_stopping true pending timeout = map_poll (λ _. false) timeout
poll_stopping false stops (ready _) = ready false
poll_stopping false stops pending = map_poll (λ _. true) stops

module _ {ℓ κ} {W : Type ℓ} {T : Type κ} (Q : QueueOps T) where
  -- a receiver for each worker of `build`, and its clone
  unfoldable pub spawn_workers : (ℕ → W) → ℕ → Chan Q → Option (List W × Chan Q)
  spawn_workers new_worker zero c = some ([], c)
  spawn_workers new_worker (suc n) c = do
    c1 ← Channel.clone_receiver Q c
    (ws, c2) ← spawn_workers new_worker n c1
    some (new_worker n ∷ ws, c2)

  -- `SupervisorBuilder::build`, which drops its own receiver at the end
  unfoldable pub build : (ℕ → W) → SupervisorBuilder → Option (Supervisor W (Chan Q))
  build new_worker b = do
    c ← Channel.channel Q b.workers
    (ws, c1) ← spawn_workers new_worker b.workers c
    c2 ← Channel.drop_receiver Q c1
    some (record { join_handles = ws; tx = c2; shutdown_timeout = b.shutdown_timeout })

  -- the start of `Supervisor::stop`
  abbrev pub take_handles : List W → Stopping W
  take_handles [] = answered false
  take_handles (w ∷ ws) = stopping (w ∷ ws)

  -- `Supervisor::stop` up to its wait for the workers. It consumes the supervisor: `drop_supervisor`
  -- and the drop of its sender follow when its future ends.
  unfoldable pub stop_supervisor :
      Supervisor W (Chan Q) → Option (Stopping W × Supervisor W (Chan Q))
  stop_supervisor s = do
    (first, c) ← Channel.close Q s.tx
    some (
      (if first then take_handles s.join_handles else answered false),
      record s { tx = c; join_handles = if first then [] else s.join_handles },
    )

  -- The drop of a supervisor, of the workers too if it is the last copy
  unfoldable pub drop_supervisor :
      Bool → Supervisor W (Chan Q) → Option (List W × Supervisor W (Chan Q))
  drop_supervisor last s =
      if last
      then (do
        (first, c) ← Channel.close Q s.tx
        some (s.join_handles, record s { tx = c; join_handles = [] }))
      else some ([], s)
