-- ===== src/Supervisor/Stops.antt =====
-- actix-async/src/supervisor/mod.rs: `Supervisor::stop` and its second call.
use actix_async.Prelude.{◌≡◌, refl, ℕ, true, false, some, List, [], ◌>>=◌}
use actix_async.Listener.{usize_max}
use actix_async.Listener.View.{View}
use actix_async.Listener.Refine.{notify_up_to}
use actix_async.Channel.{Chan}
use actix_async.Channel.Queue.{QueueOps}
use actix_async.Channel.State.{Holds, close-open, close-closed}
use actix_async.Supervisor.{Supervisor, answered, take_handles, stop_supervisor}

module _ {ℓ κ} {W : Type ℓ} {T : Type κ} (Q : QueueOps T) where
  -- The first `stop` of a supervisor takes all workers, to stop them, or answers `false` if there are
  -- none. The futures that wait in the channel stay there. A second `stop`, of a clone, answers
  -- `false` and finds no worker.
  pub stop_supervisor-once :
      (s : Supervisor W (Chan Q)) (xs : List T) (n : ℕ) (se st : View)
      → Holds Q s.tx xs false n se st
      → (s1 s2 : Supervisor W (Chan Q)) × (stop_supervisor Q s
          ≡ some (take_handles Q s.join_handles, s1))
        × (stop_supervisor Q s1 ≡ some (answered false, s2))
        × (s2.join_handles ≡ [])
        × Holds Q s2.tx xs true n (notify_up_to usize_max se) (notify_up_to usize_max st)
  unfolding stop_supervisor
  stop_supervisor-once s xs n se st h =
      let (c, closed, holds, _, _, _, _, _, _) = close-open Q s.tx xs n se st h in
      let (q, again, kept) = close-closed Q c xs n _ _ holds in
      (
        record s { tx = c; join_handles = [] },
        record s { tx = record c { queue = q }; join_handles = [] },
        rw (closed, ◌>>=◌) refl,
        rw (again, ◌>>=◌) refl,
        refl,
        kept,
      )
