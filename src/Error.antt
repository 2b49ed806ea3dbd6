-- ===== src/Error.antt =====
-- actix-async/src/error.rs and actix-async/src/supervisor/error.rs: the crate's error values.
-- The payloads of the supervisor's errors are values of std; they are told apart by a number, and
-- an io error carries its kind. Debug and Display only format text and are left out.
use actix_async.Prelude.{ℕ, ◌==◌, Bool, true, false}

pub data SupervisorError : Type 0 where
  worker_closed : SupervisorError
  worker_join : (payload : ℕ) → SupervisorError
  io : (kind : ℕ) → SupervisorError
  std : (payload : ℕ) → SupervisorError

-- `From<AcquireError>` and `From<Box<dyn Any + Send>>`
pub from_acquire_error : SupervisorError
from_acquire_error = worker_closed

pub from_panic : ℕ → SupervisorError
from_panic payload = worker_join payload

-- `PartialEq for SupervisorError`
pub eq_supervisor : SupervisorError → SupervisorError → Bool
eq_supervisor (worker_join _) (worker_join _) = true
eq_supervisor worker_closed worker_closed = true
eq_supervisor (std _) (std _) = true
eq_supervisor (io e) (io e2) = e == e2
eq_supervisor _ _ = false

pub data ActixAsyncError : Type 0 where
  closed send_timeout receive_timeout receiver : ActixAsyncError
  super_visor : SupervisorError → ActixAsyncError
