-- ===== src/Context/Steps.antt =====
-- actix-async/src/context_future.rs: a step of `ContextFuture::run` never faults and keeps its
-- invariant.
use actix_async.Prelude.{
  ℕ, ◌≡◌, refl, inl, inr, Bool, true, false, some, ◌>>=◌, Poll-cases, subst, arith,
}
use actix_async.Tasks.{Task}
use actix_async.Tasks.Slab.{SlabOps}
use actix_async.Tasks.Polls.{poll_task-Polled}
use actix_async.Context.State.{
  Parts, Pc, starting, task_loop, exclusive, inner_loop, selecting, yielding, resolving,
  polling_tasks, resolve_yielding, after_loop, last, stopping, finished, Progress, goes, waits,
  is_some,
}
use actix_async.Context.Run.{Runs, tasks_len, no_tasks, on_output, step, advance}
use actix_async.Context.Polls.{IfReady, Allowed, select-Fine}
use actix_async.Context.Invariant.{
  all_Left, all_Handled, Unfinished, InvAt, Inv, new-Kept, if-Inv, empty-Clean,
}
use actix_async.Context.Cases.{
  on_state-Inv, on_taken-Inv, on_output-Inv, on_left-Inv, await-Inv, finish-Inv,
}

module _ {ℓ} {H Fut Rx Str Del : Type ℓ} (S : SlabOps (Task Fut)) (P : Parts H Fut Rx Str Del) where
  -- A step of `run` that has not returned does not fault, and keeps the invariant.
  step-Inv :
      (w : ℕ) (free : ℕ → Bool) (pc : Pc Fut) (r : Runs S P)
      → InvAt S P pc r
      → Unfinished pc
      → (p : Progress) × (r' : Runs S P) × (step S P w free pc r ≡ some (p, r')) × Inv S P r'
  unfolding step
  step-Inv w free (starting fut) r h u = (
    _,
    _,
    refl,
    await-Inv S P w fut starting _ r (λ f. record { kept = h.kept; at = h.at; clean = h.clean })
        (record { kept = h.kept; at = (h.at.0, h.at.2); clean = h.clean }),
  )
  step-Inv w free task_loop r h u = (_, _, refl, on_taken-Inv S P r.task_mut r refl h)
  step-Inv w free (exclusive fut) r h u = (
    _,
    _,
    refl,
    await-Inv S P w fut exclusive _ r (λ f. record { kept = h.kept; at = h.at; clean = h.clean })
        (record { kept = h.kept; at = (h.at.0, h.at.2); clean = h.clean }),
  )
  step-Inv w free inner_loop r h u = (_, _, refl, on_state-Inv S P r.board.ctx.state r h refl)
  step-Inv w free (selecting fut1 fut2 fut34) r h u =
      let (p, board, run, holds, ok) =
        select-Fine S P (tasks_len S P r.board) w free r.board.ctx.state (is_some r.task_mut) fut1
          fut2 fut34 h.at.1 r.board (h.kept, ground arith, refl) in
      elim (Poll-cases p) [
        | inl e ↦ (
          waits,
          record r { board = board; pc = selecting fut1 fut2 fut34 },
          rw (run, e, ◌>>=◌) refl,
          record { kept = holds.0; at = (h.at.0, h.at.1); clean = h.clean },
        )
        | inr (out, e) ↦ (
          goes,
          on_output S P out (record r { board = board }),
          rw (run, e, ◌>>=◌) refl,
          on_output-Inv S P (is_some r.task_mut) out (record r { board = board }) refl
              (subst (IfReady (Allowed S P (is_some r.task_mut))) e ok)
              (record { kept = holds.0; at = h.at.0; clean = h.clean }),
        )
      ]
  step-Inv w free (yielding false) r h u =
      (_, _, refl, record { kept = h.kept; at = h.at; clean = h.clean })
  step-Inv w free (yielding true) r h u =
      (_, _, refl, record { kept = h.kept; at = h.at; clean = h.clean })
  step-Inv w free resolving r h u = (
    _,
    _,
    refl,
    if-Inv S P (no_tasks S P r.board) _ _
        (λ t. record {
          kept = new-Kept S P r.board.tasks.queue;
          at = (S.len-new, rw h.at.1 (all_Left r.forced));
          clean =
              empty-Clean S P r.forced r.dropped r.lost (tasks_len S P r.board) (ground arith)
                h.clean;
        })
        (λ t. record { kept = h.kept; at = h.at; clean = h.clean }),
  )
  step-Inv w free polling_tasks r h u =
      let (p, t, run, polled) = poll_task-Polled S P.poll_task w free r.board.tasks h.kept in
      elim (Poll-cases p) [
        | inl e ↦ (
          waits,
          record r { board = record r.board { tasks = t }; pc = polling_tasks },
          rw (run, e, ◌>>=◌) refl,
          record { kept = polled.kept; at = h.at; clean = h.clean },
        )
        | inr (x, e) ↦ (
          goes,
          record r { board = record r.board { tasks = t }; pc = resolve_yielding false },
          rw (run, e, ◌>>=◌) refl,
          record { kept = polled.kept; at = h.at; clean = h.clean },
        )
      ]
  step-Inv w free (resolve_yielding false) r h u =
      (_, _, refl, record { kept = h.kept; at = h.at; clean = h.clean })
  step-Inv w free (resolve_yielding true) r h u =
      (_, _, refl, record { kept = h.kept; at = h.at; clean = h.clean })
  step-Inv w free after_loop r h u =
      (_, _, refl, on_left-Inv S P r.board.ctx.state r.task_mut r refl refl h)
  step-Inv w free (last fut) r h u = (
    _,
    _,
    refl,
    await-Inv S P w fut last _ r (λ f. record { kept = h.kept; at = h.at; clean = h.clean })
        (record { kept = h.kept; at = (h.at.0, all_Handled r.forced _ h.at.1); clean = h.clean }),
  )
  step-Inv w free (stopping fut) r h u = (
    _,
    _,
    refl,
    await-Inv S P w fut stopping _ r (λ f. record { kept = h.kept; at = h.at; clean = h.clean })
        (finish-Inv S P r fut h),
  )
  step-Inv w free finished r h u = absurd u

  -- If the invariant of `run` holds and `run` has not returned, a step of it does not fault, and keeps
  -- the invariant.
  pub advance-Inv :
      (w : ℕ) (free : ℕ → Bool) (r : Runs S P)
      → Inv S P r
      → Unfinished r.pc
      → (p : Progress) × (r' : Runs S P) × (advance S P w free r ≡ some (p, r')) × Inv S P r'
  unfolding advance
  advance-Inv w free r h u = step-Inv w free r.pc r h u
