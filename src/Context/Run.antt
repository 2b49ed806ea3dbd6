-- ===== src/Context/Run.antt =====
-- actix-async/src/context_future.rs: `ContextFuture::run`, one step from a point where it may be
-- suspended, or where it reads the state of the actor, to the next. `none` is a fault.
use actix_async.Prelude.{
  ℕ, suc, ◌+◌, Bool, true, false, ◌&&◌, not, ltb, if◌then◌else◌, Option, none, some, ready, pending,
  ◌>>=◌,
}
use actix_async.Tasks
use actix_async.Tasks.{TaskPoll, Task, TaskRef, add_task, poll_task}
use actix_async.Tasks.Slab.{SlabOps}
use actix_async.Message.{ActorState, ActorMessage, by_ref, by_mut, set_state}
use actix_async.Cache
use actix_async.Context.Select.{ConditionSelect4Output, out_a, out_b, out_c, out_d, Future, select}
use actix_async.Context.State.{
  Parts, Pc, Board, Run, Progress, is_some, given, starting, task_loop, exclusive, inner_loop,
  selecting, yielding, resolving, polling_tasks, resolve_yielding, after_loop, last, stopping,
  finished, goes, waits, done,
}

module _ {ℓ} {H Fut Rx Str Del : Type ℓ} (S : SlabOps (Task Fut)) (P : Parts H Fut Rx Str Del) where
  abbrev pub B : Type ℓ
  B = Board (S.Slab) Rx Str Del

  abbrev pub Runs : Type ℓ
  Runs = Run H Fut (S.Slab) Rx Str Del

  abbrev pub Message : Type ℓ
  Message = ActorMessage H

  abbrev pub Output : Type ℓ
  Output = ConditionSelect4Output (Option Message) (Unit {0}) Message Message

  abbrev pub tasks_len : B → ℕ
  tasks_len b = Tasks.len S P.poll_task b.tasks

  abbrev pub no_tasks : B → Bool
  no_tasks b = Tasks.is_empty S P.poll_task b.tasks

  -- the four futures
  unfoldable pub fut_rx : ℕ → Future B (Option Message)
  fut_rx w b =
      let (p, rx) = P.poll_rx w b.ctx.rx in some (p, record b { ctx = record b.ctx { rx = rx } })

  unfoldable pub fut_tasks : ℕ → (ℕ → Bool) → Future B (Unit {0})
  fut_tasks w free b = do
    (p, t) ← poll_task S P.poll_task w free b.tasks
    some (p, record b { tasks = t })

  unfoldable pub fut_streams : ℕ → Future B Message
  fut_streams w b = do
    (p, ss) ← Cache.poll_stream (P.poll_str w) b.ctx.stream_cache
    some (p, record b { ctx = record b.ctx { stream_cache = ss } })

  unfoldable pub fut_futures : ℕ → Future B Message
  fut_futures w b = do
    (p, fs) ← Cache.poll_future (P.poll_del w) b.ctx.future_cache
    some (p, record b { ctx = record b.ctx { future_cache = fs } })

  -- `select.await`, of the futures that were made
  unfoldable pub poll_select : ℕ → (ℕ → Bool) → Bool → Bool → Bool → Future B Output
  poll_select w free fut1 fut2 fut34 =
      select (given fut1 (fut_rx w)) (given fut2 (fut_tasks w free)) (given fut34 (fut_streams w))
        (given fut34 (fut_futures w))

  -- the drop of the `TaskRef`, with the tasks that are left in it
  abbrev pub drop_tasks : Runs → Runs
  drop_tasks r = record r {
    board = record r.board { tasks = Tasks.new S P.poll_task r.board.tasks.queue };
    dropped = r.dropped + tasks_len r.board;
  }

  abbrev pub set_state_to : ActorState → B → B
  set_state_to s b = record b { ctx = record b.ctx { state = s } }

  -- the match on `task_mut.take()`
  unfoldable pub on_taken : Option H → Runs → Runs
  on_taken (some h) r = record r { task_mut = none; pc = exclusive (P.handle_wait h) }
  on_taken none r = record r {
    board = record r.board { tasks = Tasks.new S P.poll_task r.board.tasks.queue };
    pc = inner_loop;
  }

  -- the match on a message
  unfoldable pub on_message : Message → Runs → Runs
  on_message (by_ref h) r = record r {
    board = record r.board { tasks = add_task S P.poll_task (P.handle h) r.board.tasks };
    pc = inner_loop;
  }
  on_message (by_mut h) r = record r {
    task_mut = some h;
    lost = if is_some r.task_mut then suc r.lost else r.lost;
    pc = inner_loop;
  }
  on_message (set_state s tx) r = record r {
    board = set_state_to s r.board;
    notify = some tx;
    pc = inner_loop;
  }

  -- the match on the output of the select
  unfoldable pub on_output : Output → Runs → Runs
  on_output (out_a none) r = record r {
    board = set_state_to ActorState.stop r.board;
    pc = inner_loop;
  }
  on_output (out_a (some m)) r = on_message m r
  on_output (out_b _) r = record r { pc = yielding false }
  on_output (out_c m) r = on_message m r
  on_output (out_d m) r = on_message m r

  -- the match on the state, and the futures for the select
  unfoldable pub on_state : ActorState → Runs → Runs
  on_state ActorState.stop_graceful r = record r { pc = resolving }
  on_state ActorState.stop r = record (drop_tasks r) { pc = after_loop; forced = true }
  on_state ActorState.running r =
      if is_some r.task_mut && no_tasks r.board
      then record (drop_tasks r) { pc = task_loop }
      else record r {
        pc =
            selecting (not (is_some r.task_mut) && ltb (tasks_len r.board) P.size_hint)
              (not (no_tasks r.board)) (not (is_some r.task_mut));
      }

  -- what follows the loop: a graceful stop still handles an exclusive message
  unfoldable pub on_left : ActorState → Option H → Runs → Runs
  on_left ActorState.stop_graceful (some h) r = record r {
    task_mut = none;
    pc = last (P.handle_wait h);
  }
  on_left s h r = record r { pc = stopping P.on_stop }

  -- the poll of one future of the user, and where `run` goes when it is ready
  unfoldable pub await :
      ℕ → Fut → (Fut → Pc Fut) → (Runs → Progress × Runs) → Runs → Progress × Runs
  await w fut at next r =
      let (p, fut') = P.poll_fut w fut in
      elim p [ ready _ ↦ next r | pending ↦ (waits, record r { pc = at fut' }) ]

  -- the end of `run`: the requester of the stop is notified, and the locals are dropped
  unfoldable pub finish : Runs → Progress × Runs
  finish r = (
    done,
    record r {
      pc = finished;
      notified = r.notify;
      notify = none;
      task_mut = none;
      lost = if is_some r.task_mut then suc r.lost else r.lost;
    },
  )

  unfoldable pub step : ℕ → (ℕ → Bool) → Pc Fut → Runs → Option (Progress × Runs)
  step w free (starting fut) r = some (
      await w fut starting
        (λ r. (goes, record r { board = set_state_to ActorState.running r.board; pc = task_loop }))
        r)
  step w free task_loop r = some (goes, on_taken r.task_mut r)
  step w free (exclusive fut) r =
      some (await w fut exclusive (λ r. (goes, record r { pc = task_loop })) r)
  step w free inner_loop r = some (goes, on_state r.board.ctx.state r)
  step w free (selecting fut1 fut2 fut34) r = do
    (p, board) ← poll_select w free fut1 fut2 fut34 r.board
    let r' = record r { board = board }
    elim p [
      | ready out ↦ some (goes, on_output out r')
      | pending ↦ some (waits, record r' { pc = selecting fut1 fut2 fut34 })
    ]
  step w free (yielding false) r = some (waits, record r { pc = yielding true })
  step w free (yielding true) r = some (goes, record r { pc = inner_loop })
  step w free resolving r = some (
    goes,
    if no_tasks r.board
        then record (drop_tasks r) { pc = after_loop }
        else record r { pc = polling_tasks },
  )
  step w free polling_tasks r = do
    (p, t) ← poll_task S P.poll_task w free r.board.tasks
    let r' = record r { board = record r.board { tasks = t } }
    elim p [
      | ready _ ↦ some (goes, record r' { pc = resolve_yielding false })
      | pending ↦ some (waits, record r' { pc = polling_tasks })
    ]
  step w free (resolve_yielding false) r = some (waits, record r { pc = resolve_yielding true })
  step w free (resolve_yielding true) r = some (goes, record r { pc = resolving })
  step w free after_loop r = some (goes, on_left r.board.ctx.state r.task_mut r)
  step w free (last fut) r =
      some (await w fut last (λ r. (goes, record r { pc = stopping P.on_stop })) r)
  step w free (stopping fut) r = some (await w fut stopping finish r)
  step w free finished r = none

  -- one step of `run`, polled with the waker `w`
  unfoldable pub advance : ℕ → (ℕ → Bool) → Runs → Option (Progress × Runs)
  advance w free r = step w free r.pc r
