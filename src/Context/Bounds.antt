-- ===== src/Context/Bounds.antt =====
-- actix-async/src/context_future.rs: how many tasks `ContextFuture::run` handles side by side.
use actix_async.Prelude.{
  ℕ, ◌≡◌, ◌≤◌, refl, Bool, true, false, ◌&&◌, inl, inr, Option, none, some, ◌>>=◌, Poll-cases,
  subst, arith,
}
use actix_async.Tasks.{Task, add_task}
use actix_async.Tasks.Slab.{SlabOps}
use actix_async.Tasks.Kept.{Kept}
use actix_async.Tasks.Polls.{poll_task-Polled}
use actix_async.Tasks.Rounds.{poll_task-le}
use actix_async.Message.{ActorState, by_ref, by_mut, set_state}
use actix_async.Context.Select.{out_a, out_b, out_c, out_d}
use actix_async.Context.State.{
  Parts, Pc, starting, task_loop, exclusive, inner_loop, selecting, yielding, resolving,
  polling_tasks, resolve_yielding, after_loop, last, stopping, finished, Progress, goes, waits,
  is_some,
}
use actix_async.Context.Run.{
  Runs, Output, tasks_len, no_tasks, on_taken, on_message, on_output, on_state, on_left, await,
  finish, step, advance,
}
use actix_async.Context.Polls.{IfReady}
use actix_async.Context.Invariant.{Unfinished, Inv}
use actix_async.Context.Room.{
  Quiet, Room, HasRoom, Room-le, Room-fewer, selecting-Room, if-Room, Brings, select-Fine,
}

module _ {ℓ} {H Fut Rx Str Del : Type ℓ} (S : SlabOps (Task Fut)) (P : Parts H Fut Rx Str Del) where
  on_taken-Room :
      (o : Option H) (r : Runs S P)
      → S.len r.board.tasks.task ≤ P.size_hint
      → HasRoom S P (on_taken S P o r)
  unfolding on_taken
  on_taken-Room none r h = ground (arith, S.len-new)
  on_taken-Room (some x) r h = h

  on_left-Room :
      (s : ActorState) (o : Option H) (r : Runs S P)
      → S.len r.board.tasks.task ≤ P.size_hint
      → HasRoom S P (on_left S P s o r)
  unfolding on_left
  on_left-Room ActorState.stop_graceful (some x) r h = h
  on_left-Room s o r h = h

  on_state-Room :
      (s : ActorState) (r : Runs S P)
      → S.len r.board.tasks.task ≤ P.size_hint
      → HasRoom S P (on_state S P s r)
  unfolding on_state
  on_state-Room ActorState.stop_graceful r h = h
  on_state-Room ActorState.stop r h = ground (arith, S.len-new)
  on_state-Room ActorState.running r h =
      if-Room S P (is_some r.task_mut && no_tasks S P r.board) _ _ (ground (arith, S.len-new))
        (selecting-Room S P _ _ _ (tasks_len S P r.board) (λ e. ground arith) h)

  on_output-Room :
      (fut1 fut2 fut34 : Bool) (out : Output S P) (r : Runs S P)
      → Brings S P fut1 out
      → Room S P (selecting fut1 fut2 fut34) (S.len r.board.tasks.task)
      → HasRoom S P (on_output S P out r)
  unfolding on_output on_message add_task
  on_output-Room fut1 fut2 fut34 (out_a none) r b h = Room-le S P (selecting fut1 fut2 fut34) _ h
  on_output-Room true fut2 fut34 (out_a (some (by_ref x))) r b h =
      ground (arith, S.len-insert (record { fut = P.handle x; waker = none }) r.board.tasks.task)
  on_output-Room true fut2 fut34 (out_a (some (by_mut x))) r b h =
      Room-le S P (selecting true fut2 fut34) _ h
  on_output-Room true fut2 fut34 (out_a (some (set_state s tx))) r b h =
      Room-le S P (selecting true fut2 fut34) _ h
  on_output-Room false fut2 fut34 (out_a (some m)) r b h = absurd b
  on_output-Room fut1 fut2 fut34 (out_b o) r b h = Room-le S P (selecting fut1 fut2 fut34) _ h
  on_output-Room fut1 fut2 fut34 (out_c m) r b h = absurd b
  on_output-Room fut1 fut2 fut34 (out_d m) r b h = absurd b

  await-Room :
      (w : ℕ) (fut : Fut) (at : Fut → Pc Fut) (next : Runs S P → Progress × Runs S P) (r : Runs S P)
      → ((f : Fut) → Room S P (at f) (S.len r.board.tasks.task))
      → HasRoom S P (next r).1
      → HasRoom S P (await S P w fut at next r).1
  unfolding await
  await-Room w fut at next r h k = elim (Poll-cases (P.poll_fut w fut).0) [
    | inl e ↦ rw (e, await) (h _)
    | inr (u, e) ↦ rw (e, await) k
  ]

  -- A step from `pc` returns, and leaves as many tasks as it may.
  abbrev Stays : ℕ → (ℕ → Bool) → Pc Fut → Runs S P → Type ℓ
  Stays w free pc r =
      (p : Progress) × (r' : Runs S P) × (step S P w free pc r ≡ some (p, r')) × HasRoom S P r'

  step-Room :
      (w : ℕ) (free : ℕ → Bool) (pc : Pc Fut) (r : Runs S P)
      → Kept S P.poll_task r.board.tasks
      → Unfinished pc
      → Quiet S P r.board
      → Room S P pc (S.len r.board.tasks.task)
      → Stays w free pc r
  unfolding step finish
  step-Room w free (starting fut) r k u q h = (_, _, refl, await-Room w fut starting _ r (λ f. h) h)
  step-Room w free task_loop r k u q h = (_, _, refl, on_taken-Room r.task_mut r h)
  step-Room w free (exclusive fut) r k u q h =
      (_, _, refl, await-Room w fut exclusive _ r (λ f. h) h)
  step-Room w free inner_loop r k u q h = (_, _, refl, on_state-Room r.board.ctx.state r h)
  step-Room w free (selecting fut1 fut2 fut34) r k u q h =
      let (p, board, run, keeps, ok) =
        select-Fine S P (tasks_len S P r.board) w free fut1 fut2 fut34 r.board
          (k, ground arith, q) in
      let fewer =
        Room-fewer S P fut1 fut2 fut34 (S.len board.tasks.task) (tasks_len S P r.board) keeps.1 h in
      elim (Poll-cases p) [
        | inl e ↦ (
          waits,
          record r { board = board; pc = selecting fut1 fut2 fut34 },
          rw (run, e, ◌>>=◌) refl,
          fewer,
        )
        | inr (out, e) ↦ (
          goes,
          on_output S P out (record r { board = board }),
          rw (run, e, ◌>>=◌) refl,
          on_output-Room fut1 fut2 fut34 out (record r { board = board })
              (subst (IfReady (Brings S P fut1)) e ok) fewer,
        )
      ]
  step-Room w free (yielding false) r k u q h = (_, _, refl, h)
  step-Room w free (yielding true) r k u q h = (_, _, refl, h)
  step-Room w free resolving r k u q h =
      (_, _, refl, if-Room S P (no_tasks S P r.board) _ _ (ground (arith, S.len-new)) h)
  step-Room w free polling_tasks r k u q h =
      let (p, t, run, polled) = poll_task-Polled S P.poll_task w free r.board.tasks k in
      let fewer = poll_task-le S P.poll_task w P.size_hint free r.board.tasks t p run h in
      elim (Poll-cases p) [
        | inl e ↦ (
          waits,
          record r { board = record r.board { tasks = t }; pc = polling_tasks },
          rw (run, e, ◌>>=◌) refl,
          fewer,
        )
        | inr (x, e) ↦ (
          goes,
          record r { board = record r.board { tasks = t }; pc = resolve_yielding false },
          rw (run, e, ◌>>=◌) refl,
          fewer,
        )
      ]
  step-Room w free (resolve_yielding false) r k u q h = (_, _, refl, h)
  step-Room w free (resolve_yielding true) r k u q h = (_, _, refl, h)
  step-Room w free after_loop r k u q h =
      (_, _, refl, on_left-Room r.board.ctx.state r.task_mut r h)
  step-Room w free (last fut) r k u q h = (_, _, refl, await-Room w fut last _ r (λ f. h) h)
  step-Room w free (stopping fut) r k u q h = (_, _, refl, await-Room w fut stopping _ r (λ f. h) h)
  step-Room w free finished r k u q h = absurd u

  -- While the context has no stream and no delayed message, a step of a run that keeps its invariant
  -- and has not returned leaves at most as many tasks as `size_hint`, and fewer where the mailbox is
  -- polled, if there were no more before.
  pub advance-HasRoom :
      (w : ℕ) (free : ℕ → Bool) (r : Runs S P)
      → Inv S P r
      → Unfinished r.pc
      → Quiet S P r.board
      → HasRoom S P r
      → (p : Progress) × (r' : Runs S P) × (advance S P w free r ≡ some (p, r')) × HasRoom S P r'
  unfolding advance
  advance-HasRoom w free r h u q room = step-Room w free r.pc r h.kept u q room
