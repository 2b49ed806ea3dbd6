-- ===== src/Context/Reach.antt =====
-- actix-async/src/context_future.rs and actix-async/src/context.rs: what a `ContextFuture` may go
-- through. Between the steps of `run`, user code pushes to the caches and stops the context,
-- addresses send to the mailbox, and wakers wake tasks.
use actix_async.Prelude.{
  ℕ, ◌≡◌, refl, ◌⊎◌, inl, inr, Bool, false, Option, none, some, List, subst, arith,
}
use actix_async.Waker.{ActorWaker, WakeQueue, wake_all}
use actix_async.Waker
use actix_async.Tasks
use actix_async.Tasks.{Task, TaskRef}
use actix_async.Tasks.Slab.{SlabOps}
use actix_async.Tasks.Kept.{Known-wake_all}
use actix_async.Waker
use actix_async.Message.{ActorState}
use actix_async.Context.{ContextInner}
use actix_async.Context.State.{
  Parts, Pc, starting, resolving, polling_tasks, resolve_yielding, after_loop, exclusive, last,
  finished, Progress, is_some,
}
use actix_async.Context.Run.{Runs, advance, step}
use actix_async.Context.Invariant.{Clean, all_Left, At, Unfinished, Inv, new-Kept}
use actix_async.Context.Steps.{advance-Inv}

not_some {ℓ} : {A : Type ℓ} {o : Option A} → is_some o ≡ false → o ≡ none
not_some {o = none} e = refl
not_some {o = some x} e = absurd (ground arith)

module _ {ℓ} {H Fut Rx Str Del : Type ℓ} (S : SlabOps (Task Fut)) (P : Parts H Fut Rx Str Del) where
  -- `ContextFuture::start` and the head of `run`, behind the closure that makes the actor, which may
  -- have changed the context
  abbrev pub begin : ContextInner Rx Str Del → Runs S P
  begin ctx = record {
    board = record { ctx = ctx; tasks = Tasks.new S P.poll_task Waker.new };
    task_mut = none;
    notify = none;
    pc = starting P.on_start;
    notified = none;
    dropped = 0;
    lost = 0;
    forced = false;
  }

  abbrev pub with_ctx : ContextInner Rx Str Del → Runs S P → Runs S P
  with_ctx ctx r = record r { board = record r.board { ctx = ctx } }

  abbrev pub with_queue : WakeQueue → Runs S P → Runs S P
  with_queue q r = record r {
    board = record r.board { tasks = record r.board.tasks { queue = q } };
  }

  -- What happens to a run: a step of its own; a change of the context that leaves the state, as sends
  -- to the mailbox and the methods that push to a cache are; `Context::stop`; wakers that wake.
  pub data Event : Runs S P → Runs S P → Type ℓ where
    advances :
        (w : ℕ) (free : ℕ → Bool) (p : Progress) (r r' : Runs S P)
        → advance S P w free r ≡ some (p, r')
        → Event r r'
    changes :
        (ctx : ContextInner Rx Str Del) (r : Runs S P)
        → ctx.state ≡ r.board.ctx.state
        → Event r (with_ctx ctx r)
    stops :
        (ctx : ContextInner Rx Str Del) (r : Runs S P)
        → ctx.state ≡ ActorState.stop_graceful
        → Event r (with_ctx ctx r)
    wakes :
        (ws : List ActorWaker) (r : Runs S P)
        → Event r (with_queue (wake_all ws r.board.tasks.queue) r)

  pub data Reached : Runs S P → Type ℓ where
    begins : (ctx : ContextInner Rx Str Del) → Reached (begin ctx)
    goes_on : (r r' : Runs S P) → Reached r → Event r r' → Reached r'

  stopped-At :
      (pc : Pc Fut) (forced : Bool) (s : ActorState) (waiting : Bool) (n : ℕ)
      → At pc forced s waiting n
      → At pc forced ActorState.stop_graceful waiting n
  stopped-At resolving forced s waiting n h = (h.0, refl)
  stopped-At polling_tasks forced s waiting n h = (h.0, refl)
  stopped-At (resolve_yielding yielded) forced s waiting n h = (h.0, refl)
  stopped-At after_loop forced s waiting n h = (h.0, all_Left forced)
  stopped-At pc forced s waiting n h = h

  step-Unfinished :
      (w : ℕ) (free : ℕ → Bool) (p : Progress) (pc : Pc Fut) (r r' : Runs S P)
      → step S P w free pc r ≡ some (p, r')
      → Unfinished pc
  unfolding step
  step-Unfinished w free p finished r r' e = absurd (ground arith)
  step-Unfinished w free p pc r r' e = tt

  Event-Inv : (r r' : Runs S P) → Event r r' → Inv S P r → Inv S P r'
  unfolding advance
  Event-Inv r r' (advances w free p _ _ e) h =
      let (p', r2, run, k) = advance-Inv S P w free r h (step-Unfinished w free p r.pc r r' e) in
      subst (λ x. Inv S P x) (ground arith) k
  Event-Inv r r' (changes ctx _ e) h = record { kept = h.kept; at = rw e h.at; clean = h.clean }
  Event-Inv r r' (stops ctx _ e) h = record {
    kept = h.kept;
    at = rw e (stopped-At r.pc r.forced r.board.ctx.state _ _ h.at);
    clean = h.clean;
  }
  Event-Inv r r' (wakes ws _) h = record {
    kept = λ k x there. Known-wake_all k x.waker ws r.board.tasks.queue (h.kept k x there);
    at = h.at;
    clean = h.clean;
  }

  pub Reached-Inv : (r : Runs S P) → Reached r → Inv S P r
  Reached-Inv r (begins ctx) = record {
    kept = new-Kept S P Waker.new;
    at = (refl, refl, S.len-new);
    clean = (refl, refl);
  }
  Reached-Inv r (goes_on r1 _ h e) = Event-Inv r1 r e (Reached-Inv r1 h)

  stands_there :
      (pc : Pc Fut) (r : Runs S P)
      → Inv S P r
      → r.pc ≡ pc
      → At pc r.forced r.board.ctx.state (is_some r.task_mut) (S.len r.board.tasks.task)
  stands_there pc r h e =
      subst (λ x. At x r.forced r.board.ctx.state (is_some r.task_mut) (S.len r.board.tasks.task)) e
        h.at

  -- While the handler of an exclusive message runs, in the loop or behind it after a graceful stop,
  -- no task of a concurrent message is in the table and no other exclusive message waits, and the run
  -- has come there without a task that it dropped before it was done, and without an exclusive
  -- message that it dropped before it was handled.
  pub exclusive-alone :
      (r : Runs S P) (fut : Fut)
      → Reached r
      → (r.pc ≡ exclusive fut) ⊎ ((r.pc ≡ last fut) × (r.forced ≡ false))
      → (S.len r.board.tasks.task ≡ 0) × (r.task_mut ≡ none) × (r.dropped ≡ 0) × (r.lost ≡ 0)
  exclusive-alone r fut h at =
      let clean : r.forced ≡ false → Clean false r.dropped r.lost =
        λ e. subst (λ b. Clean b r.dropped r.lost) e (Reached-Inv r h).clean in
      elim at [
        | inl e ↦
            let there = stands_there (exclusive fut) r (Reached-Inv r h) e in
            let c = clean there.0 in (there.2, not_some there.1, c.0, c.1)
        | inr (e, graceful) ↦
            let there = stands_there (last fut) r (Reached-Inv r h) e in
            let c = clean graceful in (there.0, not_some there.1, c.0, c.1)
      ]

  -- When `run` has returned and has not left its loop at `ActorState::Stop`, it has dropped no task
  -- before it was done and no exclusive message before it was handled, and has none left.
  pub graceful-clean :
      (r : Runs S P)
      → Reached r
      → r.pc ≡ finished
      → r.forced ≡ false
      → (r.dropped ≡ 0) × (r.lost ≡ 0) × (S.len r.board.tasks.task ≡ 0)
  graceful-clean r h at e =
      let there = stands_there finished r (Reached-Inv r h) at in
      let clean = subst (λ b. Clean b r.dropped r.lost) e (Reached-Inv r h).clean in
      (clean.0, clean.1, there.0)
