-- ===== src/Context/Invariant.antt =====
-- actix-async/src/context_future.rs: the invariant of `ContextFuture::run`.
use actix_async.Prelude.{
  ℕ, suc, ◌+◌, ◌≡◌, ◌≢◌, refl, Bool, true, false, not, ◌&&◌, ◌||◌, if◌then◌else◌, arith,
}
use actix_async.Tasks
use actix_async.Tasks.{Task, TaskRef, add_task, poll_task}
use actix_async.Waker.{WakeQueue}
use actix_async.Tasks.Slab.{SlabOps}
use actix_async.Tasks.Kept.{Kept, absent}
use actix_async.Tasks.Polls.{empty-none}
use actix_async.Message.{ActorState}
use actix_async.Context.State.{
  Parts, Pc, starting, task_loop, exclusive, inner_loop, selecting, yielding, resolving,
  polling_tasks, resolve_yielding, after_loop, last, stopping, finished, is_some,
}
use actix_async.Context.Run.{Runs}

-- Nothing was dropped or lost, unless the loop was left at `ActorState::Stop`.
abbrev pub Clean : Bool → ℕ → ℕ → Type 0
Clean false dropped lost = (dropped ≡ 0) × (lost ≡ 0)
Clean true dropped lost = Unit

abbrev pub Left : Bool → ActorState → Type 0
Left false s = s ≡ ActorState.stop_graceful
Left true s = Unit

abbrev pub Handled : Bool → Bool → Type 0
Handled false waiting = waiting ≡ false
Handled true waiting = Unit

-- What holds at each point: whether the loop was left at `Stop`, the state of the actor, whether an
-- exclusive message waits, and how many tasks there are.
abbrev pub At {ℓ} : {Fut : Type ℓ} → Pc Fut → Bool → ActorState → Bool → ℕ → Type 0
At (starting fut) forced s waiting n = (forced ≡ false) × (waiting ≡ false) × (n ≡ 0)
At task_loop forced s waiting n = (forced ≡ false) × (n ≡ 0)
At (exclusive fut) forced s waiting n = (forced ≡ false) × (waiting ≡ false) × (n ≡ 0)
At inner_loop forced s waiting n = forced ≡ false
At (selecting fut1 fut2 fut34) forced s waiting n =
    (forced ≡ false) × ((waiting && (fut1 || fut34)) ≡ false)
At (yielding yielded) forced s waiting n = forced ≡ false
At resolving forced s waiting n = (forced ≡ false) × (s ≡ ActorState.stop_graceful)
At polling_tasks forced s waiting n = (forced ≡ false) × (s ≡ ActorState.stop_graceful)
At (resolve_yielding yielded) forced s waiting n = (forced ≡ false) × (s ≡ ActorState.stop_graceful)
At after_loop forced s waiting n = (n ≡ 0) × Left forced s
At (last fut) forced s waiting n = (n ≡ 0) × (waiting ≡ false)
At (stopping fut) forced s waiting n = (n ≡ 0) × Handled forced waiting
At finished forced s waiting n = (n ≡ 0) × Handled forced waiting

abbrev pub Unfinished {ℓ} : {Fut : Type ℓ} → Pc Fut → Type 0
Unfinished finished = ⊥
Unfinished _ = Unit

pub all_Handled : (forced waiting : Bool) → waiting ≡ false → Handled forced waiting
all_Handled false waiting e = e
all_Handled true waiting e = tt

pub all_Left : (forced : Bool) → Left forced ActorState.stop_graceful
all_Left false = refl
all_Left true = tt

pub forced-Handled :
    (forced : Bool) (s : ActorState) (waiting : Bool)
    → s ≢ ActorState.stop_graceful
    → Left forced s
    → Handled forced waiting
forced-Handled false s waiting ne e = absurd (ne e)
forced-Handled true s waiting ne e = tt

pub lost-Clean :
    (forced waiting : Bool) (dropped lost : ℕ)
    → Handled forced waiting
    → Clean forced dropped lost
    → Clean forced dropped (if waiting then suc lost else lost)
lost-Clean false waiting dropped lost e h = rw e h
lost-Clean true waiting dropped lost e h = tt

pub selects : (waiting room : Bool) → (waiting && ((not waiting && room) || not waiting)) ≡ false
selects waiting room = ground arith

module _ {ℓ} {H Fut Rx Str Del : Type ℓ} (S : SlabOps (Task Fut)) (P : Parts H Fut Rx Str Del) where
  pub record InvAt (pc : Pc Fut) (r : Runs S P) : Type ℓ where
    pub kept : Kept S P.poll_task r.board.tasks
    pub at : At pc r.forced r.board.ctx.state (is_some r.task_mut) (S.len r.board.tasks.task)
    pub clean : Clean r.forced r.dropped r.lost

  abbrev pub Inv : Runs S P → Type ℓ
  Inv r = InvAt r.pc r

  pub new-Kept : (q : WakeQueue) → Kept S P.poll_task (Tasks.new S P.poll_task q)
  new-Kept q k x e = absurd (absent (empty-none S P.poll_task S.new k S.len-new) e)

  pub if-Inv :
      (b : Bool) (x y : Runs S P)
      → (b ≡ true → Inv x)
      → (b ≡ false → Inv y)
      → Inv (if b then x else y)
  if-Inv true x y p q = p refl
  if-Inv false x y p q = q refl

  -- the drop of a table without tasks
  pub empty-Clean :
      (forced : Bool) (dropped lost n : ℕ)
      → n ≡ 0
      → Clean forced dropped lost
      → Clean forced (dropped + n) lost
  empty-Clean false dropped lost n e h = (omega (arith, h.0, e), h.1)
  empty-Clean true dropped lost n e h = tt
