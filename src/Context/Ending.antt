-- ===== src/Context/Ending.antt =====
-- actix-async/src/context_future.rs: how `ContextFuture::run` ends, once it has left the match on the
-- state: it resolves the tasks, handles an exclusive message and runs the hook.
use actix_async.Prelude.{
  ℕ, ◌≡◌, ◌≢◌, ◌<◌, refl, Bool, true, false, if◌then◌else◌, inl, inr, Option, some, ◌>>=◌,
  Poll-cases, arith,
}
use actix_async.Tasks.{Task}
use actix_async.Tasks.Slab.{SlabOps}
use actix_async.Tasks.Kept.{Kept}
use actix_async.Tasks.Polls.{poll_task-Polled}
use actix_async.Message.{ActorState}
use actix_async.Context.State.{
  Parts, Pc, resolving, polling_tasks, resolve_yielding, after_loop, last, stopping, finished,
  Progress, goes, waits, done,
}
use actix_async.Context.Run.{Runs, no_tasks, on_left, await, finish, step}
use actix_async.Context.Invariant.{Unfinished}

-- The run has left its loop, or is about to, for good.
abbrev pub Ending {ℓ} : {Fut : Type ℓ} → Pc Fut → Type 0
Ending resolving = Unit
Ending polling_tasks = Unit
Ending (resolve_yielding yielded) = Unit
Ending after_loop = Unit
Ending (last fut) = Unit
Ending (stopping fut) = Unit
Ending finished = Unit
Ending pc = ⊥

abbrev pub Returned {ℓ} : {Fut : Type ℓ} → Pc Fut → Type 0
Returned finished = Unit
Returned pc = ⊥

-- how many steps are left at most before `run` waits or returns
unfoldable pub rank {ℓ} : {Fut : Type ℓ} → Pc Fut → ℕ
rank (resolve_yielding true) = 6
rank resolving = 5
rank polling_tasks = 4
rank after_loop = 3
rank (last fut) = 2
rank (stopping fut) = 1
rank (resolve_yielding false) = 1
rank pc = 0

module _ {ℓ} {H Fut Rx Str Del : Type ℓ} (S : SlabOps (Task Fut)) (P : Parts H Fut Rx Str Del) where
  -- What becomes of the requester of the stop: it is kept, and notified when `run` returns.
  abbrev pub Told : Progress → Runs S P → Runs S P → Type 0
  Told done r r' = Returned r'.pc × (r'.notified ≡ r.notify)
  Told p r r' = r'.notify ≡ r.notify

  pub record EndsAs (pc : Pc Fut) (r : Runs S P) (p : Progress) (r' : Runs S P) : Type ℓ where
    pub ending : Ending r'.pc
    pub mailbox : r'.board.ctx.rx ≡ r.board.ctx.rx
    pub nearer : p ≡ goes → rank r'.pc < rank pc
    pub unfinished : p ≢ done → Unfinished r'.pc
    pub told : Told p r r'

  unfoldable pub Ends : ℕ → (ℕ → Bool) → Pc Fut → Runs S P → Type ℓ
  Ends w free pc r =
      (p : Progress) × (r' : Runs S P) × (step S P w free pc r ≡ some (p, r')) × EndsAs pc r p r'

  going :
      (pc : Pc Fut) (r r' : Runs S P)
      → Ending r'.pc
      → r'.board.ctx.rx ≡ r.board.ctx.rx
      → rank r'.pc < rank pc
      → Unfinished r'.pc
      → r'.notify ≡ r.notify
      → EndsAs pc r goes r'
  going pc r r' e m n u t = record {
    ending = e;
    mailbox = m;
    nearer = λ p. n;
    unfinished = λ p. u;
    told = t;
  }

  waiting :
      (pc : Pc Fut) (r r' : Runs S P)
      → Ending r'.pc
      → r'.board.ctx.rx ≡ r.board.ctx.rx
      → Unfinished r'.pc
      → r'.notify ≡ r.notify
      → EndsAs pc r waits r'
  waiting pc r r' e m u t = record {
    ending = e;
    mailbox = m;
    nearer = λ p. absurd (ground arith);
    unfinished = λ p. u;
    told = t;
  }

  on_left-Ends :
      (s : ActorState) (o : Option H) (r : Runs S P) → EndsAs after_loop r goes (on_left S P s o r)
  unfolding on_left rank
  on_left-Ends ActorState.stop_graceful (some x) r =
      going after_loop r _ tt refl (ground arith) tt refl
  on_left-Ends s o r = going after_loop r _ tt refl (ground arith) tt refl

  await-Ends :
      (w : ℕ) (pc : Pc Fut) (fut : Fut) (at : Fut → Pc Fut) (next : Runs S P → Progress × Runs S P)
      (r : Runs S P)
      → ((f : Fut) → Ending (at f) × Unfinished (at f))
      → EndsAs pc r (next r).0 (next r).1
      → EndsAs pc r (await S P w fut at next r).0 (await S P w fut at next r).1
  unfolding await
  await-Ends w pc fut at next r h k = elim (Poll-cases (P.poll_fut w fut).0) [
    | inl e ↦ rw (e, await) (waiting pc r _ (h _).0 refl (h _).1 refl)
    | inr (u, e) ↦ rw (e, await) k
  ]

  resolving-Ends :
      (b : Bool) (x y r : Runs S P)
      → EndsAs resolving r goes x
      → EndsAs resolving r goes y
      → EndsAs resolving r goes (if b then x else y)
  resolving-Ends true x y r p q = p
  resolving-Ends false x y r p q = q

  pub step-Ends :
      (w : ℕ) (free : ℕ → Bool) (pc : Pc Fut) (r : Runs S P)
      → Kept S P.poll_task r.board.tasks
      → Ending pc
      → Unfinished pc
      → Ends w free pc r
  unfolding step finish rank Ends
  step-Ends w free resolving r k h u = (
    _,
    _,
    refl,
    resolving-Ends (no_tasks S P r.board) _ _ r (going resolving r _ tt refl (ground arith) tt refl)
        (going resolving r _ tt refl (ground arith) tt refl),
  )
  step-Ends w free polling_tasks r k h u =
      let (p, t, run, polled) = poll_task-Polled S P.poll_task w free r.board.tasks k in
      elim (Poll-cases p) [
        | inl e ↦ (
          waits,
          record r { board = record r.board { tasks = t }; pc = polling_tasks },
          rw (run, e, ◌>>=◌) refl,
          waiting polling_tasks r _ tt refl tt refl,
        )
        | inr (x, e) ↦ (
          goes,
          record r { board = record r.board { tasks = t }; pc = resolve_yielding false },
          rw (run, e, ◌>>=◌) refl,
          going polling_tasks r _ tt refl (ground arith) tt refl,
        )
      ]
  step-Ends w free (resolve_yielding false) r k h u =
      (_, _, refl, waiting (resolve_yielding false) r _ tt refl tt refl)
  step-Ends w free (resolve_yielding true) r k h u =
      (_, _, refl, (going (resolve_yielding true) r _ tt refl (ground arith) tt refl))
  step-Ends w free after_loop r k h u = (_, _, refl, on_left-Ends r.board.ctx.state r.task_mut r)
  step-Ends w free (last fut) r k h u = (
    _,
    _,
    refl,
    await-Ends w (last fut) fut last _ r (λ f. (tt, tt))
        (going (last fut) r _ tt refl (ground arith) tt refl),
  )
  step-Ends w free (stopping fut) r k h u = (
    _,
    _,
    refl,
    await-Ends w (stopping fut) fut stopping _ r (λ f. (tt, tt))
        (record {
          ending = tt;
          mailbox = refl;
          nearer = λ e. absurd (ground arith);
          unfinished = λ e. absurd (e refl);
          told = (tt, refl);
        }),
  )
  step-Ends w free finished r k h u = absurd u
  step-Ends w free pc r k h u = absurd h
