-- ===== src/Context/PollRun.antt =====
-- actix-async/src/context_future.rs: one poll of the future that `ContextFuture::run` is, and that it
-- comes to an end once the run is on its way out.
use actix_async.Prelude.{
  ℕ, zero, suc, ◌≡◌, ◌≢◌, ◌<◌, refl, ◌∙◌, Bool, true, false, Option, none, some, ◌>>=◌, subst,
  arith,
}
use actix_async.Tasks.{Task}
use actix_async.Tasks.Slab.{SlabOps}
use actix_async.Context.State.{Parts, Pc, resolve_yielding, Progress, goes, waits, done}
use actix_async.Context.Run.{Runs, advance}
use actix_async.Context.Invariant.{Unfinished, Inv}
use actix_async.Context.Steps.{advance-Inv}
use actix_async.Context.Ending.{Ending, rank, Told, EndsAs, Ends, step-Ends}

rank-lt {ℓ} : {Fut : Type ℓ} (pc : Pc Fut) → rank pc < 7
unfolding rank
rank-lt (resolve_yielding true) = ground arith
rank-lt (resolve_yielding false) = ground arith
rank-lt pc = ground arith

same_result {ℓ} : {A : Type ℓ} {o : Option A} {x y : A} → o ≡ some x → o ≡ some y → x ≡ y
same_result p q = ground arith

module _ {ℓ} {H Fut Rx Str Del : Type ℓ} (S : SlabOps (Task Fut)) (P : Parts H Fut Rx Str Del) where
  -- One poll of the future that `run` is, on fuel: it runs on until it waits or returns. `free k`
  -- is what the lock of the queue does in the step that leaves `k` fuel.
  unfoldable pub poll_run : ℕ → ℕ → (ℕ → ℕ → Bool) → Runs S P → Option (Progress × Runs S P)
  poll_run zero w free r = none
  poll_run (suc k) w free r = do
    (p, r') ← advance S P w (free k) r
    elim p [ goes ↦ poll_run k w free r' | waits ↦ some (waits, r') | done ↦ some (done, r') ]

  step-EndsAs :
      (w : ℕ) (free : ℕ → Bool) (p : Progress) (r r' : Runs S P)
      → Inv S P r
      → Ending r.pc
      → Unfinished r.pc
      → advance S P w free r ≡ some (p, r')
      → EndsAs S P r.pc r p r'
  unfolding advance Ends
  step-EndsAs w free p r r' h e u run =
      let (p2, r2, run2, ends) = step-Ends S P w free r.pc r h.kept e u in
      subst (λ x. EndsAs S P r.pc r x.0 x.1) (same_result run2 run) ends

  Told-after :
      (p : Progress) (r r1 r2 : Runs S P)
      → r1.notify ≡ r.notify
      → Told S P p r1 r2
      → Told S P p r r2
  Told-after goes r r1 r2 e t = t ∙ e
  Told-after waits r r1 r2 e t = t ∙ e
  Told-after done r r1 r2 e t = (t.0, t.1 ∙ e)

  -- What a poll of `run` leaves: it waits or has returned, and is still on its way out. The mailbox
  -- is as it was. The requester of the stop is notified if it has returned, and kept if not.
  pub record Polled (r : Runs S P) (p : Progress) (r' : Runs S P) : Type ℓ where
    pub rests : p ≢ goes
    pub inv : Inv S P r'
    pub out : Ending r'.pc
    pub untouched : r'.board.ctx.rx ≡ r.board.ctx.rx
    pub tells : Told S P p r r'

  pub Polls : ℕ → ℕ → (ℕ → ℕ → Bool) → Runs S P → Type ℓ
  Polls fuel w free r =
      (p : Progress) × (r' : Runs S P) × (poll_run fuel w free r ≡ some (p, r')) × Polled r p r'

  run_on :
      (k w : ℕ) (free : ℕ → ℕ → Bool) (p : Progress) (r r' : Runs S P)
      → advance S P w (free k) r ≡ some (p, r')
      → Inv S P r'
      → EndsAs S P r.pc r p r'
      → (p ≡ goes → Polls k w free r')
      → Polls (suc k) w free r
  unfolding poll_run Polls
  run_on k w free goes r r' run h e more =
      let (p2, r2, run2, rest) = more refl in
      (
        p2,
        r2,
        rw (run, ◌>>=◌) run2,
        record {
          rests = rest.rests;
          inv = rest.inv;
          out = rest.out;
          untouched = rest.untouched ∙ e.mailbox;
          tells = Told-after p2 r r' r2 e.told rest.tells;
        },
      )
  run_on k w free waits r r' run h e more = (
    waits,
    r',
    rw (run, ◌>>=◌) refl,
    record {
      rests = λ p. absurd (ground arith);
      inv = h;
      out = e.ending;
      untouched = e.mailbox;
      tells = e.told;
    },
  )
  run_on k w free done r r' run h e more = (
    done,
    r',
    rw (run, ◌>>=◌) refl,
    record {
      rests = λ p. absurd (ground arith);
      inv = h;
      out = e.ending;
      untouched = e.mailbox;
      tells = e.told;
    },
  )

  run_out :
      (fuel w : ℕ) (free : ℕ → ℕ → Bool) (r : Runs S P)
      → Inv S P r
      → Ending r.pc
      → Unfinished r.pc
      → rank r.pc < fuel
      → Polls fuel w free r
  run_out zero w free r h e u room = absurd (ground arith)
  run_out (suc k) w free r h e u room =
      let (p, r', run, inv) = advance-Inv S P w (free k) r h u in
      let ends = step-EndsAs w (free k) p r r' h e u run in
      run_on k w free p r r' run inv ends (λ g.
        run_out k w free r' inv ends.ending (ends.unfinished (λ d. absurd (ground arith)))
          (omega (arith, room, ends.nearer g)))

  pub poll_run-ends :
      (w : ℕ) (free : ℕ → ℕ → Bool) (r : Runs S P)
      → Inv S P r
      → Ending r.pc
      → Unfinished r.pc
      → Polls 7 w free r
  unfolding rank
  poll_run-ends w free r h e u = run_out 7 w free r h e u (rank-lt r.pc)
