-- ===== src/Tasks/Rounds.antt =====
-- actix-async/src/context_future.rs: the rounds of the loop of `TaskRef::poll_task`.
use actix_async.Prelude.{
  ℕ, zero, suc, ◌+◌, ◌≡◌, ◌≤◌, refl, sym, ◌∙◌, Bool, true, false, ◌==◌, Option, none, some, List,
  inl, inr, Option-cases, Bool-cases, Poll, ready, subst, arith,
}
use actix_async.Waker.{ActorWaker}
use actix_async.Tasks.{
  TaskPoll, Task, TaskRef, poll_found, poll_one, poll_loop, poll_task, try_pop, finish, waker_of,
}
use actix_async.Tasks.Slab.{SlabOps}
use actix_async.Tasks.Polls.{without}

module _ {ℓ} {Fut : Type ℓ} (S : SlabOps (Task Fut))
    (poll_fut : ActorWaker → Fut → TaskPoll Fut) where
  abbrev pub Result : Type ℓ
  Result = Option (Poll (Unit {0}) × TaskRef (S.Slab))

  pub same_end :
      {o : Result} {r r' : Poll (Unit {0})} {t t' : TaskRef (S.Slab)}
      → o ≡ some (r, t)
      → o ≡ some (r', t')
      → t ≡ t'
  same_end p q = ground arith

  module _ (fuel w : ℕ) (free : ℕ → Bool) (bound n : ℕ) (t : TaskRef (S.Slab)) where
    abbrev pub run_from : Option (Poll (Unit {0}) × TaskRef (S.Slab))
    run_from = poll_loop S poll_fut (suc fuel) w free bound n t

    pub round-none :
        try_pop (free n) t.queue.queued ≡ none → run_from ≡ some (finish S poll_fut t, t)
    unfolding poll_loop
    round-none e = rw (e, poll_loop) refl

    pub round-last :
        (idx : ℕ) (rest : List ℕ)
        → try_pop (free n) t.queue.queued ≡ some (idx, rest)
        → (n + 1 == bound) ≡ true
        → run_from ≡ some (ready tt, poll_one S poll_fut w idx (without S poll_fut rest t))
    unfolding poll_loop
    round-last idx rest e last = rw (e, last, poll_loop) refl

    pub round-more :
        (idx : ℕ) (rest : List ℕ)
        → try_pop (free n) t.queue.queued ≡ some (idx, rest)
        → (n + 1 == bound) ≡ false
        → run_from
          ≡ poll_loop S poll_fut fuel w free bound
              (n + 1)
              (poll_one S poll_fut w idx (without S poll_fut rest t))
    unfolding poll_loop
    round-more idx rest e more = rw (e, more, poll_loop) refl

  -- What every poll of a task keeps of the table, the loop keeps.
  pub loop-keeps {κ} :
      (Keeps : S.Slab → Type κ)
      → ((w idx : ℕ) (t : TaskRef (S.Slab))
          → Keeps t.task
          → Keeps (poll_one S poll_fut w idx t).task)
      → (fuel w : ℕ) (free : ℕ → Bool) (bound n : ℕ) (t t' : TaskRef (S.Slab)) (r : Poll (Unit {0}))
      → poll_loop S poll_fut fuel w free bound n t ≡ some (r, t')
      → Keeps t.task
      → Keeps t'.task
  unfolding poll_loop
  loop-keeps Keeps keep zero w free bound n t t' r run h = absurd (ground arith)
  loop-keeps Keeps keep (suc fuel) w free bound n t t' r run h =
      elim (Option-cases (try_pop (free n) t.queue.queued)) [
        | inl e ↦ subst (λ u. Keeps u.task) (same_end (round-none fuel w free bound n t e) run) h
        | inr ((idx, rest), e) ↦
            let t1 = poll_one S poll_fut w idx (without S poll_fut rest t) in
            let kept = keep w idx (without S poll_fut rest t) h in
            elim (Bool-cases (n + 1 == bound)) [
              | inl last ↦
                  subst (λ u. Keeps u.task)
                    (same_end (round-last fuel w free bound n t idx rest e last) run) kept
              | inr more ↦
                  loop-keeps Keeps keep fuel w free bound (n + 1) t1 t' r
                    (sym (round-more fuel w free bound n t idx rest e more) ∙ run) kept
            ]
      ]

  found-le :
      (w idx : ℕ) (x : Task Fut) (t : TaskRef (S.Slab))
      → S.get idx t.task ≡ some x
      → S.len (poll_found S poll_fut w idx x t).task ≤ S.len t.task
  unfolding poll_found
  found-le w idx x t found =
      let a = waker_of w idx x.waker in
      let new : Task Fut = record { fut = (poll_fut a x.fut).after; waker = some a } in
      let there = S.get-set idx new x t.task found in
      ground (arith, S.len-set idx new t.task, S.len-remove idx new (S.set idx new t.task) there)

  one-le :
      (n w idx : ℕ) (t : TaskRef (S.Slab))
      → S.len t.task ≤ n
      → S.len (poll_one S poll_fut w idx t).task ≤ n
  unfolding poll_one
  one-le n w idx t h = elim (Option-cases (S.get idx t.task)) [
    | inl e ↦ rw (e, poll_one) h
    | inr (x, e) ↦ rw (e, poll_one) (omega (arith, h, found-le w idx x t e))
  ]

  -- A call of `poll_task` adds no task.
  pub poll_task-le :
      (w n : ℕ) (free : ℕ → Bool) (t t' : TaskRef (S.Slab)) (r : Poll (Unit {0}))
      → poll_task S poll_fut w free t ≡ some (r, t')
      → S.len t.task ≤ n
      → S.len t'.task ≤ n
  unfolding poll_task
  poll_task-le w n free t t' r run h =
      loop-keeps (λ s. S.len s ≤ n) (one-le n) _ w free _ 0 t t' r run h
