-- ===== src/Tasks/Fair.antt =====
-- actix-async/src/context_future.rs: one call of `TaskRef::poll_task` polls the tasks at the front of
-- the queue, as many as the table had tasks.
use actix_async.Prelude.{
  ℕ, zero, suc, ◌+◌, ◌≡◌, ◌≢◌, ◌<◌, refl, sym, ◌∙◌, inl, inr, true, ◌==◌, none, some, List, [], ◌∷◌,
  ◌++◌, length, Option-cases, Bool-cases, Poll, ready, pending, Poll-cases, ap, Option, subst,
  arith, ℕ_discrete, append_assoc, append-nil,
}
use actix_async.Waker.{ActorWaker, WakeQueue, wake_all, wake_by_ref}
use actix_async.Tasks.{
  TaskPoll, Task, TaskRef, waker_of, poll_found, poll_one, poll_loop, poll_task, try_pop,
}
use actix_async.Tasks.Slab.{SlabOps}
use actix_async.Tasks.Kept.{Kept}
use actix_async.Tasks.Rounds.{same_end, round-last, round-more, loop-keeps}
use actix_async.Tasks.Polls.{without, poll_task-Polled}

wake_all-appends :
    (ws : List ActorWaker) (q : WakeQueue)
    → (more : List ℕ) × ((wake_all ws q).queued ≡ q.queued ++ more)
wake_all-appends [] q = ([], sym (append-nil q.queued))
wake_all-appends (a ∷ ws) q =
    let (more, e) = wake_all-appends ws (wake_by_ref a q) in
    (a.idx ∷ more, e ∙ append_assoc q.queued (a.idx ∷ []) more)

at_front : (idx : ℕ) (rest q : List ℕ) → q ≡ idx ∷ rest → try_pop true q ≡ some (idx, rest)
unfolding try_pop
at_front idx rest q e = rw e refl

module _ {ℓ} {Fut : Type ℓ} (S : SlabOps (Task Fut))
    (poll_fut : ActorWaker → Fut → TaskPoll Fut) where
  -- what a poll of a task leaves of it: nothing if it is done
  unfoldable pub left : ActorWaker → Fut → Option Fut
  left a f = elim (poll_fut a f).result [ ready _ ↦ none | pending ↦ some (poll_fut a f).after ]

  -- A task is polled once or more often; what is left of it then
  pub data WasPolled (f : Fut) : Option Fut → Type ℓ where
    once : (a : ActorWaker) → WasPolled f (left a f)
    again : (g : Fut) (a : ActorWaker) → WasPolled f (some g) → WasPolled f (left a g)

  -- the task that stands in the table at `k`
  abbrev pub fut_of : Option (Task Fut) → Option Fut
  fut_of none = none
  fut_of (some x) = some x.fut

  abbrev pub fut_at : ℕ → S.Slab → Option Fut
  fut_at k s = fut_of (S.get k s)

  found-left :
      (w k : ℕ) (y : Task Fut) (t : TaskRef (S.Slab))
      → S.get k t.task ≡ some y
      → fut_at k (poll_found S poll_fut w k y t).task ≡ left (waker_of w k y.waker) y.fut
  unfolding poll_found left
  found-left w k y t found =
      let a = waker_of w k y.waker in
      let new : Task Fut = record { fut = (poll_fut a y.fut).after; waker = some a } in
      elim (Poll-cases (poll_fut a y.fut).result) [
        | inl e ↦ rw (e, poll_found, left) (ap fut_of (S.get-set k new y t.task found))
        | inr (u, e) ↦ rw (e, poll_found, left) (ap fut_of (S.get-remove k (S.set k new t.task)))
      ]

  found-other :
      (w idx k : ℕ) (y : Task Fut) (t : TaskRef (S.Slab))
      → k ≢ idx
      → S.get k (poll_found S poll_fut w idx y t).task ≡ S.get k t.task
  unfolding poll_found
  found-other w idx k y t other =
      let a = waker_of w idx y.waker in
      let new : Task Fut = record { fut = (poll_fut a y.fut).after; waker = some a } in
      let kept = S.get-set_other k idx new t.task other in
      elim (Poll-cases (poll_fut a y.fut).result) [
        | inl e ↦ rw (e, poll_found) kept
        | inr (u, e) ↦
            rw (e, poll_found) (S.get-remove_other k idx (S.set idx new t.task) other ∙ kept)
      ]

  one-left :
      (w k : ℕ) (y : Task Fut) (t : TaskRef (S.Slab))
      → S.get k t.task ≡ some y
      → fut_at k (poll_one S poll_fut w k t).task ≡ left (waker_of w k y.waker) y.fut
  unfolding poll_one
  one-left w k y t found = rw (found, poll_one) (found-left w k y t found)

  one-other :
      (w idx k : ℕ) (t : TaskRef (S.Slab))
      → k ≢ idx
      → S.get k (poll_one S poll_fut w idx t).task ≡ S.get k t.task
  unfolding poll_one
  one-other w idx k t other = elim (Option-cases (S.get idx t.task)) [
    | inl e ↦ rw (e, poll_one) refl
    | inr (y, e) ↦ rw (e, poll_one) (found-other w idx k y t other)
  ]

  one-WasPolled :
      (w k : ℕ) (x : Task Fut) (t : TaskRef (S.Slab))
      → S.get k t.task ≡ some x
      → WasPolled x.fut (fut_at k (poll_one S poll_fut w k t).task)
  one-WasPolled w k x t there =
      subst (WasPolled x.fut) (sym (one-left w k x t there)) (once (waker_of w k x.waker))

  one-none :
      (w k : ℕ) (t : TaskRef (S.Slab)) → S.get k t.task ≡ none → poll_one S poll_fut w k t ≡ t
  unfolding poll_one
  one-none w k t e = rw (e, poll_one) refl

  -- A task that was polled stays one, whatever is polled next.
  keeps-WasPolled :
      (f : Fut) (k w idx : ℕ) (t : TaskRef (S.Slab))
      → WasPolled f (fut_at k t.task)
      → WasPolled f (fut_at k (poll_one S poll_fut w idx t).task)
  unfolding poll_one
  keeps-WasPolled f k w idx t h = elim (ℕ_discrete k idx) [
    | no other ↦ subst (λ o. WasPolled f (fut_of o)) (sym (one-other w idx k t other)) h
    | yes same ↦
        subst (λ i. WasPolled f (fut_at k (poll_one S poll_fut w i t).task)) same
          (elim (Option-cases (S.get k t.task)) [
            | inl e ↦ subst (λ u. WasPolled f (fut_at k u.task)) (sym (one-none w k t e)) h
            | inr (y, e) ↦
                subst (WasPolled f) (sym (one-left w k y t e))
                  (again y.fut (waker_of w k y.waker) (subst (λ o. WasPolled f (fut_of o)) e h))
          ])
  ]

  poll_one-appends :
      (w idx : ℕ) (t : TaskRef (S.Slab))
      → (more : List ℕ) × ((poll_one S poll_fut w idx t).queue.queued ≡ t.queue.queued ++ more)
  unfolding poll_one poll_found
  poll_one-appends w idx t = elim (Option-cases (S.get idx t.task)) [
    | inl e ↦ rw (e, poll_one) ([], sym (append-nil t.queue.queued))
    | inr (y, e) ↦
        rw (e, poll_one) (wake_all-appends (poll_fut (waker_of w idx y.waker) y.fut).wakes t.queue)
  ]

  -- The task at the front of the queue is polled.
  here-polls :
      (fuel w bound n k : ℕ) (post : List ℕ) (x : Task Fut) (t t' : TaskRef (S.Slab))
      (r : Poll (Unit {0}))
      → t.queue.queued ≡ k ∷ post
      → S.get k t.task ≡ some x
      → poll_loop S poll_fut (suc fuel) w (λ _. true) bound n t ≡ some (r, t')
      → WasPolled x.fut (fut_at k t'.task)
  unfolding poll_loop
  here-polls fuel w bound n k post x t t' r e there run =
      let front = at_front k post t.queue.queued e in
      let here = one-WasPolled w k x (without S poll_fut post t) there in
      elim (Bool-cases (n + 1 == bound)) [
        | inl last ↦
            subst (λ u. WasPolled x.fut (fut_at k u.task))
              (same_end S poll_fut
                (round-last S poll_fut fuel w (λ _. true) bound n t k post front last) run)
              here
        | inr more ↦
            loop-keeps S poll_fut (λ s. WasPolled x.fut (fut_at k s)) (keeps-WasPolled x.fut k) fuel
              w (λ _. true) bound (n + 1) (poll_one S poll_fut w k (without S poll_fut post t)) t' r
              (sym (round-more S poll_fut fuel w (λ _. true) bound n t k post front more) ∙ run)
              here
      ]

  -- A task in the queue is polled if there are fewer before it than may still be polled.
  loop-polls :
      (fuel w bound n k : ℕ) (pre post : List ℕ) (x : Task Fut) (t t' : TaskRef (S.Slab))
      (r : Poll (Unit {0}))
      → t.queue.queued ≡ pre ++ k ∷ post
      → S.get k t.task ≡ some x
      → n + length pre < bound
      → poll_loop S poll_fut fuel w (λ _. true) bound n t ≡ some (r, t')
      → WasPolled x.fut (fut_at k t'.task)
  unfolding poll_loop
  loop-polls zero w bound n k pre post x t t' r e there room run = absurd (ground arith)
  loop-polls (suc fuel) w bound n k [] post x t t' r e there room run =
      here-polls fuel w bound n k post x t t' r e there run
  loop-polls (suc fuel) w bound n k (idx ∷ pre) post x t t' r e there room run =
      let rest = pre ++ k ∷ post in
      let front = at_front idx rest t.queue.queued e in
      let t0 = without S poll_fut rest t in
      let t1 = poll_one S poll_fut w idx t0 in
      let (added, appended) = poll_one-appends w idx t0 in
      elim (ℕ_discrete k idx) [
        | yes same ↦
            here-polls fuel w bound n k rest x t t' r (e ∙ ap (λ i. i ∷ rest) (sym same)) there run
        | no other ↦
            loop-polls fuel w bound (n + 1) k pre (post ++ added) x t1 t' r
              (appended ∙ append_assoc pre (k ∷ post) added) (one-other w idx k t0 other ∙ there)
              (omega (arith, room))
              (sym
                  (round-more S poll_fut fuel w (λ _. true) bound n t idx rest front (ground arith))
                ∙ run)
      ]

  -- If no task is forgotten, a call of `poll_task` whose lock is free returns, and polls every task
  -- of the table whose index stands in the queue behind fewer others than there are tasks: the task
  -- is polled at least once, and is removed exactly when a poll of it is ready.
  pub poll_task-WasPolled :
      (w k : ℕ) (pre post : List ℕ) (x : Task Fut) (t : TaskRef (S.Slab))
      → Kept S poll_fut t
      → t.queue.queued ≡ pre ++ k ∷ post
      → S.get k t.task ≡ some x
      → length pre < S.len t.task
      → (r : Poll (Unit {0})) × (t' : TaskRef (S.Slab)) × (poll_task S poll_fut w (λ _. true) t
          ≡ some (r, t'))
        × WasPolled x.fut (fut_at k t'.task)
  unfolding poll_task
  poll_task-WasPolled w k pre post x t h e there room =
      let (r, t', run, polled) = poll_task-Polled S poll_fut w (λ _. true) t h in
      (
        r,
        t',
        run,
        loop-polls _ w (S.len t.task) 0 k pre post x t t' r e there (omega (arith, room)) run,
      )
