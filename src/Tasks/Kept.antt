-- ===== src/Tasks/Kept.antt =====
-- actix-async/src/context_future.rs: no task of `TaskRef` is forgotten. A task in the table either
-- waits in the queue for its first poll, or has been polled and holds a waker of its own.
use actix_async.Prelude.{
  ℕ, ◌≡◌, ◌≢◌, refl, sym, ◌∙◌, inl, inr, true, Option, none, some, List, [], ◌∷◌, ◌++◌, contains,
  Option-cases, ℕ_discrete, Poll, ready, pending, subst, arith,
}
use actix_async.Waker.{ActorWaker, WakeQueue, wake_by_ref, wake_all}
use actix_async.Tasks.{TaskPoll, Task, TaskRef, add_task, waker_of, poll_found, poll_one}
use actix_async.Tasks.Slab.{SlabOps}

pub contains-append : (k : ℕ) (xs ys : List ℕ) → contains xs k ≡ true → contains (xs ++ ys) k ≡ true
contains-append k [] ys h = absurd (ground arith)
contains-append k (x ∷ xs) ys h = ground (arith, contains-append k xs ys)

pub contains-snoc : (k : ℕ) (xs : List ℕ) → contains (xs ++ k ∷ []) k ≡ true
contains-snoc k [] = ground arith
contains-snoc k (x ∷ xs) = ground (arith, contains-snoc k xs)

pub contains-wake_all :
    (k : ℕ) (ws : List ActorWaker) (q : WakeQueue)
    → contains q.queued k ≡ true
    → contains (wake_all ws q).queued k ≡ true
contains-wake_all k [] q h = h
contains-wake_all k (a ∷ ws) q h =
    contains-wake_all k ws (wake_by_ref a q) (contains-append k q.queued (a.idx ∷ []) h)

-- What is known of a task at `k`, with the queue `q`.
abbrev pub Known : ℕ → Option ActorWaker → List ℕ → Type 0
Known k none q = contains q k ≡ true
Known k (some a) q = a.idx ≡ k

pub Known-wake_all :
    (k : ℕ) (o : Option ActorWaker) (ws : List ActorWaker) (q : WakeQueue)
    → Known k o q.queued
    → Known k o (wake_all ws q).queued
Known-wake_all k none ws q h = contains-wake_all k ws q h
Known-wake_all k (some a) ws q h = h

Known-snoc : (j k : ℕ) (o : Option ActorWaker) (q : List ℕ) → Known k o q → Known k o (q ++ j ∷ [])
Known-snoc j k none q h = contains-append k q (j ∷ []) h
Known-snoc j k (some a) q h = h

Known-tail :
    (j k : ℕ) (o : Option ActorWaker) (q : List ℕ) → k ≢ j → Known k o (j ∷ q) → Known k o q
Known-tail j k none q ne h = ground arith
Known-tail j k (some a) q ne h = h

waker_of-idx :
    (w idx : ℕ) (o : Option ActorWaker) (q : List ℕ) → Known idx o q → (waker_of w idx o).idx ≡ idx
waker_of-idx w idx none q h = refl
waker_of-idx w idx (some a) q h = h

module _ {ℓ} {Fut : Type ℓ} where
  abbrev new_task : Fut → Task Fut
  new_task fut = record { fut = fut; waker = none }

  pub only_one : {o : Option (Task Fut)} {x y : Task Fut} → o ≡ some x → o ≡ some y → x ≡ y
  only_one p q = ground arith

  pub absent : {o : Option (Task Fut)} {x : Task Fut} → o ≡ none → o ≡ some x → ⊥
  absent p q = ground arith

  module _ (S : SlabOps (Task Fut)) (poll_fut : ActorWaker → Fut → TaskPoll Fut) where
    abbrev pub Kept : TaskRef (S.Slab) → Type ℓ
    Kept t = (k : ℕ) (x : Task Fut) → S.get k t.task ≡ some x → Known k x.waker t.queue.queued

    pub moved :
        (s : S.Slab) (j k : ℕ) (x : Task Fut) → j ≡ k → S.get j s ≡ some x → S.get k s ≡ some x
    moved s j k x same e = subst (λ i. S.get i s ≡ some x) same e

    pub add_task-Kept :
        (fut : Fut) (t : TaskRef (S.Slab)) → Kept t → Kept (add_task S poll_fut fut t)
    unfolding add_task
    add_task-Kept fut t h k x e = elim (ℕ_discrete k (S.insert (new_task fut) t.task).0) [
      | yes same ↦
          let (idx, task) = S.insert (new_task fut) t.task in
          let found = moved task k idx x same e in
          rw (sym (only_one (S.get-insert (new_task fut) t.task) found), same)
            (contains-snoc (S.insert (new_task fut) t.task).0 t.queue.queued)
      | no other ↦
          Known-snoc (S.insert (new_task fut) t.task).0 k x.waker t.queue.queued
            (h k x (sym (S.get-insert_other (new_task fut) t.task k other) ∙ e))
    ]

    -- the tasks that are known of, but for one at `idx`, which was just taken off the queue
    abbrev KeptFrom : ℕ → TaskRef (S.Slab) → Type ℓ
    KeptFrom idx t =
        (k : ℕ) (x : Task Fut) → S.get k t.task ≡ some x → Known k x.waker (idx ∷ t.queue.queued)

    -- A task that a poll leaves in the table was there before.
    pub left_over :
        (idx k : ℕ) (x : Task Fut) (s : S.Slab) (r : Poll (Unit {0}))
        → S.get k (elim r [ ready _ ↦ S.remove idx s | pending ↦ s ]) ≡ some x
        → S.get k s ≡ some x
    left_over idx k x s pending e = e
    left_over idx k x s (ready u) e = elim (ℕ_discrete k idx) [
      | yes same ↦ absurd (absent (S.get-remove idx s) (moved (S.remove idx s) k idx x same e))
      | no other ↦ sym (S.get-remove_other k idx s other) ∙ e
    ]

    poll_found-Kept :
        (w idx : ℕ) (y : Task Fut) (t : TaskRef (S.Slab))
        → S.get idx t.task ≡ some y
        → KeptFrom idx t
        → Kept (poll_found S poll_fut w idx y t)
    unfolding poll_found
    poll_found-Kept w idx y t found h k x e =
        let a = waker_of w idx y.waker in
        let p = poll_fut a y.fut in
        let new : Task Fut = record { fut = p.after; waker = some a } in
        let there = left_over idx k x (S.set idx new t.task) p.result e in
        elim (ℕ_discrete k idx) [
          | yes same ↦
              let at_idx = moved (S.set idx new t.task) k idx x same there in
              rw (sym (only_one (S.get-set idx new y t.task found) at_idx), same)
                (waker_of-idx w idx y.waker (idx ∷ t.queue.queued) (h idx y found))
          | no other ↦ Known-wake_all k x.waker p.wakes t.queue (
              Known-tail idx k x.waker t.queue.queued other
                (h k x (sym (S.get-set_other k idx new t.task other) ∙ there)))
        ]

    pub poll_one-Kept :
        (w idx : ℕ) (t : TaskRef (S.Slab)) → KeptFrom idx t → Kept (poll_one S poll_fut w idx t)
    unfolding poll_one
    poll_one-Kept w idx t h = elim (Option-cases (S.get idx t.task)) [
      | inl e ↦
          rw (e, poll_one)
            (λ k x f.
              Known-tail idx k x.waker t.queue.queued
                (λ same. absent e (moved t.task k idx x same f)) (h k x f))
      | inr (y, e) ↦ rw (e, poll_one) (poll_found-Kept w idx y t e h)
    ]
