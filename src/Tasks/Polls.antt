-- ===== src/Tasks/Polls.antt =====
-- actix-async/src/context_future.rs: `TaskRef::poll_task` returns, and what it leaves behind.
use actix_async.Prelude.{
  ℕ, zero, suc, ◌+◌, ◌≡◌, ◌≢◌, ◌≤◌, ◌<◌, refl, ◌⊎◌, inl, inr, Bool, true, false, ◌==◌, none, some,
  List, [], ◌∷◌, length, Option-cases, Bool-cases, Poll, ready, pending, subst, arith,
}
use actix_async.Waker.{ActorWaker}
use actix_async.Tasks.{TaskPoll, Task, TaskRef, poll_one, poll_loop, poll_task, try_pop, finish}
use actix_async.Tasks.Slab.{SlabOps}
use actix_async.Tasks.Kept.{Known, Kept, poll_one-Kept}

pub try_pop-none : (b : Bool) (q : List ℕ) → try_pop b q ≡ none → (q ≡ []) ⊎ (b ≡ false)
unfolding try_pop
try_pop-none false q e = inr refl
try_pop-none true [] e = inl refl
try_pop-none true (idx ∷ rest) e = absurd (ground arith)

pub try_pop-some :
    (b : Bool) (q : List ℕ) (idx : ℕ) (rest : List ℕ)
    → try_pop b q ≡ some (idx, rest)
    → q ≡ idx ∷ rest
unfolding try_pop
try_pop-some b q idx rest e = ground arith

shorter :
    (fuel idx : ℕ) (rest q : List ℕ) → q ≡ idx ∷ rest → length q < suc fuel → length rest < fuel
shorter fuel idx rest q e h = ground arith

map_right {ℓ κ μ} : {A : Type ℓ} {B : Type κ} {C : Type μ} → (B → C) → A ⊎ B → A ⊎ C
map_right f (inl a) = inl a
map_right f (inr b) = inr (f b)

module _ {ℓ} {Fut : Type ℓ} (S : SlabOps (Task Fut))
    (poll_fut : ActorWaker → Fut → TaskPoll Fut) where
  pub empty-none : (s : S.Slab) (k : ℕ) → S.len s ≡ 0 → S.get k s ≡ none
  empty-none s k e = elim (Option-cases (S.get k s)) [
    | inl none_there ↦ none_there
    | inr (x, there) ↦ absurd (omega (arith, S.len-remove k x s there))
  ]

  -- What `poll_task` leaves: no task is forgotten, and if it is pending, tasks are left, and the
  -- queue is empty or its lock was taken.
  pub record Polled (free : ℕ → Bool) (r : Poll (Unit {0})) (t : TaskRef (S.Slab)) : Type ℓ where
    pub kept : Kept S poll_fut t
    pub idle :
        r ≡ pending → (S.len t.task ≢ 0) × ((t.queue.queued ≡ []) ⊎ ((n : ℕ) × (free n ≡ false)))

  Enough : ℕ → ℕ → ℕ → TaskRef (S.Slab) → Type 0
  Enough fuel bound n t =
      ((n < bound) × (bound ≤ fuel + n))
      ⊎ ((bound ≡ 0) × (S.len t.task ≡ 0) × (length t.queue.queued < fuel))

  finish-pending : (t : TaskRef (S.Slab)) → finish S poll_fut t ≡ pending → S.len t.task ≢ 0
  unfolding finish
  finish-pending t e = ground arith

  abbrev pub without : List ℕ → TaskRef (S.Slab) → TaskRef (S.Slab)
  without rest t = record t { queue = record t.queue { queued = rest } }

  polled-Kept :
      (w idx : ℕ) (rest : List ℕ) (t : TaskRef (S.Slab))
      → t.queue.queued ≡ idx ∷ rest
      → Kept S poll_fut t
      → Kept S poll_fut (poll_one S poll_fut w idx (without rest t))
  polled-Kept w idx rest t e h =
      poll_one-Kept S poll_fut w idx (without rest t)
        (λ k x there. subst (Known k x.waker) e (h k x there))

  Enough-next :
      (fuel w bound n idx : ℕ) (rest : List ℕ) (t : TaskRef (S.Slab))
      → t.queue.queued ≡ idx ∷ rest
      → (n + 1 == bound) ≡ false
      → Enough (suc fuel) bound n t
      → Enough fuel bound (n + 1) (poll_one S poll_fut w idx (without rest t))
  unfolding Enough poll_one
  Enough-next fuel w bound n idx rest t e more (inl room) =
      inl (ground arith, omega (arith, room.1))
  Enough-next fuel w bound n idx rest t e more (inr (none_asked, vacant, room)) =
      rw (poll_one, empty-none t.task idx vacant)
        (inr (none_asked, vacant, shorter fuel idx rest t.queue.queued e room))

  Enough-start :
      (t : TaskRef (S.Slab))
      → Enough (suc (S.len t.task + length t.queue.queued)) (S.len t.task) 0 t
  unfolding Enough
  Enough-start t = ground arith

  loop-Polled :
      (fuel w : ℕ) (free : ℕ → Bool) (bound n : ℕ) (t : TaskRef (S.Slab))
      → Enough fuel bound n t
      → Kept S poll_fut t
      → (r : Poll (Unit {0})) × (t' : TaskRef (S.Slab)) × (poll_loop S poll_fut fuel w free bound n
            t
          ≡ some (r, t'))
        × Polled free r t'
  unfolding Enough poll_loop
  loop-Polled zero w free bound n t enough h = absurd (ground arith)
  loop-Polled (suc fuel) w free bound n t enough h =
      elim (Option-cases (try_pop (free n) t.queue.queued)) [
        | inl e ↦ (
          finish S poll_fut t,
          t,
          rw (e, poll_loop) refl,
          record {
            kept = h;
            idle = λ p. (
              finish-pending t p,
              map_right (λ b. (n, b)) (try_pop-none (free n) t.queue.queued e),
            );
          },
        )
        | inr ((idx, rest), e) ↦
            let t1 = poll_one S poll_fut w idx (without rest t) in
            let front = try_pop-some (free n) t.queue.queued idx rest e in
            let kept = polled-Kept w idx rest t front h in
            elim (Bool-cases (n + 1 == bound)) [
              | inl last ↦ (
                ready tt,
                t1,
                rw (e, last, poll_loop) refl,
                record { kept = kept; idle = λ p. absurd (ground arith) },
              )
              | inr more ↦
                  let (r, t', run, polled) =
                    loop-Polled fuel w free bound (n + 1) t1
                      (Enough-next fuel w bound n idx rest t front more enough) kept in
                  (r, t', rw (e, more, poll_loop) run, polled)
            ]
      ]

  -- If no task is forgotten, that is each one in the table waits in the queue for its first poll or
  -- holds a waker of its own, then a call of `poll_task` returns within the rounds that it is given,
  -- and forgets none. If it is pending, tasks are left, and the queue is empty or its lock was taken.
  pub poll_task-Polled :
      (w : ℕ) (free : ℕ → Bool) (t : TaskRef (S.Slab))
      → Kept S poll_fut t
      → (r : Poll (Unit {0})) × (t' : TaskRef (S.Slab)) × (poll_task S poll_fut w free t
          ≡ some (r, t'))
        × Polled free r t'
  unfolding poll_task
  poll_task-Polled w free t h = loop-Polled _ w free _ 0 t (Enough-start t) h
