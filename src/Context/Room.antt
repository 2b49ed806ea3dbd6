-- ===== src/Context/Room.antt =====
-- actix-async/src/context_future.rs: the room for tasks, and what a poll of the select of
-- `ContextFuture::run` leaves of it.
use actix_async.Prelude.{
  ℕ, ◌≡◌, ◌≤◌, ◌<◌, refl, Bool, true, false, if◌then◌else◌, Option, some, List, [], ◌∷◌, Poll,
  pending, ◌>>=◌, arith,
}
use actix_async.Tasks.{Task}
use actix_async.Tasks.Slab.{SlabOps}
use actix_async.Tasks.Kept.{Kept}
use actix_async.Tasks.Polls.{poll_task-Polled}
use actix_async.Tasks.Rounds.{poll_task-le}
use actix_async.Cache
use actix_async.Context.Select.{out_a, out_b, out_c, out_d, select}
use actix_async.Context.State.{Parts, Pc, selecting}
use actix_async.Context.Run.{
  Runs, B, Output, fut_rx, fut_tasks, fut_streams, fut_futures, poll_select,
}
use actix_async.Context.Polls.{if_any, Fine, poll_arm-Fine}

poll_stream-nil {ℓ κ} :
    {F : Type ℓ} {M : Type κ} (poll : F → Poll (Option M) × F) (xs : List F)
    → xs ≡ []
    → Cache.poll_stream poll xs ≡ some (pending, xs)
unfolding Cache.poll_stream Cache.scan
poll_stream-nil poll [] e = refl
poll_stream-nil poll (x ∷ xs) e = absurd (ground arith)

poll_future-nil {ℓ κ} :
    {F : Type ℓ} {M : Type κ} (poll : F → Poll (Option M) × F) (xs : List F)
    → xs ≡ []
    → Cache.poll_future poll xs ≡ some (pending, xs)
unfolding Cache.poll_future Cache.scan
poll_future-nil poll [] e = refl
poll_future-nil poll (x ∷ xs) e = absurd (ground arith)

module _ {ℓ} {H Fut Rx Str Del : Type ℓ} (S : SlabOps (Task Fut)) (P : Parts H Fut Rx Str Del) where
  -- The context has no stream and no delayed message.
  abbrev pub Quiet : B S P → Type ℓ
  Quiet b = (b.ctx.stream_cache ≡ []) × (b.ctx.future_cache ≡ [])

  -- There are at most as many tasks as the actor's `size_hint`, and fewer where the mailbox is polled.
  abbrev pub Room : Pc Fut → ℕ → Type 0
  Room (selecting true fut2 fut34) n = n < P.size_hint
  Room pc n = n ≤ P.size_hint

  abbrev pub HasRoom : Runs S P → Type 0
  HasRoom r = Room r.pc (S.len r.board.tasks.task)

  pub Room-le : (pc : Pc Fut) (n : ℕ) → Room pc n → n ≤ P.size_hint
  Room-le (selecting true fut2 fut34) n h = ground arith
  Room-le (selecting false fut2 fut34) n h = h
  Room-le pc n h = h

  pub Room-fewer :
      (fut1 fut2 fut34 : Bool) (m n : ℕ)
      → m ≤ n
      → Room (selecting fut1 fut2 fut34) n
      → Room (selecting fut1 fut2 fut34) m
  Room-fewer true fut2 fut34 m n le h = ground arith
  Room-fewer false fut2 fut34 m n le h = ground arith

  pub selecting-Room :
      (fut1 fut2 fut34 : Bool) (n : ℕ)
      → (fut1 ≡ true → n < P.size_hint)
      → n ≤ P.size_hint
      → Room (selecting fut1 fut2 fut34) n
  selecting-Room true fut2 fut34 n room h = room refl
  selecting-Room false fut2 fut34 n room h = h

  pub if-Room : (b : Bool) (x y : Runs S P) → HasRoom x → HasRoom y → HasRoom (if b then x else y)
  if-Room true x y p q = p
  if-Room false x y p q = q

  -- the board at a poll of the select: at most `n` tasks
  abbrev pub Keeps : ℕ → B S P → Type ℓ
  Keeps n b = Kept S P.poll_task b.tasks × (S.len b.tasks.task ≤ n) × Quiet b

  -- what the select brings of the futures that are there
  abbrev pub Brings : Bool → Output S P → Type 0
  Brings true (out_a o) = Unit
  Brings false (out_a o) = ⊥
  Brings fut1 (out_b o) = Unit
  Brings fut1 (out_c m) = ⊥
  Brings fut1 (out_d m) = ⊥

  module _ (n w : ℕ) (free : ℕ → Bool) (fut1 : Bool) where
    rx-Fine : fut1 ≡ true → Fine (Keeps n) (λ o. Brings fut1 (out_a o)) (fut_rx S P w)
    unfolding fut_rx
    rx-Fine there board h =
        let (p, rx) = P.poll_rx w board.ctx.rx in
        (
          p,
          record board { ctx = record board.ctx { rx = rx } },
          refl,
          h,
          if_any (λ o. Brings fut1 (out_a o)) p (λ o. rw there tt),
        )

    tasks-Fine : Fine (Keeps n) (λ o. Brings fut1 (out_b o)) (fut_tasks S P w free)
    unfolding fut_tasks
    tasks-Fine board h =
        let (p, t, run, polled) = poll_task-Polled S P.poll_task w free board.tasks h.0 in
        (
          p,
          record board { tasks = t },
          rw (run, ◌>>=◌) refl,
          (polled.kept, poll_task-le S P.poll_task w n free board.tasks t p run h.1, h.2),
          if_any (λ o. Brings fut1 (out_b o)) p (λ o. o),
        )

    streams-Fine : Fine (Keeps n) (λ o. Brings fut1 (out_c o)) (fut_streams S P w)
    unfolding fut_streams
    streams-Fine board h = (
      pending,
      board,
      rw (poll_stream-nil (P.poll_str w) board.ctx.stream_cache h.2.0, ◌>>=◌) refl,
      h,
      tt,
    )

    futures-Fine : Fine (Keeps n) (λ o. Brings fut1 (out_d o)) (fut_futures S P w)
    unfolding fut_futures
    futures-Fine board h = (
      pending,
      board,
      rw (poll_future-nil (P.poll_del w) board.ctx.future_cache h.2.1, ◌>>=◌) refl,
      h,
      tt,
    )

    pub select-Fine :
        (fut2 fut34 : Bool) → Fine (Keeps n) (Brings fut1) (poll_select S P w free fut1 fut2 fut34)
    unfolding poll_select select
    select-Fine fut2 fut34 =
        poll_arm-Fine (Keeps n) (Brings fut1) (fut_rx S P w) out_a _ fut1 rx-Fine (
          poll_arm-Fine (Keeps n) (Brings fut1) (fut_tasks S P w free) out_b _ fut2
            (λ e. tasks-Fine)
            (poll_arm-Fine (Keeps n) (Brings fut1) (fut_streams S P w) out_c _ fut34
              (λ e. streams-Fine)
              (poll_arm-Fine (Keeps n) (Brings fut1) (fut_futures S P w) out_d _ fut34
                (λ e. futures-Fine) (λ board h. (pending, board, refl, h, tt)))))
