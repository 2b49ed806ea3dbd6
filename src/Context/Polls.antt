-- ===== src/Context/Polls.antt =====
-- actix-async/src/context_future.rs: what a poll of the select of `ContextFuture::run` keeps.
use actix_async.Prelude.{
  ℕ, ◌≡◌, ◌≤◌, refl, Bool, true, false, ◌&&◌, ◌||◌, Option, some, Poll, ready, pending, ◌>>=◌,
  arith,
}
use actix_async.Tasks.{Task}
use actix_async.Tasks.Slab.{SlabOps}
use actix_async.Tasks.Kept.{Kept}
use actix_async.Tasks.Polls.{poll_task-Polled}
use actix_async.Tasks.Rounds.{poll_task-le}
use actix_async.Message.{ActorState}
use actix_async.Cache.Scan.{polls-Outcome}
use actix_async.Context.Select.{out_a, out_b, out_c, out_d, Future, poll_arm, select}
use actix_async.Context.State.{Parts, given}
use actix_async.Context.Run.{
  B, Message, Output, fut_rx, fut_tasks, fut_streams, fut_futures, poll_select,
}

-- What holds of an output, if there is one.
abbrev pub IfReady {κ μ} : {O : Type κ} → (O → Type μ) → Poll O → Type μ
IfReady OK (ready o) = OK o
IfReady OK pending = Unit

-- The future returns where `Keeps` holds, keeps it, and its output is `OK`.
abbrev pub Fine {ℓ κ μ ν} :
    {R : Type ℓ} {O : Type κ} → (R → Type μ) → (O → Type ν) → Future R O → Type (ℓ ⊔ κ ⊔ μ ⊔ ν)
Fine {R = R} {O = O} Keeps OK fut =
    (r : R) → Keeps r → (p : Poll O) × (r' : R) × (fut r ≡ some (p, r')) × Keeps r' × IfReady OK p

pub if_any {κ μ} : {O : Type κ} (OK : O → Type μ) (p : Poll O) → ((o : O) → OK o) → IfReady OK p
if_any OK (ready o) h = h o
if_any OK pending h = tt

module _ {ℓ κ μ ν ξ} {R : Type ℓ} {A : Type κ} {O : Type μ} (Keeps : R → Type ν) (OK : O → Type ξ)
    (fut : Future R A) (output : A → O) (rest : Future R O) where
  arm-Fine :
      (k : Fine Keeps OK rest) (r r' : R) (p : Poll A)
      → fut r ≡ some (p, r')
      → Keeps r'
      → IfReady (λ x. OK (output x)) p
      → (q : Poll O) × (r'' : R) × (poll_arm (some fut) output rest r ≡ some (q, r''))
        × Keeps r''
        × IfReady OK q
  unfolding poll_arm
  arm-Fine k r r' (ready x) run q ok = (ready (output x), r', rw (run, poll_arm) refl, q, ok)
  arm-Fine k r r' pending run q ok =
      let (p'', r'', go, q'', ok'') = k r' q in (p'', r'', rw (run, poll_arm) go, q'', ok'')

  pub poll_arm-Fine :
      (there : Bool)
      → (there ≡ true → Fine Keeps (λ x. OK (output x)) fut)
      → Fine Keeps OK rest
      → Fine Keeps OK (poll_arm (given there fut) output rest)
  unfolding poll_arm
  poll_arm-Fine false h k r q = k r q
  poll_arm-Fine true h k r q = let (p, r', run, q', ok) = h refl r q in arm-Fine k r r' p run q' ok

module _ {ℓ} {H Fut Rx Str Del : Type ℓ} (S : SlabOps (Task Fut)) (P : Parts H Fut Rx Str Del) where
  -- The board, less the sources of messages: no task is forgotten, there are at most `n`, and the
  -- state of the actor is `s`.
  abbrev pub Holds : ℕ → ActorState → B S P → Type ℓ
  Holds n s board =
      Kept S P.poll_task board.tasks × (S.len board.tasks.task ≤ n) × (board.ctx.state ≡ s)

  -- With an exclusive message waiting, the select brings no other message.
  abbrev pub Allowed : Bool → Output S P → Type 0
  Allowed false out = Unit
  Allowed true (out_b _) = Unit
  Allowed true _ = ⊥

  allowed : (waiting : Bool) (out : Output S P) → waiting ≡ false → Allowed waiting out
  allowed false out e = tt
  allowed true out e = absurd (ground arith)

  out_b-Allowed : (waiting : Bool) (o : Unit {0}) → Allowed waiting (out_b o)
  out_b-Allowed false o = tt
  out_b-Allowed true o = tt

  module _ (n w : ℕ) (free : ℕ → Bool) (s : ActorState) where
    rx-Fine :
        (OK : Option (Message S P) → Type 0)
        → ((o : Option (Message S P)) → OK o)
        → Fine (Holds n s) OK (fut_rx S P w)
    unfolding fut_rx
    rx-Fine OK any board h =
        let (p, rx) = P.poll_rx w board.ctx.rx in
        (p, record board { ctx = record board.ctx { rx = rx } }, refl, h, if_any OK p any)

    tasks-Fine :
        (OK : Unit {0} → Type 0)
        → ((o : Unit {0}) → OK o)
        → Fine (Holds n s) OK (fut_tasks S P w free)
    unfolding fut_tasks
    tasks-Fine OK any board h =
        let (p, t, run, polled) = poll_task-Polled S P.poll_task w free board.tasks h.0 in
        let fewer = poll_task-le S P.poll_task w n free board.tasks t p run h.1 in
        (
          p,
          record board { tasks = t },
          rw (run, ◌>>=◌) refl,
          (polled.kept, fewer, h.2),
          if_any OK p any,
        )

    streams-Fine :
        (OK : Message S P → Type 0)
        → ((o : Message S P) → OK o)
        → Fine (Holds n s) OK (fut_streams S P w)
    unfolding fut_streams
    streams-Fine OK any board h =
        let (p, ss, run, outcome) = (polls-Outcome (P.poll_str w) board.ctx.stream_cache).0 in
        (
          p,
          record board { ctx = record board.ctx { stream_cache = ss } },
          rw (run, ◌>>=◌) refl,
          h,
          if_any OK p any,
        )

    futures-Fine :
        (OK : Message S P → Type 0)
        → ((o : Message S P) → OK o)
        → Fine (Holds n s) OK (fut_futures S P w)
    unfolding fut_futures
    futures-Fine OK any board h =
        let (p, fs, run, outcome) = (polls-Outcome (P.poll_del w) board.ctx.future_cache).1 in
        (
          p,
          record board { ctx = record board.ctx { future_cache = fs } },
          rw (run, ◌>>=◌) refl,
          h,
          if_any OK p any,
        )

    -- The poll of a select of the futures `fut1`, `fut2` and `fut34`, none of which brings a message
    -- while an exclusive one is `waiting`.
    pub select-Fine :
        (waiting fut1 fut2 fut34 : Bool)
        → (waiting && (fut1 || fut34)) ≡ false
        → Fine (Holds n s) (Allowed waiting) (poll_select S P w free fut1 fut2 fut34)
    unfolding poll_select select
    select-Fine waiting fut1 fut2 fut34 apart =
        poll_arm-Fine (Holds n s) (Allowed waiting) (fut_rx S P w) out_a _ fut1
          (λ e.
            rx-Fine (λ o. Allowed waiting (out_a o))
              (λ o. allowed waiting (out_a o) (ground arith)))
          (poll_arm-Fine (Holds n s) (Allowed waiting) (fut_tasks S P w free) out_b _ fut2
            (λ e. tasks-Fine (λ o. Allowed waiting (out_b o)) (λ o. out_b-Allowed waiting o))
            (poll_arm-Fine (Holds n s) (Allowed waiting) (fut_streams S P w) out_c _ fut34
              (λ e.
                streams-Fine (λ o. Allowed waiting (out_c o))
                  (λ o. allowed waiting (out_c o) (ground arith)))
              (poll_arm-Fine (Holds n s) (Allowed waiting) (fut_futures S P w) out_d _ fut34
                (λ e.
                  futures-Fine (λ o. Allowed waiting (out_d o))
                    (λ o. allowed waiting (out_d o) (ground arith)))
                (λ board h. (pending, board, refl, h, tt)))))
