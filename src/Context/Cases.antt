-- ===== src/Context/Cases.antt =====
-- actix-async/src/context_future.rs: each part of a step of `ContextFuture::run` keeps its invariant.
use actix_async.Prelude.{
  ℕ, ◌≡◌, refl, inl, inr, Bool, true, false, ◌&&◌, Option, none, some, Poll-cases, arith,
}
use actix_async.Tasks.{Task}
use actix_async.Tasks.Slab.{SlabOps}
use actix_async.Tasks.Kept.{add_task-Kept}
use actix_async.Message.{ActorState, by_ref, by_mut, set_state}
use actix_async.Context.Select.{out_a, out_b, out_c, out_d}
use actix_async.Context.State.{
  Parts, Pc, task_loop, inner_loop, after_loop, stopping, Progress, is_some,
}
use actix_async.Context.Run.{
  Runs, Message, Output, tasks_len, no_tasks, on_message, on_taken, on_output, on_state, on_left,
  await, finish,
}
use actix_async.Context.Polls.{Allowed}
use actix_async.Context.Invariant.{
  all_Handled, forced-Handled, lost-Clean, selects, InvAt, Inv, new-Kept, if-Inv, empty-Clean,
}

module _ {ℓ} {H Fut Rx Str Del : Type ℓ} (S : SlabOps (Task Fut)) (P : Parts H Fut Rx Str Del) where
  pub on_state-Inv :
      (s : ActorState) (r : Runs S P)
      → InvAt S P inner_loop r
      → r.board.ctx.state ≡ s
      → Inv S P (on_state S P s r)
  unfolding on_state
  on_state-Inv ActorState.stop_graceful r h e = record {
    kept = h.kept;
    at = (h.at, e);
    clean = h.clean;
  }
  on_state-Inv ActorState.stop r h e = record {
    kept = new-Kept S P r.board.tasks.queue;
    at = (S.len-new, tt);
    clean = tt;
  }
  on_state-Inv ActorState.running r h e =
      if-Inv S P (is_some r.task_mut && no_tasks S P r.board) _ _
        (λ t. record {
          kept = new-Kept S P r.board.tasks.queue;
          at = (h.at, S.len-new);
          clean =
              empty-Clean S P r.forced r.dropped r.lost (tasks_len S P r.board) (ground arith)
                h.clean;
        })
        (λ t. record {
          kept = h.kept;
          at = (h.at, selects (is_some r.task_mut) _);
          clean = h.clean;
        })

  pub on_taken-Inv :
      (o : Option H) (r : Runs S P)
      → r.task_mut ≡ o
      → InvAt S P task_loop r
      → Inv S P (on_taken S P o r)
  unfolding on_taken
  on_taken-Inv none r e h = record {
    kept = new-Kept S P r.board.tasks.queue;
    at = h.at.0;
    clean = h.clean;
  }
  on_taken-Inv (some x) r e h = record {
    kept = h.kept;
    at = (h.at.0, refl, h.at.1);
    clean = h.clean;
  }

  pub on_message-Inv :
      (m : Message S P) (r : Runs S P)
      → is_some r.task_mut ≡ false
      → InvAt S P inner_loop r
      → Inv S P (on_message S P m r)
  unfolding on_message
  on_message-Inv (by_ref x) r e h = record {
    kept = add_task-Kept S P.poll_task (P.handle x) r.board.tasks h.kept;
    at = h.at;
    clean = h.clean;
  }
  on_message-Inv (by_mut x) r e h = record { kept = h.kept; at = h.at; clean = rw e h.clean }
  on_message-Inv (set_state s tx) r e h = record { kept = h.kept; at = h.at; clean = h.clean }

  pub on_output-Inv :
      (waiting : Bool) (out : Output S P) (r : Runs S P)
      → is_some r.task_mut ≡ waiting
      → Allowed S P waiting out
      → InvAt S P inner_loop r
      → Inv S P (on_output S P out r)
  unfolding on_output
  on_output-Inv waiting (out_b o) r e ok h = record { kept = h.kept; at = h.at; clean = h.clean }
  on_output-Inv waiting (out_a none) r e ok h = record { kept = h.kept; at = h.at; clean = h.clean }
  on_output-Inv false (out_a (some m)) r e ok h = on_message-Inv m r e h
  on_output-Inv false (out_c m) r e ok h = on_message-Inv m r e h
  on_output-Inv false (out_d m) r e ok h = on_message-Inv m r e h
  on_output-Inv true (out_a (some m)) r e ok h = absurd ok
  on_output-Inv true (out_c m) r e ok h = absurd ok
  on_output-Inv true (out_d m) r e ok h = absurd ok

  pub on_left-Inv :
      (s : ActorState) (o : Option H) (r : Runs S P)
      → r.board.ctx.state ≡ s
      → r.task_mut ≡ o
      → InvAt S P after_loop r
      → Inv S P (on_left S P s o r)
  unfolding on_left
  on_left-Inv ActorState.stop_graceful (some x) r e f h = record {
    kept = h.kept;
    at = (h.at.0, refl);
    clean = h.clean;
  }
  on_left-Inv ActorState.stop_graceful none r e f h = record {
    kept = h.kept;
    at = (h.at.0, all_Handled r.forced (is_some r.task_mut) (rw f refl));
    clean = h.clean;
  }
  on_left-Inv ActorState.running o r e f h = record {
    kept = h.kept;
    at = (h.at.0, forced-Handled r.forced _ _ (rw e (λ p. absurd (ground arith))) h.at.1);
    clean = h.clean;
  }
  on_left-Inv ActorState.stop o r e f h = record {
    kept = h.kept;
    at = (h.at.0, forced-Handled r.forced _ _ (rw e (λ p. absurd (ground arith))) h.at.1);
    clean = h.clean;
  }

  -- where a future of the user is polled: nothing depends on that future
  pub await-Inv :
      (w : ℕ) (fut : Fut) (at : Fut → Pc Fut) (next : Runs S P → Progress × Runs S P) (r : Runs S P)
      → ((f : Fut) → InvAt S P (at f) r)
      → Inv S P (next r).1
      → Inv S P (await S P w fut at next r).1
  unfolding await
  await-Inv w fut at next r h k = elim (Poll-cases (P.poll_fut w fut).0) [
    | inl e ↦
        rw (e, await)
          (record { kept = (h fut).kept; at = (h (P.poll_fut w fut).1).at; clean = (h fut).clean })
    | inr (u, e) ↦ rw (e, await) k
  ]

  pub finish-Inv :
      (r : Runs S P) → (fut : Fut) → InvAt S P (stopping fut) r → Inv S P (finish S P r).1
  unfolding finish
  finish-Inv r fut h = record {
    kept = h.kept;
    at = (h.at.0, all_Handled r.forced false refl);
    clean = lost-Clean r.forced (is_some r.task_mut) r.dropped r.lost h.at.1 h.clean;
  }
