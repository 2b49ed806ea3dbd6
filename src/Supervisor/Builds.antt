-- ===== src/Supervisor/Builds.antt =====
-- actix-async/src/supervisor/mod.rs: what `SupervisorBuilder::build` makes.
use actix_async.Prelude.{
  ℕ, zero, suc, ◌+◌, ◌/◌, ◌<◌, ◌≤◌, ◌≡◌, refl, ap, true, false, ltb, ◌==◌, none, some, List, [],
  ◌∷◌, length, ◌>>=◌, arith,
}
use actix_async.Listener
use actix_async.Listener.{usize_max}
use actix_async.Channel.{Chan, channel, clone_receiver, drop_receiver, wrapping_dec}
use actix_async.Channel.Queue.{QueueOps}
use actix_async.Supervisor.{SupervisorBuilder, Supervisor, spawn_workers, build}

module _ {ℓ κ} {W : Type ℓ} {T : Type κ} (Q : QueueOps T) (new_worker : ℕ → W) where
  abbrev counted : ℕ → Chan Q → Chan Q
  counted n c = record c { receiver_count = n }

  spawns :
      (n : ℕ) (c : Chan Q)
      → c.receiver_count + n ≤ usize_max / 2
      → (ws : List W) × (spawn_workers Q new_worker n c
          ≡ some (ws, counted (c.receiver_count + n) c))
        × (length ws ≡ n)
  unfolding spawn_workers clone_receiver
  spawns zero c few = (
    [],
    ap (λ n. some ([], counted n c))
        (let e : c.receiver_count ≡ c.receiver_count + 0 = omega arith in e),
    refl,
  )
  spawns (suc n) c few =
      let small : ltb (usize_max / 2) c.receiver_count ≡ false = ground arith in
      let (ws, rest, many) = spawns n (counted (c.receiver_count + 1) c) (omega arith) in
      (
        new_worker n ∷ ws,
        rw (small, rest, ◌>>=◌)
            (ap (λ k. some (new_worker n ∷ ws, counted k c))
              (let e : c.receiver_count + 1 + n ≡ c.receiver_count + suc n = omega arith in e)),
        ap suc many,
      )

  -- `build` panics without workers. Otherwise it makes as many workers as the builder says; each holds
  -- one receiver of the supervisor's channel, there is no other, and the channel has room for as many
  -- futures.
  pub build-workers :
      (b : SupervisorBuilder) (k : ℕ)
      → suc k < usize_max / 2
      → (build Q new_worker (record b { workers = 0 }) ≡ none)
        × (s : Supervisor W (Chan Q)) × (build Q new_worker (record b { workers = suc k }) ≡ some s)
        × (length s.join_handles ≡ suc k)
        × (s.tx.receiver_count ≡ suc k)
        × (s.tx.cap ≡ suc k)
        × (s.tx.sender_count ≡ 1)
  unfolding build channel drop_receiver
  build-workers b k few =
      let c : Chan Q = record {
        queue = Q.new;
        in_queue = 0;
        cap = suc k;
        send_ops = Listener.new;
        stream_ops = Listener.new;
        sender_count = 1;
        receiver_count = 1;
      } in
      let (ws, spawned, many) = spawns (suc k) c (omega arith) in
      let room : ltb 0 (suc k) ≡ true = ground arith in
      let more : (1 + suc k == 1) ≡ false = ground arith in
      let less : wrapping_dec (1 + suc k) ≡ suc k = omega arith in
      (
        refl,
        record { join_handles = ws; tx = counted (suc k) c; shutdown_timeout = b.shutdown_timeout },
        rw (room, spawned, more, less, ◌>>=◌) refl,
        many,
        refl,
        refl,
        refl,
      )
