-- ===== src/Unbounded/Takes.antt =====
-- actix-async/src/util/async_channel/unbounded.rs: `pop` behind its `compare_exchange`: the value is
-- read, and a block whose slots have all been read is destroyed.
use actix_async.Prelude.{
  ◌>>=◌, bind_some, ℕ, zero, suc, ◌+◌, ◌≤◌, ◌<◌, ◌≡◌, refl, ◌∙◌, true, false, ◌==◌, ◌&&◌, Option,
  none, some, arith,
}
use actix_async.Unbounded.{Slot, Block, Unbounded, get_slot, set_slot, update, free, block_cap}
use actix_async.Unbounded.Memory.{Wrote, set_slot-Wrote, Freed, free-Freed}
use actix_async.Unbounded.Shape.{filled, emptied}
use actix_async.Unbounded.Pop.{destroy_loop, destroy, take_value}

module _ {ℓ} {T : Type ℓ} where
  destroy_loop-free :
      (n i b : ℕ) (q : Unbounded T)
      → ((j : ℕ) → i ≤ j → j < i + n → get_slot q.blocks b j ≡ some emptied)
      → destroy_loop n i b q ≡ some (free (some b) q)
  unfolding destroy_loop
  destroy_loop-free zero i b q h = refl
  destroy_loop-free (suc n) i b q h =
      bind_some (get_slot q.blocks b i) _ emptied _ (h i (omega arith) (omega arith))
        (destroy_loop-free n (suc i) b q (λ j l k. h j (omega arith) (omega arith)))

  -- a slot that is moved out of, for the time of the read
  abbrev moved : Slot T
  moved = record { value = none; state = 1 }

  -- A value is read out of a slot that is not the last of its block: the slot is marked as read.
  pub take_inner :
      (o b : ℕ) (x : T) (q : Unbounded T)
      → (o + 1 == block_cap) ≡ false
      → get_slot q.blocks b o ≡ some (filled x)
      → (m : ℕ → Option (Block T)) × (take_value o b q ≡ some (x, record q { blocks = m }))
        × Wrote b o emptied q.blocks m
  unfolding take_value
  take_inner o b x q e h =
      let (m1, wrote, w) = set_slot-Wrote b o (filled x) moved q h in
      let q1 : Unbounded T = record q { blocks = m1 } in
      let (m2, again, w') = set_slot-Wrote b o moved emptied q1 (ground (arith, w.slot b o)) in
      (
        m2,
        bind_some (get_slot q.blocks b o) _ (filled x) _ h (
            bind_some (set_slot b o moved q) _ q1 _ wrote (
              rw (e, ◌>>=◌)
                (bind_some (set_slot b o emptied q1 >>= λ q2. some q2) _ (record q { blocks = m2 })
                  _ (bind_some (set_slot b o emptied q1) _ _ _ again refl) refl))),
        record {
          slot = λ k j. ground (arith, w.slot k j, w'.slot k j);
          next = λ k. w'.next k ∙ w.next k;
          gone = λ k n. w'.gone k (w.gone k n);
        },
      )

  -- A value is read out of the last slot of its block, whose other slots have been read: the block
  -- is freed.
  pub take_last :
      (o b : ℕ) (x : T) (q : Unbounded T)
      → (o + 1 == block_cap) ≡ true
      → get_slot q.blocks b o ≡ some (filled x)
      → ((j : ℕ) → j < o → get_slot q.blocks b j ≡ some emptied)
      → (m : ℕ → Option (Block T)) × (take_value o b q ≡ some (x, record q { blocks = m }))
        × Freed b q.blocks m
  unfolding take_value destroy free
  take_last o b x q e h r =
      let (m1, wrote, w) = set_slot-Wrote b o (filled x) moved q h in
      let q1 : Unbounded T = record q { blocks = m1 } in
      let f = free-Freed b m1 in
      let gone = destroy_loop-free 30 0 b q1 (λ j l k.
        let below : j < o = ground arith in
        let elsewhere : (b == b && o == j) ≡ false = ground arith in
        w.slot b j ∙ rw elsewhere (r j below)) in
      (
        update m1 b none,
        bind_some (get_slot q.blocks b o) _ (filled x) _ h (
            bind_some (set_slot b o moved q) _ q1 _ wrote (
              rw (e, ◌>>=◌) (bind_some (destroy_loop 30 0 b q1) _ (free (some b) q1) _ gone refl))),
        record {
          slots = λ k j n. f.slots k j n ∙ ground (arith, w.slot k j);
          next = λ k n. f.next k n ∙ w.next k;
          here = f.here;
          gone = λ k n. f.gone k (w.gone k n);
        },
      )
