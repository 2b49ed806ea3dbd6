-- ===== src/Unbounded/Heads.antt =====
-- actix-async/src/util/async_channel/unbounded.rs: the calls of `pop`, on an empty queue and on one
-- that holds a message.
use actix_async.Prelude.{
  ◌>>=◌, ℕ, suc, ◌+◌, ◌*◌, ◌/◌, ◌%◌, ◌<◌, ◌≡◌, refl, ◌∙◌, ap, Bool, true, false, ◌==◌, ltb, lt→ltb,
  if◌then◌else◌, Bool-cases, Option, some, err, inl, inr, arith,
}
use actix_async.Unbounded.{Unbounded, offset_of, block_cap, usize_mod, set_mark, lap}
use actix_async.Unbounded.Shape.{bit}
use actix_async.Unbounded.Pop.{pop_advance, pop_loop, pop}
use actix_async.Channel.Queue.{TryRecvError}

module _ {ℓ} {T : Type ℓ} where
  module _ (f head : ℕ) (block : Option ℕ) (q : Unbounded T)
      (inside : (offset_of head == block_cap) ≡ false)
      (fits : ltb (head + 2) usize_mod ≡ true) where
    -- A marked head is not in the last block: the tail is not looked at.
    pop_marked :
        ((head + 2) % 2 == 0) ≡ false
        → pop_loop (suc f) head block q ≡ pop_advance (pop_loop f) head (head + 2) block q
    unfolding pop_loop
    pop_marked e = rw (inside, pop_loop) (rw (fits, ◌>>=◌) (rw (e, pop_loop) refl))

    pop_found :
        ((head + 2) % 2 == 0) ≡ true
        → (head / 2 == q.tail.index / 2) ≡ false
        → pop_loop (suc f) head block q
          ≡ pop_advance
              (pop_loop f)
              head
              (if head / 2 / lap == q.tail.index / 2 / lap then head + 2 else set_mark (head + 2))
              block
              q
    unfolding pop_loop
    pop_found e g =
        rw (inside, pop_loop) (rw (fits, ◌>>=◌) (rw (e, pop_loop) (rw (g, pop_loop) refl)))

    pub pop_empty :
        ((head + 2) % 2 == 0) ≡ true
        → (head / 2 == q.tail.index / 2) ≡ true
        → pop_loop (suc f) head block q
          ≡ some
              (err (if q.tail.index % 2 == 0 then TryRecvError.empty else TryRecvError.closed), q)
    unfolding pop_loop
    pop_empty e g =
        rw (inside, pop_loop) (rw (fits, ◌>>=◌) (rw (e, pop_loop) (rw (g, pop_loop) refl)))

  -- The new head of a `pop` that finds a message: it is marked only if the head's block is not the
  -- last.
  pub pop_moves :
      (q : Unbounded T) (h t : ℕ) (c mark : Bool)
      → q.head.index ≡ 2 * h + bit mark
      → q.tail.index ≡ 2 * t + bit c
      → (mark ≡ true → h / 32 < t / 32)
      → h % 32 < 31
      → h < t
      → 2 * t + 2 < usize_mod
      → (m : Bool) × (m ≡ true → h / 32 < t / 32)
        × (pop q ≡ pop_advance (pop_loop 2) (2 * h + bit mark) (2 * h + 2 + bit m) q.head.block q)
  unfolding pop
  pop_moves q h t c true eh et marked on lt small = (
    true,
    marked,
    ap (λ x. pop_loop 3 x q.head.block q) eh
        ∙ pop_marked 2 (2 * h + 1) q.head.block q (ground arith) (lt→ltb _ _ (omega arith))
            (ground arith)
        ∙ ap (λ x. pop_advance (pop_loop 2) (2 * h + 1) x q.head.block q) (omega arith),
  )
  pop_moves q h t c false eh et marked on lt small = elim (Bool-cases (h / 32 == t / 32)) [
    | inl e ↦ (
      false,
      λ x. absurd (ground arith),
      found ∙ ap (λ x. pop_advance (pop_loop 2) (2 * h + 0) x q.head.block q) (stays e),
    )
    | inr e ↦ (
      true,
      λ x. less e,
      found ∙ ap (λ x. pop_advance (pop_loop 2) (2 * h + 0) x q.head.block q) (marks e),
    )
  ]
    where
      found :
          pop q
          ≡ pop_advance
              (pop_loop 2)
              (2 * h + 0)
              (if (2 * h + 0) / 2 / lap == q.tail.index / 2 / lap
                then 2 * h + 0 + 2
                else set_mark (2 * h + 0 + 2))
              q.head.block
              q
      found =
          ap (λ x. pop_loop 3 x q.head.block q) eh
          ∙ pop_found 2 (2 * h + 0) q.head.block q (ground arith) (lt→ltb _ _ (omega arith))
              (ground arith) (ground (arith, et))

      less : (h / 32 == t / 32) ≡ false → h / 32 < t / 32
      less e = ground arith

      stays :
          (h / 32 == t / 32) ≡ true
          → (if (2 * h + 0) / 2 / lap == q.tail.index / 2 / lap
              then 2 * h + 0 + 2
              else set_mark (2 * h + 0 + 2))
            ≡ 2 * h + 2 + 0
      stays e = ground (arith, et)

      marks :
          (h / 32 == t / 32) ≡ false
          → (if (2 * h + 0) / 2 / lap == q.tail.index / 2 / lap
              then 2 * h + 0 + 2
              else set_mark (2 * h + 0 + 2))
            ≡ 2 * h + 2 + 1
      marks e = ground (arith, et)
