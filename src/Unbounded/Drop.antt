-- ===== src/Unbounded/Drop.antt =====
-- actix-async/src/util/async_channel/unbounded.rs: `Drop for Unbounded`.
use actix_async.Prelude.{
  ◌>>=◌, ℕ, zero, suc, ◌-◌, ◌/◌, ltb, if◌then◌else◌, Option, none, some, List, [], ◌∷◌,
}
use actix_async.Unbounded.{
  Unbounded, block_cap, clear_mark, wrapping_advance, offset_of, get_slot, get_next, free,
}

module _ {ℓ} {T : Type ℓ} where
  -- The loop of `Drop for Unbounded`, with the positions left: it drops every value and frees every
  -- block but the last. The values are listed in the order of their drops.
  unfoldable pub drop_loop :
      ℕ → ℕ → Option ℕ → Unbounded T → Option (List T × Option ℕ × Unbounded T)
  drop_loop zero head block q = some ([], block, q)
  drop_loop (suc n) head none q = none
  drop_loop (suc n) head (some b) q =
      if ltb (offset_of head) block_cap
      then (do
        s ← get_slot q.blocks b (offset_of head)
        v ← s.value
        (vs, last, q1) ← drop_loop n (wrapping_advance head) (some b) q
        some (v ∷ vs, last, q1))
      else (do
        next ← get_next q.blocks b
        drop_loop n (wrapping_advance head) next (free (some b) q))

  -- `Drop for Unbounded`
  unfoldable pub drop_queue : Unbounded T → Option (List T × Unbounded T)
  drop_queue q = do
    let head = clear_mark q.head.index
    let tail = clear_mark q.tail.index
    (vs, last, q1) ← drop_loop ((tail - head) / 2) head q.head.block q
    some (vs, free last q1)
