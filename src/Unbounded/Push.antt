-- ===== src/Unbounded/Push.antt =====
-- actix-async/src/util/async_channel/unbounded.rs: `Unbounded::push`.
use actix_async.Prelude.{
  ◌>>=◌, ℕ, zero, suc, ◌+◌, ◌%◌, bit_or, true, false, ◌==◌, if◌then◌else◌, Option, none, some,
  Result, ok, err,
}
use actix_async.Unbounded.{
  Unbounded, write_bit, block_cap, rounds, advance, wrapping_advance, offset_of, is_null, get_slot,
  set_slot, set_next, alloc, free,
}

module _ {ℓ} {T : Type ℓ} where
  -- `push` behind its `compare_exchange` of the tail: the next block is installed if this value
  -- fills the block, and the value is written. A box that was not used is dropped.
  unfoldable pub install : ℕ → ℕ → Option ℕ → Unbounded T → Option (Unbounded T)
  install offset block none q = if offset + 1 == block_cap then none else some q
  install offset block (some n) q =
      if offset + 1 == block_cap
      then set_next block n
          (record q { tail = record { index = wrapping_advance q.tail.index; block = some n } })
      else some (free (some n) q)

  unfoldable pub fill : ℕ → ℕ → T → Unbounded T → Option (Unbounded T)
  fill offset block v q = do
    s ← get_slot q.blocks block offset
    set_slot block offset (record { value = some v; state = bit_or s.state write_bit }) q

  -- the allocation in advance of the block that `push` may have to install
  unfoldable pub prepare : ℕ → Option ℕ → Unbounded T → Option ℕ × Unbounded T
  prepare offset (some n) q = (some n, q)
  prepare offset none q =
      if offset + 1 == block_cap then (some (alloc q).0, (alloc q).1) else (none, q)

  -- `push` from the `compare_exchange` of the tail on
  unfoldable pub push_advance :
      (ℕ → Option ℕ → Option ℕ → T → Unbounded T → Option (Result (Unit {0}) T × Unbounded T))
      → ℕ
      → ℕ
      → Option ℕ
      → T
      → Unbounded T
      → Option (Result (Unit {0}) T × Unbounded T)
  push_advance again tail b next v q = do
    new_tail ← advance tail
    elim (q.tail.index == tail) [
      | false ↦ again q.tail.index q.tail.block next v q
      | true ↦ (do
        q1 ←
            install (offset_of tail) b next
              (record q { tail = record { index = new_tail; block = q.tail.block } })
        q2 ← fill (offset_of tail) b v q1
        some (ok tt, q2))
    ]

  -- `push` behind the allocation in advance: the first value installs the first block.
  unfoldable pub push_block :
      (ℕ → Option ℕ → Option ℕ → T → Unbounded T → Option (Result (Unit {0}) T × Unbounded T))
      → ℕ
      → Option ℕ
      → Option ℕ
      → T
      → Unbounded T
      → Option (Result (Unit {0}) T × Unbounded T)
  push_block again tail (some b) next v q = push_advance again tail b next v q
  push_block again tail none next v q =
      let (new, q1) = alloc q in
      elim (is_null q1.tail.block) [
        | true ↦ push_advance again tail new next v (record q1 {
          tail = record { index = q1.tail.index; block = some new };
          head = record { index = q1.head.index; block = some new };
        })
        | false ↦ again q1.tail.index q1.tail.block (some new) v (free next q1)
      ]

  -- The loop of `Unbounded::push`, on fuel. A value that is refused is handed back.
  unfoldable pub push_loop :
      ℕ → ℕ → Option ℕ → Option ℕ → T → Unbounded T → Option (Result (Unit {0}) T × Unbounded T)
  push_loop zero tail block next v q = none
  push_loop (suc fuel) tail block next v q = elim (tail % 2 == 0) [
    | false ↦ some (err v, free next q)
    | true ↦ elim (offset_of tail == block_cap) [
      | true ↦ push_loop fuel q.tail.index q.tail.block next v q
      | false ↦
          let (next', q1) = prepare (offset_of tail) next q in
          push_block (push_loop fuel) tail block next' v q1
    ]
  ]

  -- `Unbounded::push`
  unfoldable pub push : T → Unbounded T → Option (Result (Unit {0}) T × Unbounded T)
  push v q = push_loop rounds q.tail.index q.tail.block none v q
