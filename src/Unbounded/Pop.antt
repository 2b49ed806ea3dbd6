-- ===== src/Unbounded/Pop.antt =====
-- actix-async/src/util/async_channel/unbounded.rs: `Unbounded::pop` and `Block::destroy`.
use actix_async.Prelude.{
  ◌>>=◌, ℕ, zero, suc, ◌+◌, ◌-◌, ◌/◌, ◌%◌, bit_and, bit_or, true, false, ◌==◌, if◌then◌else◌,
  Option, none, some, Result, ok, err,
}
use actix_async.Channel.Queue.{TryRecvError}
use actix_async.Unbounded.{
  Unbounded, write_bit, read_bit, destroy_bit, lap, block_cap, rounds, set_mark, clear_mark,
  advance, wrapping_advance, offset_of, is_null, get_slot, set_slot, get_next, free,
}

module _ {ℓ} {T : Type ℓ} where
  -- The loop of `Block::destroy`, with the slots left to visit, from `i` on. A slot that is still in
  -- use is marked, and its reader goes on with the block.
  unfoldable pub destroy_loop : ℕ → ℕ → ℕ → Unbounded T → Option (Unbounded T)
  destroy_loop zero i b q = some (free (some b) q)
  destroy_loop (suc n) i b q = do
    s ← get_slot q.blocks b i
    elim (bit_and s.state read_bit == 0) [
      | true ↦ set_slot b i (record s { state = bit_or s.state destroy_bit }) q
      | false ↦ destroy_loop n (suc i) b q
    ]

  -- `Block::destroy`
  unfoldable pub destroy : ℕ → ℕ → Unbounded T → Option (Unbounded T)
  destroy b start q = destroy_loop (block_cap - 1 - start) start b q

  -- `pop` behind its `compare_exchange`, at the end of a block: the head moves to the next block.
  -- `wait_next` never returns where no next block is set.
  unfoldable pub next_head : ℕ → ℕ → ℕ → Unbounded T → Option (Unbounded T)
  next_head offset new_head b q =
      if offset + 1 == block_cap
      then (do
        link ← get_next q.blocks b
        next ← link
        after ← get_next q.blocks next
        let index = wrapping_advance (clear_mark new_head)
        some (record q {
          head = record {
            index = if is_null after then index else set_mark index;
            block = some next;
          };
        }))
      else some q

  -- The rest of `pop`: the value is moved out of its slot, and a block that is used up is destroyed.
  -- `wait_write` never returns where no value is written.
  unfoldable pub take_value : ℕ → ℕ → Unbounded T → Option (T × Unbounded T)
  take_value offset b q = do
    s ← get_slot q.blocks b offset
    v ← (if bit_and s.state write_bit == 0 then none else s.value)
    q1 ← set_slot b offset (record { value = none; state = s.state }) q
    q2 ←
        (if offset + 1 == block_cap then destroy b 0 q1 else (do
          q2 ← set_slot b offset (record { value = none; state = bit_or s.state read_bit }) q1
          if bit_and s.state destroy_bit == 0 then some q2 else destroy b (offset + 1) q2))
    some (v, q2)

  -- `pop` from the test of the block on
  unfoldable pub pop_advance :
      (ℕ → Option ℕ → Unbounded T → Option (Result T TryRecvError × Unbounded T))
      → ℕ
      → ℕ
      → Option ℕ
      → Unbounded T
      → Option (Result T TryRecvError × Unbounded T)
  pop_advance again head new_head none q = again q.head.index q.head.block q
  pop_advance again head new_head (some b) q = elim (q.head.index == head) [
    | false ↦ again q.head.index q.head.block q
    | true ↦ (do
      q1 ←
          next_head (offset_of head) new_head b
            (record q { head = record { index = new_head; block = q.head.block } })
      (v, q2) ← take_value (offset_of head) b q1
      some (ok v, q2))
  ]

  -- The loop of `Unbounded::pop`, on fuel
  unfoldable pub pop_loop :
      ℕ → ℕ → Option ℕ → Unbounded T → Option (Result T TryRecvError × Unbounded T)
  pop_loop zero head block q = none
  pop_loop (suc fuel) head block q = elim (offset_of head == block_cap) [
    | true ↦ pop_loop fuel q.head.index q.head.block q
    | false ↦ (do
      new_head ← advance head
      let tail = q.tail.index
      elim (new_head % 2 == 0) [
        | false ↦ pop_advance (pop_loop fuel) head new_head block q
        | true ↦ elim (head / 2 == tail / 2) [
          | true ↦ some (err (if tail % 2 == 0 then TryRecvError.empty else TryRecvError.closed), q)
          | false ↦
              pop_advance (pop_loop fuel) head
                (if head / 2 / lap == tail / 2 / lap then new_head else set_mark new_head) block q
        ]
      ])
  ]

  -- `Unbounded::pop`
  unfoldable pub pop : Unbounded T → Option (Result T TryRecvError × Unbounded T)
  pop q = pop_loop rounds q.head.index q.head.block q
