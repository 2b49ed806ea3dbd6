-- ===== src/Unbounded.antt =====
-- actix-async/src/util/async_channel/unbounded.rs: the message queue, a linked list of blocks.
-- Blocks are kept as in the source, by addresses in a memory; a freed block is absent. Each call
-- runs without interference. `none` is a memory fault, an overflow, or a wait that nobody ends.
-- An index is a word: `>> SHIFT` is written `/ 2`, and `& MARK_BIT` is written `% 2`.
pub mod Memory
pub mod Shape
pub mod Push
pub mod Pushes
pub mod Grow
pub mod First
pub mod Pop
pub mod Takes
pub mod Pops
pub mod Heads
pub mod Taken
pub mod Drop
pub mod Ops
pub mod Dropped
mod Tests
use actix_async.Prelude.{
  ◌>>=◌, ℕ, zero, suc, ◌+◌, ◌-◌, ◌/◌, ◌%◌, ◌^◌, bit_and, bit_or, Bool, true, false, ◌&&◌, ◌==◌, ltb,
  if◌then◌else◌, Option, none, some, List, [], ◌∷◌, Result, ok, err,
}
use actix_async.Channel.Queue.{TryRecvError}

-- the bits of a slot's state
abbrev pub write_bit : ℕ
write_bit = 1

abbrev pub read_bit : ℕ
read_bit = 2

abbrev pub destroy_bit : ℕ
destroy_bit = 4

abbrev pub lap : ℕ
lap = 32

abbrev pub block_cap : ℕ
block_cap = 31

abbrev pub usize_mod : ℕ
usize_mod = 2 ^ 64

pub record Slot {ℓ} (T : Type ℓ) : Type ℓ where
  pub value : Option T
  pub state : ℕ

pub record Block {ℓ} (T : Type ℓ) : Type ℓ where
  pub next : Option ℕ
  pub slots : ℕ → Slot T

pub record Position : Type 0 where
  pub index : ℕ
  pub block : Option ℕ

-- `Unbounded`, with the memory that its pointers go to
pub record Unbounded {ℓ} (T : Type ℓ) : Type ℓ where
  pub head : Position
  pub tail : Position
  pub blocks : ℕ → Option (Block T)
  pub fresh : ℕ  -- the address of the next box

-- `x | MARK_BIT` and `x & !MARK_BIT`
abbrev pub set_mark : ℕ → ℕ
set_mark x = x - x % 2 + 1

abbrev pub clear_mark : ℕ → ℕ
clear_mark x = x - x % 2

-- `x + (1 << SHIFT)`, where an overflow is a fault, and its wrapping version
abbrev pub advance : ℕ → Option ℕ
advance x = if ltb (x + 2) usize_mod then some (x + 2) else none

abbrev pub wrapping_advance : ℕ → ℕ
wrapping_advance x = (x + 2) % usize_mod

abbrev pub offset_of : ℕ → ℕ
offset_of x = x / 2 % lap

abbrev pub same_block : Option ℕ → Option ℕ → Bool
same_block none none = true
same_block (some a) (some b) = a == b
same_block _ _ = false

abbrev pub is_null : Option ℕ → Bool
is_null none = true
is_null (some a) = false

-- the fuel of the loops: where nobody interferes, one round is enough
abbrev pub rounds : ℕ
rounds = 3

module _ {ℓ} {T : Type ℓ} where
  abbrev pub update : (ℕ → Option (Block T)) → ℕ → Option (Block T) → ℕ → Option (Block T)
  update m a b k = if a == k then b else m k

  -- `Slot::UNINIT` and `Block::new`
  abbrev pub uninit : Slot T
  uninit = record { value = none; state = 0 }

  abbrev pub new_block : Block T
  new_block = record { next = none; slots = λ _. uninit }

  -- `slots.get_unchecked(o)` of the block at `b`, and a write to that slot
  unfoldable pub get_slot : (ℕ → Option (Block T)) → ℕ → ℕ → Option (Slot T)
  get_slot m b o = do blk ← m b; if ltb o block_cap then some (blk.slots o) else none

  abbrev pub with_slot : Block T → ℕ → Slot T → Block T
  with_slot blk o s = record blk { slots = λ k. if o == k then s else blk.slots k }

  unfoldable pub set_slot : ℕ → ℕ → Slot T → Unbounded T → Option (Unbounded T)
  set_slot b o s q = do
    blk ← q.blocks b
    some (record q { blocks = update q.blocks b (some (with_slot blk o s)) })

  -- `next` of the block at `b`
  unfoldable pub get_next : (ℕ → Option (Block T)) → ℕ → Option (Option ℕ)
  get_next m b = do blk ← m b; some blk.next

  unfoldable pub set_next : ℕ → ℕ → Unbounded T → Option (Unbounded T)
  set_next b n q = do
    blk ← q.blocks b
    some (record q { blocks = update q.blocks b (some (record blk { next = some n })) })

  -- `Box::new(Block::new())`, and the drop of a box
  unfoldable pub alloc : Unbounded T → ℕ × Unbounded T
  alloc q =
      (q.fresh, record q { blocks = update q.blocks q.fresh (some new_block); fresh = suc q.fresh })

  unfoldable pub free : Option ℕ → Unbounded T → Unbounded T
  free none q = q
  free (some a) q = record q { blocks = update q.blocks a none }

  -- `Unbounded::new`
  abbrev pub new : Unbounded T
  new = record {
    head = record { index = 0; block = none };
    tail = record { index = 0; block = none };
    blocks = λ _. none;
    fresh = 0;
  }

  -- `Unbounded::close` and `Unbounded::is_closed`
  unfoldable pub close : Unbounded T → Bool × Unbounded T
  close q = (
    q.tail.index % 2 == 0,
    record q { tail = record { index = set_mark q.tail.index; block = q.tail.block } },
  )

  unfoldable pub is_closed : Unbounded T → Bool
  is_closed q = if q.tail.index % 2 == 0 then false else true
