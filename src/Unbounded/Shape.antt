-- ===== src/Unbounded/Shape.antt =====
-- actix-async/src/util/async_channel/unbounded.rs: the list of messages that the blocks hold.
-- A position counts slots, 32 to a block, of which the last is never used. Where nobody
-- interferes, the block of a position `i` is at the address `i / 32`.
use actix_async.Prelude.{
  ℕ, suc, ◌+◌, ◌*◌, ◌/◌, ◌%◌, ◌≤◌, ◌<◌, ◌≡◌, refl, ◌∙◌, Bool, true, false, ◌==◌, if◌then◌else◌,
  Option, none, some, List, [], ◌∷◌, ◌++◌, arith,
}
use actix_async.Unbounded.{Slot, Block, Unbounded, get_slot, get_next, uninit}

abbrev pub next_index : ℕ → ℕ
next_index i = if i % 32 == 30 then i + 2 else i + 1

pub next_index_on : (i : ℕ) → i % 32 < 31 → next_index i % 32 < 31
next_index_on i h = ground arith

abbrev pub bit : Bool → ℕ
bit true = 1
bit false = 0

module _ {ℓ} {T : Type ℓ} where
  -- the position behind a list of messages
  unfoldable pub index_after : ℕ → List T → ℕ
  index_after i [] = i
  index_after i (x ∷ xs) = index_after (next_index i) xs

  abbrev pub filled : T → Slot T
  filled v = record { value = some v; state = 1 }

  abbrev pub emptied : Slot T
  emptied = record { value = none; state = 3 }

  -- The slots from a position on hold the messages.
  unfoldable pub Stored : (ℕ → Option (Block T)) → ℕ → List T → Type ℓ
  Stored m i [] = Unit
  Stored m i (x ∷ xs) =
      (get_slot m (i / 32) (i % 32) ≡ some (filled x)) × Stored m (next_index i) xs

  -- The blocks hold `xs` from the position `h` up to `t`.
  pub record Rep (m : ℕ → Option (Block T)) (h t : ℕ) (xs : List T) : Type ℓ where
    pub head_on : h % 32 < 31
    pub tail_on : t % 32 < 31
    pub reach : index_after h xs ≡ t
    pub stored : Stored m h xs
    pub unwritten : (o : ℕ) → t % 32 ≤ o → o < 31 → get_slot m (t / 32) o ≡ some uninit
    pub read : (o : ℕ) → o < h % 32 → get_slot m (h / 32) o ≡ some emptied
    pub link : (b : ℕ) → h / 32 ≤ b → b < t / 32 → get_next m b ≡ some (some (suc b))
    pub last : get_next m (t / 32) ≡ some none
    pub freed : (b : ℕ) → b < h / 32 → m b ≡ none
    pub above : (b : ℕ) → t / 32 < b → m b ≡ none

  -- A queue whose blocks are allocated.
  pub record Allocated (q : Unbounded T) (h t : ℕ) (xs : List T) (c mark : Bool) : Type ℓ where
    pub rep : Rep q.blocks h t xs
    pub tail_index : q.tail.index ≡ 2 * t + bit c
    pub head_index : q.head.index ≡ 2 * h + bit mark
    pub tail_block : q.tail.block ≡ some (t / 32)
    pub head_block : q.head.block ≡ some (h / 32)
    pub fresh : q.fresh ≡ t / 32 + 1
    pub marked : mark ≡ true → h / 32 < t / 32

  -- A queue that nothing was pushed to.
  pub record Virgin (q : Unbounded T) (c : Bool) : Type ℓ where
    pub tail_index : q.tail.index ≡ bit c
    pub head_index : q.head.index ≡ 0
    pub tail_block : q.tail.block ≡ none
    pub head_block : q.head.block ≡ none
    pub fresh : q.fresh ≡ 0
    pub empty : (b : ℕ) → q.blocks b ≡ none

  pub index_after-le : (i : ℕ) (xs : List T) → i ≤ index_after i xs
  unfolding index_after
  index_after-le i [] = omega arith
  index_after-le i (x ∷ xs) = ground (arith, index_after-le (next_index i) xs)

  pub index_after-snoc :
      (i : ℕ) (xs : List T) (v : T) → index_after i (xs ++ v ∷ []) ≡ next_index (index_after i xs)
  unfolding index_after
  index_after-snoc i [] v = refl
  index_after-snoc i (x ∷ xs) v = index_after-snoc (next_index i) xs v

  -- Messages stay where the slots in front of the tail stay as they are.
  pub Stored-frame :
      (m m' : ℕ → Option (Block T)) (i : ℕ) (xs : List T)
      → ((j : ℕ)
          → i ≤ j
          → j < index_after i xs
          → get_slot m' (j / 32) (j % 32) ≡ get_slot m (j / 32) (j % 32))
      → Stored m i xs
      → Stored m' i xs
  unfolding Stored index_after
  Stored-frame m m' i [] f h = tt
  Stored-frame m m' i (x ∷ xs) f h = (
    f i (omega arith) (ground (arith, index_after-le (next_index i) xs)) ∙ h.0,
    Stored-frame m m' (next_index i) xs (λ j l k. f j (ground arith) k) h.1,
  )

  pub Stored-snoc :
      (m : ℕ → Option (Block T)) (i : ℕ) (xs : List T) (v : T)
      → Stored m i xs
      → get_slot m (index_after i xs / 32) (index_after i xs % 32) ≡ some (filled v)
      → Stored m i (xs ++ v ∷ [])
  unfolding Stored index_after
  Stored-snoc m i [] v h e = (e, tt)
  Stored-snoc m i (x ∷ xs) v h e = (h.0, Stored-snoc m (next_index i) xs v h.1 e)
