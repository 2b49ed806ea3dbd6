-- ===== src/Unbounded/Memory.antt =====
-- actix-async/src/util/async_channel/unbounded.rs: what a write to a slot, a link and a free do to
-- the memory of blocks.
use actix_async.Prelude.{
  bind_some, ℕ, ◌≡◌, ◌≢◌, ◌<◌, refl, ◌∙◌, true, false, ◌&&◌, ◌==◌, ltb, if◌then◌else◌, Option,
  Option-cases, none, some, inl, inr, arith,
}
use actix_async.Unbounded.{
  Slot, Block, Unbounded, block_cap, get_slot, set_slot, get_next, set_next, update, with_slot,
  uninit, new_block,
}

module _ {ℓ} {T : Type ℓ} where
  -- `m'` is `m` with the slot `o` of the block at `b` written.
  pub record Wrote (b o : ℕ) (s : Slot T) (m m' : ℕ → Option (Block T)) : Type ℓ where
    pub slot : (k j : ℕ) → get_slot m' k j ≡ (if b == k && o == j then some s else get_slot m k j)
    pub next : (k : ℕ) → get_next m' k ≡ get_next m k
    pub gone : (k : ℕ) → m k ≡ none → m' k ≡ none

  pub Wrote-elsewhere :
      (b o : ℕ) (s : Slot T) (m m' : ℕ → Option (Block T))
      → Wrote b o s m m'
      → (k j : ℕ) → (b ≡ k → o ≡ j → ⊥)
      → get_slot m' k j ≡ get_slot m k j
  Wrote-elsewhere b o s m m' w k j apart =
      let e : (b == k && o == j) ≡ false = ground (arith, apart) in w.slot k j ∙ rw e

  block_of :
      (m : ℕ → Option (Block T)) (b o : ℕ) (s : Slot T)
      → get_slot m b o ≡ some s
      → (blk : Block T) × (m b ≡ some blk) × (ltb o block_cap ≡ true)
  unfolding get_slot
  block_of m b o s h = elim (Option-cases (m b)) [
    | inl e ↦ absurd (ground arith)
    | inr (blk, e) ↦ (blk, e, ground arith)
  ]

  pub set_slot-Wrote :
      (b o : ℕ) (s s' : Slot T) (q : Unbounded T)
      → get_slot q.blocks b o ≡ some s
      → (m : ℕ → Option (Block T)) × (set_slot b o s' q ≡ some (record q { blocks = m }))
        × Wrote b o s' q.blocks m
  unfolding set_slot get_slot get_next
  set_slot-Wrote b o s s' q h =
      let (blk, e, small) = block_of q.blocks b o s h in
      (
        update q.blocks b (some (with_slot blk o s')),
        bind_some (q.blocks b) _ blk _ e refl,
        record {
          slot = λ k j. ground arith;
          next = λ k. ground arith;
          gone = λ k none_there. ground arith;
        },
      )

  -- `m'` is `m` with the link of the block at `b` set to `n`.
  pub record Linked (b n : ℕ) (m m' : ℕ → Option (Block T)) : Type ℓ where
    pub slot : (k j : ℕ) → get_slot m' k j ≡ get_slot m k j
    pub next : (k : ℕ) → get_next m' k ≡ (if b == k then some (some n) else get_next m k)
    pub gone : (k : ℕ) → m k ≡ none → m' k ≡ none

  pub set_next-Linked :
      (b n : ℕ) (o : Option ℕ) (q : Unbounded T)
      → get_next q.blocks b ≡ some o
      → (m : ℕ → Option (Block T)) × (set_next b n q ≡ some (record q { blocks = m }))
        × Linked b n q.blocks m
  unfolding set_next get_slot get_next
  set_next-Linked b n o q h = elim (Option-cases (q.blocks b)) [
    | inl e ↦ absurd (ground arith)
    | inr (blk, e) ↦ (
      update q.blocks b (some (record blk { next = some n })),
      bind_some (q.blocks b) _ blk _ e refl,
      record {
        slot = λ k j. ground arith;
        next = λ k. ground arith;
        gone = λ k none_there. ground arith;
      },
    )
  ]

  -- `m'` is `m` with a new block at `a`.
  pub record Grown (a : ℕ) (m m' : ℕ → Option (Block T)) : Type ℓ where
    pub slot : (j : ℕ) → j < 31 → get_slot m' a j ≡ some uninit
    pub slots : (k j : ℕ) → k ≢ a → get_slot m' k j ≡ get_slot m k j
    pub link : get_next m' a ≡ some none
    pub next : (k : ℕ) → k ≢ a → get_next m' k ≡ get_next m k
    pub gone : (k : ℕ) → k ≢ a → m k ≡ none → m' k ≡ none

  pub alloc-Grown : (a : ℕ) (m : ℕ → Option (Block T)) → Grown a m (update m a (some new_block))
  unfolding get_slot get_next
  alloc-Grown a m = record {
    slot = λ j l. ground arith;
    slots = λ k j n. ground arith;
    link = ground arith;
    next = λ k n. ground arith;
    gone = λ k n e. ground arith;
  }

  -- `m'` is `m` without the block at `a`.
  pub record Freed (a : ℕ) (m m' : ℕ → Option (Block T)) : Type ℓ where
    pub slots : (k j : ℕ) → k ≢ a → get_slot m' k j ≡ get_slot m k j
    pub next : (k : ℕ) → k ≢ a → get_next m' k ≡ get_next m k
    pub here : m' a ≡ none
    pub gone : (k : ℕ) → m k ≡ none → m' k ≡ none

  pub free-Freed : (a : ℕ) (m : ℕ → Option (Block T)) → Freed a m (update m a none)
  unfolding get_slot get_next
  free-Freed a m = record {
    slots = λ k j n. ground arith;
    next = λ k n. ground arith;
    here = ground arith;
    gone = λ k e. ground arith;
  }
