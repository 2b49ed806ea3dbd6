-- ===== src/Unbounded/Grow.antt =====
-- actix-async/src/util/async_channel/unbounded.rs: `push` where it allocates: the first message
-- installs the first block, and the last slot of a block installs the next one.
use actix_async.Prelude.{
  ◌>>=◌, bind_some, ℕ, suc, ◌+◌, ◌*◌, ◌/◌, ◌%◌, ◌<◌, ◌≡◌, refl, ◌∙◌, ap, subst, Bool, true, false,
  ◌==◌, lt→ltb, ==_iff, Option, none, some, List, [], ◌∷◌, ◌++◌, ok, arith,
}
use actix_async.Unbounded.{
  Block, Unbounded, get_slot, get_next, set_next, uninit, alloc, offset_of, block_cap, usize_mod,
  wrapping_advance,
}
use actix_async.Unbounded.Memory.{Wrote, Linked, set_next-Linked, Grown, alloc-Grown}
use actix_async.Unbounded.Shape.{filled, Allocated}
use actix_async.Unbounded.Push.{install, fill, prepare, push_block, push_loop, push}
use actix_async.Unbounded.Pushes.{fill-Wrote, round_open, wins, advance_wins, Rep-last}

module _ {ℓ} {T : Type ℓ} where
  -- the state behind the `compare_exchange` of a `push` that fills its block
  abbrev ended : ℕ → ℕ → Unbounded T → Unbounded T
  ended tail n q = record q { tail = record { index = tail + 4; block = some n } }

  wins_last :
      (tail b n : ℕ) (v : T) (q : Unbounded T)
      → (offset_of tail + 1 == block_cap) ≡ true
      → tail + 4 < usize_mod
      → get_next q.blocks b ≡ some none
      → get_slot q.blocks b (offset_of tail) ≡ some uninit
      → (m2 m3 : ℕ → Option (Block T)) × (wins tail b (some n) v q
          ≡ some (ok tt, record (ended tail n q) { blocks = m3 }))
        × Linked b n q.blocks m2
        × Wrote b (offset_of tail) (filled v) m2 m3
  unfolding install
  wins_last tail b n v q e small h k =
      let (m2, linked, l) = set_next-Linked b n none (ended tail n q) h in
      let q2 : Unbounded T = record (ended tail n q) { blocks = m2 } in
      let (m3, done, w) = fill-Wrote (offset_of tail) b v q2 (l.slot b (offset_of tail) ∙ k) in
      let wraps : wrapping_advance (tail + 2) ≡ tail + 4 = omega arith in
      (
        m2,
        m3,
        rw (e, ◌>>=◌)
            (rw wraps (
              bind_some (set_next b n (ended tail n q)) _ _ _ linked
                (bind_some (fill (offset_of tail) b v q2) _ _ _ done refl))),
        l,
        w,
      )

  round_last :
      (f tail b : ℕ) (v : T) (q : Unbounded T)
      → tail % 2 ≡ 0
      → offset_of tail ≡ 30
      → tail + 4 < usize_mod
      → q.tail.index ≡ tail
      → push_loop (suc f) tail (some b) none v q ≡ wins tail b (some (alloc q).0) v (alloc q).1
  unfolding push_block prepare alloc
  round_last f tail b v q even o small same =
      let e : (offset_of tail + 1 == block_cap) ≡ true = ground arith in
      round_open f tail (some b) none v q (ground arith) (ground arith)
      ∙ rw e (
          advance_wins f tail b (some (alloc q).0) v (alloc q).1 (lt→ltb _ _ (omega arith))
            ((==_iff _ _).1 same))

  -- `push` into the last slot of a block
  pub push-last :
      (v : T) (q : Unbounded T) (h t : ℕ) (xs : List T) (mark : Bool)
      → Allocated q h t xs false mark
      → 2 * t + 4 < usize_mod
      → t % 32 ≡ 30
      → (q' : Unbounded T) × (push v q ≡ some (ok tt, q'))
        × Allocated q' h (t + 2) (xs ++ v ∷ []) false mark
  unfolding push alloc
  push-last v q h t xs mark a small o =
      let tail = 2 * t + 0 in
      let at : offset_of tail ≡ t % 32 = omega arith in
      let g : Grown (t / 32 + 1) q.blocks (alloc q).1.blocks =
        subst (λ x. Grown x q.blocks (alloc q).1.blocks) a.fresh (alloc-Grown q.fresh q.blocks) in
      let (m2, m3, done, l, w) =
        wins_last tail (t / 32) q.fresh v (alloc q).1 (ground arith) (omega arith)
          (g.next (t / 32) (omega arith) ∙ a.rep.last)
          (g.slots (t / 32) _ (omega arith)
            ∙ rw at (a.rep.unwritten (t % 32) (omega arith) (omega arith))) in
      let d : (t + 2) / 32 ≡ t / 32 + 1 = omega arith in
      (
        record (ended tail q.fresh (alloc q).1) { blocks = m3 },
        (λ i. push_loop 3 (a.tail_index i) (a.tail_block i) none v q)
            ∙ round_last 2 tail (t / 32) v q (omega arith) (omega arith) (omega arith) a.tail_index
            ∙ done,
        record {
          rep =
              Rep-last q.blocks (alloc q).1.blocks m2 m3 h t xs v a.rep o g
                (subst (λ x. Linked (t / 32) x (alloc q).1.blocks m2) a.fresh l)
                (subst (λ x. Wrote (t / 32) x (filled v) m2 m3) at w);
          tail_index = omega arith;
          head_index = a.head_index;
          tail_block = rw d (ap (λ (x : ℕ). some x) a.fresh);
          head_block = a.head_block;
          fresh = omega (arith, a.fresh);
          marked = λ e. omega (arith, a.marked e);
        },
      )
