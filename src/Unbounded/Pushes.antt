-- ===== src/Unbounded/Pushes.antt =====
-- actix-async/src/util/async_channel/unbounded.rs: `push` appends to the list of messages.
use actix_async.Prelude.{
  ◌>>=◌, bind_some, ℕ, suc, ◌+◌, ◌*◌, ◌/◌, ◌%◌, ◌≤◌, ◌<◌, ◌≡◌, refl, ◌∙◌, sym, subst, Bool, true,
  false, ◌==◌, ltb, lt→ltb, ==_iff, Option, none, some, List, [], ◌∷◌, ◌++◌, Result, ok, arith,
}
use actix_async.Unbounded.{Block, Unbounded, get_slot, uninit, offset_of, block_cap, usize_mod}
use actix_async.Unbounded.Memory.{Wrote, set_slot-Wrote, Linked, Grown}
use actix_async.Unbounded.Shape.{
  index_after-le, index_after-snoc, Stored-frame, Stored-snoc, filled, Rep, Allocated,
}
use actix_async.Unbounded.Push.{install, fill, prepare, push_advance, push_block, push_loop, push}

module _ {ℓ} {T : Type ℓ} where
  pub fill-Wrote :
      (o b : ℕ) (v : T) (q : Unbounded T)
      → get_slot q.blocks b o ≡ some uninit
      → (m : ℕ → Option (Block T)) × (fill o b v q ≡ some (record q { blocks = m }))
        × Wrote b o (filled v) q.blocks m
  unfolding fill
  fill-Wrote o b v q h =
      let (m, e, w) = set_slot-Wrote b o uninit (filled v) q h in
      (m, bind_some (get_slot q.blocks b o) _ uninit _ h e, w)

  -- one round of the loop, on a queue whose tail is open and inside of a block
  pub round_open :
      (f tail : ℕ) (block next : Option ℕ) (v : T) (q : Unbounded T)
      → (tail % 2 == 0) ≡ true
      → (offset_of tail == block_cap) ≡ false
      → push_loop (suc f) tail block next v q
        ≡ push_block
            (push_loop f)
            tail
            block
            (prepare (offset_of tail) next q).0
            v
            (prepare (offset_of tail) next q).1
  unfolding push_loop
  round_open f tail block next v q e1 e2 = rw (e1, push_loop) (rw (e2, push_loop) refl)

  -- the part behind the `compare_exchange`, which wins
  abbrev pub wins : ℕ → ℕ → Option ℕ → T → Unbounded T → Option (Result (Unit {0}) T × Unbounded T)
  wins tail b next v q =
      install (offset_of tail) b next
        (record q { tail = record { index = tail + 2; block = q.tail.block } })
      >>= λ q1. fill (offset_of tail) b v q1 >>= λ q2. some (ok tt, q2)

  pub advance_wins :
      (f tail b : ℕ) (next : Option ℕ) (v : T) (q : Unbounded T)
      → ltb (tail + 2) usize_mod ≡ true
      → (q.tail.index == tail) ≡ true
      → push_advance (push_loop f) tail b next v q ≡ wins tail b next v q
  unfolding push_advance
  advance_wins f tail b next v q e1 e2 = rw (e1, ◌>>=◌) (rw (e2, push_advance) refl)

  -- A message is written into a slot that is not the last of its block.
  pub Rep-inner :
      (m m' : ℕ → Option (Block T)) (h t : ℕ) (xs : List T) (v : T)
      → Rep m h t xs
      → t % 32 < 30
      → Wrote (t / 32) (t % 32) (filled v) m m'
      → Rep m' h (t + 1) (xs ++ v ∷ [])
  Rep-inner m m' h t xs v r small w =
      let le : h ≤ t = subst (λ x. h ≤ x) r.reach (index_after-le h xs) in
      let d : (t + 1) / 32 ≡ t / 32 = omega arith in
      let e : (t + 1) % 32 ≡ t % 32 + 1 = omega arith in
      record {
        head_on = r.head_on;
        tail_on = omega arith;
        reach = index_after-snoc h xs v ∙ ground (arith, r.reach);
        stored =
            Stored-snoc m' h xs v
              (Stored-frame m m' h xs (λ j l k. ground (arith, w.slot (j / 32) (j % 32), r.reach))
                r.stored)
              (subst (λ x. get_slot m' (x / 32) (x % 32) ≡ some (filled v)) (sym r.reach)
                (ground (arith, w.slot (t / 32) (t % 32))));
        unwritten = λ o l k. rw d (ground (arith, w.slot (t / 32) o, r.unwritten o));
        read = λ o l. ground (arith, w.slot (h / 32) o, r.read o);
        link = λ b l k. w.next b ∙ r.link b l (omega arith);
        last = rw d (w.next (t / 32) ∙ r.last);
        freed = λ b l. w.gone b (r.freed b l);
        above = λ b l. w.gone b (r.above b (omega arith));
      }

  -- A message is written into the last slot of its block, behind which the next block is linked.
  pub Rep-last :
      (m m1 m2 m3 : ℕ → Option (Block T)) (h t : ℕ) (xs : List T) (v : T)
      → Rep m h t xs
      → t % 32 ≡ 30
      → Grown (t / 32 + 1) m m1
      → Linked (t / 32) (t / 32 + 1) m1 m2
      → Wrote (t / 32) (t % 32) (filled v) m2 m3
      → Rep m3 h (t + 2) (xs ++ v ∷ [])
  Rep-last m m1 m2 m3 h t xs v r full g l w =
      let le : h ≤ t = subst (λ x. h ≤ x) r.reach (index_after-le h xs) in
      let d : (t + 2) / 32 ≡ t / 32 + 1 = omega arith in
      record {
        head_on = r.head_on;
        tail_on = omega arith;
        reach = index_after-snoc h xs v ∙ ground (arith, r.reach);
        stored =
            Stored-snoc m3 h xs v
              (Stored-frame m m3 h xs
                (λ j a b. old (j / 32) (j % 32) (ground (arith, r.reach)) (ground (arith, r.reach)))
                r.stored)
              (subst (λ x. get_slot m3 (x / 32) (x % 32) ≡ some (filled v)) (sym r.reach)
                (ground (arith, w.slot (t / 32) (t % 32))));
        unwritten = λ o a b.
            rw d (ground (arith, w.slot (t / 32 + 1) o, l.slot (t / 32 + 1) o, g.slot o b));
        read = λ o a. old (h / 32) o (omega arith) (omega arith) ∙ r.read o a;
        link = λ b a c. ground (arith, w.next b, l.next b, g.next b (omega arith), r.link b a);
        last = rw d (w.next _ ∙ ground (arith, l.next (t / 32 + 1), g.link));
        freed = λ b a. w.gone b (l.gone b (g.gone b (omega arith) (r.freed b a)));
        above = λ b a. w.gone b (l.gone b (g.gone b (omega arith) (r.above b (omega arith))));
      }
    where
      old : (k j : ℕ) → k ≤ t / 32 → k * 32 + j < t → get_slot m3 k j ≡ get_slot m k j
      old k j a b = ground (arith, w.slot k j, l.slot k j, g.slots k j (omega arith))

  pub wins_inner :
      (tail b : ℕ) (v : T) (q : Unbounded T)
      → (offset_of tail + 1 == block_cap) ≡ false
      → get_slot q.blocks b (offset_of tail) ≡ some uninit
      → (m : ℕ → Option (Block T)) × (wins tail b none v q
          ≡ some (
            ok tt,
            record q { tail = record { index = tail + 2; block = q.tail.block }; blocks = m },
          ))
        × Wrote b (offset_of tail) (filled v) q.blocks m
  unfolding install
  wins_inner tail b v q e h =
      let q1 : Unbounded T = record q {
        tail = record { index = tail + 2; block = q.tail.block };
      } in
      let (m, done, w) = fill-Wrote (offset_of tail) b v q1 h in
      (m, rw (e, ◌>>=◌) (bind_some (fill (offset_of tail) b v q1) _ _ _ done refl), w)

  round_inner :
      (f tail b : ℕ) (v : T) (q : Unbounded T)
      → tail % 2 ≡ 0
      → offset_of tail < 30
      → tail + 2 < usize_mod
      → q.tail.index ≡ tail
      → push_loop (suc f) tail (some b) none v q ≡ wins tail b none v q
  unfolding push_block prepare
  round_inner f tail b v q even o small same =
      let e : (offset_of tail + 1 == block_cap) ≡ false = ground arith in
      round_open f tail (some b) none v q (ground arith) (ground arith)
      ∙ rw e (advance_wins f tail b none v q (lt→ltb _ _ small) ((==_iff _ _).1 same))

  -- `push` on a queue with blocks, where the slot is not the last of its block
  pub push-inner :
      (v : T) (q : Unbounded T) (h t : ℕ) (xs : List T) (mark : Bool)
      → Allocated q h t xs false mark
      → 2 * t + 4 < usize_mod
      → t % 32 < 30
      → (q' : Unbounded T) × (push v q ≡ some (ok tt, q'))
        × Allocated q' h (t + 1) (xs ++ v ∷ []) false mark
  unfolding push
  push-inner v q h t xs mark a small o =
      let tail = 2 * t + 0 in
      let at : offset_of tail ≡ t % 32 = omega arith in
      let (m, done, w) =
        wins_inner tail (t / 32) v q (ground arith)
          (rw at (a.rep.unwritten (t % 32) (omega arith) (omega arith))) in
      let d : (t + 1) / 32 ≡ t / 32 = omega arith in
      (
        record q { tail = record { index = tail + 2; block = q.tail.block }; blocks = m },
        (λ i. push_loop 3 (a.tail_index i) (a.tail_block i) none v q)
            ∙ round_inner 2 tail (t / 32) v q (omega arith) (omega arith) (omega arith) a.tail_index
            ∙ done,
        record {
          rep =
              Rep-inner q.blocks m h t xs v a.rep o
                (subst (λ x. Wrote (t / 32) x (filled v) q.blocks m) at w);
          tail_index = omega arith;
          head_index = a.head_index;
          tail_block = rw d a.tail_block;
          head_block = a.head_block;
          fresh = omega (arith, a.fresh);
          marked = λ e. omega (arith, a.marked e);
        },
      )
