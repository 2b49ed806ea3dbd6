-- ===== src/Unbounded/Taken.antt =====
-- actix-async/src/util/async_channel/unbounded.rs: `pop` on a queue that holds a message.
use actix_async.Prelude.{
  bind_some, ℕ, suc, ◌+◌, ◌*◌, ◌/◌, ◌%◌, ◌≤◌, ◌<◌, ◌≡◌, refl, ◌∙◌, ap, subst, Bool, true, false,
  ◌==◌, ==_iff, if◌then◌else◌, Bool-cases, Option, none, some, List, ◌∷◌, ok, inl, inr, arith,
}
use actix_async.Unbounded.{
  Unbounded, get_next, offset_of, block_cap, usize_mod, wrapping_advance, is_null, set_mark,
  clear_mark,
}
use actix_async.Unbounded.Memory.{Wrote}
use actix_async.Unbounded.Shape.{
  next_index, index_after, index_after-le, Stored, emptied, bit, Allocated,
}
use actix_async.Unbounded.Pop.{next_head, take_value, pop_advance, pop_loop, pop}
use actix_async.Unbounded.Takes.{take_inner, take_last}
use actix_async.Unbounded.Pops.{Rep-take_inner, Rep-take_last}
use actix_async.Unbounded.Heads.{pop_moves}

module _ {ℓ} {T : Type ℓ} where
  -- the state behind the `compare_exchange`
  abbrev moved_head : ℕ → Unbounded T → Unbounded T
  moved_head n q = record q { head = record { index = n; block = q.head.block } }

  advance_pops :
      (f head n b : ℕ) (x : T) (q q1 q2 : Unbounded T)
      → (q.head.index == head) ≡ true
      → next_head (offset_of head) n b (moved_head n q) ≡ some q1
      → take_value (offset_of head) b q1 ≡ some (x, q2)
      → pop_advance (pop_loop f) head n (some b) q ≡ some (ok x, q2)
  unfolding pop_advance
  advance_pops f head n b x q q1 q2 e h k =
      rw (e, pop_advance)
        (bind_some (next_head (offset_of head) n b (moved_head n q)) _ q1 _ h
          (bind_some (take_value (offset_of head) b q1) _ (x, q2) _ k refl))

  next_head-inner :
      (o n b : ℕ) (q : Unbounded T) → (o + 1 == block_cap) ≡ false → next_head o n b q ≡ some q
  unfolding next_head
  next_head-inner o n b q e = rw (e, next_head)

  next_head-last :
      (o n b : ℕ) (after : Option ℕ) (q : Unbounded T)
      → (o + 1 == block_cap) ≡ true
      → get_next q.blocks b ≡ some (some (suc b))
      → get_next q.blocks (suc b) ≡ some after
      → next_head o n b q
        ≡ some (record q {
          head = record {
            index =
                if is_null after
                then wrapping_advance (clear_mark n)
                else set_mark (wrapping_advance (clear_mark n));
            block = some (suc b);
          };
        })
  unfolding next_head
  next_head-last o n b after q e h k =
      rw (e, next_head)
        (bind_some (get_next q.blocks b) _ (some (suc b)) _ h
          (bind_some (get_next q.blocks (suc b)) _ after _ k refl))

  -- The queue after a `pop` of its first message.
  abbrev pub Popped : Unbounded T → ℕ → ℕ → T → List T → Bool → Type ℓ
  Popped q h t x xs c =
      (q' : Unbounded T) × (mark : Bool) × (pop q ≡ some (ok x, q')) × Allocated q' h t xs c mark

  pop-inner :
      (q : Unbounded T) (h t : ℕ) (x : T) (xs : List T) (c mark m : Bool)
      → Allocated q h t (x ∷ xs) c mark
      → h % 32 < 30
      → (m ≡ true → h / 32 < t / 32)
      → pop q ≡ pop_advance (pop_loop 2) (2 * h + bit mark) (2 * h + 2 + bit m) q.head.block q
      → Popped q (h + 1) t x xs c
  unfolding Stored
  pop-inner q h t x xs c mark m a small marked e =
      let head = 2 * h + bit mark in
      let at : offset_of head ≡ h % 32 = ground arith in
      let q1 = moved_head (2 * h + 2 + bit m) q in
      let (blocks, took, w) =
        take_inner (offset_of head) (h / 32) x q1 (ground arith) (rw at a.rep.stored.0) in
      (
        record q1 { blocks = blocks },
        m,
        e
            ∙ ap (λ b. pop_advance (pop_loop 2) head (2 * h + 2 + bit m) b q) a.head_block
            ∙ advance_pops 2 head (2 * h + 2 + bit m) (h / 32) x q q1 _
                ((==_iff _ _).1 a.head_index)
                (next_head-inner (offset_of head) _ (h / 32) q1 (ground arith)) took,
        record {
          rep =
              Rep-take_inner q.blocks blocks h t x xs a.rep small
                (subst (λ o. Wrote (h / 32) o emptied q.blocks blocks) at w);
          tail_index = a.tail_index;
          head_index = omega arith;
          tail_block = a.tail_block;
          head_block = a.head_block ∙ ap (λ (k : ℕ). some k) (omega arith);
          fresh = a.fresh;
          marked = λ y. omega (arith, marked y);
        },
      )

  -- `pop` out of the last slot of a block, where `after` links the block behind the next one.
  pop-last :
      (q : Unbounded T) (h t : ℕ) (x : T) (xs : List T) (c mark m m' : Bool) (after : Option ℕ)
      → Allocated q h t (x ∷ xs) c mark
      → h % 32 ≡ 30
      → h + 2 ≤ t
      → 2 * t + 2 < usize_mod
      → get_next q.blocks (suc (h / 32)) ≡ some after
      → is_null after ≡ (if m' then false else true)
      → (m' ≡ true → suc (h / 32) < t / 32)
      → pop q ≡ pop_advance (pop_loop 2) (2 * h + bit mark) (2 * h + 2 + bit m) q.head.block q
      → Popped q (h + 2) t x xs c
  unfolding Stored
  pop-last q h t x xs c mark m m' after a full le small link null marked e =
      let head = 2 * h + bit mark in
      let n = 2 * h + 2 + bit m in
      let at : offset_of head ≡ h % 32 = ground arith in
      let moved : (if is_null after
            then wrapping_advance (clear_mark n)
            else set_mark (wrapping_advance (clear_mark n)))
          ≡ 2 * (h + 2) + bit m' =
        ground (arith, null) in
      let q1 : Unbounded T = record q {
        head = record { index = 2 * (h + 2) + bit m'; block = some (suc (h / 32)) };
      } in
      let (blocks, took, f) =
        take_last (offset_of head) (h / 32) x q1 (ground arith) (rw at a.rep.stored.0)
          (λ j l. a.rep.read j (omega arith)) in
      (
        record q1 { blocks = blocks },
        m',
        e
            ∙ ap (λ b. pop_advance (pop_loop 2) head n b q) a.head_block
            ∙ advance_pops 2 head n (h / 32) x q q1 _ ((==_iff _ _).1 a.head_index)
                (next_head-last (offset_of head) n (h / 32) after (moved_head n q) (ground arith)
                    (a.rep.link (h / 32) (omega arith) (omega arith)) link
                  ∙ ap
                      (λ i.
                        some
                          (record q { head = record { index = i; block = some (suc (h / 32)) } }))
                      moved)
                took,
        record {
          rep = Rep-take_last q.blocks blocks h t x xs a.rep full f;
          tail_index = a.tail_index;
          head_index = refl;
          tail_block = a.tail_block;
          head_block = ap (λ (k : ℕ). some k) (omega arith);
          fresh = a.fresh;
          marked = λ y. omega (arith, marked y);
        },
      )

  -- `pop` takes the first message out, wherever in its block it stands.
  pub pop-Allocated :
      (q : Unbounded T) (h t : ℕ) (x : T) (xs : List T) (c mark : Bool)
      → Allocated q h t (x ∷ xs) c mark
      → 2 * t + 2 < usize_mod
      → Popped q (next_index h) t x xs c
  unfolding index_after
  pop-Allocated q h t x xs c mark a small =
      let (m, marked, e) =
        pop_moves q h t c mark a.head_index a.tail_index a.marked a.rep.head_on
          (ground (arith, behind)) small in
      elim (Bool-cases (h % 32 == 30)) [
        | inr o ↦ simp o (pop-inner q h t x xs c mark m a (ground (arith, a.rep.head_on)) marked e)
        | inl o ↦ simp o (ended m e ((==_iff _ _).0 o))
      ]
    where
      behind : next_index h ≤ t
      behind = subst (λ k. next_index h ≤ k) a.rep.reach (index_after-le (next_index h) xs)

      ended :
          (m : Bool)
          → pop q ≡ pop_advance (pop_loop 2) (2 * h + bit mark) (2 * h + 2 + bit m) q.head.block q
          → h % 32 ≡ 30
          → Popped q (h + 2) t x xs c
      ended m e full =
          let le : h + 2 ≤ t = ground (arith, behind) in
          elim (Bool-cases (suc (h / 32) == t / 32)) [
            | inl s ↦
                pop-last q h t x xs c mark m false none a full le small
                  (rw ((==_iff _ _).0 s) a.rep.last) refl (λ y. cc) e
            | inr s ↦
                let less : suc (h / 32) < t / 32 = ground arith in
                pop-last q h t x xs c mark m true _ a full le small
                  (a.rep.link (suc (h / 32)) (omega arith) less) refl (λ y. less) e
          ]
