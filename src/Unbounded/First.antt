-- ===== src/Unbounded/First.antt =====
-- actix-async/src/util/async_channel/unbounded.rs: the first `push`, and `push` on every queue that
-- stands for a list of messages.
use actix_async.Prelude.{
  ℕ, suc, ◌≡◌, refl, ◌∙◌, sym, ap, subst, true, false, ==_iff, Option, none, some, [], ◌∷◌, ok,
  arith,
}
use actix_async.Unbounded.{Block, Unbounded, get_slot, uninit, new_block, update, alloc, is_null}
use actix_async.Unbounded.Memory.{Wrote, alloc-Grown}
use actix_async.Unbounded.Shape.{index_after, Stored, filled, Rep, Allocated, Virgin}
use actix_async.Unbounded.Push.{prepare, push_block, push_loop, push}
use actix_async.Unbounded.Pushes.{round_open, wins, advance_wins, wins_inner, Rep-inner}

module _ {ℓ} {T : Type ℓ} where
  -- the queue with its first block
  abbrev installed : Unbounded T → Unbounded T
  installed q = record (alloc q).1 {
    tail = record { index = q.tail.index; block = some q.fresh };
    head = record { index = q.head.index; block = some q.fresh };
  }

  round_first :
      (f : ℕ) (v : T) (q : Unbounded T)
      → q.tail.index ≡ 0
      → is_null q.tail.block ≡ true
      → push_loop (suc f) 0 none none v q ≡ wins 0 q.fresh none v (installed q)
  unfolding push_block prepare alloc
  round_first f v q e n =
      round_open f 0 none none v q refl refl
      ∙ rw (n, push_block) (advance_wins f 0 q.fresh none v (installed q) refl ((==_iff _ _).1 e))

  first_block :
      (m : ℕ → Option (Block T)) → ((b : ℕ) → m b ≡ none) → Rep (update m 0 (some new_block)) 0 0 []
  unfolding index_after Stored
  first_block m empty =
      let g = alloc-Grown 0 m in
      record {
        head_on = omega arith;
        tail_on = omega arith;
        reach = refl;
        stored = tt;
        unwritten = λ o l k. g.slot o k;
        read = λ o l. absurd (omega arith);
        link = λ b l k. absurd (omega arith);
        last = g.link;
        freed = λ b l. absurd (omega arith);
        above = λ b l. g.gone b (omega arith) (empty b);
      }

  pub push-first :
      (v : T) (q : Unbounded T)
      → Virgin q false
      → (q' : Unbounded T) × (push v q ≡ some (ok tt, q')) × Allocated q' 0 1 (v ∷ []) false false
  unfolding push alloc
  push-first v q e =
      let r : Rep (alloc q).1.blocks 0 0 [] =
        subst (λ a. Rep (update q.blocks a (some new_block)) 0 0 []) (sym e.fresh)
          (first_block q.blocks e.empty) in
      let (m, done, w) = wins_inner 0 q.fresh v (installed q) refl (
        subst (λ a. get_slot (alloc q).1.blocks a 0 ≡ some uninit) (sym e.fresh)
          (r.unwritten 0 (omega arith) (omega arith))) in
      (
        record (installed q) { tail = record { index = 2; block = some q.fresh }; blocks = m },
        (λ i. push_loop 3 (e.tail_index i) (e.tail_block i) none v q)
            ∙ round_first 2 v q e.tail_index (ap is_null e.tail_block)
            ∙ done,
        record {
          rep =
              Rep-inner (alloc q).1.blocks m 0 0 [] v r (omega arith)
                (subst (λ a. Wrote a 0 (filled v) (alloc q).1.blocks m) e.fresh w);
          tail_index = refl;
          head_index = e.head_index;
          tail_block = ap (λ (a : ℕ). some a) e.fresh;
          head_block = ap (λ (a : ℕ). some a) e.fresh;
          fresh = ap suc e.fresh;
          marked = λ y. cc;
        },
      )
