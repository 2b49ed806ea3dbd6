-- ===== src/Unbounded/Dropped.antt =====
-- actix-async/src/util/async_channel/unbounded.rs: the drop of a queue drops each message that is
-- left once, and frees every block.
use actix_async.Prelude.{
  bind_some, ℕ, zero, suc, ◌+◌, ◌-◌, ◌*◌, ◌/◌, ◌%◌, ◌≤◌, ◌<◌, ◌≡◌, refl, ◌∙◌, sym, ap, subst,
  subst₂, Bool, true, false, ◌==◌, ==_iff, ltb, lt→ltb, le→ltb, Bool-cases, Option, none, some,
  List, [], ◌∷◌, inl, inr, arith,
}
use actix_async.Unbounded.{
  Block, Unbounded, get_slot, get_next, update, free, offset_of, block_cap, usize_mod, clear_mark,
  wrapping_advance,
}
use actix_async.Unbounded.Memory.{free-Freed}
use actix_async.Unbounded.Shape.{
  next_index, index_after, index_after-le, Stored, Stored-frame, filled,
}
use actix_async.Unbounded.Drop.{drop_loop, drop_queue}
use actix_async.Unbounded.Ops.{Stands, virgin, allocated}

module _ {ℓ} {T : Type ℓ} where
  step_value :
      (n i b : ℕ) (x : T) (q : Unbounded T) (xs : List T) (last : Option ℕ) (q' : Unbounded T)
      → i % 32 < 31
      → 2 * i + 2 < usize_mod
      → get_slot q.blocks b (i % 32) ≡ some (filled x)
      → drop_loop n (2 * (i + 1)) (some b) q ≡ some (xs, last, q')
      → drop_loop (suc n) (2 * i) (some b) q ≡ some (x ∷ xs, last, q')
  unfolding drop_loop
  step_value n i b x q xs last q' on small slot rest =
      let at : offset_of (2 * i) ≡ i % 32 = omega arith in
      let inside : ltb (offset_of (2 * i)) block_cap ≡ true = lt→ltb _ _ (omega arith) in
      let next : wrapping_advance (2 * i) ≡ 2 * (i + 1) = omega arith in
      rw inside (
        bind_some (get_slot q.blocks b (offset_of (2 * i))) _ (filled x) _ (rw at slot) (
          bind_some (drop_loop n (wrapping_advance (2 * i)) (some b) q) _ (xs, last, q') _
            (ap (λ k. drop_loop n k (some b) q) next ∙ rest) refl))

  step_block :
      (n i b : ℕ) (next : Option ℕ) (q : Unbounded T)
      → i % 32 ≡ 31
      → 2 * i + 2 < usize_mod
      → get_next q.blocks b ≡ some next
      → drop_loop (suc n) (2 * i) (some b) q ≡ drop_loop n (2 * (i + 1)) next (free (some b) q)
  unfolding drop_loop
  step_block n i b next q full small link =
      let outside : ltb (offset_of (2 * i)) block_cap ≡ false = le→ltb _ _ (omega arith) in
      let moved : wrapping_advance (2 * i) ≡ 2 * (i + 1) = omega arith in
      rw outside (
        bind_some (get_next q.blocks b) _ next _ link
          (ap (λ k. drop_loop n k next (free (some b) q)) moved))

  -- What the loop leaves of the memory: the blocks before that of the tail are gone.
  pub record Swept (from to : ℕ) (m m' : ℕ → Option (Block T)) : Type ℓ where
    pub gone : (b : ℕ) → m b ≡ none → m' b ≡ none
    pub swept : (b : ℕ) → from ≤ b → b < to → m' b ≡ none

  Drops : List T → ℕ → ℕ → ℕ → Unbounded T → Type ℓ
  Drops xs h t n q =
      (m : ℕ → Option (Block T)) × (drop_loop n (2 * h) (some (h / 32)) q
        ≡ some (xs, some (t / 32), record q { blocks = m }))
      × Swept (h / 32) (t / 32) q.blocks m

  abbrev Links : (ℕ → Option (Block T)) → ℕ → ℕ → Type 0
  Links m h t = (b : ℕ) → h / 32 ≤ b → b < t / 32 → get_next m b ≡ some (some (suc b))

  -- a message that is not the last of its block
  inner-Drops :
      (x : T) (xs : List T) (h t n : ℕ) (q : Unbounded T)
      → h % 32 < 30
      → 2 * h + 2 < usize_mod
      → get_slot q.blocks (h / 32) (h % 32) ≡ some (filled x)
      → Drops xs (h + 1) t n q
      → Drops (x ∷ xs) h t (suc n) q
  unfolding Drops
  inner-Drops x xs h t n q o small slot (m, ran, s) =
      let d : (h + 1) / 32 ≡ h / 32 = omega arith in
      (
        m,
        step_value n h (h / 32) x q xs (some (t / 32)) (record q { blocks = m }) (omega arith) small
            slot
            (subst
              (λ b.
                drop_loop n (2 * (h + 1)) (some b) q
                ≡ some (xs, some (t / 32), record q { blocks = m }))
              d ran),
        record { gone = s.gone; swept = λ b l k. s.swept b (omega arith) k },
      )

  -- the last message of a block, and the block
  edge-Drops :
      (x : T) (xs : List T) (h t n : ℕ) (q : Unbounded T)
      → h % 32 ≡ 30
      → 2 * h + 4 < usize_mod
      → get_slot q.blocks (h / 32) (h % 32) ≡ some (filled x)
      → get_next q.blocks (h / 32) ≡ some (some (suc (h / 32)))
      → Drops xs (h + 2) t n (free (some (h / 32)) q)
      → Drops (x ∷ xs) h t (suc (suc n)) q
  unfolding Drops free
  edge-Drops x xs h t n q o small slot link (m, ran, s) =
      let f = free-Freed (h / 32) q.blocks in
      let d : (h + 2) / 32 ≡ suc (h / 32) = omega arith in
      let twice : 2 * (h + 2) ≡ 2 * (h + 1 + 1) = omega arith in
      (
        m,
        step_value (suc n) h (h / 32) x q xs (some (t / 32)) (record q { blocks = m }) (omega arith)
            (omega arith) slot
            (step_block n (h + 1) (h / 32) (some (suc (h / 32))) q (omega arith) (omega arith) link
              ∙ subst₂
                  (λ k b.
                    drop_loop n k (some b) (free (some (h / 32)) q)
                    ≡ some (xs, some (t / 32), record q { blocks = m }))
                  twice d ran),
        record {
          gone = λ b e. s.gone b (f.gone b e);
          swept = λ b l k. elim (Bool-cases (b == h / 32)) [
            | inl e ↦ s.gone b (rw ((==_iff b (h / 32)).0 e) f.here)
            | inr e ↦ s.swept b (ground arith) k
          ];
        },
      )

  drop_loop-Drops :
      (xs : List T) (h t n : ℕ) (q : Unbounded T)
      → h % 32 < 31
      → n + h ≡ t
      → index_after h xs ≡ t
      → Stored q.blocks h xs
      → Links q.blocks h t
      → 2 * t + 2 < usize_mod
      → Drops xs h t n q
  unfolding Drops index_after Stored drop_loop free
  drop_loop-Drops [] h t zero q on count reach stored links small = (
    q.blocks,
    ap (λ k. some ([], some (k / 32), q)) reach,
    record { gone = λ b e. e; swept = λ b l k. absurd (omega arith) },
  )
  drop_loop-Drops [] h t (suc n) q on count reach stored links small = absurd (omega arith)
  drop_loop-Drops (x ∷ xs) h t zero q on count reach stored links small =
      absurd (ground (arith, index_after-le (next_index h) xs))
  drop_loop-Drops (x ∷ xs) h t (suc zero) q on count reach stored links small =
      let le = index_after-le (next_index h) xs in
      let o : h % 32 < 30 = ground (arith, le, reach) in
      let n : next_index h ≡ h + 1 = ground arith in
      inner-Drops x xs h t 0 q o (omega arith) stored.0 (
        drop_loop-Drops xs (h + 1) t 0 q (omega arith) (omega arith)
          (subst (λ k. index_after k xs ≡ t) n reach) (subst (λ k. Stored q.blocks k xs) n stored.1)
          (λ b l k. links b (omega arith) k) small)
  drop_loop-Drops (x ∷ xs) h t (suc (suc n)) q on count reach stored links small =
      let f = free-Freed (h / 32) q.blocks in
      elim (Bool-cases (h % 32 == 30)) [
        | inr o ↦
            let e : next_index h ≡ h + 1 = ground arith in
            inner-Drops x xs h t (suc n) q (ground arith) (omega arith) stored.0 (
              drop_loop-Drops xs (h + 1) t (suc n) q (ground arith) (omega arith)
                (subst (λ k. index_after k xs ≡ t) e reach)
                (subst (λ k. Stored q.blocks k xs) e stored.1) (λ b l k. links b (omega arith) k)
                small)
        | inl o ↦
            let full : h % 32 ≡ 30 = ground arith in
            let e : next_index h ≡ h + 2 = ground arith in
            edge-Drops x xs h t n q full (omega arith) stored.0
              (links (h / 32) (omega arith) (omega arith))
              (drop_loop-Drops xs (h + 2) t n (free (some (h / 32)) q) (omega arith) (omega arith)
                (subst (λ k. index_after k xs ≡ t) e reach)
                (Stored-frame q.blocks (update q.blocks (h / 32) none) (h + 2) xs
                  (λ j l k. f.slots (j / 32) (j % 32) (omega arith))
                  (subst (λ k. Stored q.blocks k xs) e stored.1))
                (λ b l k. f.next b (omega arith) ∙ links b (omega arith) k) small)
      ]

  -- the call, from its loop and the values that it starts with
  from_loop :
      (q q' : Unbounded T) (xs : List T) (n head : ℕ) (block last : Option ℕ)
      → (clear_mark q.tail.index - clear_mark q.head.index) / 2 ≡ n
      → clear_mark q.head.index ≡ head
      → q.head.block ≡ block
      → drop_loop n head block q ≡ some (xs, last, q')
      → drop_queue q ≡ some (xs, free last q')
  unfolding drop_queue
  from_loop q q' xs n head block last en eh eb ran =
      bind_some
        (drop_loop ((clear_mark q.tail.index - clear_mark q.head.index) / 2)
          (clear_mark q.head.index) q.head.block q)
        (λ r. some (r.0, free r.1 r.2)) (xs, last, q') _
        ((λ i. drop_loop (en i) (eh i) (eb i) q) ∙ ran) refl

  -- The drop of a queue that nobody else uses never faults: it drops exactly the messages that were
  -- not received, each once and in their order, and frees every block.
  pub drop_queue-Stands :
      (q : Unbounded T) (xs : List T) (c : Bool) (n : ℕ)
      → Stands q xs c n
      → (q' : Unbounded T) × (drop_queue q ≡ some (xs, q')) × ((b : ℕ) → q'.blocks b ≡ none)
  unfolding Drops free drop_loop
  drop_queue-Stands q xs c n (virgin e nil s) =
      let rounds : (clear_mark q.tail.index - clear_mark q.head.index) / 2 ≡ 0 =
        ground (arith, e.tail_index, e.head_index) in
      (
        q,
        from_loop q q [] 0 _ none none rounds refl e.head_block refl
            ∙ ap (λ ys. some (ys, q)) (sym nil),
        e.empty,
      )
  drop_queue-Stands q xs c n (allocated h t mark a s) =
      let le : h ≤ t = subst (λ k. h ≤ k) a.rep.reach (index_after-le h xs) in
      let (m, ran, w) =
        drop_loop-Drops xs h t (t - h) q a.rep.head_on (omega arith) a.rep.reach a.rep.stored
          a.rep.link (omega arith) in
      let rounds : (clear_mark q.tail.index - clear_mark q.head.index) / 2 ≡ t - h =
        ground (arith, a.tail_index, a.head_index) in
      let head : clear_mark q.head.index ≡ 2 * h = ground (arith, a.head_index) in
      (
        record q { blocks = update m (t / 32) none },
        from_loop q (record q { blocks = m }) xs (t - h) (2 * h) (some (h / 32)) (some (t / 32))
            rounds head a.head_block ran,
        λ b. nothing b m h t le w a.rep.freed a.rep.above,
      )
    where
      nothing :
          (b : ℕ) (m : ℕ → Option (Block T)) (h t : ℕ)
          → h ≤ t
          → Swept (h / 32) (t / 32) q.blocks m
          → ((k : ℕ) → k < h / 32 → q.blocks k ≡ none)
          → ((k : ℕ) → t / 32 < k → q.blocks k ≡ none)
          → update m (t / 32) none b ≡ none
      nothing b m h t le w freed above =
          let f = free-Freed (t / 32) m in
          elim (Bool-cases (b == t / 32)) [
            | inl e ↦ rw ((==_iff b (t / 32)).0 e) f.here
            | inr e ↦ f.gone b (elim (Bool-cases (ltb b (t / 32))) [
              | inr o ↦ w.gone b (above b (ground arith))
              | inl o ↦ elim (Bool-cases (ltb b (h / 32))) [
                | inl k ↦ w.gone b (freed b (ground arith))
                | inr k ↦ w.swept b (ground arith) (ground arith)
              ]
            ])
          ]
