-- ===== src/Unbounded/Ops.antt =====
-- actix-async/src/util/async_channel/unbounded.rs: the queue as a list of messages, behind the
-- interface that the channel uses.
use actix_async.Prelude.{
  ℕ, suc, ◌+◌, ◌-◌, ◌*◌, ◌%◌, ◌^◌, ◌<◌, ◌≡◌, refl, ◌∙◌, ap, Bool, true, false, not, ◌==◌, lt→ltb,
  ==_iff, if◌then◌else◌, Bool-cases, none, some, List, [], ◌∷◌, ◌++◌, ok, err, inl, inr, arith,
}
use actix_async.Channel.Queue.{QueueOps, TryRecvError}
use actix_async.Unbounded.{Unbounded, new, free, close, is_closed, usize_mod}
use actix_async.Unbounded.Shape.{next_index, index_after, Allocated, Virgin}
use actix_async.Unbounded.Push.{push_loop, push}
use actix_async.Unbounded.Pushes.{push-inner}
use actix_async.Unbounded.Grow.{push-last}
use actix_async.Unbounded.First.{push-first}
use actix_async.Unbounded.Pop.{pop_loop, pop}
use actix_async.Unbounded.Heads.{pop_empty}
use actix_async.Unbounded.Taken.{pop-Allocated}

-- The queue holds the messages `xs`, oldest first, is closed iff `c`, and its indices do not
-- overflow before `n` more messages.
pub data Stands {ℓ} {T : Type ℓ} (q : Unbounded T) (xs : List T) (c : Bool) (n : ℕ) : Type ℓ where
  virgin : Virgin q c → xs ≡ [] → 4 * n + 2 < usize_mod → Stands q xs c n
  allocated :
      (h t : ℕ) (mark : Bool)
      → Allocated q h t xs c mark
      → 2 * t + 4 * n + 2 < usize_mod
      → Stands q xs c n

abbrev pub space : ℕ
space = 2 ^ 62 - 1

module _ {ℓ} {T : Type ℓ} where
  pub new-Stands : Stands {T = T} new [] false space
  new-Stands =
      virgin
        (record {
          tail_index = refl;
          head_index = refl;
          tail_block = refl;
          head_block = refl;
          fresh = refl;
          empty = λ b. refl;
        })
        refl (omega arith)

  pub Stands-spend :
      (q : Unbounded T) (xs : List T) (c : Bool) (n : ℕ) → Stands q xs c (suc n) → Stands q xs c n
  Stands-spend q xs c n (virgin v e s) = virgin v e (omega arith)
  Stands-spend q xs c n (allocated h t m a s) = allocated h t m a (omega arith)

  -- `push` on an open queue succeeds and appends its message to the list, whether it writes into the
  -- current block, installs the first one, or fills a block and links the next; with space for one
  -- more message no index overflows.
  pub push-open :
      (v : T) (q : Unbounded T) (xs : List T) (n : ℕ)
      → Stands q xs false (suc n)
      → (q' : Unbounded T) × (push v q ≡ some (ok tt, q')) × Stands q' (xs ++ v ∷ []) false n
  push-open v q xs n (virgin e nil s) =
      let (q', done, a) = push-first v q e in
      (q', done, rw nil (allocated 0 1 false a (omega arith)))
  push-open v q xs n (allocated h t mark a s) = elim (Bool-cases (t % 32 == 30)) [
    | inl o ↦
        let (q', done, b) = push-last v q h t xs mark a (omega arith) ((==_iff _ _).0 o) in
        (q', done, allocated h (t + 2) mark b (omega arith))
    | inr o ↦
        let (q', done, b) =
          push-inner v q h t xs mark a (omega arith) (ground (arith, a.rep.tail_on)) in
        (q', done, allocated h (t + 1) mark b (omega arith))
  ]

  -- `push` on a closed queue hands the message back and leaves the queue as it is.
  pub push-closed :
      (v : T) (q : Unbounded T) (xs : List T) (n : ℕ)
      → Stands q xs true n
      → push v q ≡ some (err v, q)
  unfolding push push_loop free
  push-closed v q xs n (virgin e nil s) = λ i. push_loop 3 (e.tail_index i) q.tail.block none v q
  push-closed v q xs n (allocated h t mark a s) =
      let odd : (q.tail.index % 2 == 0) ≡ false = ground (arith, a.tail_index) in
      rw (odd, push_loop) refl

  -- `pop` takes the oldest message out, of an open or a closed queue, wherever in a block it
  -- stands; the block that it was the last of is destroyed.
  pub pop-some :
      (x : T) (q : Unbounded T) (xs : List T) (c : Bool) (n : ℕ)
      → Stands q (x ∷ xs) c n
      → (q' : Unbounded T) × (pop q ≡ some (ok x, q')) × Stands q' xs c n
  pop-some x q xs c n (virgin e nil s) = absurd (ground arith)
  pop-some x q xs c n (allocated h t mark a s) =
      let (q', mark', done, b) = pop-Allocated q h t x xs c mark a (omega arith) in
      (q', done, allocated (next_index h) t mark' b (omega arith))

  -- Without a message `pop` says whether the queue is closed, and leaves it as it is.
  pub pop-none :
      (q : Unbounded T) (c : Bool) (n : ℕ)
      → Stands q [] c n
      → pop q ≡ some (err (if c then TryRecvError.closed else TryRecvError.empty), q)
  unfolding pop index_after
  pop-none q c n (virgin e nil s) =
      ap (λ x. pop_loop 3 x q.head.block q) e.head_index
      ∙ pop_empty 2 0 q.head.block q refl refl refl (ground (arith, e.tail_index))
      ∙ ap (λ x. some (err x, q)) (ground (arith, e.tail_index))
  pop-none q c n (allocated h t mark a s) =
      let even : mark ≡ false = ground (arith, a.rep.reach) in
      let head : q.head.index ≡ 2 * h = ground (arith, a.head_index) in
      ap (λ x. pop_loop 3 x q.head.block q) head
      ∙ pop_empty 2 (2 * h) q.head.block q (ground (arith, a.rep.head_on))
          (lt→ltb _ _ (omega (arith, a.rep.reach))) (ground arith)
          (ground (arith, a.tail_index, a.rep.reach))
      ∙ ap (λ x. some (err x, q)) (ground (arith, a.tail_index))

  -- `close` says whether the queue was open, and closes it; the messages stay.
  pub close-Stands :
      (q : Unbounded T) (xs : List T) (c : Bool) (n : ℕ)
      → Stands q xs c n
      → (q' : Unbounded T) × (close q ≡ (not c, q')) × Stands q' xs true n
  unfolding close
  close-Stands q xs c n (virgin e nil s) = (
    (close q).1,
    λ i. (was i, (close q).1),
    virgin
        (record {
          tail_index = ground (arith, e.tail_index);
          head_index = e.head_index;
          tail_block = e.tail_block;
          head_block = e.head_block;
          fresh = e.fresh;
          empty = e.empty;
        })
        nil s,
  )
    where
      was : (q.tail.index % 2 == 0) ≡ not c
      was = ground (arith, e.tail_index)
  close-Stands q xs c n (allocated h t mark a s) = (
    (close q).1,
    λ i. (was i, (close q).1),
    allocated h t mark
        (record {
          rep = a.rep;
          tail_index = ground (arith, a.tail_index);
          head_index = a.head_index;
          tail_block = a.tail_block;
          head_block = a.head_block;
          fresh = a.fresh;
          marked = a.marked;
        })
        s,
  )
    where
      was : (q.tail.index % 2 == 0) ≡ not c
      was = ground (arith, a.tail_index)

  pub is_closed-Stands :
      (q : Unbounded T) (xs : List T) (c : Bool) (n : ℕ) → Stands q xs c n → is_closed q ≡ c
  unfolding is_closed
  is_closed-Stands q xs c n (virgin e nil s) = ground (arith, e.tail_index)
  is_closed-Stands q xs c n (allocated h t mark a s) = ground (arith, a.tail_index)

-- The queue of the channel
abbrev pub unbounded {ℓ} : (T : Type ℓ) → QueueOps T
unbounded T = record {
  Queue = Unbounded T;
  new = new;
  push = push;
  pop = pop;
  close = close;
  is_closed = is_closed;
  Stands = Stands;
  space = space;
  new-Stands = new-Stands;
  Stands-spend = Stands-spend;
  push-open = push-open;
  push-closed = push-closed;
  pop-some = pop-some;
  pop-none = pop-none;
  close-Stands = close-Stands;
  is_closed-Stands = is_closed-Stands;
}
