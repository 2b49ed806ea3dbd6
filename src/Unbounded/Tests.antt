-- ===== src/Unbounded/Tests.antt =====
-- The theorems about the queue at concrete queues, and runs across the end of a block.
use actix_async.Prelude.{
  ◌>>=◌, ℕ, zero, suc, ◌-◌, ◌≡◌, refl, Option, none, some, false, List, [], ◌∷◌, ok, err,
}
use actix_async.Unbounded.{Unbounded, new, free, get_slot, set_slot, get_next, set_next, alloc}
use actix_async.Unbounded.Push.{push, push_loop, push_block, push_advance, install, fill, prepare}
use actix_async.Unbounded.Pop.{
  pop, pop_loop, pop_advance, next_head, take_value, destroy, destroy_loop,
}
use actix_async.Unbounded.Drop.{drop_queue}
use actix_async.Unbounded.Ops.{Stands, space, new-Stands, push-open, pop-some}
use actix_async.Unbounded.Dropped.{drop_queue-Stands}

abbrev left : ℕ
left = space - 1

pushed : (q : Unbounded ℕ) × (push 7 new ≡ some (ok tt, q)) × Stands q (7 ∷ []) false left
pushed = push-open 7 new [] left new-Stands

push-open_example :
    (q : Unbounded ℕ) × (push 8 pushed.0 ≡ some (ok tt, q)) × Stands q (7 ∷ 8 ∷ []) false (left - 1)
push-open_example = push-open 8 pushed.0 (7 ∷ []) (left - 1) pushed.2

pop-some_example : (q : Unbounded ℕ) × (pop pushed.0 ≡ some (ok 7, q)) × Stands q [] false left
pop-some_example = pop-some 7 pushed.0 [] false left pushed.2

drop_queue-Stands_example :
    (q : Unbounded ℕ) × (drop_queue pushed.0 ≡ some (7 ∷ [], q)) × ((b : ℕ) → q.blocks b ≡ none)
drop_queue-Stands_example = drop_queue-Stands pushed.0 (7 ∷ []) false left pushed.2

-- pushes of n, n - 1, …, 1, and pops
push_down : ℕ → Unbounded ℕ → Option (Unbounded ℕ)
push_down zero q = some q
push_down (suc n) q = do (r, q1) ← push (suc n) q; push_down n q1

pop_down : ℕ → Unbounded ℕ → Option (List ℕ)
pop_down zero q = some []
pop_down (suc n) q = do
  (r, q1) ← pop q
  rest ← pop_down n q1
  elim r [ ok v ↦ some (v ∷ rest) | err e ↦ some rest ]

count_down : ℕ → List ℕ
count_down zero = []
count_down (suc n) = suc n ∷ count_down n

runs_across_blocks : (push_down 70 new >>= pop_down 70) ≡ some (count_down 70)
unfolding push_down pop_down count_down push push_loop push_block push_advance install fill prepare
    pop pop_loop pop_advance next_head take_value destroy destroy_loop free get_slot set_slot
    get_next set_next alloc
runs_across_blocks = refl
