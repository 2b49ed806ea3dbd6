-- ===== src/Cache.antt =====
-- actix-async/src/context_future.rs: `poll_stream` and `poll_future`, which poll the streams and the
-- delayed messages that a context keeps until one has a message. What a poll of one of them does
-- is a parameter; Message has the ones of the crate.
pub mod Places
pub mod Scan
mod Tests
use actix_async.Prelude.{
  ℕ, zero, suc, Option, none, some, List, [], ◌∷◌, length, Poll, ready, pending,
}

module _ {ℓ} {A : Type ℓ} where
  -- indexing, an assignment through it, and `Vec::swap_remove`; the index is in range
  abbrev pub at_index : ℕ → List A → Option A
  at_index i [] = none
  at_index zero (x ∷ xs) = some x
  at_index (suc i) (x ∷ xs) = at_index i xs

  abbrev pub put : ℕ → A → List A → List A
  put i y [] = []
  put zero y (x ∷ xs) = y ∷ xs
  put (suc i) y (x ∷ xs) = x ∷ put i y xs

  abbrev pub pop_last : A → List A → List A × A
  pop_last x [] = ([], x)
  pop_last x (y ∷ ys) = (x ∷ (pop_last y ys).0, (pop_last y ys).1)

  -- the last element goes to the place that the removed one leaves at the front
  abbrev pub fill_front : List A → List A
  fill_front [] = []
  fill_front (y ∷ ys) = (pop_last y ys).1 ∷ (pop_last y ys).0

  abbrev pub swap_remove : ℕ → List A → List A
  swap_remove i [] = []
  swap_remove zero (x ∷ xs) = fill_front xs
  swap_remove (suc i) (x ∷ xs) = x ∷ swap_remove i xs

module _ {ℓ κ} {F : Type ℓ} {M : Type κ} (poll : F → Poll (Option M) × F) where
  -- The loop that both functions are, on fuel, from the index `i` on. They differ in what becomes of
  -- the one that has a message.
  unfoldable pub scan : (ℕ → List F → List F) → ℕ → ℕ → List F → Option (Poll M × List F)
  scan on_message zero i xs = none
  scan on_message (suc n) i xs = elim (at_index i xs) [
    | none ↦ some (pending, xs)
    | some f ↦ elim (poll f).0 [
      | ready (some m) ↦ some (ready m, on_message i (put i (poll f).1 xs))
      | ready none ↦ scan on_message n i (swap_remove i xs)
      | pending ↦ scan on_message n (suc i) (put i (poll f).1 xs)
    ]
  ]

  -- `poll_stream`: a stream with a message stays.
  unfoldable pub poll_stream : List F → Option (Poll M × List F)
  poll_stream xs = scan (λ i ys. ys) (suc (length xs)) 0 xs

  -- `poll_future`: a future with a message, or without one, is done.
  unfoldable pub poll_future : List F → Option (Poll M × List F)
  poll_future xs = scan swap_remove (suc (length xs)) 0 xs
