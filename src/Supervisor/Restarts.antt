-- ===== src/Supervisor/Restarts.antt =====
-- actix-async/src/supervisor/mod.rs, actix-async/src/actor.rs: when a supervised actor is restarted.
use actix_async.Prelude.{
  ℕ, suc, ◌+◌, ◌≡◌, refl, ap, ◌∙◌, Bool-cases, inl, inr, Bool, true, false, not, ◌&&◌,
  if◌then◌else◌, Option, none, some, List, [], ◌∷◌, ◌++◌, length, arith,
}
use actix_async.Supervisor.{Supervised, supervised, round, rounds}

module _ {ℓ} {E : Type ℓ} (is_panic : E → Bool) where
  -- A task that ended with a panic
  abbrev pub panicked : Option E → Bool
  panicked none = false
  panicked (some e) = is_panic e

  -- What happens in a round after which the actor is started again
  abbrev pub Again : List (Option E × Bool) → Type 0
  Again [] = Unit
  Again (x ∷ xs) = (panicked x.0 ≡ true) × (x.1 ≡ false) × Again xs

  round-panicked :
      (o : Option E) (is_closed : Bool) (s : Supervised)
      → round (supervised is_panic) (o, is_closed) s ≡ (
          if panicked o && not is_closed
          then record { launched = suc s.launched; over = false }
          else record s { over = true })
  unfolding round supervised
  round-panicked none is_closed s = refl
  round-panicked (some e) is_closed s = elim (Bool-cases (is_panic e)) [
    | inl p ↦ rw (p, round) refl
    | inr p ↦ rw (p, round) refl
  ]

  abbrev at : ℕ → Bool → Supervised
  at n over = record { launched = n; over = over }

  last-round :
      (after : List (Option E × Bool)) (x : Option E × Bool) (n : ℕ)
      → (panicked x.0 && not x.1) ≡ false
      → rounds (supervised is_panic) (x ∷ after) (at n false) ≡ at n true
  unfolding rounds
  last-round after x n e = rw (round-panicked x.0 x.1 (at n false), e) refl

  next-round :
      (after : List (Option E × Bool)) (x : Option E × Bool) (n : ℕ)
      → (panicked x.0 && not x.1) ≡ true
      → rounds (supervised is_panic) (x ∷ after) (at n false)
        ≡ rounds (supervised is_panic) after (at (suc n) false)
  unfolding rounds
  next-round after x n e = rw (round-panicked x.0 x.1 (at n false), e) refl

  -- An actor with the default `supervised` is started once, and again after each panic for as long as
  -- its channel is open. The first task that ends without a panic, or ends while the channel is
  -- closed, ends the loop, whatever would have come after it.
  pub rounds-panicked :
      (before after : List (Option E × Bool)) (x : Option E × Bool) (n : ℕ)
      → Again before
      → (panicked x.0 && not x.1) ≡ false
      → rounds (supervised is_panic) (before ++ x ∷ after) (record { launched = n; over = false })
        ≡ record { launched = length before + n; over = true }
  rounds-panicked [] after x n h e =
      last-round after x n e ∙ ap (λ m. at m true) (let z : n ≡ 0 + n = omega arith in z)
  rounds-panicked (y ∷ before) after x n h e =
      next-round (before ++ x ∷ after) y n (ground arith)
      ∙ rounds-panicked before after x (suc n) h.2 e
      ∙ ap (λ m. at m true)
          (let z : length before + suc n ≡ length (y ∷ before) + n = omega arith in z)
