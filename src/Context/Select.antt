-- ===== src/Context/Select.antt =====
-- actix-async/src/context_future.rs: `ConditionSelect4`, which polls the futures that are there, in
-- order, until one is ready. A future works on a shared state; `none` is a fault.
use actix_async.Prelude.{Option, none, some, Poll, ready, pending, ◌>>=◌}

-- `ConditionSelect4Output`
pub data ConditionSelect4Output {ℓ κ} (A : Type ℓ) (B : Type κ) (C D : Type ℓ) : Type (ℓ ⊔ κ) where
  out_a : A → ConditionSelect4Output A B C D
  out_b : B → ConditionSelect4Output A B C D
  out_c : C → ConditionSelect4Output A B C D
  out_d : D → ConditionSelect4Output A B C D

-- a future on the state `R`
abbrev pub Future {ℓ κ} : Type ℓ → Type κ → Type (ℓ ⊔ κ)
Future R A = R → Option (Poll A × R)

-- one arm of the poll, and the arms behind it
unfoldable pub poll_arm {ℓ κ μ} :
    {R : Type ℓ} {A : Type κ} {O : Type μ} → Option (Future R A) → (A → O) → Future R O → Future R O
poll_arm none output rest r = rest r
poll_arm (some fut) output rest r = do
  (p, r') ← fut r
  elim p [ ready x ↦ some (ready (output x), r') | pending ↦ rest r' ]

-- `ConditionSelect4::poll`
unfoldable pub select {ℓ κ} :
    {R A : Type ℓ} {B : Type κ} {C D : Type ℓ}
    → Option (Future R A)
    → Option (Future R B)
    → Option (Future R C)
    → Option (Future R D)
    → Future R (ConditionSelect4Output A B C D)
select fut1 fut2 fut3 fut4 =
    poll_arm fut1 out_a
      (poll_arm fut2 out_b (poll_arm fut3 out_c (poll_arm fut4 out_d (λ r. some (pending, r)))))
