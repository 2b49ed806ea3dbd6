-- ===== src/Channel/Queue.antt =====
-- actix-async/src/util/async_channel/mod.rs: what the channel relies on in its message queue
-- (actix-async/src/util/async_channel/unbounded.rs), as operations behind their laws.
use actix_async.Prelude.{
  ℕ, suc, ◌≡◌, Bool, true, false, not, if◌then◌else◌, Option, some, List, [], ◌∷◌, ◌++◌, Result, ok,
  err,
}

pub data TryRecvError : Type 0 where
  empty closed : TryRecvError

-- `Stands q xs c n`: the queue holds the messages `xs`, oldest first, is closed iff `c`, and has
-- index space for `n` more messages.
pub record QueueOps {ℓ} (T : Type ℓ) : Type (ℓ + 1) where
  pub Queue : Type ℓ
  pub new : Queue
  pub push : T → Queue → Option (Result (Unit {0}) T × Queue)
  pub pop : Queue → Option (Result T TryRecvError × Queue)
  pub close : Queue → Bool × Queue
  pub is_closed : Queue → Bool
  pub Stands : Queue → List T → Bool → ℕ → Type ℓ
  pub space : ℕ
  pub new-Stands : Stands new [] false space
  pub Stands-spend :
      (q : Queue) (xs : List T) (c : Bool) (n : ℕ) → Stands q xs c (suc n) → Stands q xs c n
  pub push-open :
      (v : T) (q : Queue) (xs : List T) (n : ℕ)
      → Stands q xs false (suc n)
      → (q' : Queue) × (push v q ≡ some (ok tt, q')) × Stands q' (xs ++ v ∷ []) false n
  pub push-closed :
      (v : T) (q : Queue) (xs : List T) (n : ℕ) → Stands q xs true n → push v q ≡ some (err v, q)
  pub pop-some :
      (x : T) (q : Queue) (xs : List T) (c : Bool) (n : ℕ)
      → Stands q (x ∷ xs) c n
      → (q' : Queue) × (pop q ≡ some (ok x, q')) × Stands q' xs c n
  pub pop-none :
      (q : Queue) (c : Bool) (n : ℕ)
      → Stands q [] c n
      → pop q ≡ some (err (if c then closed else empty), q)
  pub close-Stands :
      (q : Queue) (xs : List T) (c : Bool) (n : ℕ)
      → Stands q xs c n
      → (q' : Queue) × (close q ≡ (not c, q')) × Stands q' xs true n
  pub is_closed-Stands :
      (q : Queue) (xs : List T) (c : Bool) (n : ℕ) → Stands q xs c n → is_closed q ≡ c
