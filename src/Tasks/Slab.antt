-- ===== src/Tasks/Slab.antt =====
-- actix-async/src/context_future.rs: what `TaskRef` relies on in the crate slab, a table whose
-- `insert` chooses a vacant key. A change through `get_mut` is `set`.
use actix_async.Prelude.{ℕ, suc, ◌≡◌, ◌≢◌, Option, none, some}

pub record SlabOps {ℓ} (X : Type ℓ) : Type (ℓ + 1) where
  pub Slab : Type ℓ
  pub new : Slab
  pub len : Slab → ℕ
  pub get : ℕ → Slab → Option X
  pub insert : X → Slab → ℕ × Slab
  pub set : ℕ → X → Slab → Slab
  pub remove : ℕ → Slab → Slab
  pub len-new : len new ≡ 0
  pub len-insert : (x : X) (s : Slab) → len (insert x s).1 ≡ suc (len s)
  pub insert-vacant : (x : X) (s : Slab) → get (insert x s).0 s ≡ none
  pub get-insert : (x : X) (s : Slab) → get (insert x s).0 (insert x s).1 ≡ some x
  pub get-insert_other :
      (x : X) (s : Slab) (k : ℕ) → k ≢ (insert x s).0 → get k (insert x s).1 ≡ get k s
  pub len-set : (k : ℕ) (x : X) (s : Slab) → len (set k x s) ≡ len s
  pub get-set : (k : ℕ) (x y : X) (s : Slab) → get k s ≡ some y → get k (set k x s) ≡ some x
  pub get-set_other : (j k : ℕ) (x : X) (s : Slab) → j ≢ k → get j (set k x s) ≡ get j s
  pub len-remove : (k : ℕ) (y : X) (s : Slab) → get k s ≡ some y → suc (len (remove k s)) ≡ len s
  pub get-remove : (k : ℕ) (s : Slab) → get k (remove k s) ≡ none
  pub get-remove_other : (j k : ℕ) (s : Slab) → j ≢ k → get j (remove k s) ≡ get j s
