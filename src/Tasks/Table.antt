-- ===== src/Tasks/Table.antt =====
-- actix-async/src/context_future.rs: a table that meets the laws that `TaskRef` relies on, a list of
-- places that are vacant or hold an entry.
use actix_async.Prelude.{ℕ, zero, suc, ◌≡◌, ◌≢◌, refl, ap, Option, none, some, List, [], ◌∷◌, arith}
use actix_async.Tasks.Slab.{SlabOps}

module _ {ℓ} {X : Type ℓ} where
  abbrev pub get : ℕ → List (Option X) → Option X
  get k [] = none
  get zero (o ∷ os) = o
  get (suc k) (o ∷ os) = get k os

  abbrev pub size : List (Option X) → ℕ
  size [] = 0
  size (none ∷ os) = size os
  size (some x ∷ os) = suc (size os)

  abbrev pub insert : X → List (Option X) → ℕ × List (Option X)
  insert x [] = (0, some x ∷ [])
  insert x (none ∷ os) = (0, some x ∷ os)
  insert x (some y ∷ os) = (suc (insert x os).0, some y ∷ (insert x os).1)

  abbrev pub write : ℕ → Option X → List (Option X) → List (Option X)
  write k v [] = []
  write zero v (o ∷ os) = v ∷ os
  write (suc k) v (o ∷ os) = o ∷ write k v os

  -- a place that is not vacant is overwritten
  abbrev pub set : ℕ → X → List (Option X) → List (Option X)
  set k x [] = []
  set zero x (none ∷ os) = none ∷ os
  set zero x (some y ∷ os) = some x ∷ os
  set (suc k) x (o ∷ os) = o ∷ set k x os

  pub size-insert : (x : X) (s : List (Option X)) → size (insert x s).1 ≡ suc (size s)
  size-insert x [] = refl
  size-insert x (none ∷ os) = refl
  size-insert x (some y ∷ os) = ground (arith, size-insert x os)

  pub insert-vacant : (x : X) (s : List (Option X)) → get (insert x s).0 s ≡ none
  insert-vacant x [] = refl
  insert-vacant x (none ∷ os) = refl
  insert-vacant x (some y ∷ os) = insert-vacant x os

  pub get-insert : (x : X) (s : List (Option X)) → get (insert x s).0 (insert x s).1 ≡ some x
  get-insert x [] = refl
  get-insert x (none ∷ os) = refl
  get-insert x (some y ∷ os) = get-insert x os

  pub get-insert_other :
      (x : X) (s : List (Option X)) (k : ℕ) → k ≢ (insert x s).0 → get k (insert x s).1 ≡ get k s
  get-insert_other x [] zero ne = absurd (ne refl)
  get-insert_other x [] (suc k) ne = refl
  get-insert_other x (none ∷ os) zero ne = absurd (ne refl)
  get-insert_other x (none ∷ os) (suc k) ne = refl
  get-insert_other x (some y ∷ os) zero ne = refl
  get-insert_other x (some y ∷ os) (suc k) ne = get-insert_other x os k (λ e. ne (ap suc e))

  pub size-set : (k : ℕ) (x : X) (s : List (Option X)) → size (set k x s) ≡ size s
  size-set k x [] = refl
  size-set zero x (none ∷ os) = refl
  size-set zero x (some y ∷ os) = refl
  size-set (suc k) x (none ∷ os) = size-set k x os
  size-set (suc k) x (some y ∷ os) = ap suc (size-set k x os)

  pub get-set :
      (k : ℕ) (x y : X) (s : List (Option X)) → get k s ≡ some y → get k (set k x s) ≡ some x
  get-set k x y [] e = absurd (ground arith)
  get-set zero x y (none ∷ os) e = absurd (ground arith)
  get-set zero x y (some z ∷ os) e = refl
  get-set (suc k) x y (o ∷ os) e = get-set k x y os e

  pub get-set_other : (j k : ℕ) (x : X) (s : List (Option X)) → j ≢ k → get j (set k x s) ≡ get j s
  get-set_other j k x [] ne = refl
  get-set_other zero zero x (o ∷ os) ne = absurd (ne refl)
  get-set_other (suc j) zero x (none ∷ os) ne = refl
  get-set_other (suc j) zero x (some y ∷ os) ne = refl
  get-set_other zero (suc k) x (o ∷ os) ne = refl
  get-set_other (suc j) (suc k) x (o ∷ os) ne = get-set_other j k x os (λ e. ne (ap suc e))

  pub size-remove :
      (k : ℕ) (y : X) (s : List (Option X))
      → get k s ≡ some y
      → suc (size (write k none s)) ≡ size s
  size-remove k y [] e = absurd (ground arith)
  size-remove zero y (none ∷ os) e = absurd (ground arith)
  size-remove zero y (some z ∷ os) e = refl
  size-remove (suc k) y (none ∷ os) e = size-remove k y os e
  size-remove (suc k) y (some z ∷ os) e = ap suc (size-remove k y os e)

  pub get-remove : (k : ℕ) (s : List (Option X)) → get k (write k none s) ≡ none
  get-remove k [] = refl
  get-remove zero (o ∷ os) = refl
  get-remove (suc k) (o ∷ os) = get-remove k os

  pub get-remove_other : (j k : ℕ) (s : List (Option X)) → j ≢ k → get j (write k none s) ≡ get j s
  get-remove_other j k [] ne = refl
  get-remove_other zero zero (o ∷ os) ne = absurd (ne refl)
  get-remove_other (suc j) zero (o ∷ os) ne = refl
  get-remove_other zero (suc k) (o ∷ os) ne = refl
  get-remove_other (suc j) (suc k) (o ∷ os) ne = get-remove_other j k os (λ e. ne (ap suc e))

  abbrev pub table : SlabOps X
  table = record {
    Slab = List (Option X);
    new = [];
    len = size;
    get = get;
    insert = insert;
    set = set;
    remove = λ k s. write k none s;
    len-new = refl;
    len-insert = size-insert;
    insert-vacant = insert-vacant;
    get-insert = get-insert;
    get-insert_other = get-insert_other;
    len-set = size-set;
    get-set = get-set;
    get-set_other = get-set_other;
    len-remove = size-remove;
    get-remove = get-remove;
    get-remove_other = get-remove_other;
  }
