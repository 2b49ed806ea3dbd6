-- ===== src/Cache/Places.antt =====
-- actix-async/src/context_future.rs: the caches as lists, split at the place that is polled.
use actix_async.Prelude.{suc, ◌≡◌, refl, ap, subst, Option, none, some, List, [], ◌∷◌, ◌++◌, length}
use mathlib.Core.List.{
  Perm, filter_map, filter_map-cons-none, filter_map-cons-some, perm_append_singleton,
}
use mathlib.Core.List.Perm
use actix_async.Cache.{at_index, put, pop_last, fill_front, swap_remove}

module _ {ℓ} {A : Type ℓ} where
  pub at_index-length :
      (done rest : List A) (x : A) → at_index (length done) (done ++ x ∷ rest) ≡ some x
  at_index-length [] rest x = refl
  at_index-length (d ∷ done) rest x = at_index-length done rest x

  pub at_index-end : (done : List A) → at_index (length done) (done ++ []) ≡ none
  at_index-end [] = refl
  at_index-end (d ∷ done) = at_index-end done

  pub put-length :
      (done rest : List A) (x y : A) → put (length done) y (done ++ x ∷ rest) ≡ done ++ y ∷ rest
  put-length [] rest x y = refl
  put-length (d ∷ done) rest x y = ap (λ l. d ∷ l) (put-length done rest x y)

  pub swap_remove-length :
      (done rest : List A) (x : A)
      → swap_remove (length done) (done ++ x ∷ rest) ≡ done ++ fill_front rest
  swap_remove-length [] rest x = refl
  swap_remove-length (d ∷ done) rest x = ap (λ l. d ∷ l) (swap_remove-length done rest x)

  pop_last-shape : (x : A) (xs : List A) → (pop_last x xs).0 ++ (pop_last x xs).1 ∷ [] ≡ x ∷ xs
  pop_last-shape x [] = refl
  pop_last-shape x (y ∷ ys) = ap (λ l. x ∷ l) (pop_last-shape y ys)

  pub length-fill_front : (xs : List A) → length (fill_front xs) ≡ length xs
  length-fill_front [] = refl
  length-fill_front (x ∷ []) = refl
  length-fill_front (x ∷ y ∷ ys) = ap suc (length-fill_front (y ∷ ys))

  pub fill_front-Perm : (xs : List A) → Perm (fill_front xs) xs
  fill_front-Perm [] = Perm.refl []
  fill_front-Perm (x ∷ xs) =
      subst (Perm ((pop_last x xs).1 ∷ (pop_last x xs).0)) (pop_last-shape x xs)
        (Perm.symm (perm_append_singleton (pop_last x xs).1 (pop_last x xs).0))

pub longer {ℓ} : {A : Type ℓ} (done : List A) (x : A) → suc (length done) ≡ length (done ++ x ∷ [])
longer [] x = refl
longer (d ∷ done) x = ap suc (longer done x)

abbrev pub at_front {ℓ} : {A : Type ℓ} → Option A → List A → List A
at_front none xs = xs
at_front (some x) xs = x ∷ xs

pub kept {ℓ κ} :
    {A : Type ℓ} {B : Type κ} (o : Option B) (g : A → Option B) (x : A) (xs : List A)
    → g x ≡ o
    → filter_map g (x ∷ xs) ≡ at_front o (filter_map g xs)
kept none g x xs e = filter_map-cons-none g x xs e
kept (some b) g x xs e = filter_map-cons-some g x xs e
