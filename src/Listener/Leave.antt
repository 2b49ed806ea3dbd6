-- ===== src/Listener/Leave.antt =====
-- actix-async/src/util/async_channel/listener.rs: `List::remove` of a notified and of a waiting
-- listener.
use actix_async.Prelude.{
  ℕ, ◌≡◌, refl, sym, ap, subst, true, false, if◌then◌else◌, none, [], ◌∷◌, ◌++◌, append_assoc,
  arith,
}
use actix_async.Listener.{State, is_notified, Inner, remove, same, decrement}
use actix_async.Listener.Segments.{Items, first, NotIn, NotIn-append, Distinct, Distinct-Parted}
use actix_async.Listener.View.{AllNotified, NoneNotified, Rep}
use actix_async.Listener.Remove.{Removed, remove-Leaves, length-remove}

pub AllNotified-middle :
    (a : ℕ) (s : State) (ys zs : Items) → AllNotified (ys ++ (a, s) ∷ zs) → is_notified s ≡ true
AllNotified-middle a s [] zs h = h.0
AllNotified-middle a s (y ∷ ys) zs h = AllNotified-middle a s ys zs h.1

AllNotified-remove :
    (a : ℕ) (s : State) (ys zs : Items) → AllNotified (ys ++ (a, s) ∷ zs) → AllNotified (ys ++ zs)
AllNotified-remove a s [] zs h = h.1
AllNotified-remove a s (y ∷ ys) zs h = (h.0, AllNotified-remove a s ys zs h.1)

pub NoneNotified-middle :
    (a : ℕ) (s : State) (ys zs : Items) → NoneNotified (ys ++ (a, s) ∷ zs) → is_notified s ≡ false
NoneNotified-middle a s [] zs h = h.0
NoneNotified-middle a s (y ∷ ys) zs h = NoneNotified-middle a s ys zs h.1

NoneNotified-remove :
    (a : ℕ) (s : State) (ys zs : Items) → NoneNotified (ys ++ (a, s) ∷ zs) → NoneNotified (ys ++ zs)
NoneNotified-remove a s [] zs h = h.1
NoneNotified-remove a s (y ∷ ys) zs h = (h.0, NoneNotified-remove a s ys zs h.1)

same-first : (a : ℕ) (xs : Items) → NotIn a xs → same (first xs none) a ≡ false
same-first a [] h = refl
same-first a ((b, s) ∷ xs) h = ground arith

-- A notified listener leaves.
pub remove-done :
    (i : Inner) (a : ℕ) (s : State) (ys zs ws : Items)
    → Rep i (record { done = ys ++ (a, s) ∷ zs; waiting = ws })
    → Removed (record { done = ys ++ zs; waiting = ws }) s i (remove a i)
remove-done i a s ys zs ws h =
    remove-Leaves i (record { done = ys ++ (a, s) ∷ zs; waiting = ws }) _ a s ys (zs ++ ws) h
      (record {
        was = was;
        is = append_assoc ys zs ws;
        starts = rw (same-first a ws away) refl;
        counts = rw (AllNotified-middle a s ys zs h.told) (ap decrement (length-remove a s zs ys));
        told = AllNotified-remove a s ys zs h.told;
        untold = h.untold;
      })
  where
    was : (ys ++ (a, s) ∷ zs) ++ ws ≡ ys ++ (a, s) ∷ (zs ++ ws)
    was = append_assoc ys ((a, s) ∷ zs) ws

    away : NotIn a ws
    away =
        ((NotIn-append a zs ws).0
          (Distinct-Parted ys a s (zs ++ ws) (subst Distinct was h.distinct)).not_after).1

waiting_starts :
    (a : ℕ) (s : State) (ys zs : Items)
    → NotIn a ys
    → (if same (first (ys ++ (a, s) ∷ zs) none) a
        then first zs none
        else first (ys ++ (a, s) ∷ zs) none)
      ≡ first (ys ++ zs) none
waiting_starts a s [] zs h = ground arith
waiting_starts a s ((b, t) ∷ ys) zs h = ground arith

-- A listener that waits leaves.
pub remove-waiting :
    (i : Inner) (a : ℕ) (s : State) (ds ys zs : Items)
    → Rep i (record { done = ds; waiting = ys ++ (a, s) ∷ zs })
    → Removed (record { done = ds; waiting = ys ++ zs }) s i (remove a i)
remove-waiting i a s ds ys zs h =
    remove-Leaves i (record { done = ds; waiting = ys ++ (a, s) ∷ zs }) _ a s (ds ++ ys) zs h
      (record {
        was = was;
        is = sym (append_assoc ds ys zs);
        starts = waiting_starts a s ys zs away;
        counts = rw (NoneNotified-middle a s ys zs h.untold) refl;
        told = h.told;
        untold = NoneNotified-remove a s ys zs h.untold;
      })
  where
    was : ds ++ (ys ++ (a, s) ∷ zs) ≡ (ds ++ ys) ++ (a, s) ∷ zs
    was = sym (append_assoc ds ys ((a, s) ∷ zs))

    away : NotIn a ys
    away =
        ((NotIn-append a ds ys).0
          (Distinct-Parted (ds ++ ys) a s zs (subst Distinct was h.distinct)).not_before).1
