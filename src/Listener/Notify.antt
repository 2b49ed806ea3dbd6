-- ===== src/Listener/Notify.antt =====
-- actix-async/src/util/async_channel/listener.rs: a change of state in place, and the loops of
-- `List::notify` and `List::notify_additional`.
use actix_async.Prelude.{
  ◌>>=◌, bind_some, ℕ, zero, suc, ◌+◌, ◌≡◌, refl, sym, ap, ap, subst, ◌∙◌, Bool, true, false,
  Option, none, some, List, [], ◌∷◌, ◌++◌, append_assoc, append-nil, length, length-append, take,
  drop, arith,
}
use actix_async.Listener.{State, notified, Entry, Inner, wake, update, notify_entry, notify_loop}
use actix_async.Listener.Segments.{
  Items, first, last, NotIn, Distinct, Segment, Segment-append, Segment-split, Segment-update,
  Distinct-Parted,
}
use actix_async.Listener.View.{View, items, Below, CacheFree, AllNotified, NoneNotified, Rep}

-- What does not depend on the state of an entry.
module _ (a : ℕ) (s t : State) (zs : Items) where
  pub first-restate : (xs : Items) → first (xs ++ (a, s) ∷ zs) none ≡ first (xs ++ (a, t) ∷ zs) none
  first-restate [] = refl
  first-restate (x ∷ xs) = refl

  last-restate :
      (p : Option ℕ) (xs : Items) → last p (xs ++ (a, s) ∷ zs) ≡ last p (xs ++ (a, t) ∷ zs)
  last-restate p [] = refl
  last-restate p ((b, r) ∷ xs) = last-restate (some b) xs

  pub length-restate : (xs : Items) → length (xs ++ (a, s) ∷ zs) ≡ length (xs ++ (a, t) ∷ zs)
  length-restate [] = refl
  length-restate (x ∷ xs) = ap suc (length-restate xs)

  NotIn-restate : (b : ℕ) (xs : Items) → NotIn b (xs ++ (a, s) ∷ zs) → NotIn b (xs ++ (a, t) ∷ zs)
  NotIn-restate b [] h = h
  NotIn-restate b (x ∷ xs) h = (h.0, NotIn-restate b xs h.1)

  Distinct-restate : (xs : Items) → Distinct (xs ++ (a, s) ∷ zs) → Distinct (xs ++ (a, t) ∷ zs)
  Distinct-restate [] h = h
  Distinct-restate ((b, r) ∷ xs) h = (NotIn-restate b xs h.0, Distinct-restate xs h.1)

  Below-restate : (n : ℕ) (xs : Items) → Below n (xs ++ (a, s) ∷ zs) → Below n (xs ++ (a, t) ∷ zs)
  Below-restate n [] h = h
  Below-restate n (x ∷ xs) h = (h.0, Below-restate n xs h.1)

  CacheFree-restate :
      (used : Bool) (xs : Items)
      → CacheFree used (xs ++ (a, s) ∷ zs)
      → CacheFree used (xs ++ (a, t) ∷ zs)
  CacheFree-restate true xs h = tt
  CacheFree-restate false xs h = NotIn-restate 0 xs h

-- The entry `a`, with the state `t` written into it.
abbrev pub restated : Inner → ℕ → State → Items → Items → View → List ℕ → Inner
restated i a t xs zs w log = record i {
  cells = update i.cells a (some (record { state = t; prev = last none xs; next = first zs none }));
  list = record i.list { start = first w.waiting none; notified = length w.done };
  woken = log;
}

-- The queue `v` becomes `w` by a change of the state of one entry from `s` to `t`.
pub record Changes (v w : View) (a : ℕ) (s t : State) (xs zs : Items) : Type 0 where
  pub was : items v ≡ xs ++ (a, s) ∷ zs
  pub is : items w ≡ xs ++ (a, t) ∷ zs
  pub told : AllNotified w.done
  pub untold : NoneNotified w.waiting

module _ (i : Inner) (v w : View) (a : ℕ) (s t : State) (xs zs : Items) (h : Rep i v)
    (c : Changes v w a s t xs zs) where
  pub cell_of : i.cells a ≡ some (record { state = s; prev = last none xs; next = first zs none })
  cell_of = (Segment-split i.cells none xs ((a, s) ∷ zs) none (rw c.was at h.segment)).1.0

  restated-Segment :
      (e : Option Entry)
      → e ≡ some (record { state = t; prev = last none xs; next = first zs none })
      → Segment (update i.cells a e) none (items w) none
  restated-Segment e q =
      let part = Distinct-Parted xs a s zs (rw c.was at h.distinct) in
      let (before, after) =
        Segment-split i.cells none xs ((a, s) ∷ zs) none (rw c.was at h.segment) in
      rw c.is (
        Segment-append (update i.cells a e) none xs ((a, t) ∷ zs) none
          (Segment-update i.cells a e none xs (some a) part.not_before before)
          (ground arith, Segment-update i.cells a e (some a) zs none part.not_after after.1))

  pub restated-Rep : (log : List ℕ) → Rep (restated i a t xs zs w log) w
  restated-Rep log = record {
    segment = restated-Segment _ refl;
    distinct = rw c.is (Distinct-restate a s t zs xs (subst Distinct c.was h.distinct));
    head =
        h.head
        ∙ ap (λ x. first x none) c.was
        ∙ first-restate a s t zs xs
        ∙ ap (λ x. first x none) (sym c.is);
    tail =
        h.tail ∙ ap (last none) c.was ∙ last-restate a s t zs none xs ∙ ap (last none) (sym c.is);
    start = refl;
    len = h.len ∙ ap length c.was ∙ length-restate a s t zs xs ∙ ap length (sym c.is);
    count = refl;
    told = c.told;
    untold = c.untold;
    cache = rw c.is (
        CacheFree-restate a s t zs i.list.cache_used xs
          (subst (CacheFree i.list.cache_used) c.was h.cache));
    below = rw c.is (Below-restate a s t zs i.fresh xs (subst (Below i.fresh) c.was h.below));
    positive = h.positive;
  }

-- Entries that a loop has notified, and the wakers that it calls, the last one first.
abbrev pub mark : Bool → Items → Items
mark additional [] = []
mark additional ((a, s) ∷ xs) = (a, notified additional) ∷ mark additional xs

abbrev pub wakes : Items → List ℕ → List ℕ
wakes [] log = log
wakes ((a, s) ∷ xs) log = wakes xs (wake s log)

-- The `n` listeners that have waited longest are notified.
abbrev pub notify_first : Bool → ℕ → View → View
notify_first additional n v = record {
  done = v.done ++ mark additional (take n v.waiting);
  waiting = drop n v.waiting;
}

pub record Notifies (w : View) (log : List ℕ) (r : Option Inner) : Type 0 where
  pub next : Inner
  pub result : r ≡ some next
  pub woken : next.woken ≡ log
  pub rep : Rep next w

AllNotified-append_one :
    (a : ℕ) (b : Bool) (xs : Items) → AllNotified xs → AllNotified (xs ++ (a, notified b) ∷ [])
AllNotified-append_one a b [] h = (refl, tt)
AllNotified-append_one a b (x ∷ xs) h = (h.0, AllNotified-append_one a b xs h.1)

notify_entry-Notifies :
    (additional : Bool) (i : Inner) (ds : Items) (a : ℕ) (s : State) (ws : Items)
    → Rep i (record { done = ds; waiting = (a, s) ∷ ws })
    → Notifies
        (record { done = ds ++ (a, notified additional) ∷ []; waiting = ws })
        (wake s i.woken)
        (notify_entry additional a i)
unfolding notify_entry
notify_entry-Notifies additional i ds a s ws h = record {
  next = restated i a t ds ws w (wake s i.woken);
  result = bind_some (i.cells a) _ _ _ (cell_of i v w a s t ds ws h change) (λ j.
      some (record (restated i a t ds ws w (wake s i.woken)) {
        list = record i.list { start = first ws none; notified = one_more j };
      }));
  woken = refl;
  rep = restated-Rep i v w a s t ds ws h change (wake s i.woken);
}
  where
    t : State
    t = notified additional

    one_more : i.list.notified + 1 ≡ length (ds ++ (a, t) ∷ [])
    one_more = omega (arith, h.count, length-append {0} ds ((a, t) ∷ []))

    v : View
    v = record { done = ds; waiting = (a, s) ∷ ws }

    w : View
    w = record { done = ds ++ (a, t) ∷ []; waiting = ws }

    change : Changes v w a s t ds ws
    change = record {
      was = refl;
      is = append_assoc ds ((a, t) ∷ []) ws;
      told = AllNotified-append_one a additional ds h.told;
      untold = h.untold.1;
    }

-- The two ways of a round, by what stands at the start of the waiting entries.
loop_ends :
    (additional : Bool) (n : ℕ) (i : Inner)
    → i.list.start ≡ none
    → notify_loop additional (suc n) i ≡ some i
unfolding notify_loop
loop_ends additional n i e j = elim (e j) [
  | none ↦ some i
  | some a ↦ notify_entry additional a i >>= λ i'. notify_loop additional n i'
]

loop_goes_on :
    (additional : Bool) (n a : ℕ) (i : Inner)
    → i.list.start ≡ some a
    → notify_loop additional (suc n) i
      ≡ (notify_entry additional a i >>= λ i'. notify_loop additional n i')
unfolding notify_loop
loop_goes_on additional n a i e j = elim (e j) [
  | none ↦ some i
  | some a ↦ notify_entry additional a i >>= λ i'. notify_loop additional n i'
]

-- The loop never faults. It notifies the `n` listeners that have waited longest, or all if there
-- are fewer, in their order, and calls their wakers.
pub notify_loop-Notifies :
    (additional : Bool) (n : ℕ) (i : Inner) (ds ws : Items)
    → Rep i (record { done = ds; waiting = ws })
    → Notifies
        (notify_first additional n (record { done = ds; waiting = ws }))
        (wakes (take n ws) i.woken)
        (notify_loop additional n i)
unfolding notify_loop
notify_loop-Notifies additional zero i ds ws h = record {
  next = i;
  result = refl;
  woken = refl;
  rep = rw (append-nil ds) h;
}
notify_loop-Notifies additional (suc n) i ds [] h = record {
  next = i;
  result = loop_ends additional n i h.start;
  woken = refl;
  rep = rw (append-nil ds) h;
}
notify_loop-Notifies additional (suc n) i ds ((a, s) ∷ ws) h =
    let one = notify_entry-Notifies additional i ds a s ws h in
    let more =
      notify_loop-Notifies additional n one.next (ds ++ (a, notified additional) ∷ []) ws one.rep in
    record {
      next = more.next;
      result =
          loop_goes_on additional n a i h.start
          ∙ bind_some (notify_entry additional a i) _ one.next _ one.result more.result;
      woken = more.woken ∙ ap (wakes (take n ws)) one.woken;
      rep =
          subst (λ x. Rep more.next (record { done = x; waiting = drop n ws }))
            (append_assoc ds ((a, notified additional) ∷ []) (mark additional (take n ws)))
            more.rep;
    }
