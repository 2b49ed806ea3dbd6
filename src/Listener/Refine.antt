-- ===== src/Listener/Refine.antt =====
-- actix-async/src/util/async_channel/listener.rs: events and listeners as a queue. Each call of
-- `Event` and of `EventListener`, with the lock, against what it does to the queue.
use actix_async.Prelude.{
  bind_some, ℕ, zero, suc, ◌-◌, ◌≤◌, ◌≡◌, refl, sym, subst, false, ltb, leb, Bool-cases, ◌⊎◌, inl,
  inr, some, List, [], ◌∷◌, append-nil, length, length-append, take, arith,
}
use actix_async.Listener.{
  Inner, new_inner, usize_max, insert, notify_list, notify_loop, unlock, notify_inner,
}
use actix_async.Listener.Segments.{Items, NotIn}
use actix_async.Listener.View.{View, items, Rep, Shared}
use actix_async.Listener.Insert.{joined, insert-Inserted}
use actix_async.Listener.Notify.{Notifies, wakes, notify_first, notify_loop-Notifies}

abbrev pub empty : View
empty = record { done = []; waiting = [] }

-- What `notify(n)` promises: at least `n` listeners are notified, unless fewer are there. Those
-- that are notified already count.
abbrev pub notify_up_to : ℕ → View → View
notify_up_to n v = notify_first false (n - length v.done) v

abbrev pub woken_up_to : ℕ → View → List ℕ → List ℕ
woken_up_to n v = wakes (take (n - length v.done) v.waiting)

pub new_inner-Shared : Shared new_inner empty
new_inner-Shared = record {
  rep = record {
    segment = tt;
    distinct = tt;
    head = refl;
    tail = refl;
    start = refl;
    len = refl;
    count = refl;
    told = tt;
    untold = tt;
    cache = tt;
    below = tt;
    positive = omega arith;
  };
  hint = refl;
}

pub unlock-Shared : (i : Inner) (v : View) → Rep i v → Shared (unlock i) v
unfolding unlock
unlock-Shared i v h = record {
  rep = record {
    segment = h.segment;
    distinct = h.distinct;
    head = h.head;
    tail = h.tail;
    start = h.start;
    len = h.len;
    count = h.count;
    told = h.told;
    untold = h.untold;
    cache = h.cache;
    below = h.below;
    positive = h.positive;
  };
  hint = refl;
}

-- Nothing is left to do if no more are asked for, or none waits.
pub idle_notify :
    (i : Inner) (ds ws : Items) (k : ℕ)
    → Rep i (record { done = ds; waiting = ws })
    → (k ≡ 0) ⊎ (length ws ≡ 0)
    → (i.woken ≡ wakes (take k ws) i.woken)
      × Rep i (notify_first false k (record { done = ds; waiting = ws }))
idle_notify i ds ws zero h e = (refl, rw (append-nil ds) h)
idle_notify i ds [] (suc k) h e = (refl, rw (append-nil ds) h)
idle_notify i ds (x ∷ ws) (suc k) h (inl e) = absurd (omega arith)
idle_notify i ds (x ∷ ws) (suc k) h (inr e) = absurd (omega arith)

-- `List::notify` under the lock notifies as many as its specification.
pub notify_list-Notifies :
    (n : ℕ) (i : Inner) (v : View)
    → Rep i v
    → Notifies (notify_up_to n v) (woken_up_to n v i.woken) (notify_list n i)
unfolding notify_list
notify_list-Notifies n i v h = elim (Bool-cases (leb n i.list.notified)) [
  | inl e ↦
      let (quiet, rep) =
        idle_notify i v.done v.waiting (n - length v.done) h (inl (ground (arith, h.count))) in
      simp e (record { next = i; result = refl; woken = quiet; rep = rep })
  | inr e ↦ simp e (
      subst
        (λ m. Notifies (notify_up_to n v) (woken_up_to n v i.woken) (notify_loop false (n - m) i))
        (sym h.count) (notify_loop-Notifies false (n - length v.done) i v.done v.waiting h))
]

-- `Event::notify` first reads a counter without the lock. That shortcut changes nothing: for every
-- `n` that a `usize` holds, the call notifies and wakes as its specification says, and the list
-- stays well formed.
pub notify_inner-Ends :
    (n : ℕ) (i : Inner) (v : View)
    → Shared i v
    → n ≤ usize_max
    → (j : Inner) × (notify_inner n i ≡ some j)
      × (j.woken ≡ woken_up_to n v i.woken)
      × Shared j (notify_up_to n v)
unfolding notify_inner unlock
notify_inner-Ends n i v h small = elim (Bool-cases (ltb i.hint n)) [
  | inl e ↦
      let done = notify_list-Notifies n i v h.rep in
      (
        unlock done.next,
        simp e (bind_some (notify_list n i) _ done.next _ done.result refl),
        done.woken,
        unlock-Shared done.next _ done.rep,
      )
  | inr e ↦
      let (quiet, rep) =
        idle_notify i v.done v.waiting (n - length v.done) h.rep
          (ground (arith, h.hint, h.rep.count, h.rep.len, length-append v.done v.waiting)) in
      (i, simp e, quiet, record { rep = rep; hint = h.hint })
]

-- `List::insert` and the release of the lock: a listener that comes is put behind all others.
pub listen-Ends :
    (i : Inner) (v : View)
    → Shared i v
    → (a : ℕ) × (j : Inner) × (insert i ≡ some (a, j))
      × NotIn a (items v)
      × (j.woken ≡ i.woken)
      × Shared (unlock j) (joined v a)
listen-Ends i v h =
    let new = insert-Inserted i v h.rep in
    (new.address, new.next, new.result, new.new, new.silent, unlock-Shared new.next _ new.rep)
