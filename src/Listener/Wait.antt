-- ===== src/Listener/Wait.antt =====
-- actix-async/src/util/async_channel/listener.rs: `EventListener::poll` and its `Drop`, as changes
-- of the queue of listeners.
use actix_async.Prelude.{
  bind_some, ℕ, ◌≡◌, refl, sym, ap, subst, ◌∙◌, Bool, true, false, ◌==◌, if◌then◌else◌, Option,
  none, some, List, [], ◌∷◌, ◌++◌, append_assoc, length, take, ready, pending, arith,
}
use actix_async.Listener.{
  State, created, notified, polling, Inner, remove, notify_list, notify_loop, unlock,
  notify_additional, poll_inner, drop_inner, update, is_notified,
}
use actix_async.Listener.Segments.{Items, first, last}
use actix_async.Listener.View.{View, Rep, Shared, AllNotified, NoneNotified}
use actix_async.Listener.Notify.{
  first-restate, length-restate, wakes, notify_first, notify_loop-Notifies, Changes, cell_of,
  restated, restated-Rep,
}
use actix_async.Listener.Leave.{
  NoneNotified-middle, AllNotified-middle, remove-done, remove-waiting,
}
use mathlib.Core.Bool.{false≢true}
use actix_async.Listener.Refine.{notify_up_to, woken_up_to, unlock-Shared, notify_list-Notifies}

-- Entries whose state is written in place keep the counters of the list.
restated_same :
    (i : Inner) (v w : View) (a : ℕ) (s t : State) (xs zs : Items) (h : Rep i v)
    → Changes v w a s t xs zs
    → first v.waiting none ≡ first w.waiting none
    → length v.done ≡ length w.done
    → Rep
        (record i {
          cells =
              update i.cells a
                (some (record { state = t; prev = last none xs; next = first zs none }));
        })
        w
restated_same i v w a s t xs zs h c e f =
    subst (λ x. Rep x w)
      (λ j. record (restated i a t xs zs w i.woken) {
        list = record i.list {
          start = (sym e ∙ sym h.start) j;
          notified = (sym f ∙ sym h.count) j;
        };
      })
      (restated-Rep i v w a s t xs zs h c i.woken)

NoneNotified-restate :
    (a : ℕ) (s t : State) (ys zs : Items)
    → is_notified t ≡ false
    → NoneNotified (ys ++ (a, s) ∷ zs)
    → NoneNotified (ys ++ (a, t) ∷ zs)
NoneNotified-restate a s t [] zs e h = (e, h.1)
NoneNotified-restate a s t (y ∷ ys) zs e h = (h.0, NoneNotified-restate a s t ys zs e h.1)

same_waker : (w w' : ℕ) → (if w' == w then w' else w) ≡ w
same_waker w w' = ground arith

-- A call on a shared list came to an end with the queue `w`, the log `log` and the result `r`.
pub record Ends {A : Type 0} (r : A) (w : View) (log : List ℕ) (m : Option (A × Inner))
    : Type 0 where
  pub next : Inner
  pub result : m ≡ some (r, next)
  pub woken : next.woken ≡ log
  pub shared : Shared next w

-- The change that a poll makes to a listener that waits.
polls :
    (w a : ℕ) (s : State) (ds ys zs : Items)
    → AllNotified ds
    → NoneNotified (ys ++ (a, s) ∷ zs)
    → Changes
        (record { done = ds; waiting = ys ++ (a, s) ∷ zs })
        (record { done = ds; waiting = ys ++ (a, polling w) ∷ zs })
        a
        s
        (polling w)
        (ds ++ ys)
        zs
polls w a s ds ys zs told untold = record {
  was = sym (append_assoc ds ys ((a, s) ∷ zs));
  is = sym (append_assoc ds ys ((a, polling w) ∷ zs));
  told = told;
  untold = NoneNotified-restate a s (polling w) ys zs refl untold;
}

-- A listener that has not been notified, polled for a task with the waker `w`, stays where it is
-- in the queue, pending, and the waker of the last poll is the one that will be called.
pub poll_inner-waiting :
    (w : ℕ) (i : Inner) (a : ℕ) (s : State) (ds ys zs : Items)
    → Shared i (record { done = ds; waiting = ys ++ (a, s) ∷ zs })
    → Ends pending
        (record { done = ds; waiting = ys ++ (a, polling w) ∷ zs })
        i.woken
        (poll_inner w a i)
unfolding poll_inner unlock
poll_inner-waiting w i a created ds ys zs h =
    let c = polls w a created ds ys zs h.rep.told h.rep.untold in
    record {
      next = _;
      result =
          bind_some (i.cells a) _ _ _ (cell_of i _ _ a created (polling w) (ds ++ ys) zs h.rep c)
            refl;
      woken = refl;
      shared = unlock-Shared _ _ (
          restated_same i _ _ a created (polling w) (ds ++ ys) zs h.rep c
            (first-restate a created (polling w) zs ys) refl);
    }
poll_inner-waiting w i a (notified b) ds ys zs h =
    absurd (false≢true (sym (NoneNotified-middle a (notified b) ys zs h.rep.untold)))
poll_inner-waiting w i a (polling w') ds ys zs h =
    let c = polls w a (polling w') ds ys zs h.rep.told h.rep.untold in
    record {
      next = _;
      result =
          bind_some (i.cells a) _ _ _
            (cell_of i _ _ a (polling w') (polling w) (ds ++ ys) zs h.rep c)
            (rw (same_waker w w') refl);
      woken = refl;
      shared = unlock-Shared _ _ (
          restated_same i _ _ a (polling w') (polling w) (ds ++ ys) zs h.rep c
            (first-restate a (polling w') (polling w) zs ys) refl);
    }

AllNotified-restate :
    (a : ℕ) (s t : State) (ys zs : Items)
    → is_notified t ≡ true
    → AllNotified (ys ++ (a, s) ∷ zs)
    → AllNotified (ys ++ (a, t) ∷ zs)
AllNotified-restate a s t [] zs e h = (e, h.1)
AllNotified-restate a s t (y ∷ ys) zs e h = (h.0, AllNotified-restate a s t ys zs e h.1)

-- The dummy state that a poll leaves in a notified entry before it removes it.
takes :
    (a : ℕ) (b : Bool) (ys zs ws : Items)
    → AllNotified (ys ++ (a, notified b) ∷ zs)
    → NoneNotified ws
    → Changes
        (record { done = ys ++ (a, notified b) ∷ zs; waiting = ws })
        (record { done = ys ++ (a, notified false) ∷ zs; waiting = ws })
        a
        (notified b)
        (notified false)
        ys
        (zs ++ ws)
takes a b ys zs ws told untold = record {
  was = append_assoc ys ((a, notified b) ∷ zs) ws;
  is = append_assoc ys ((a, notified false) ∷ zs) ws;
  told = AllNotified-restate a (notified b) (notified false) ys zs refl told;
  untold = untold;
}

-- A listener that has been notified, polled, is ready, and leaves the queue.
pub poll_inner-done :
    (w : ℕ) (i : Inner) (a : ℕ) (s : State) (ys zs ws : Items)
    → Shared i (record { done = ys ++ (a, s) ∷ zs; waiting = ws })
    → Ends (ready tt) (record { done = ys ++ zs; waiting = ws }) i.woken (poll_inner w a i)
unfolding poll_inner unlock
poll_inner-done w i a created ys zs ws h =
    absurd (false≢true (AllNotified-middle a created ys zs h.rep.told))
poll_inner-done w i a (polling v) ys zs ws h =
    absurd (false≢true (AllNotified-middle a (polling v) ys zs h.rep.told))
poll_inner-done w i a (notified b) ys zs ws h =
    let c = takes a b ys zs ws h.rep.told h.rep.untold in
    let taken =
      restated_same i _ _ a (notified b) (notified false) ys (zs ++ ws) h.rep c refl
        (length-restate a (notified b) (notified false) zs ys) in
    let gone = remove-done _ a (notified false) ys zs ws taken in
    record {
      next = unlock gone.next;
      result =
          bind_some (i.cells a) _ _ _
            (cell_of i _ _ a (notified b) (notified false) ys (zs ++ ws) h.rep c)
            (bind_some (remove a _) _ _ _ gone.result refl);
      woken = gone.silent;
      shared = unlock-Shared gone.next _ gone.rep;
    }

-- A listener that is dropped before it was notified leaves the queue, and nobody is woken.
pub drop_inner-waiting :
    (i : Inner) (a : ℕ) (s : State) (ds ys zs : Items)
    → Shared i (record { done = ds; waiting = ys ++ (a, s) ∷ zs })
    → (j : Inner) × (drop_inner a i ≡ some j)
      × (j.woken ≡ i.woken)
      × Shared j (record { done = ds; waiting = ys ++ zs })
unfolding drop_inner unlock
drop_inner-waiting i a (notified b) ds ys zs h =
    absurd (false≢true (sym (NoneNotified-middle a (notified b) ys zs h.rep.untold)))
drop_inner-waiting i a created ds ys zs h =
    let gone = remove-waiting i a created ds ys zs h.rep in
    (
      unlock gone.next,
      bind_some (remove a i) _ _ _ gone.result refl,
      gone.silent,
      unlock-Shared gone.next _ gone.rep,
    )
drop_inner-waiting i a (polling w) ds ys zs h =
    let gone = remove-waiting i a (polling w) ds ys zs h.rep in
    (
      unlock gone.next,
      bind_some (remove a i) _ _ _ gone.result refl,
      gone.silent,
      unlock-Shared gone.next _ gone.rep,
    )

-- The queue and the log after a notification of the kind `additional` is passed on.
abbrev pub passed_on : Bool → View → View
passed_on true v = notify_first true 1 v
passed_on false v = notify_up_to 1 v

abbrev pub woken_on : Bool → View → List ℕ → List ℕ
woken_on true v log = wakes (take 1 v.waiting) log
woken_on false v log = woken_up_to 1 v log

-- A listener that is dropped with a notification that it has not used leaves the queue and passes
-- the notification on: one of `notify_additional` to the listener that has waited longest, and one
-- of `notify` to that listener too, unless another notified listener is still there.
pub drop_inner-done :
    (i : Inner) (a : ℕ) (b : Bool) (ys zs ws : Items)
    → Shared i (record { done = ys ++ (a, notified b) ∷ zs; waiting = ws })
    → (j : Inner) × (drop_inner a i ≡ some j)
      × (j.woken ≡ woken_on b (record { done = ys ++ zs; waiting = ws }) i.woken)
      × Shared j (passed_on b (record { done = ys ++ zs; waiting = ws }))
unfolding drop_inner unlock notify_additional
drop_inner-done i a true ys zs ws h =
    let gone = remove-done i a (notified true) ys zs ws h.rep in
    let told = notify_loop-Notifies true 1 gone.next (ys ++ zs) ws gone.rep in
    (
      unlock told.next,
      bind_some (remove a i) _ _ _ gone.result
          (bind_some (notify_loop true 1 gone.next) _ told.next _ told.result refl),
      told.woken ∙ ap (wakes (take 1 ws)) gone.silent,
      unlock-Shared told.next _ told.rep,
    )
drop_inner-done i a false ys zs ws h =
    let v : View = record { done = ys ++ zs; waiting = ws } in
    let gone = remove-done i a (notified false) ys zs ws h.rep in
    let told = notify_list-Notifies 1 gone.next v gone.rep in
    (
      unlock told.next,
      bind_some (remove a i) _ _ _ gone.result
          (bind_some (notify_list 1 gone.next) _ told.next _ told.result refl),
      told.woken ∙ ap (woken_up_to 1 v) gone.silent,
      unlock-Shared told.next _ told.rep,
    )
