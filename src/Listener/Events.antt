-- ===== src/Listener/Events.antt =====
-- actix-async/src/util/async_channel/listener.rs: the calls of `Event` and `EventListener`, which
-- allocate the list on first use.
use actix_async.Prelude.{
  bind_some, ℕ, ◌-◌, ◌≤◌, ◌≡◌, refl, Bool, Option, none, some, List, ◌∷◌, ◌++◌, inr, length,
  length-append, ready, pending, arith,
}
use actix_async.Listener.{
  State, Inner, new_inner, notified, polling, Event, new, get_inner, usize_max, insert,
  notify_inner, poll_inner, drop_inner, unlock, listen, notify, poll, drop_listener,
}
use actix_async.Listener.Segments.{NotIn, Items}
use actix_async.Listener.View.{View, items, Shared}
use actix_async.Listener.Insert.{joined}
use actix_async.Listener.Refine.{
  empty, notify_up_to, woken_up_to, new_inner-Shared, idle_notify, notify_inner-Ends, listen-Ends,
}
use actix_async.Listener.Wait.{
  passed_on, woken_on, poll_inner-waiting, poll_inner-done, drop_inner-waiting, drop_inner-done,
}

-- The event stands for the queue, allocated or not.
abbrev pub Stands : Event → View → Type 0
Stands ev v = Shared (get_inner ev) v

abbrev pub woken : Event → List ℕ
woken ev = (get_inner ev).woken

pub new-Stands : Stands new empty
new-Stands = new_inner-Shared

-- What a call of `notify` leaves behind.
abbrev pub Notified : ℕ → Event → View → Type 0
Notified n ev v =
    (ev' : Event) × (notify n ev ≡ some ev')
    × (woken ev' ≡ woken_up_to n v (woken ev))
    × Stands ev' (notify_up_to n v)

notify_optional :
    (n : ℕ) (o : Option Inner) (v : View)
    → Stands (record { inner = o }) v
    → n ≤ usize_max
    → Notified n (record { inner = o }) v
unfolding notify
notify_optional n none v h small =
    let (quiet, rep) =
      idle_notify new_inner v.done v.waiting (n - length v.done) h.rep
        (inr (omega (arith, h.rep.len, length-append v.done v.waiting))) in
    (new, refl, quiet, record { rep = rep; hint = h.hint })
notify_optional n (some i) v h small =
    let (j, result, log, shared) = notify_inner-Ends n i v h small in
    (record { inner = some j }, bind_some (notify_inner n i) _ j _ result refl, log, shared)

-- `notify(n)` never faults. Of the listeners that have waited longest it notifies and wakes as many
-- as are missing to `n` notified ones, in their order; on an event that nobody has listened to it
-- does nothing.
pub notify-Stands : (n : ℕ) (ev : Event) (v : View) → Stands ev v → n ≤ usize_max → Notified n ev v
notify-Stands n ev v h small = notify_optional n ev.inner v h small

-- `listen` never faults: the new listener gets an entry of its own behind all others, and nobody
-- is woken.
pub listen-Stands :
    (ev : Event) (v : View)
    → Stands ev v
    → (a : ℕ) × (ev' : Event) × (listen ev ≡ some (a, ev'))
      × NotIn a (items v)
      × (woken ev' ≡ woken ev)
      × Stands ev' (joined v a)
unfolding listen unlock
listen-Stands ev v h =
    let (a, j, result, away, log, shared) = listen-Ends (get_inner ev) v h in
    (
      a,
      record { inner = some (unlock j) },
      bind_some (insert (get_inner ev)) _ (a, j) _ result refl,
      away,
      log,
      shared,
    )

-- A poll of a listener that has not been notified is pending: it keeps its entry and its place, and
-- its entry holds the waker of this poll.
pub poll-waiting :
    (w : ℕ) (ev : Event) (a : ℕ) (s : State) (ds ys zs : Items)
    → Stands ev (record { done = ds; waiting = ys ++ (a, s) ∷ zs })
    → (ev' : Event) × (poll w (some a) ev ≡ some (pending, some a, ev'))
      × (woken ev' ≡ woken ev)
      × Stands ev' (record { done = ds; waiting = ys ++ (a, polling w) ∷ zs })
unfolding poll
poll-waiting w ev a s ds ys zs h =
    let e = poll_inner-waiting w (get_inner ev) a s ds ys zs h in
    (
      record { inner = some e.next },
      bind_some (poll_inner w a (get_inner ev)) _ (pending, e.next) _ e.result refl,
      e.woken,
      e.shared,
    )

-- A poll of a notified listener is ready: it loses its entry, which leaves the queue.
pub poll-done :
    (w : ℕ) (ev : Event) (a : ℕ) (s : State) (ys zs ws : Items)
    → Stands ev (record { done = ys ++ (a, s) ∷ zs; waiting = ws })
    → (ev' : Event) × (poll w (some a) ev ≡ some (ready tt, none, ev'))
      × (woken ev' ≡ woken ev)
      × Stands ev' (record { done = ys ++ zs; waiting = ws })
unfolding poll
poll-done w ev a s ys zs ws h =
    let e = poll_inner-done w (get_inner ev) a s ys zs ws h in
    (
      record { inner = some e.next },
      bind_some (poll_inner w a (get_inner ev)) _ (ready tt, e.next) _ e.result refl,
      e.woken,
      e.shared,
    )

-- A listener that is dropped before it was notified just leaves the queue.
pub drop_listener-waiting :
    (ev : Event) (a : ℕ) (s : State) (ds ys zs : Items)
    → Stands ev (record { done = ds; waiting = ys ++ (a, s) ∷ zs })
    → (ev' : Event) × (drop_listener (some a) ev ≡ some ev')
      × (woken ev' ≡ woken ev)
      × Stands ev' (record { done = ds; waiting = ys ++ zs })
unfolding drop_listener
drop_listener-waiting ev a s ds ys zs h =
    let (j, result, log, shared) = drop_inner-waiting (get_inner ev) a s ds ys zs h in
    (
      record { inner = some j },
      bind_some (drop_inner a (get_inner ev)) _ j _ result refl,
      log,
      shared,
    )

-- A notified listener that is dropped before it was polled leaves the queue and passes its
-- notification on: one of `notify_additional` to the listener that has waited longest, and one of
-- `notify` to that listener too, unless another notified listener is still there.
pub drop_listener-done :
    (ev : Event) (a : ℕ) (b : Bool) (ys zs ws : Items)
    → Stands ev (record { done = ys ++ (a, notified b) ∷ zs; waiting = ws })
    → (ev' : Event) × (drop_listener (some a) ev ≡ some ev')
      × (woken ev' ≡ woken_on b (record { done = ys ++ zs; waiting = ws }) (woken ev))
      × Stands ev' (passed_on b (record { done = ys ++ zs; waiting = ws }))
unfolding drop_listener
drop_listener-done ev a b ys zs ws h =
    let (j, result, log, shared) = drop_inner-done (get_inner ev) a b ys zs ws h in
    (
      record { inner = some j },
      bind_some (drop_inner a (get_inner ev)) _ j _ result refl,
      log,
      shared,
    )
