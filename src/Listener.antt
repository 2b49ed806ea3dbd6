-- ===== src/Listener.antt =====
-- actix-async/src/util/async_channel/listener.rs: events and their listeners.
-- The intrusive list of entries is kept as in the source, by addresses in a memory of cells:
-- address 0 is the cached entry, and every other entry is a box at an address of its own. A read
-- of a cell that holds no entry, a counter that goes below 0 and `unreachable!` are faults, and an
-- operation that meets one is `none`. Wakers are numbers; `woken` logs the wakes, newest first.
-- The calls run under the lock of the list, so each is one step.
pub mod Segments
pub mod View
pub mod Insert
pub mod Remove
pub mod Notify
pub mod Leave
pub mod Refine
pub mod Wait
pub mod Events
mod Tests
use actix_async.Prelude.{
  ◌>>=◌, ℕ, zero, suc, ◌+◌, ◌-◌, ◌^◌, Bool, true, false, ◌==◌, ltb, leb, if◌then◌else◌, Option,
  none, some, List, [], ◌∷◌, Poll, ready, pending,
}

pub data State : Type 0 where
  created : State
  notified : (additional : Bool) → State
  polling : (waker : ℕ) → State

-- `State::is_notified`
abbrev pub is_notified : State → Bool
is_notified (notified _) = true
is_notified created = false
is_notified (polling _) = false

pub record Entry : Type 0 where
  pub state : State
  pub prev : Option ℕ
  pub next : Option ℕ

-- `List`
pub record EventList : Type 0 where
  pub head : Option ℕ
  pub tail : Option ℕ
  pub start : Option ℕ
  pub len : ℕ
  pub notified : ℕ
  pub cache_used : Bool

abbrev pub Cells : Type 0
Cells = ℕ → Option Entry

-- `Inner`, with the memory that its pointers go to
pub record Inner : Type 0 where
  pub hint : ℕ  -- the atomic `notified`
  pub list : EventList
  pub cells : Cells
  pub fresh : ℕ  -- the address of the next box
  pub woken : List ℕ

abbrev pub usize_max : ℕ
usize_max = 2 ^ 64 - 1

abbrev pub update : Cells → ℕ → Option Entry → Cells
update c a e b = if a == b then e else c b

abbrev pub created_entry : Entry
created_entry = record { state = created; prev = none; next = none }

abbrev pub empty_list : EventList
empty_list = record {
  head = none;
  tail = none;
  start = none;
  len = 0;
  notified = 0;
  cache_used = false;
}

-- the value that `Event::inner` allocates on first use
abbrev pub new_inner : Inner
new_inner = record {
  hint = usize_max;
  list = empty_list;
  cells = update (λ _. none) 0 (some created_entry);
  fresh = 1;
  woken = [];
}

-- `p.as_ref().next.set(v)` and `n.as_ref().prev.set(v)`
unfoldable pub set_next : ℕ → Option ℕ → Cells → Option Cells
set_next p v c = do e ← c p; some (update c p (some (record e { next = v })))

unfoldable pub set_prev : ℕ → Option ℕ → Cells → Option Cells
set_prev n v c = do e ← c n; some (update c n (some (record e { prev = v })))

-- the matches of `insert` and `remove` on a neighbour: without one, the end of the list is set
unfoldable pub link_next : Option ℕ → Option ℕ → Inner → Option Inner
link_next none v i = some (record i { list = record i.list { head = v } })
link_next (some p) v i = do c ← set_next p v i.cells; some (record i { cells = c })

unfoldable pub link_prev : Option ℕ → Option ℕ → Inner → Option Inner
link_prev none v i = some (record i { list = record i.list { tail = v } })
link_prev (some n) v i = do c ← set_prev n v i.cells; some (record i { cells = c })

abbrev pub or_else : Option ℕ → Option ℕ → Option ℕ
or_else none b = b
or_else (some a) b = some a

-- `List::insert` of an entry written at the address `a`
unfoldable pub insert_at : ℕ → ℕ → Inner → Option (ℕ × Inner)
insert_at a fresh i = do
  let entry = record created_entry { prev = i.list.tail }
  let written = record i {
    cells = update i.cells a (some entry);
    fresh = fresh;
    list = record i.list { cache_used = true };
  }
  linked ← link_next i.list.tail (some a) written
  let list = record linked.list {
    tail = some a;
    start = or_else i.list.start (some a);
    len = i.list.len + 1;
  }
  some (a, record linked { list = list })

-- `List::insert`: the entry goes to a new box if the cache is used, and to the cache if it is not.
unfoldable pub insert : Inner → Option (ℕ × Inner)
unfolding insert_at
insert i = if i.list.cache_used then insert_at i.fresh (suc i.fresh) i else insert_at 0 i.fresh i

abbrev pub same : Option ℕ → ℕ → Bool
same none a = false
same (some b) a = b == a

-- `n -= 1`, where a counter at 0 is a fault
abbrev pub decrement : ℕ → Option ℕ
decrement zero = none
decrement (suc n) = some n

-- `List::remove`. A cached entry is reset and freed for reuse, and a box is deallocated.
unfoldable pub remove : ℕ → Inner → Option (State × Inner)
remove a i = do
  e ← i.cells a
  i1 ← link_next e.prev e.next i
  i2 ← link_prev e.next e.prev i1
  last ← i2.cells a
  let freed = if a == 0 then some (record last { state = created }) else none
  count ← if is_notified last.state then decrement i2.list.notified else some i2.list.notified
  len ← decrement i2.list.len
  let list = record i2.list {
    start = if same i2.list.start a then e.next else i2.list.start;
    cache_used = if a == 0 then false else i2.list.cache_used;
    notified = count;
    len = len;
  }
  some (last.state, record i2 { cells = update i2.cells a freed; list = list })

abbrev pub wake : State → List ℕ → List ℕ
wake (polling w) log = w ∷ log
wake _ log = log

-- the body of the loops of `notify` and `notify_additional`, at the first unnotified entry
unfoldable pub notify_entry : Bool → ℕ → Inner → Option Inner
notify_entry additional a i = do
  e ← i.cells a
  let list = record i.list { start = e.next; notified = i.list.notified + 1 }
  some (record i {
    cells = update i.cells a (some (record e { state = notified additional }));
    list = list;
    woken = wake e.state i.woken;
  })

-- The loop ends when no entry is left, or `n` are notified.
unfoldable pub notify_loop : Bool → ℕ → Inner → Option Inner
notify_loop additional zero i = some i
notify_loop additional (suc n) i = elim i.list.start [
  | none ↦ some i
  | some a ↦ (do i' ← notify_entry additional a i; notify_loop additional n i')
]

-- `List::notify` and `List::notify_additional`
unfoldable pub notify_list : ℕ → Inner → Option Inner
notify_list n i =
    if leb n i.list.notified then some i else notify_loop false (n - i.list.notified) i

unfoldable pub notify_additional : ℕ → Inner → Option Inner
notify_additional n i = notify_loop true n i

-- `Drop for ListGuard` publishes the counter when the lock is released.
unfoldable pub unlock : Inner → Inner
unlock i = record i { hint = if ltb i.list.notified i.list.len then i.list.notified else usize_max }

-- `Event`: its `Inner` is allocated on first use.
pub record Event : Type 0 where
  pub inner : Option Inner

abbrev pub new : Event
new = record { inner = none }

-- `Event::inner`
abbrev pub get_inner : Event → Inner
get_inner ev = elim ev.inner [ none ↦ new_inner | some i ↦ i ]

-- `Event::listen` returns the entry of the listener.
unfoldable pub listen : Event → Option (ℕ × Event)
listen ev = do (a, i) ← insert (get_inner ev); some (a, record { inner = some (unlock i) })

-- `Event::notify`. An event that nobody has listened to is not touched.
unfoldable pub notify_inner : ℕ → Inner → Option Inner
notify_inner n i = if ltb i.hint n then (do i' ← notify_list n i; some (unlock i')) else some i

unfoldable pub notify : ℕ → Event → Option Event
notify n ev = elim ev.inner [
  | none ↦ some ev
  | some i ↦ (do i' ← notify_inner n i; some (record { inner = some i' }))
]

-- `EventListener::poll` under the lock, for an entry and the task with the waker `w`
unfoldable pub poll_inner : ℕ → ℕ → Inner → Option (Poll (Unit {0}) × Inner)
poll_inner w a i = do
  e ← i.cells a
  let taken = record i { cells = update i.cells a (some (record e { state = notified false })) }
  elim e.state [
    | notified _ ↦ (do (_, i') ← remove a taken; some (ready tt, unlock i'))
    | created ↦ some (
      pending,
      unlock (record i { cells = update i.cells a (some (record e { state = polling w })) }),
    )
    | polling w' ↦ some (
      pending,
      unlock (record i {
        cells = update i.cells a (some (record e { state = polling (if w' == w then w' else w) }));
      }),
    )
  ]

-- `Drop for EventListener` under the lock, for an entry, passes a notification that it has not used on.
unfoldable pub drop_inner : ℕ → Inner → Option Inner
drop_inner a i = do
  (state, i') ← remove a i
  i'' ← elim state [
    | notified true ↦ notify_additional 1 i'
    | notified false ↦ notify_list 1 i'
    | created ↦ some i'
    | polling _ ↦ some i'
  ]
  some (unlock i'')

abbrev pub is_ready : Poll (Unit {0}) → Bool
is_ready (ready _) = true
is_ready pending = false

-- `EventListener::poll`: a listener is its entry, which it loses when it is ready. A completed
-- listener must not be polled again.
unfoldable pub poll : ℕ → Option ℕ → Event → Option (Poll (Unit {0}) × Option ℕ × Event)
poll w none ev = none
poll w (some a) ev = do
  (r, i) ← poll_inner w a (get_inner ev)
  some (r, if is_ready r then none else some a, record { inner = some i })

-- `Drop for EventListener`
unfoldable pub drop_listener : Option ℕ → Event → Option Event
drop_listener none ev = some ev
drop_listener (some a) ev = do i ← drop_inner a (get_inner ev); some (record { inner = some i })
