-- ===== src/Listener/View.antt =====
-- actix-async/src/util/async_channel/listener.rs: the queue of listeners that the linked list
-- stands for, and the links between its entries.
use actix_async.Prelude.{
  ◌>>=◌, ℕ, ◌<◌, ◌≡◌, refl, Bool, true, false, ltb, if◌then◌else◌, Option, none, some, [], ◌∷◌,
  ◌++◌, length,
}
use actix_async.Listener.{is_notified, Inner, Cells, usize_max, link_next, link_prev}
use actix_async.Listener.Segments.{
  Items, first, last, NotIn, Distinct, Segment, Relinked, last-some, set_next-Segment,
  set_prev-Segment,
}

-- Listeners in the order in which they came: those notified already stand in front.
pub record View : Type 0 where
  pub done : Items
  pub waiting : Items

abbrev pub items : View → Items
items v = v.done ++ v.waiting

abbrev pub AllNotified : Items → Type 0
AllNotified [] = Unit
AllNotified ((a, s) ∷ xs) = (is_notified s ≡ true) × AllNotified xs

abbrev pub NoneNotified : Items → Type 0
NoneNotified [] = Unit
NoneNotified ((a, s) ∷ xs) = (is_notified s ≡ false) × NoneNotified xs

abbrev pub Below : ℕ → Items → Type 0
Below n [] = Unit
Below n ((a, s) ∷ xs) = (a < n) × Below n xs

abbrev pub CacheFree : Bool → Items → Type 0
CacheFree true xs = Unit
CacheFree false xs = NotIn 0 xs

-- The list, under its lock, stands for the queue.
pub record Rep (i : Inner) (v : View) : Type 0 where
  pub segment : Segment i.cells none (items v) none
  pub distinct : Distinct (items v)
  pub head : i.list.head ≡ first (items v) none
  pub tail : i.list.tail ≡ last none (items v)
  pub start : i.list.start ≡ first v.waiting none
  pub len : i.list.len ≡ length (items v)
  pub count : i.list.notified ≡ length v.done
  pub told : AllNotified v.done
  pub untold : NoneNotified v.waiting
  pub cache : CacheFree i.list.cache_used (items v)
  pub below : Below i.fresh (items v)
  pub positive : 0 < i.fresh

-- The same with the lock released: the counter that `notify` reads first is up to date.
pub record Shared (i : Inner) (v : View) : Type 0 where
  pub rep : Rep i v
  pub hint : i.hint ≡ (if ltb i.list.notified i.list.len then i.list.notified else usize_max)

-- `link_next` behind a whole segment
pub link_next-Segment :
    (i : Inner) (xs : Items) (n v : Option ℕ)
    → Distinct xs
    → Segment i.cells none xs n
    → i.list.head ≡ first xs n
    → (d : Cells) × (link_next (last none xs) v i
        ≡ some (record i { cells = d; list = record i.list { head = first xs v } }))
      × Relinked i.cells d none xs v
unfolding link_next
link_next-Segment i [] n v h g e = (i.cells, refl, record { segment = tt; frame = λ b away. refl })
link_next-Segment i ((a, s) ∷ xs) n v h g e =
    let (d, r, k) = set_next-Segment i.cells none a s xs n v h g in
    (
      d,
      rw (last-some a xs)
          (rw (r, ◌>>=◌) (λ j. some (record i { cells = d; list = record i.list { head = e j } }))),
      k,
    )

-- `link_prev` before a whole segment
pub link_prev-Segment :
    (i : Inner) (p v : Option ℕ) (xs : Items)
    → Distinct xs
    → Segment i.cells p xs none
    → i.list.tail ≡ last p xs
    → (d : Cells) × (link_prev (first xs none) v i
        ≡ some (record i { cells = d; list = record i.list { tail = last v xs } }))
      × Relinked i.cells d v xs none
unfolding link_prev
link_prev-Segment i p v [] h g e = (i.cells, refl, record { segment = tt; frame = λ b away. refl })
link_prev-Segment i p v ((a, s) ∷ xs) h g e =
    let (d, r, k) = set_prev-Segment i.cells p v a s xs none h g in
    (d, rw (r, ◌>>=◌) (λ j. some (record i { cells = d; list = record i.list { tail = e j } })), k)
