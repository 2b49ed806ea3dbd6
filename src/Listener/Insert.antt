-- ===== src/Listener/Insert.antt =====
-- actix-async/src/util/async_channel/listener.rs: `List::insert` appends to the queue.
use actix_async.Prelude.{
  ◌>>=◌, ℕ, suc, ◌≤◌, ◌<◌, ◌+◌, ◌≡◌, refl, sym, ap, subst, ◌∙◌, true, inl, inr, Bool-cases, Option,
  none, some, [], ◌∷◌, ◌++◌, append_assoc, length-append, arith,
}
use actix_async.Listener.{
  State, created, Inner, or_else, insert_at, insert, link_next, update, created_entry,
}
use actix_async.Listener.Segments.{
  Items, first, NotIn, first-append, last-append, Segment-append, Segment-update,
  Distinct-append_one,
}
use actix_async.Listener.View.{View, items, Below, CacheFree, NoneNotified, Rep, link_next-Segment}

or_else-first : (xs : Items) (n : Option ℕ) → or_else (first xs none) n ≡ first xs n
or_else-first [] n = refl
or_else-first (x ∷ xs) n = refl

Below-NotIn : (n b : ℕ) (xs : Items) → Below n xs → n ≤ b → NotIn b xs
Below-NotIn n b [] h k = tt
Below-NotIn n b (x ∷ xs) h k = (omega arith, Below-NotIn n b xs h.1 k)

Below-append_one :
    (n m b : ℕ) (s : State) (xs : Items) → n ≤ m → b < m → Below n xs → Below m (xs ++ (b, s) ∷ [])
Below-append_one n m b s [] h k l = (k, tt)
Below-append_one n m b s (x ∷ xs) h k l = (omega arith, Below-append_one n m b s xs h k l.1)

NoneNotified-append_one :
    (a : ℕ) (xs : Items) → NoneNotified xs → NoneNotified (xs ++ (a, created) ∷ [])
NoneNotified-append_one a [] h = (refl, tt)
NoneNotified-append_one a (x ∷ xs) h = (h.0, NoneNotified-append_one a xs h.1)

abbrev pub joined : View → ℕ → View
joined v a = record v { waiting = v.waiting ++ (a, created) ∷ [] }

-- The list with a new listener at the end.
pub record Inserted (v : View) (i : Inner) (r : Option (ℕ × Inner)) : Type 0 where
  pub address : ℕ
  pub next : Inner
  pub result : r ≡ some (address, next)
  pub new : NotIn address (items v)
  pub silent : next.woken ≡ i.woken
  pub rep : Rep next (joined v address)

insert_at-Inserted :
    (i : Inner) (v : View) (a fresh : ℕ)
    → Rep i v
    → NotIn a (items v)
    → i.fresh ≤ fresh
    → a < fresh
    → Inserted v i (insert_at a fresh i)
unfolding insert_at
insert_at-Inserted i v a fresh h new grows below =
    let (d, linked, k) =
      link_next-Segment written xs none (some a) h.distinct
        (Segment-update i.cells a _ none xs none new h.segment) h.head in
    let found : link_next i.list.tail (some a) written
        ≡ some (record written {
          cells = d;
          list = record written.list { head = first xs (some a) };
        }) =
      ap (λ t. link_next t (some a) written) h.tail ∙ linked in
    record {
      address = a;
      next = record written {
        cells = d;
        list = record written.list {
          head = first xs (some a);
          tail = some a;
          start = or_else i.list.start (some a);
          len = i.list.len + 1;
        };
      };
      result = rw (found, ◌>>=◌) refl;
      new = new;
      silent = refl;
      rep = record {
        segment = rw (← assoc) (
            Segment-append d none xs one none k.segment
              (k.frame a new ∙ ground (arith, h.tail), tt));
        distinct = rw (← assoc) (Distinct-append_one xs a created h.distinct new);
        head = rw (← assoc) (sym (first-append xs one none));
        tail = rw (← assoc) (sym (last-append none xs one));
        start =
            rw h.start (or_else-first v.waiting (some a) ∙ sym (first-append v.waiting one none));
        len = rw (← assoc) (omega (arith, h.len, length-append {0} xs one));
        count = h.count;
        told = h.told;
        untold = NoneNotified-append_one a v.waiting h.untold;
        cache = tt;
        below = rw (← assoc) (Below-append_one i.fresh fresh a created xs grows below h.below);
        positive = omega arith;
      };
    }
  where
    xs : Items
    xs = items v

    one : Items
    one = (a, created) ∷ []

    assoc : xs ++ one ≡ v.done ++ (v.waiting ++ one)
    assoc = append_assoc v.done v.waiting one

    written : Inner
    written = record i {
      cells = update i.cells a (some (record created_entry { prev = i.list.tail }));
      fresh = fresh;
      list = record i.list { cache_used = true };
    }

-- `insert` never faults, and puts a new listener, in the state `Created`, at the end of the queue
-- in an entry that no listener has. It wakes nobody.
pub insert-Inserted : (i : Inner) (v : View) → Rep i v → Inserted v i (insert i)
unfolding insert
insert-Inserted i v h = elim (Bool-cases i.list.cache_used) [
  | inl e ↦ simp e (
      insert_at-Inserted i v i.fresh (suc i.fresh) h
        (Below-NotIn i.fresh i.fresh _ h.below (omega arith)) (omega arith) (omega arith))
  | inr e ↦ simp e (
      insert_at-Inserted i v 0 i.fresh h (subst (λ b. CacheFree b (items v)) e h.cache)
        (omega arith) h.positive)
]
