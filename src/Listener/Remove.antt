-- ===== src/Listener/Remove.antt =====
-- actix-async/src/util/async_channel/listener.rs: `List::remove` takes an entry out of the queue.
use actix_async.Prelude.{
  bind_some, ℕ, suc, ◌≡◌, refl, sym, ap, subst, ◌∙◌, Bool, true, false, ◌==◌, if◌then◌else◌, inl,
  inr, Bool-cases, Option, none, some, [], ◌∷◌, ◌++◌, length, arith,
}
use actix_async.Listener.{
  State, created, is_notified, Entry, Inner, link_next, link_prev, remove, same, decrement, update,
}
use actix_async.Listener.Segments.{
  Items, first, last, NotIn, NotIn-append, first-append, last-append, Segment-append, Segment-split,
  Segment-update, Segment-agree, Distinct-Parted,
}
use actix_async.Listener.View.{
  View, items, Below, CacheFree, AllNotified, NoneNotified, Rep, link_next-Segment,
  link_prev-Segment,
}

module _ (a : ℕ) (s : State) (zs : Items) where
  NotIn-remove : (b : ℕ) (xs : Items) → NotIn b (xs ++ (a, s) ∷ zs) → NotIn b (xs ++ zs)
  NotIn-remove b [] h = h.1
  NotIn-remove b (x ∷ xs) h = (h.0, NotIn-remove b xs h.1)

  Below-remove : (n : ℕ) (xs : Items) → Below n (xs ++ (a, s) ∷ zs) → Below n (xs ++ zs)
  Below-remove n [] h = h.1
  Below-remove n (x ∷ xs) h = (h.0, Below-remove n xs h.1)

  pub length-remove : (xs : Items) → length (xs ++ (a, s) ∷ zs) ≡ suc (length (xs ++ zs))
  length-remove [] = refl
  length-remove (x ∷ xs) = ap suc (length-remove xs)

  CacheFree-remove :
      (used : Bool) (xs : Items)
      → NotIn a (xs ++ zs)
      → CacheFree used (xs ++ (a, s) ∷ zs)
      → CacheFree (if a == 0 then false else used) (xs ++ zs)
  CacheFree-remove true xs h c = elim (Bool-cases (a == 0)) [
    | inl e ↦ rw e (let e' : a ≡ 0 = ground arith in subst (λ b. NotIn b (xs ++ zs)) e' h)
    | inr e ↦ rw e tt
  ]
  CacheFree-remove false xs h c = elim (Bool-cases (a == 0)) [
    | inl e ↦ rw e (NotIn-remove 0 xs c)
    | inr e ↦ rw e (NotIn-remove 0 xs c)
  ]

-- The queue `w`, left when an entry has been taken out.
pub record Removed (w : View) (s : State) (i : Inner) (r : Option (State × Inner)) : Type 0 where
  pub next : Inner
  pub result : r ≡ some (s, next)
  pub silent : next.woken ≡ i.woken
  pub rep : Rep next w

-- What `w` has to be, for an entry `(a, s)` between `xs` and `zs`.
pub record Leaves (v w : View) (a : ℕ) (s : State) (xs zs : Items) : Type 0 where
  pub was : items v ≡ xs ++ (a, s) ∷ zs
  pub is : items w ≡ xs ++ zs
  pub starts :
      (if same (first v.waiting none) a then first zs none else first v.waiting none)
      ≡ first w.waiting none
  pub counts :
      (if is_notified s then decrement (length v.done) else some (length v.done))
      ≡ some (length w.done)
  pub told : AllNotified w.done
  pub untold : NoneNotified w.waiting

pub remove-Leaves :
    (i : Inner) (v w : View) (a : ℕ) (s : State) (xs zs : Items)
    → Rep i v
    → Leaves v w a s xs zs
    → Removed w s i (remove a i)
unfolding remove
remove-Leaves i v w a s xs zs h l =
    let part = Distinct-Parted xs a s zs (rw l.was at h.distinct) in
    let split = Segment-split i.cells none xs ((a, s) ∷ zs) none (rw l.was at h.segment) in
    let cell = split.1.0 in
    let (d1, link1, k1) =
      link_next-Segment i xs (some a) (first zs none) part.before split.0
        (h.head ∙ ap (λ t. first t none) l.was ∙ first-append xs ((a, s) ∷ zs) none) in
    let i1 : Inner = record i {
      cells = d1;
      list = record i.list { head = first xs (first zs none) };
    } in
    let (d2, link2, k2) =
      link_prev-Segment i1 (some a) (last none xs) zs part.after
        (Segment-agree i.cells d1 (some a) zs none
          (λ b. elim (part.apart b) [ inl x ↦ inr (k1.frame b x) | inr z ↦ inl z ]) split.1.1)
        (h.tail ∙ ap (last none) l.was ∙ last-append none xs ((a, s) ∷ zs)) in
    let i2 : Inner = record i1 {
      cells = d2;
      list = record i1.list { tail = last (last none xs) zs };
    } in
    let freed : Option Entry =
      (if a == 0
        then some (record { state = created; prev = last none xs; next = first zs none })
        else none) in
    let away = (NotIn-append a xs zs).1 (part.not_before, part.not_after) in
    let final : Inner = record i2 {
      cells = update d2 a freed;
      list = record i2.list {
        start = if same i.list.start a then first zs none else i.list.start;
        cache_used = if a == 0 then false else i.list.cache_used;
        notified = length w.done;
        len = length (xs ++ zs);
      };
    } in
    let counted : (if is_notified s then decrement i.list.notified else some i.list.notified)
        ≡ some (length w.done) =
      rw h.count l.counts in
    let shorter : decrement i.list.len ≡ some (length (xs ++ zs)) =
      ap decrement (h.len ∙ ap length l.was ∙ length-remove a s zs xs) in
    record {
      next = final;
      result = bind_some (i.cells a) _ _ _ cell (
          bind_some (link_next (last none xs) (first zs none) i) _ i1 _ link1 (
            bind_some (link_prev (first zs none) (last none xs) i1) _ i2 _ link2 (
              bind_some (d2 a) _ _ _ (k2.frame a part.not_after ∙ k1.frame a part.not_before ∙ cell)
                (bind_some _ _ (length w.done) _ counted
                  (bind_some (decrement i.list.len) _ (length (xs ++ zs)) _ shorter refl)))));
      silent = refl;
      rep = record {
        segment = rw l.is (
            Segment-update d2 a freed none (xs ++ zs) none away (
              Segment-append d2 none xs zs none
                (Segment-agree d1 d2 none xs (first zs none)
                  (λ b. elim (part.apart b) [ inl x ↦ inl x | inr z ↦ inr (k2.frame b z) ])
                  k1.segment)
                k2.segment));
        distinct = rw l.is part.rest;
        head = rw l.is (sym (first-append xs zs none));
        tail = rw l.is (sym (last-append none xs zs));
        start = rw h.start l.starts;
        len = rw l.is refl;
        count = refl;
        told = l.told;
        untold = l.untold;
        cache = rw l.is (
            CacheFree-remove a s zs i.list.cache_used xs away
              (subst (CacheFree i.list.cache_used) l.was h.cache));
        below = rw l.is (Below-remove a s zs i.fresh xs (subst (Below i.fresh) l.was h.below));
        positive = h.positive;
      };
    }
