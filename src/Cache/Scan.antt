-- ===== src/Cache/Scan.antt =====
-- actix-async/src/context_future.rs: what a poll of a cache answers and keeps.
use actix_async.Prelude.{
  ℕ, zero, suc, ◌≡◌, ◌<◌, ◌⊎◌, inl, inr, refl, sym, ap, ◌∙◌, subst, Option, none, some, List, [],
  ◌∷◌, ◌++◌, length, Poll, ready, pending, append_assoc, arith,
}
use mathlib.Core.List.{Perm, Mem, filter_map, mem-cons_self}
use mathlib.Core.List.Perm
use actix_async.Cache.Places.{
  at_index-length, at_index-end, put-length, swap_remove-length, length-fill_front, fill_front-Perm,
  longer, at_front, kept,
}
use actix_async.Cache.{at_index, put, fill_front, swap_remove, scan, poll_stream, poll_future}

module _ {ℓ} {F M : Type ℓ} (poll : F → Poll (Option M) × F) where
  -- what a poll of one leaves in the cache, and the message that it has
  abbrev pub survive : F → Option F
  survive f = elim (poll f).0 [ pending ↦ some (poll f).1 | ready _ ↦ none ]

  abbrev pub message : F → Option M
  message f = elim (poll f).0 [ pending ↦ none | ready o ↦ o ]

  -- What a poll of the cache answers, where `rest` is still to be polled: the message of one of them,
  -- or, if none has a message, those that are pending, each polled once, and `done`.
  abbrev pub Outcome : Poll M → List F → List F → List F → Type ℓ
  Outcome (ready m) after done rest = Mem m (filter_map message rest)
  Outcome pending after done rest =
      Perm after (done ++ filter_map survive rest) × (filter_map message rest ≡ [])

  Poll-cases :
      (r : Poll (Option M)) → (r ≡ pending) ⊎ ((r ≡ ready none) ⊎ ((m : M) × (r ≡ ready (some m))))
  Poll-cases pending = inl refl
  Poll-cases (ready none) = inr (inl refl)
  Poll-cases (ready (some m)) = inr (inr (m, refl))

  -- the one at the front of `rest`, by what its poll answers
  fronts :
      (rest : List F) (f : F) (s : Option F) (o : Option M)
      → survive f ≡ s
      → message f ≡ o
      → (filter_map survive (f ∷ rest) ≡ at_front s (filter_map survive rest))
        × (filter_map message (f ∷ rest) ≡ at_front o (filter_map message rest))
  fronts rest f s o p q = (kept s survive f rest p, kept o message f rest q)

  pending-fronts :
      (rest : List F) (f : F)
      → (poll f).0 ≡ pending
      → (filter_map survive (f ∷ rest) ≡ (poll f).1 ∷ filter_map survive rest)
        × (filter_map message (f ∷ rest) ≡ filter_map message rest)
  pending-fronts rest f e =
      fronts rest f (some (poll f).1) none (rw (e, survive) refl) (rw (e, message) refl)

  none-fronts :
      (rest : List F) (f : F)
      → (poll f).0 ≡ ready none
      → (filter_map survive (f ∷ rest) ≡ filter_map survive rest)
        × (filter_map message (f ∷ rest) ≡ filter_map message rest)
  none-fronts rest f e = fronts rest f none none (rw (e, survive) refl) (rw (e, message) refl)

  Outcome-pending :
      (r : Poll M) (after done rest : List F) (f : F)
      → (poll f).0 ≡ pending
      → Outcome r after (done ++ (poll f).1 ∷ []) rest
      → Outcome r after done (f ∷ rest)
  Outcome-pending (ready m) after done rest f e h =
      subst (Mem m) (sym (pending-fronts rest f e).1) h
  Outcome-pending pending after done rest f e h =
      rw ((pending-fronts rest f e).0, (pending-fronts rest f e).1)
        (
          subst (Perm after) (append_assoc done ((poll f).1 ∷ []) (filter_map survive rest)) h.0,
          h.1,
        )

  Outcome-none :
      (r : Poll M) (after done rest : List F) (f : F)
      → (poll f).0 ≡ ready none
      → Outcome r after done (fill_front rest)
      → Outcome r after done (f ∷ rest)
  Outcome-none (ready m) after done rest f e h =
      subst (Mem m) (sym (none-fronts rest f e).1)
        ((Perm.mem_iff (Perm.filter_map message (fill_front-Perm rest))).0 h)
  Outcome-none pending after done rest f e h =
      let moved = Perm.filter_map survive (fill_front-Perm rest) in
      let silent = Perm.filter_map message (fill_front-Perm rest) in
      rw ((none-fronts rest f e).0, (none-fronts rest f e).1)
        (
          Perm.trans h.0 (Perm.append_left done moved),
          sym (Perm.nil-eq (subst (λ l. Perm l (filter_map message rest)) h.1 silent)),
        )

  round-end :
      (on_message : ℕ → List F → List F) (n i : ℕ) (xs : List F)
      → at_index i xs ≡ none
      → scan poll on_message (suc n) i xs ≡ some (pending, xs)
  unfolding scan
  round-end on_message n i xs e = rw (e, scan) refl

  module _ (on_message : ℕ → List F → List F) (n : ℕ) (done rest : List F) (f : F) where
    abbrev round : Option (Poll M × List F)
    round = scan poll on_message (suc n) (length done) (done ++ f ∷ rest)

    round-pending :
        (poll f).0 ≡ pending
        → round
          ≡ scan poll on_message n
              (length (done ++ (poll f).1 ∷ []))
              ((done ++ (poll f).1 ∷ []) ++ rest)
    unfolding scan
    round-pending e =
        rw (at_index-length done rest f, e, scan)
          (ap (λ i. scan poll on_message n i (put (length done) (poll f).1 (done ++ f ∷ rest)))
              (longer done (poll f).1)
            ∙ ap (scan poll on_message n (length (done ++ (poll f).1 ∷ []))) (
                put-length done rest f (poll f).1 ∙ sym (append_assoc done ((poll f).1 ∷ []) rest)))

    round-none :
        (poll f).0 ≡ ready none
        → round ≡ scan poll on_message n (length done) (done ++ fill_front rest)
    unfolding scan
    round-none e =
        rw (at_index-length done rest f, e, scan)
          (ap (scan poll on_message n (length done)) (swap_remove-length done rest f))

    round-message :
        (m : M)
        → (poll f).0 ≡ ready (some m)
        → (after : List F) × (round ≡ some (ready m, after)) × Mem m (filter_map message (f ∷ rest))
    unfolding scan
    round-message m e = (
      on_message (length done) (put (length done) (poll f).1 (done ++ f ∷ rest)),
      rw (at_index-length done rest f, e, scan) refl,
      subst (Mem m) (sym (kept (some m) message f rest (rw (e, message) refl))) mem-cons_self,
    )

  scan-Outcome :
      (on_message : ℕ → List F → List F) (n : ℕ) (done rest : List F)
      → length rest < n
      → (r : Poll M) × (after : List F) × (scan poll on_message n (length done) (done ++ rest)
          ≡ some (r, after))
        × Outcome r after done rest
  unfolding scan filter_map
  scan-Outcome on_message zero done rest room = absurd (omega arith)
  scan-Outcome on_message (suc n) done [] room = (
    pending,
    done ++ [],
    round-end on_message n (length done) (done ++ []) (at_index-end done),
    (Perm.refl (done ++ []), refl),
  )
  scan-Outcome on_message (suc n) done (f ∷ rest) room = elim (Poll-cases (poll f).0) [
    | inl e ↦
        let (r, after, run, h) =
          scan-Outcome on_message n (done ++ (poll f).1 ∷ []) rest (omega (arith, room)) in
        (
          r,
          after,
          round-pending on_message n done rest f e ∙ run,
          Outcome-pending r after done rest f e h,
        )
    | inr (inl e) ↦
        let (r, after, run, h) =
          scan-Outcome on_message n done (fill_front rest)
            (omega (arith, room, length-fill_front rest)) in
        (
          r,
          after,
          round-none on_message n done rest f e ∙ run,
          Outcome-none r after done rest f e h,
        )
    | inr (inr (m, e)) ↦
        let (after, run, has) = round-message on_message n done rest f m e in
        (ready m, after, run, has)
  ]

  -- `poll_stream` and `poll_future` come to an end. If they are ready, it is with the message of one
  -- of the cached streams or futures; if they are pending, none had a message, each of those that
  -- are still pending was polled once, and these are what is left, in some order.
  pub polls-Outcome :
      (xs : List F)
      → ((r : Poll M) × (after : List F) × (poll_stream poll xs ≡ some (r, after))
          × Outcome r after [] xs)
        × ((r : Poll M) × (after : List F) × (poll_future poll xs ≡ some (r, after))
            × Outcome r after [] xs)
  unfolding poll_stream poll_future
  polls-Outcome xs = (
    scan-Outcome (λ i ys. ys) (suc (length xs)) [] xs (omega arith),
    scan-Outcome swap_remove (suc (length xs)) [] xs (omega arith),
  )
