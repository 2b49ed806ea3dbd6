-- ===== src/Unbounded/Pops.antt =====
-- actix-async/src/util/async_channel/unbounded.rs: `pop` takes the oldest message out.
use actix_async.Prelude.{
  ℕ, ◌+◌, ◌/◌, ◌%◌, ◌≤◌, ◌<◌, ◌≡◌, refl, ◌∙◌, subst, true, ◌&&◌, ◌==◌, ==_iff, if◌then◌else◌,
  Bool-cases, Option, none, some, List, ◌∷◌, inl, inr, arith,
}
use actix_async.Unbounded.{Block, get_slot}
use actix_async.Unbounded.Memory.{Wrote, Wrote-elsewhere, Freed}
use actix_async.Unbounded.Shape.{
  next_index, index_after, index_after-le, Stored, Stored-frame, emptied, Rep,
}

module _ {ℓ} {T : Type ℓ} where
  -- The first message leaves a slot that is not the last of its block.
  pub Rep-take_inner :
      (m m' : ℕ → Option (Block T)) (h t : ℕ) (x : T) (xs : List T)
      → Rep m h t (x ∷ xs)
      → h % 32 < 30
      → Wrote (h / 32) (h % 32) emptied m m'
      → Rep m' (h + 1) t xs
  unfolding index_after Stored
  Rep-take_inner m m' h t x xs r small w =
      let n : next_index h ≡ h + 1 = ground arith in
      let d : (h + 1) / 32 ≡ h / 32 = omega arith in
      let reach : index_after (h + 1) xs ≡ t = subst (λ k. index_after k xs ≡ t) n r.reach in
      let le : h + 1 ≤ t = subst (λ k. h + 1 ≤ k) reach (index_after-le (h + 1) xs) in
      record {
        head_on = omega arith;
        tail_on = r.tail_on;
        reach = reach;
        stored =
            Stored-frame m m' (h + 1) xs (λ j l k. away (j / 32) (j % 32) (omega arith))
              (subst (λ k. Stored m k xs) n r.stored.1);
        unwritten = λ o l k. away (t / 32) o (omega arith) ∙ r.unwritten o l k;
        read = λ o l. rw d (now_read o (omega arith));
        link = λ b l k. w.next b ∙ r.link b (omega arith) k;
        last = w.next (t / 32) ∙ r.last;
        freed = λ b l. w.gone b (r.freed b (omega arith));
        above = λ b l. w.gone b (r.above b l);
      }
    where
      away : (k j : ℕ) → (h / 32 ≡ k → h % 32 ≡ j → ⊥) → get_slot m' k j ≡ get_slot m k j
      away = Wrote-elsewhere (h / 32) (h % 32) emptied m m' w

      now_read : (o : ℕ) → o ≤ h % 32 → get_slot m' (h / 32) o ≡ some emptied
      now_read o l = elim (Bool-cases (h % 32 == o)) [
        | inl e ↦ w.slot (h / 32) o ∙ written o e
        | inr e ↦ away (h / 32) o (ground arith) ∙ r.read o (ground arith)
      ]
        where
          written :
              (o : ℕ)
              → (h % 32 == o) ≡ true
              → (if h / 32 == h / 32 && h % 32 == o then some emptied else get_slot m (h / 32) o)
                ≡ some emptied
          written o e = rw (e, (==_iff (h / 32) (h / 32)).1 refl) refl

  -- The first message leaves the last slot of its block, and the block goes.
  pub Rep-take_last :
      (m m' : ℕ → Option (Block T)) (h t : ℕ) (x : T) (xs : List T)
      → Rep m h t (x ∷ xs)
      → h % 32 ≡ 30
      → Freed (h / 32) m m'
      → Rep m' (h + 2) t xs
  unfolding index_after Stored
  Rep-take_last m m' h t x xs r full f =
      let n : next_index h ≡ h + 2 = ground arith in
      let reach : index_after (h + 2) xs ≡ t = subst (λ k. index_after k xs ≡ t) n r.reach in
      let le : h + 2 ≤ t = subst (λ k. h + 2 ≤ k) reach (index_after-le (h + 2) xs) in
      record {
        head_on = omega arith;
        tail_on = r.tail_on;
        reach = reach;
        stored =
            Stored-frame m m' (h + 2) xs (λ j l k. f.slots (j / 32) (j % 32) (omega arith))
              (subst (λ k. Stored m k xs) n r.stored.1);
        unwritten = λ o l k. f.slots (t / 32) o (omega arith) ∙ r.unwritten o l k;
        read = λ o l. absurd (omega arith);
        link = λ b l k. f.next b (omega arith) ∙ r.link b (omega arith) k;
        last = f.next (t / 32) (omega arith) ∙ r.last;
        freed = λ b l. gone b (omega arith);
        above = λ b l. f.gone b (r.above b l);
      }
    where
      gone : (b : ℕ) → b < h / 32 + 1 → m' b ≡ none
      gone b l = elim (Bool-cases (b == h / 32)) [
        | inl e ↦ rw ((==_iff b (h / 32)).0 e) f.here
        | inr e ↦ f.gone b (r.freed b (ground arith))
      ]
