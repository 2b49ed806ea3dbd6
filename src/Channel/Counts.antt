-- ===== src/Channel/Counts.antt =====
-- actix-async/src/util/async_channel/mod.rs: the counts of senders and receivers, and the close of
-- the channel that goes with the last of either.
use actix_async.Prelude.{
  ◌>>=◌, bind_some, ℕ, suc, ◌+◌, ◌/◌, ◌≤◌, ◌<◌, ◌≡◌, refl, ◌∙◌, Bool, true, false, ◌==◌, ==_iff,
  le→ltb, Option, none, some, List, arith,
}
use actix_async.Listener.{usize_max}
use actix_async.Listener.View.{View}
use actix_async.Listener.Refine.{notify_up_to}
use actix_async.Channel.{Chan, wrapping_dec, usize_mod, close, clone_sender, drop_sender, upgrade}
use actix_async.Channel.Queue.{QueueOps}
use actix_async.Channel.State.{Holds, close-open}

pub wrapping_dec-suc : (n : ℕ) → suc n < usize_mod → wrapping_dec (suc n) ≡ n
wrapping_dec-suc n h = omega arith

module _ {ℓ} {T : Type ℓ} (Q : QueueOps T) where
  -- What the drop of the last sender does to an open channel: it is closed, the messages stay, all
  -- that wait are notified, and no weak sender can be upgraded any more.
  pub record Shut (xs : List T) (n : ℕ) (se st : View) (r : Option (Chan Q)) : Type ℓ where
    pub next : Chan Q
    pub result : r ≡ some next
    pub holds : Holds Q next xs true n (notify_up_to usize_max se) (notify_up_to usize_max st)
    pub counted : next.sender_count ≡ 0
    pub dead : (alive : Bool) → upgrade Q alive next ≡ none

  pub drop_one_of_many :
      (c : Chan Q) (m : ℕ)
      → c.sender_count ≡ suc m
      → 0 < m
      → m < usize_max
      → drop_sender Q c ≡ some (record c { sender_count = m })
  unfolding drop_sender
  drop_one_of_many c m counted more small =
      let many : (c.sender_count == 1) ≡ false = ground arith in
      let less : wrapping_dec c.sender_count ≡ m = omega arith in
      rw many (λ i. some (record c { sender_count = less i }))

  drop_the_last :
      (c : Chan Q) (xs : List T) (n : ℕ) (se st : View)
      → Holds Q c xs false n se st
      → c.sender_count ≡ 1
      → Shut xs n se st (drop_sender Q c)
  unfolding drop_sender upgrade
  drop_the_last c xs n se st h counted =
      let left : Chan Q = record c { sender_count = wrapping_dec c.sender_count } in
      let zero_left : wrapping_dec c.sender_count ≡ 0 = omega arith in
      let (c', closed, holds, _, _, _, _, senders, _) =
        close-open Q left xs n se st
          (record { queue = h.queue; send_ops = h.send_ops; stream_ops = h.stream_ops }) in
      let none_left : c'.sender_count ≡ 0 = senders ∙ zero_left in
      record {
        next = c';
        result =
            rw ((==_iff c.sender_count 1).1 counted)
              (bind_some (close Q left) _ (true, c') _ closed refl);
        holds = holds;
        counted = none_left;
        dead = λ alive. refused alive c' ((==_iff c'.sender_count 0).1 none_left);
      }
    where
      refused :
          (alive : Bool) (c' : Chan Q) → (c'.sender_count == 0) ≡ true → upgrade Q alive c' ≡ none
      refused false c' e = refl
      refused true c' e = rw e

  -- A sender that is not the last just leaves the count when it is dropped, and one that was cloned
  -- or upgraded from a live weak sender and is dropped leaves the channel as it was. The last sender
  -- that is dropped closes the channel: the messages stay, all that wait are notified, and no weak
  -- sender can be upgraded any more.
  pub senders_are_counted :
      (c : Chan Q) (xs : List T) (n k : ℕ) (se st : View)
      → Holds Q c xs false n se st
      → c.sender_count ≡ suc k
      → suc k ≤ usize_max / 2
      → (k ≡ 0 → Shut xs n se st (drop_sender Q c))
        × (0 < k → drop_sender Q c ≡ some (record c { sender_count = k }))
        × ((clone_sender Q c >>= drop_sender Q) ≡ some c)
        × ((upgrade Q true c >>= drop_sender Q) ≡ some c)
  unfolding clone_sender upgrade
  senders_are_counted c xs n k se st h counted small = (
    λ last. drop_the_last c xs n se st h (omega arith),
    λ more. drop_one_of_many c k counted more (omega arith),
    rw (le→ltb (usize_max / 2) c.sender_count (omega arith)) back,
    rw (let e : (c.sender_count == 0) ≡ false = ground arith in e) back,
  )
    where
      back : drop_sender Q (record c { sender_count = c.sender_count + 1 }) ≡ some c
      back =
          drop_one_of_many (record c { sender_count = c.sender_count + 1 }) c.sender_count
            (omega arith) (omega arith) (omega arith)
