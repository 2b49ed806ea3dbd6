-- ===== src/Oneshot/Invariant.antt =====
-- What every interleaving of the two ends of a oneshot channel keeps.
use actix_async.Prelude.{
  ℕ, ◌<◌, ◌≡◌, Bool, true, false, not, ◌&&◌, ◌||◌, contains, Option, none, some, List, arith,
}
use actix_async.Oneshot.{Inner}
use actix_async.Oneshot.Flags.{
  is_closed, is_ready, has_send, has_recv, closed-Sets, recv-Sets, ready-Sets,
}
use actix_async.Oneshot.Steps.{
  TxPc, tx_live, tx_written, tx_sent, tx_dropping, tx_closing, tx_ok, tx_failed, tx_dropped, RxPc,
  rx_idle, rx_polling, rx_wrote, rx_parked, rx_received, rx_closed, rx_dropping, rx_dropped, System,
  start, tx_step, rx_step, Step, tx_moves, rx_moves, Reach, here, later,
}

abbrev pub is_some : Option ℕ → Bool
is_some none = false
is_some (some w) = true

module _ {ℓ} {T : Type ℓ} where
  -- The sender has set READY.
  abbrev pub did_send : TxPc T → Bool
  did_send (tx_sent _) = true
  did_send tx_ok = true
  did_send (tx_failed _) = true
  did_send _ = false

  -- The sender has closed the channel, or found it closed.
  abbrev pub did_close : TxPc T → Bool
  did_close (tx_closing _) = true
  did_close tx_dropped = true
  did_close _ = false

  abbrev pub is_dropped : RxPc T → Bool
  is_dropped rx_dropped = true
  is_dropped _ = false

  -- What the value slot holds.
  abbrev pub slot : T → TxPc T → RxPc T → Option T
  slot v tx (rx_received _) = none
  slot v tx_written rx = some v
  slot v (tx_sent _) rx = some v
  slot v tx_ok rx = some v
  slot v _ rx = none

  -- What the sender knows of the receiver: only a dropped one leaves the value behind.
  abbrev pub TxKnows : TxPc T → RxPc T → Type 0
  TxKnows (tx_failed back) rx = is_dropped rx ≡ true
  TxKnows (tx_sent old) rx = (is_closed old && not (is_dropped rx)) ≡ false
  TxKnows _ rx = Unit

  -- A parked receiver is woken already, or its sender is bound to wake it.
  abbrev pub Woken : ℕ → List ℕ → TxPc T → Type 0
  Woken w log (tx_sent old) = (has_recv old ≡ true) × (is_closed old ≡ false)
  Woken w log (tx_closing old) = has_recv old ≡ true
  Woken w log tx_ok = contains log w ≡ true
  Woken w log tx_dropped = contains log w ≡ true
  Woken w log _ = Unit

  -- What the receiver knows of the sender.
  abbrev pub RxKnows : Inner T → TxPc T → RxPc T → Type 0
  RxKnows i tx (rx_received got) = did_send tx ≡ true
  RxKnows i tx rx_closed = did_close tx ≡ true
  RxKnows i tx (rx_wrote w) = i.recv ≡ some w
  RxKnows i tx (rx_parked w) = (i.recv ≡ some w) × (has_recv i.state ≡ true) × Woken w i.woken tx
  RxKnows i tx _ = Unit

  -- Whoever reads the value gets the one that was sent.
  abbrev pub TookBack : T → TxPc T → Type ℓ
  TookBack v (tx_failed back) = back ≡ some v
  TookBack v _ = Unit

  abbrev pub Received : T → RxPc T → Type ℓ
  Received v (rx_received got) = got ≡ some v
  Received v _ = Unit

  pub record Inv (v : T) (i : Inner T) (tx : TxPc T) (rx : RxPc T) : Type ℓ where
    pub small : i.state < 16
    pub no_send : has_send i.state ≡ false
    pub is_sent : is_ready i.state ≡ did_send tx
    pub closed_tx : (did_close tx && not (is_closed i.state)) ≡ false
    pub closed_by : (is_closed i.state && not (did_close tx || is_dropped rx)) ≡ false
    pub registered : (has_recv i.state && not (is_some i.recv)) ≡ false
    pub holds : i.value ≡ slot v tx rx
    pub tx_knows : TxKnows tx rx
    pub rx_knows : RxKnows i tx rx
    pub took_back : TookBack v tx
    pub received : Received v rx

  tx_step-Inv :
      (v : T) (drop : Bool) (i : Inner T) (tx : TxPc T) (rx : RxPc T)
      → Inv v i tx rx
      → Inv v (tx_step v drop i tx).0 (tx_step v drop i tx).1 rx
  unfolding tx_step
  tx_step-Inv v true i tx_live rx h = ground arith
  tx_step-Inv v false i tx_live rx h = ground arith
  tx_step-Inv v drop i tx_written rx h = ground (arith, ready-Sets i.state)
  tx_step-Inv v drop i (tx_sent old) rx h = ground arith
  tx_step-Inv v drop i tx_dropping rx h = ground (arith, closed-Sets i.state)
  tx_step-Inv v drop i (tx_closing old) rx h = ground arith
  tx_step-Inv v drop i _ rx h = h

  rx_step-Inv :
      (v : T) (w : ℕ) (drop : Bool) (i : Inner T) (tx : TxPc T) (rx : RxPc T)
      → Inv v i tx rx
      → Inv v (rx_step w drop i rx).0 tx (rx_step w drop i rx).1
  unfolding rx_step
  rx_step-Inv v w true i tx rx_idle h = ground arith
  rx_step-Inv v w false i tx rx_idle h = ground arith
  rx_step-Inv v w true i tx (rx_parked w') h = ground arith
  rx_step-Inv v w false i tx (rx_parked w') h = ground arith
  rx_step-Inv v w drop i tx (rx_polling w') h = ground arith
  rx_step-Inv v w drop i tx (rx_wrote w') h = ground (arith, recv-Sets i.state)
  rx_step-Inv v w drop i tx rx_dropping h = ground (arith, closed-Sets i.state)
  rx_step-Inv v w drop i tx _ h = h

  start-Inv : (v : T) → Inv v start.inner start.tx start.rx
  unfolding start is_closed is_ready has_send has_recv
  start-Inv v = ground arith

  Step-Inv :
      (v : T) {s t : System T} → Step v s t → Inv v s.inner s.tx s.rx → Inv v t.inner t.tx t.rx
  Step-Inv v {s} (tx_moves drop) h = tx_step-Inv v drop s.inner s.tx s.rx h
  Step-Inv v {s} (rx_moves w drop) h = rx_step-Inv v w drop s.inner s.tx s.rx h

  -- Every reachable state of the channel meets the invariant.
  pub Reach-Inv : (v : T) {s : System T} → Reach v s → Inv v s.inner s.tx s.rx
  Reach-Inv v here = start-Inv v
  Reach-Inv v (later r st) = Step-Inv v st (Reach-Inv v r)
