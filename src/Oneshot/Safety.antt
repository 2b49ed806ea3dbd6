-- ===== src/Oneshot/Safety.antt =====
-- What holds in every state that the two ends of a oneshot channel reach together.
use actix_async.Prelude.{ℕ, ◌≡◌, Bool, true, false, Option, some, contains, arith}
use actix_async.Oneshot.Steps.{
  TxPc, tx_ok, tx_failed, tx_dropped, rx_parked, rx_received, rx_closed, System, Reach,
}
use actix_async.Oneshot.Invariant.{did_send, is_dropped, Reach-Inv}

module _ {ℓ} {T : Type ℓ} where
  -- `send` or `drop` of the sender has returned.
  abbrev pub is_finished : TxPc T → Bool
  is_finished tx_ok = true
  is_finished (tx_failed _) = true
  is_finished tx_dropped = true
  is_finished _ = false

  -- In every interleaving: once the sender's `send` or `drop` has returned, the waker `w` of a
  -- receiver whose last poll returned `Pending` has been woken.
  pub no_lost_wakeup :
      (v : T) (s : System T) (w : ℕ)
      → Reach v s
      → s.rx ≡ rx_parked w
      → is_finished s.tx ≡ true
      → contains s.inner.woken w ≡ true
  no_lost_wakeup v s w r parked finished =
      let inv = Reach-Inv v r in ground (arith, inv.rx_knows, inv.tx_knows)

  -- In every interleaving a receiver's poll that reads the slot finds the sent value there, after
  -- the sender's `set_value`; a `send` that fails takes its own value back, and fails only when
  -- the receiver was dropped; and a receiver is told `Closed` only if the sender did not send.
  pub outcomes_agree :
      (v : T) (s : System T)
      → Reach v s
      → ((got : Option T) → s.rx ≡ rx_received got → (got ≡ some v) × (did_send s.tx ≡ true))
        × ((back : Option T) → s.tx ≡ tx_failed back → (back ≡ some v) × (is_dropped s.rx ≡ true))
        × (s.rx ≡ rx_closed → did_send s.tx ≡ false)
  outcomes_agree v s r =
      let inv = Reach-Inv v r in
      (
        λ got e. ground (arith, inv.received, inv.rx_knows),
        λ back e. ground (arith, inv.took_back, inv.tx_knows),
        λ e. ground (arith, inv.rx_knows),
      )
