-- ===== src/Oneshot/Tests.antt =====
-- The theorems about the oneshot channel, at inputs where their hypotheses hold.
use actix_async.Prelude.{ℕ, ◌≡◌, refl, true, false, Option, none, some, [], contains, ok, arith}
use actix_async.Oneshot.{Inner, send, drop_tx, drop_rx, drop_inner}
use actix_async.Oneshot.Flags.{is_closed, is_ready, has_send, has_recv}
use actix_async.Oneshot.Steps.{
  System, rx_received, rx_closed, tx_failed, start, tx_step, rx_step, tx_moves, rx_moves, Reach,
  here, later,
}
use actix_async.Oneshot.Invariant.{did_send, is_dropped}
use actix_async.Oneshot.Safety.{no_lost_wakeup, outcomes_agree}
use actix_async.Oneshot.Calls.{IsOpen, value_leaks}

-- a channel on which the task 9 waits
abbrev waited : Inner ℕ
waited = record { state = 2; value = none; send = none; recv = some 9; woken = [] }

waited-IsOpen : IsOpen waited
unfolding is_closed is_ready
waited-IsOpen = record { small = omega arith; not_closed = refl; not_ready = refl }

value_leaks_example :
    ((send 7 waited).0 ≡ ok tt)
    × ((drop_inner (drop_rx false (drop_tx true (send 7 waited).1))).value ≡ some 7)
value_leaks_example = value_leaks 7 waited waited-IsOpen

-- The receiver polls and parks while the sender is between its two writes, and then sends.
abbrev parked_then_sent : (s : System ℕ) × Reach 7 s
parked_then_sent = (
  _,
  later
      (later
        (later (later (later (later here (rx_moves 9 false)) (tx_moves false)) (rx_moves 9 false))
          (rx_moves 9 false))
        (tx_moves false))
      (tx_moves false),
)

no_lost_wakeup_example : contains parked_then_sent.0.inner.woken 9 ≡ true
unfolding start tx_step rx_step is_closed is_ready has_send has_recv
no_lost_wakeup_example = no_lost_wakeup 7 parked_then_sent.0 9 parked_then_sent.1 refl refl

outcomes_agree_example :
    ((got : Option ℕ)
      → parked_then_sent.0.rx ≡ rx_received got
      → (got ≡ some 7) × (did_send parked_then_sent.0.tx ≡ true))
    × ((back : Option ℕ)
        → parked_then_sent.0.tx ≡ tx_failed back
        → (back ≡ some 7) × (is_dropped parked_then_sent.0.rx ≡ true))
    × (parked_then_sent.0.rx ≡ rx_closed → did_send parked_then_sent.0.tx ≡ false)
outcomes_agree_example = outcomes_agree 7 parked_then_sent.0 parked_then_sent.1
