-- ===== src/Oneshot/Flags.antt =====
-- actix-async/src/util/async_oneshot.rs: the bits of the state word and their tests.
use actix_async.Prelude.{
  ℕ, ◌<◌, bit_and, bit_or, ◌≡◌, refl, Bool, true, false, ◌&&◌, ◌||◌, ◌==◌, iff, iff→eq, ltb,
  tabulate, tabulate-at, arith,
}

abbrev pub closed_bit : ℕ
closed_bit = 0b1000

abbrev pub send_bit : ℕ
send_bit = 0b0100

abbrev pub recv_bit : ℕ
recv_bit = 0b0010

abbrev pub ready_bit : ℕ
ready_bit = 0b0001

-- `State::closed`, `ready`, `send` and `recv`
unfoldable pub is_closed : ℕ → Bool
is_closed s = bit_and s closed_bit == closed_bit

unfoldable pub is_ready : ℕ → Bool
is_ready s = bit_and s ready_bit == ready_bit

unfoldable pub has_send : ℕ → Bool
has_send s = bit_and s send_bit == send_bit

unfoldable pub has_recv : ℕ → Bool
has_recv s = bit_and s recv_bit == recv_bit

-- A word with more bits than `s`, of those that the channel sets.
pub record Sets (c r v : Bool) (s t : ℕ) : Type 0 where
  pub closed : is_closed t ≡ (c || is_closed s)
  pub recv : has_recv t ≡ (r || has_recv s)
  pub ready : is_ready t ≡ (v || is_ready s)
  pub send : has_send t ≡ has_send s
  pub small : t < 16

sets : Bool → Bool → Bool → ℕ → ℕ → Bool
sets c r v s t =
    iff (is_closed t) (c || is_closed s)
    && iff (has_recv t) (r || has_recv s)
    && iff (is_ready t) (v || is_ready s)
    && iff (has_send t) (has_send s)
    && ltb t 16

sets→Sets : (c r v : Bool) (s t : ℕ) → sets c r v s t ≡ true → Sets c r v s t
unfolding sets
sets→Sets c r v s t h = ground (
  arith,
  iff→eq (is_closed t) (c || is_closed s),
  iff→eq (has_recv t) (r || has_recv s),
  iff→eq (is_ready t) (v || is_ready s),
  iff→eq (has_send t) (has_send s),
)

module _ (s : ℕ) (small : s < 16) where
  pub closed-Sets : Sets true false false s (bit_or s closed_bit)
  unfolding sets tabulate is_closed has_recv is_ready has_send
  closed-Sets =
      sets→Sets _ _ _ s _
        (tabulate-at (λ x. sets true false false x (bit_or x closed_bit)) 16 small refl)

  pub recv-Sets : Sets false true false s (bit_or s recv_bit)
  unfolding sets tabulate is_closed has_recv is_ready has_send
  recv-Sets =
      sets→Sets _ _ _ s _
        (tabulate-at (λ x. sets false true false x (bit_or x recv_bit)) 16 small refl)

  pub ready-Sets : Sets false false true s (bit_or s ready_bit)
  unfolding sets tabulate is_closed has_recv is_ready has_send
  ready-Sets =
      sets→Sets _ _ _ s _
        (tabulate-at (λ x. sets false false true x (bit_or x ready_bit)) 16 small refl)
