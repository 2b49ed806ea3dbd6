-- ===== src/Address/Shared.antt =====
-- actix-async/src/address.rs, actix-async/src/request.rs and actix-async/src/handler.rs: the oneshot
-- cells that requesters and handlers share, by the number that a message carries, and what the two
-- sides of a request do with theirs.
use actix_async.Prelude.{
  ℕ, ◌≡◌, Bool, true, false, ◌==◌, if◌then◌else◌, Option, none, some, List, [], ◌∷◌, Poll, ready,
  pending, Result, ◌>>=◌,
}
use actix_async.Error.{ActixAsyncError}
use actix_async.Oneshot
use actix_async.Oneshot.{Inner}
use actix_async.Channel.{Chan}
use actix_async.Channel.Queue.{QueueOps}
use actix_async.Message.{Runtime, ActorMessage, MessageContainer, take}
use actix_async.Handler.{Handling, unstarted, poll_handling}
use actix_async.Request
use actix_async.Request.{MessageRequest, request, response, place_holder}
use actix_async.Address.{Message, Sending, poll_sending, drop_sending, send_request}

abbrev pub Cells {ν} : Type ν → Type ν
Cells R = ℕ → Inner R

-- a poll of the handler, or of the request, each with a waker
pub data Turn : Type 0 where
  handles : (v : ℕ) → Turn
  asks : (w : ℕ) → Turn

-- the waker of the last poll of the request, after one with `w`
abbrev pub last_waker : ℕ → List Turn → ℕ
last_waker w [] = w
last_waker w (handles v ∷ turns) = last_waker w turns
last_waker w (asks w' ∷ turns) = last_waker w' turns

-- what is behind the number `tx` from now on
abbrev pub put_cell {ν} : {R : Type ν} → ℕ → Inner R → Cells R → Cells R
put_cell tx i cells k = if k == tx then i else cells k

-- the cell of a request
abbrev pub cell_of {κ μ ν} :
    {Sleep : Type κ} {Fut : Type μ} {R : Type ν} → Inner R → MessageRequest Sleep Fut R → Inner R
cell_of i (request fut rx t d) = rx
cell_of i (response rx t) = rx
cell_of i place_holder = i

-- a request, with its cell as it is now
abbrev pub share {κ μ ν} :
    {Sleep : Type κ} {Fut : Type μ} {R : Type ν}
    → Inner R
    → MessageRequest Sleep Fut R
    → MessageRequest Sleep Fut R
share i (request fut rx t d) = request fut i t d
share i (response rx t) = response i t
share i place_holder = place_holder

abbrev pub has_tx : Option ℕ → Bool
has_tx none = false
has_tx (some tx) = true

-- `MessageContainer::take` and the async block of `handle` that it begins, with its sender
unfoldable pub start_handling {ℓ ν} :
    {M : Type ℓ} {Fut : Type ν} → (M → Fut) → MessageContainer M → Option (Handling Fut × Option ℕ)
start_handling handle c = do (msg, tx, c') ← take c; some (unstarted (has_tx tx) (handle msg), tx)

module _ {ℓ κ μ ν} {M : Type ℓ} {Sleep : Type κ} {R : Type μ} {Fut : Type ν}
    (Q : QueueOps (ActorMessage (MessageContainer M))) (T : Runtime Sleep)
    (poll_fut : ℕ → Fut → Poll R × Fut) where
  abbrev pub Requests : Type (ℓ ⊔ κ ⊔ μ)
  Requests = MessageRequest Sleep (Sending Q) R

  -- the function `send`: `oneshot()` makes a new cell behind `tx`, the message carries the number,
  -- and the request has the other end
  abbrev pub send_shared : (ℕ → Message Q) → ℕ → Chan Q → Cells R → Requests × Cells R
  send_shared f tx c cells = (send_request Q f tx c, put_cell tx Oneshot.new cells)

  -- the poll of a request whose answer comes through the cell `tx`
  unfoldable pub poll_request :
      ℕ
      → ℕ
      → Requests
      → Cells R
      → Option (Poll (Result (Option R) ActixAsyncError) × Requests × Cells R × Option (Sending Q))
  poll_request w tx m cells = do
    (p, m', left) ← Request.poll T (poll_sending Q) (drop_sending Q) w (share (cells tx) m)
    some (p, m', put_cell tx (cell_of (cells tx) m') cells, left)

  -- the poll of a handler, whose sender is `tx` if its message wants an answer
  unfoldable pub poll_handler :
      ℕ → Option ℕ → Handling Fut → Cells R → Option (Poll (Unit {0}) × Handling Fut × Cells R)
  poll_handler v none h cells = do
    (p, h', i) ← poll_handling poll_fut v h Oneshot.new
    some (p, h', cells)
  poll_handler v (some tx) h cells = do
    (p, h', i) ← poll_handling poll_fut v h (cells tx)
    some (p, h', put_cell tx i cells)

  -- Turns of the two sides, in any order, with the answer `tx`; `none` if one is ready.
  unfoldable pub play :
      List Turn → ℕ → Handling Fut × Requests × Cells R → Option (Handling Fut × Requests × Cells R)
  play [] tx (h, m, cells) = some (h, m, cells)
  play (handles v ∷ turns) tx (h, m, cells) = do
    (p, h', cells') ← poll_handler v (some tx) h cells
    elim p [ ready _ ↦ none | pending ↦ play turns tx (h', m, cells') ]
  play (asks w ∷ turns) tx (h, m, cells) = do
    (p, m', cells', left) ← poll_request w tx m cells
    elim p [ ready _ ↦ none | pending ↦ play turns tx (h, m', cells') ]

  -- The future of the handler is pending at its turns, and done with `res` at the poll with `v` after
  -- them.
  abbrev pub DoneAfter : List Turn → ℕ → R → Fut → Type μ
  DoneAfter [] v res fut = (poll_fut v fut).0 ≡ ready res
  DoneAfter (handles u ∷ turns) v res fut =
      ((poll_fut u fut).0 ≡ pending) × DoneAfter turns v res (poll_fut u fut).1
  DoneAfter (asks w ∷ turns) v res fut = DoneAfter turns v res fut
