-- ===== src/Lib.antt =====
-- Verification of actix_async, an actor framework on Rust's async futures.
--
-- An actor runs in a context that polls the futures its handlers return. Messages reach it
-- through a channel of messages with a bound on those that are sent by `send`; an answer comes
-- back through a oneshot channel. Both stand on sharing without locks, modelled here from below:
--
-- - Error: error.rs and supervisor/error.rs in actix-async/src, the error values.
-- - Oneshot: actix-async/src/util/async_oneshot.rs. Oneshot.antt holds the shared cell and the
--   calls `send`, `poll` and the two drops without interference; Oneshot/Steps takes the same
--   calls apart into their atomic accesses, a step relation on the two ends (`TxPc`, `RxPc`), so
--   that every interleaving is a sequence of steps. Oneshot/Flags maps the flags to the bits. A slot
--   whose value was moved out counts as empty, where the source leaves its bytes behind.
-- - Listener: actix-async/src/util/async_channel/listener.rs. The intrusive list is a store of
--   entries by address with `next` and `prev` links; `insert`, `remove`, `notify_list`, `listen`,
--   `poll` and `drop_listener` are the functions of the source. A link to an address without an
--   entry is a fault, the value `none`. Listener/View is the abstract queue of listeners.
-- - Channel: actix-async/src/util/async_channel/mod.rs. Sender, SendFuture, WeakSender and
--   Receiver on one channel state, over the interface `QueueOps` of a message queue
--   (Channel/Queue). Channel/Mailbox is the abstract mailbox. Channel/Notified is about receivers
--   that need not wait, since they do not listen or were parked and notified.
-- - Unbounded: actix-async/src/util/async_channel/unbounded.rs. The linked blocks of 31 slots as
--   a store of blocks by address; a use of a freed block is `none`. Unbounded/Ops fills the
--   interface of the channel with it.
-- - Waker and Tasks: actix-async/src/waker.rs and `TaskRef` of actix-async/src/context_future.rs,
--   the tasks of the messages that are handled concurrently. The crate slab is behind the interface
--   `SlabOps` (Tasks/Slab), which Tasks/Table fills with a list of places.
-- - Message: actix-async/src/message.rs and the join handle of actix-async/src/context.rs, the
--   messages and the futures and streams that make messages later, over the oneshot channel.
-- - Cache: `poll_stream` and `poll_future` of actix-async/src/context_future.rs, which poll the
--   streams and delayed messages of a context.
-- - Context: actix-async/src/context_future.rs. Context/Select is the select of four futures.
--   Context/State holds the locals of `ContextFuture::run` and the points where it may stand, and
--   Context/Run one step of it from a point to the next: an await, the head of a loop, or the match
--   on the state. Context/Reach lets user code, addresses and wakers act between the steps.
--   Context/Calls are the calls of actix-async/src/context.rs, and `_create_context` of
--   actix-async/src/actor.rs; Context/Actor puts the channel, the streams and the delayed messages
--   of the crate into `run`. Context/Invariant is what holds at each point, and Context/PollRun
--   polls the future that `run` is. The mailbox of `run` is any poll function; Context/Actor makes
--   one of the receiver of the channel, which is pending from a panic of the channel on.
-- - Request: actix-async/src/request.rs, the future of a request with its timeouts.
-- - Handler: `handle` of actix-async/src/handler.rs, which answers a request.
-- - Address: actix-async/src/address.rs, the addresses and weak addresses, which join the channel,
--   a request and the oneshot channel of its answer. A future that sends is taken with the channel
--   as it finds it. Address/Shared has the oneshot cells by the numbers that messages carry, which
--   a request and the handler of its message share.
-- - Supervisor: actix-async/src/supervisor/mod.rs, the builder, the restart loop of an actor, `stop`
--   and the drop; Supervisor/Starts is `start`, and Supervisor/Worker is
--   actix-async/src/supervisor/worker.rs.
-- - Prelude: shared names, lists and the bookkeeping of wakers.
--
-- A waker is a number, and the calls that wake one are logged, newest first. A panic and a fault of
-- memory are `none`. The counters of the channel wrap at 2 ^ 64, and an index of the
-- queue steps by 2 in laps of 64.
--
-- Loops that retry run on fuel: `send_rounds` is 5 and `recv_rounds` is 4 (a call without
-- interference takes at most that many rounds, as its theorems show by their results), and a push
-- or a pop has 3 rounds, since a first failed round can only come from the end of a block. One call of
-- `poll_task` has a round for each task and each queued index, and one more, and a poll of a cache one
-- for each of its entries and one more. A poll of `run` has as many steps as it is given: seven are
-- enough once the run is on its way out, and no number is where the mailbox always has a message.
--
-- Timers, the futures of handlers, streams and the threads of a runtime belong to the runtime and to
-- the user's code: they are parameters, a poll function on a type of states. How a supervised task
-- ends, and the order in which `select!` polls, are inputs; the semaphore of a worker is the
-- number of its permits.
--
-- Not modelled: the weak memory orderings of the atomics (each access is sequentially consistent),
-- interleavings inside the calls of the listeners, the channel and the block queue beyond
-- a counter that a send has read earlier, changes of the context inside a poll of the futures of
-- the user (they come between two steps), and the threads and tasks that run the futures.

pub mod Prelude
pub mod Error
pub mod Oneshot
pub mod Listener
pub mod Channel
pub mod Unbounded
pub mod Waker
pub mod Tasks
pub mod Message
pub mod Request
pub mod Handler
pub mod Cache
pub mod Context
pub mod Address
pub mod Supervisor
