-- ===== src/Async.antt =====
-- include/logger/async_backend.hpp and src/async_backend.cpp: the backend with a worker thread.
-- The state holds what the threads share and where each of them stands; a step is one call on the
-- queue or one atomic operation, so every interleaving of the threads is a sequence of steps. A
-- thread that waits makes no step. The worker starts when the constructor has ended, with
-- `m_running` set. The test of `flush`, two atomic loads, is one step with the sleep or the flush behind
-- it, and the writes of a line to all sinks are one step.
pub mod Steps
pub mod Queueing
pub mod Waiting
pub mod Order
pub mod Delivery
pub mod Thinning
pub mod Loss
pub mod Output
pub mod Archive
pub mod Track
pub mod Work
pub mod Solo
pub mod Producers
pub mod Stop
pub mod Wakeup
pub mod Room
pub mod Busy
pub mod Ready
pub mod Counters
pub mod Flush
pub mod Flushed
pub mod Runs
mod Tests
use logparse.Base.{ℕ, suc, zero, Bool, true, false, Bytes, List, [], ◌∷◌, ◌++◌, add_size, ◌==◌, ◌≡◌}
use logparse.Backend.{Backend, make_backend, emit, flush_sinks}
use logparse.Config.{OverflowPolicy}
use logparse.Platform.{Platform}
use logparse.Queue
use logparse.Queue.{Queue}
use logparse.Record.{LogRecord}

-- Where `worker_loop` stands.
pub data Worker : Type 0 where
  -- before the test of `m_running`, and before `m_queue.pop`
  at_test at_pop : Worker
  -- behind a pop, behind the write, and behind `fetch_add`, which gave this count
  holds : LogRecord → Worker
  wrote : LogRecord → Worker
  counted : ℕ → Worker
  -- behind a comparison that found every submitted record processed
  notifying : Worker
  -- the same in the second loop, which drains the queue
  at_drain : Worker
  drain_holds : LogRecord → Worker
  drain_wrote : LogRecord → Worker
  -- before the last flush, and at the end
  at_flush ended : Worker

-- Where `stop` stands: not called, behind the exchange of `m_running`, behind `shutdown`.
pub data Stopper : Type 0 where
  not_stopped flagged joining : Stopper

pub record Async : Type 0 where
  pub queue : Queue LogRecord
  pub running : Bool
  pub submitted : ℕ
  pub processed : ℕ
  pub worker : Worker
  pub stopper : Stopper
  -- producers between `m_queue.push` and `m_submitted.fetch_add`
  pub uncounted : ℕ
  -- callers of `flush` that sleep on `m_flush_cv`
  pub sleeping : ℕ
  pub backend : Backend

unfoldable pub make_async : Backend → ℕ → OverflowPolicy → LogRecord → Async
make_async b capacity policy blank = record {
  queue = Queue.init blank capacity policy;
  running = true;
  submitted = 0;
  processed = 0;
  worker = at_test;
  stopper = not_stopped;
  uncounted = 0;
  sleeping = 0;
  backend = b;
}

-- `fetch_add(1)` on a `std::uint64_t`
abbrev pub counted_up : ℕ → ℕ
counted_up n = add_size n 1

-- The predicate of `flush`.
unfoldable pub flush_ready : Async → Bool
flush_ready s = s.processed == s.submitted

-- What a step shows: a record that the queue took (and whether it was full), a record that the
-- worker wrote, or neither.
pub data Event : Type 0 where
  took : LogRecord → Bool → Event
  wrote_out : LogRecord → Event
  silent : Event
