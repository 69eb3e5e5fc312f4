-- ===== src/Threads.antt =====
-- Several threads on one synchronous logger: `SyncBackend::log` and `flush` of src/sync_backend.cpp,
-- the loops of `SinkManager` in src/sink.cpp, and `Formatter::set_pattern`. A thread holds a lock only
-- for one call of `format`, of `set_pattern`, or of one sink, so each of these is one step, and other
-- threads run between two sinks of one line. The buffer and the timestamp cache are the thread's own.
pub mod Events
pub mod Calm
pub mod Disk
pub mod Order
pub mod Keeper
pub mod Files
pub mod Returned
pub mod Alone
mod Tests
pub mod Patterns
pub mod Lines
use logparse.Base.{
  ℕ, suc, ◌≡◌, none, some, Option, List, [], ◌∷◌, ◌++◌, Bytes, ◌==◌, if◌then◌else◌, get_elem?, set,
}
use logparse.Formatter
use logparse.Formatter.{Formatter, TimeCache, format}
use logparse.Platform.{Platform}
use logparse.Record.{LogRecord}
use logparse.Sink.{Sink, SinkError, Outcome, write, flush}
use logparse.Sink.Disk.{World}

-- Where a thread stands: in no call, or in a loop of `SinkManager` at the sink of an index, with the
-- line in its buffer.
pub data Progress : Type 0 where
  resting : Progress
  writes : Bytes → ℕ → Progress
  flushes : ℕ → Progress

-- The formatter, the sinks and the world that the threads share, and what each has for itself.
pub record Machine : Type 0 where
  pub formatter : Formatter
  pub sinks : List Sink
  pub world : World
  pub progress : ℕ → Progress
  pub caches : ℕ → TimeCache

abbrev pub put {ℓ} : {A : Type ℓ} → (ℕ → A) → ℕ → A → ℕ → A
put f t a u = if u == t then a else f u

-- What a step shows: a line that a thread formatted, a line that a sink took from a thread, a sink
-- that threw, a sink that was flushed, a new pattern, or nothing of these.
pub data Event : Type 0 where
  began : ℕ → LogRecord → Bytes → Event
  wrote : ℕ → ℕ → Bytes → Event
  failed : ℕ → ℕ → Bytes → Event
  flushed : ℕ → ℕ → Event
  patterned : Bytes → Event
  silent : Event

-- The machine behind a call of the sink at an index, which leaves the thread as given.
abbrev pub called : Machine → ℕ → ℕ → Outcome Sink → Progress → Machine
called m t k o p = record m {
  sinks = set m.sinks k o.object;
  world = o.world;
  progress = put m.progress t p;
}

module _ {Tm : Type 0} (os : Platform Tm) where
  pub data Step (m : Machine) : Event → Machine → Type 0 where
    -- log: `tls_buffer.clear()` and `format`, then the loop of `SinkManager::write`
    format_line :
        (t : ℕ) (r : LogRecord) (line : Bytes) (warm : TimeCache)
        → m.progress t ≡ resting
        → format os m.formatter (m.caches t) [] r ≡ (line, warm)
        → Step m
            (began t r line)
            (record m { progress = put m.progress t (writes line 0); caches = put m.caches t warm })
    write_sink :
        (t k : ℕ) (line : Bytes) (s : Sink)
        → m.progress t ≡ writes line k
        → get_elem? m.sinks k ≡ some s
        → (write os s line m.world).thrown ≡ none
        → Step m (wrote t k line) (called m t k (write os s line m.world) (writes line (suc k)))
    -- an exception leaves the loop and the call
    write_throws :
        (t k : ℕ) (line : Bytes) (s : Sink) (e : SinkError)
        → m.progress t ≡ writes line k
        → get_elem? m.sinks k ≡ some s
        → (write os s line m.world).thrown ≡ some e
        → Step m (failed t k line) (called m t k (write os s line m.world) resting)
    write_returns :
        (t k : ℕ) (line : Bytes)
        → m.progress t ≡ writes line k
        → get_elem? m.sinks k ≡ none
        → Step m silent (record m { progress = put m.progress t resting })
    -- flush: the loop of `SinkManager::flush`
    flush_call :
        (t : ℕ)
        → m.progress t ≡ resting
        → Step m silent (record m { progress = put m.progress t (flushes 0) })
    flush_sink :
        (t k : ℕ) (s : Sink)
        → m.progress t ≡ flushes k
        → get_elem? m.sinks k ≡ some s
        → Step m (flushed t k) (called m t k (flush s m.world) (flushes (suc k)))
    flush_returns :
        (t k : ℕ)
        → m.progress t ≡ flushes k
        → get_elem? m.sinks k ≡ none
        → Step m silent (record m { progress = put m.progress t resting })
    set_pattern :
        (p : Bytes)
        → Step m (patterned p) (record m { formatter = Formatter.set_pattern m.formatter p })

  -- The states that a run of steps leads to, with its events, the first event first.
  pub data Run (m : Machine) : List Event → Machine → Type 0 where
    start : Run m [] m
    then_step :
        {n o : Machine} {es es' : List Event} {e : Event}
        → Run m es n
        → Step n e o
        → es' ≡ es ++ e ∷ []
        → Run m es' o
