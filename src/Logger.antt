-- ===== src/Logger.antt =====
-- include/logger/logger.hpp and src/logger.cpp: the interface of the library. The formatter and the
-- sinks, which a logger shares with its backend, stand in the backend's state. The text of a call is
-- what `fmt::format_to` makes of its arguments. With the asynchronous backend, `log` is the push and
-- the count of `Async.Steps` with nothing in between.
pub mod Calls
pub mod Macros
pub mod Lines
pub mod Ops
pub mod Setup
pub mod Housing
pub mod Prepared
pub mod Files
pub mod SyncFiles
pub mod Threads
mod Tests
use logparse.Base.{
  ℕ, ◌%◌, ◌^◌, Bool, true, false, List, [], ◌∷◌, Option, none, some, Bytes, if◌then◌else◌,
}
use logparse.Async.{Async, make_async, counted_up}
use logparse.Backend.{Backend, make_backend, emit}
use logparse.Config.{Config, is_async}
use logparse.Formatter.{make_formatter, set_pattern as set_formatter_pattern}
use logparse.Level
use logparse.Level.{Level, lt}
use logparse.Platform.{Platform}
use logparse.Queue
use logparse.Queue.{Queue}
use logparse.Queue.Fifo.{PushResult}
use logparse.Record.{LogRecord, blank_record, SourceLocation}
use logparse.Sink
use logparse.Sink.{Sink, SinkError, console_sink, file_sink, FileSink, Made, make_file_sink}
use logparse.Sink.Disk.{World}

-- The object behind `m_backend`.
pub data AnyBackend : Type 0 where
  on_caller : Backend → AnyBackend
  on_worker : Async → AnyBackend

-- What the logger shares with the backend.
abbrev pub shared : AnyBackend → Backend
shared (on_caller b) = b
shared (on_worker a) = a.backend

abbrev pub with_shared : AnyBackend → Backend → AnyBackend
with_shared (on_caller _) b = on_caller b
with_shared (on_worker a) b = on_worker (record a { backend = b })

pub record Logger : Type 0 where
  pub m_config : Config
  pub m_level : Level
  pub m_backend : AnyBackend

unfoldable pub add_sink : Logger → Sink → Logger
add_sink l s =
    let b = shared l.m_backend in
    record l { m_backend = with_shared l.m_backend (record b { sinks = Sink.add_sink b.sinks s }) }

-- The constructor up to the sinks.
unfoldable pub bare_logger : Config → World → Logger
bare_logger c w =
    let b = make_backend (make_formatter c.pattern) [] w in
    record {
      m_config = c;
      m_level = c.level;
      m_backend =
          if is_async c
          then on_worker (make_async b c.queue_capacity c.overflow_policy blank_record)
          else on_caller b;
    }

abbrev pub with_console : Config → Logger → Logger
with_console c l = if c.enable_console then add_sink l (console_sink c.colored_output) else l

-- The file sink, on the world that its constructor leaves.
abbrev pub with_file : Logger → World → Option SinkError → Option FileSink → Made Logger
with_file l w thrown none = record { made = none; world = w; thrown = thrown }
with_file l w thrown (some f) =
    let b = shared l.m_backend in
    let moved = record l { m_backend = with_shared l.m_backend (record b { world = w }) } in
    record { made = some (add_sink moved (file_sink f)); world = w; thrown = none }

-- The constructor; what the file sink throws leaves it.
unfoldable pub make_logger : Config → World → Made Logger
make_logger c w =
    let l = with_console c (bare_logger c w) in
    let file = make_file_sink w c.file_path in
    if c.enable_file
    then with_file l file.world file.thrown file.made
    else record { made = some l; world = w; thrown = none }

unfoldable pub set_level : Logger → Level → Logger
set_level l level = record l { m_level = level }

unfoldable pub level : Logger → Level
level l = l.m_level

unfoldable pub config : Logger → Config
config l = l.m_config

unfoldable pub set_pattern : Logger → Bytes → Logger
set_pattern l p =
    let b = shared l.m_backend in
    record l {
      m_config = record (l.m_config) { pattern = p };
      m_backend =
          with_shared l.m_backend (record b { formatter = set_formatter_pattern b.formatter p });
    }

-- The clock, `std::this_thread::get_id` and `getpid` at a call.
pub record Caller : Type 0 where
  pub now : ℕ
  pub thread : ℕ
  pub getpid : ℕ

-- The cast to `std::uint32_t`.
unfoldable pub process_id : Caller → ℕ
process_id c = c.getpid % 2 ^ 32

unfoldable pub create_record : Caller → Level → SourceLocation → LogRecord
create_record c l location = record blank_record {
  timestamp = c.now;
  level = l;
  thread_id = c.thread;
  process_id = process_id c;
  file = location.file_name;
  function = location.function_name;
  line = location.line;
}

-- How a call of `log` ends: it returns, it throws, it sleeps in a full queue, or it divides by zero.
pub data LogResult (A : Type 0) : Type 0 where
  returned : A → LogResult A
  threw : A → SinkError → LogResult A
  sleeps fault : LogResult A

abbrev pub ended_with : Backend × Option SinkError → LogResult AnyBackend
ended_with (b, none) = returned (on_caller b)
ended_with (b, some e) = threw (on_caller b) e

-- `AsyncBackend::log`
abbrev pub count_pushed : Async → PushResult (Queue LogRecord) → LogResult AnyBackend
count_pushed a PushResult.blocked = sleeps
count_pushed a PushResult.fault = fault
count_pushed a (PushResult.returned true q) =
    returned (on_worker (record a { queue = q; submitted = counted_up a.submitted }))
count_pushed a (PushResult.returned false q) = returned (on_worker (record a { queue = q }))

abbrev pub logged : Logger → LogResult AnyBackend → LogResult Logger
logged l (returned b) = returned (record l { m_backend = b })
logged l (threw b e) = threw (record l { m_backend = b }) e
logged l sleeps = sleeps
logged l fault = fault

module _ {Tm : Type 0} (os : Platform Tm) where
  unfoldable pub submit : AnyBackend → LogRecord → LogResult AnyBackend
  submit (on_caller b) r = ended_with (emit os b r)
  submit (on_worker a) r = count_pushed a (Queue.push a.queue r)

  unfoldable pub log : Logger → Caller → Level → SourceLocation → Bytes → LogResult Logger
  log l c at location text =
      if lt at l.m_level
      then returned l
      else logged l (submit l.m_backend (record (create_record c at location) { message = text }))
