-- ===== src/Backend.antt =====
-- include/logger/backend.hpp, include/logger/sync_backend.hpp and src/sync_backend.cpp: the formatter
-- and the sinks that a backend shares with its logger, and the backend that works on the caller's
-- thread. `src/sync_backend.hpp` repeats the code of `src/sync_backend.cpp`.
pub mod Emit
pub mod Keeping
pub mod Files
use logparse.Base.{[], List, Bytes, Option}
use logparse.Formatter.{Formatter, TimeCache, cold, format}
use logparse.Platform.{Platform}
use logparse.Record.{LogRecord}
use logparse.Sink.{Sink, SinkError, write_all, flush_all}
use logparse.Sink.Disk.{World}

-- What a backend works on: `m_formatter`, `m_sinks`, the world, and the thread-local variables of
-- the thread that formats.
pub record Backend : Type 0 where
  pub formatter : Formatter
  pub sinks : List Sink
  pub world : World
  pub tls_buffer : Bytes
  pub cache : TimeCache

-- The constructor, on a thread that has formatted nothing.
unfoldable pub make_backend : Formatter → List Sink → World → Backend
make_backend formatter sinks world = record {
  formatter = formatter;
  sinks = sinks;
  world = world;
  tls_buffer = [];
  cache = cold;
}

module _ {Tm : Type 0} (os : Platform Tm) where
  -- `SyncBackend::log`, with what it throws; the worker of the other backend makes the same calls.
  unfoldable pub emit : Backend → LogRecord → Backend × Option SinkError
  emit b r =
      let (line, warm) = format os b.formatter b.cache [] r in
      let o = write_all os b.sinks line b.world in
      (record b { sinks = o.object; world = o.world; tls_buffer = line; cache = warm }, o.thrown)

unfoldable pub flush_sinks : Backend → Backend
flush_sinks b =
    let (sinks, world) = flush_all b.sinks b.world in record b { sinks = sinks; world = world }
