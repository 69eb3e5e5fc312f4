-- ===== src/Logger/Tests.antt =====
-- The logger's theorems at concrete loggers.
use logparse.Base.{◌≡◌, ◌++◌, some, arith, refl, codes, [], ◌∷◌, List, true, false}
use logparse.Async.{silent, ended, Event, Async, make_async, flush_ready}
use logparse.Async.Runs.{
  marked_events, marked-Run, stopping, stopping-Run, blocking, at_end, ending_events, ending-Run,
  missing, missing_events, missing-Run,
}
use logparse.Async.Steps.{Run, Run-append, taken}
use logparse.Backend.{Backend, make_backend, flush_sinks}
use logparse.Backend.Files.{lines_text}
use logparse.Sink
use logparse.Sink.{console_sink, file_sink, make_file_sink}
use logparse.Sink.Disk.{content, update, open_append}
use logparse.Logger.Files.{stop_complete, async_file_complete, flush_complete}
use logparse.Config.{LoggerMode, Config, is_async, default_config, default_rotation, block}
use logparse.Fixtures.{
  plain_os, plain_os-IsFaithful, plain_world, message_backend, message_pieces, message_Reads, here,
  cold-IsWarm,
}
use logparse.Level.{lt, debug, info, error}
use logparse.Logger.{
  create_record, shared, returned, Logger, Caller, on_worker, add_sink, bare_logger, make_logger,
  log,
}
use logparse.Logger.Calls
use logparse.Logger.Macros.{logger_debug, logger_error}
use logparse.Logger.Calls.{Logs, Flushes, flush, flush_backend, calls-RunsFrom}
use logparse.Logger.Lines.{Call, after, kept, log_all, deliver, outcome, sync_logger, log_all_lem}
use logparse.Logger.SyncFiles.{sync_file_complete}
use logparse.Logger.Ops.{Op, sets_level, sets_pattern, IsTuned, run, run-IsTuned}
use logparse.Logger.Setup.{behaviour, resettled, make_logger-resettled}
use logparse.Record.{blank_record}

abbrev me : Caller
me = record { now = 7; thread = 1; getpid = 2 }

abbrev calls : List Call
calls =
    record { caller = me; at = debug; location = here; text = codes "quiet" }
    ∷ record { caller = me; at = error; location = here; text = codes "loud" }
    ∷ []

log_all_lem_example :
    outcome (log_all plain_os (sync_logger default_config info message_backend) calls)
    ≡ deliver plain_os message_pieces (kept info calls) message_backend.sinks message_backend.world
log_all_lem_example =
    log_all_lem plain_os plain_os-IsFaithful default_config info message_backend calls refl
      message_Reads cold-IsWarm

-- A macro below the level does nothing, and one above it does what the call does.
macro-below :
    logger_debug plain_os (sync_logger default_config info message_backend) me here (codes "quiet")
    ≡ returned (sync_logger default_config info message_backend)
unfolding logger_debug Calls.debug log lt
macro-below = refl

macro-above :
    outcome (
      after (sync_logger default_config info message_backend) (
        logger_error plain_os
          (sync_logger default_config info message_backend)
          me
          here
          (codes "loud")))
    ≡ outcome (log_all plain_os (sync_logger default_config info message_backend) calls)
unfolding logger_error Calls.error log log_all lt
macro-above = refl

abbrev queued : Async
queued = make_async message_backend 2 block blank_record

abbrev async_logger : Logger
async_logger = record { m_config = default_config; m_level = info; m_backend = on_worker queued }

calls-RunsFrom_example :
    Logs plain_os async_logger queued
      (record (create_record me error here) { message = codes "loud" })
      false
      (log plain_os async_logger me error here (codes "loud"))
    × Flushes plain_os async_logger queued true (flush async_logger)
unfolding lt flush_ready make_async
calls-RunsFrom_example =
    calls-RunsFrom plain_os async_logger queued me error here (codes "loud") refl

-- Settings of an asynchronous logger with a file.
abbrev filing_config : Config
filing_config = record default_config {
  pattern = codes "%m!";
  enable_file = true;
  file_path = codes "a.log";
  queue_capacity = 1;
}

abbrev filing_backend : Backend
filing_backend = record message_backend {
  sinks =
      console_sink true
      ∷ file_sink
          (record { path = codes "a.log"; stream = record { is_open = true; pending = [] } })
      ∷ [];
  world = record plain_world { files = update plain_world.files (codes "a.log") (some []) };
}

abbrev filing_logger : Logger
filing_logger = record {
  m_config = filing_config;
  m_level = info;
  m_backend = on_worker (blocking filing_backend);
}

async_file_complete_example :
    content (codes "a.log") (at_end filing_backend).backend.world
    ≡ content (codes "a.log") plain_world
      ++ lines_text plain_os message_pieces (taken ending_events)
unfolding make_logger add_sink bare_logger make_file_sink open_append is_async make_async
    make_backend Sink.add_sink
async_file_complete_example =
    async_file_complete plain_os plain_os-IsFaithful filing_config plain_world filing_logger
      (blocking filing_backend) (at_end filing_backend) ending_events refl refl refl (omega arith)
      (omega arith) message_Reads refl refl (ending-Run filing_backend) refl

stop_complete_example :
    (t : Async) × (fs : List Event) × Run plain_os (stopping filing_backend) fs t
    × (t.worker ≡ ended)
    × (content (codes "a.log") t.backend.world
        ≡ content (codes "a.log") plain_world
          ++ lines_text plain_os message_pieces (taken (marked_events ++ silent ∷ [])))
unfolding make_logger add_sink bare_logger make_file_sink open_append is_async make_async
    make_backend Sink.add_sink
stop_complete_example =
    stop_complete plain_os plain_os-IsFaithful filing_config plain_world filing_logger
      (blocking filing_backend) (stopping filing_backend) (marked_events ++ silent ∷ []) refl refl
      refl (omega arith) (omega arith) message_Reads refl refl
      (Run-append plain_os (marked-Run filing_backend) (stopping-Run filing_backend)) refl

abbrev sync_config : Config
sync_config = record filing_config { mode = LoggerMode.sync }

abbrev filing_sync : Logger
filing_sync = sync_logger sync_config info filing_backend

sync_file_complete_example :
    (l : Logger) × (flush (log_all plain_os filing_sync calls) ≡ returned l)
    × (content (codes "a.log") (shared l.m_backend).world
        ≡ content (codes "a.log") plain_world
          ++ lines_text plain_os message_pieces (kept info calls))
unfolding make_logger add_sink bare_logger make_file_sink open_append is_async make_backend
    Sink.add_sink
sync_file_complete_example =
    sync_file_complete plain_os plain_os-IsFaithful sync_config plain_world filing_sync calls refl
      refl message_Reads refl

abbrev behind_write : Logger
behind_write = record filing_logger { m_backend = on_worker (missing filing_backend) }

abbrev behind_flush : Logger
behind_flush = record filing_logger {
  m_backend =
      on_worker (record (missing filing_backend) {
        backend = flush_sinks (missing filing_backend).backend;
      });
}

flush_complete_example :
    content (codes "a.log") (shared behind_flush.m_backend).world
    ≡ content (codes "a.log") plain_world
      ++ lines_text plain_os message_pieces (taken missing_events)
unfolding make_logger add_sink bare_logger make_file_sink open_append is_async make_async
    make_backend Sink.add_sink flush flush_backend flush_ready
flush_complete_example =
    flush_complete plain_os plain_os-IsFaithful filing_config plain_world filing_logger behind_write
      behind_flush (blocking filing_backend) (missing filing_backend) missing_events refl (cc) refl
      (omega arith) (omega arith) message_Reads refl refl (missing-Run filing_backend)
      (unfold taken in omega arith) refl refl refl

abbrev tuned : Logger
tuned = sync_logger (record default_config { pattern = codes "%m!" }) info message_backend

abbrev ops : List Op
ops = sets_level debug ∷ sets_pattern (codes "%v") ∷ []

run-IsTuned_example : IsTuned (run plain_os tuned ops)
run-IsTuned_example = run-IsTuned plain_os tuned ops refl

make_logger-resettled_example :
    behaviour (
      make_logger
        (resettled default_config (record default_rotation { enabled = true }) false 5)
        plain_world)
    ≡ behaviour (make_logger default_config plain_world)
make_logger-resettled_example =
    make_logger-resettled default_config (record default_rotation { enabled = true }) false 5
      plain_world
