-- ===== src/Logger/Threads/Tests.antt =====
-- A thread that logs and another one that flushes, on a logger with a console and a file.
use logparse.Base.{ℕ, ◌≡◌, ◌++◌, [], ◌∷◌, refl, codes, List, Bytes, map, true, some}
use logparse.Backend.{Backend, make_backend}
use logparse.Config.{Config, LoggerMode, default_config, is_async}
use logparse.Fixtures.{
  plain_os, plain_os-IsFaithful, plain_world, message_backend, message_pieces, message_Reads,
  sample_record, cold-IsWarm,
}
use logparse.Formatter.{TimeCache, cold, format}
use logparse.Formatter.Cache.{line}
use logparse.Level.{info}
use logparse.Logger.{Logger, on_caller, make_logger, add_sink, bare_logger}
use logparse.Logger.Threads.{machine_of, file_index, threads_complete}
use logparse.Sink
use logparse.Sink.{
  Sink, FileSink, console_sink, file_sink, make_file_sink, write, flush, file_write,
}
use logparse.Sink.Disk.{content, update, open_append}
use logparse.Threads.{
  Machine, Step, format_line, write_sink, write_returns, flush_call, flush_sink, put, called,
  resting, writes, flushes, Run, start, then_step, Event, began, wrote, flushed, silent,
}
use logparse.Threads.Disk.{StartsWith}
use logparse.Threads.Events.{gather, enters, lines_of, texts}
use logparse.Threads.Lines.{asked}

abbrev shared_config : Config
shared_config = record default_config {
  mode = LoggerMode.sync;
  pattern = codes "%m!";
  enable_file = true;
  file_path = codes "a.log";
}

abbrev log_file : FileSink
log_file = record { path = codes "a.log"; stream = record { is_open = true; pending = [] } }

abbrev shared_backend : Backend
shared_backend = record message_backend {
  sinks = console_sink true ∷ file_sink log_file ∷ [];
  world = record plain_world { files = update plain_world.files (codes "a.log") (some []) };
}

abbrev shared_logger : Logger
shared_logger = record {
  m_config = shared_config;
  m_level = info;
  m_backend = on_caller shared_backend;
}

abbrev unused : ℕ → TimeCache
unused t = cold

abbrev fresh : Machine
fresh = machine_of shared_backend unused

abbrev logged_line : Bytes
logged_line = (format plain_os fresh.formatter cold [] sample_record).0

abbrev formatted : Machine
formatted = record fresh {
  progress = put fresh.progress 1 (writes logged_line 0);
  caches = put fresh.caches 1 (format plain_os fresh.formatter cold [] sample_record).1;
}

abbrev on_console : Machine
on_console =
    called formatted 1 0 (write plain_os (console_sink true) logged_line formatted.world)
      (writes logged_line 1)

abbrev in_file : Machine
in_file =
    called on_console 1 1 (write plain_os (file_sink log_file) logged_line on_console.world)
      (writes logged_line 2)

abbrev returned : Machine
returned = record in_file { progress = put in_file.progress 1 resting }

abbrev flushing : Machine
flushing = record returned { progress = put returned.progress 2 (flushes 0) }

abbrev behind_console : Machine
behind_console = called flushing 2 0 (flush (console_sink true) flushing.world) (flushes 1)

abbrev written_file : FileSink
written_file = (file_write log_file logged_line on_console.world).object

abbrev behind_file : Machine
behind_file =
    called behind_console 2 1 (flush (file_sink written_file) behind_console.world) (flushes 2)

abbrev logged_events : List Event
logged_events =
    began 1 sample_record logged_line
    ∷ wrote 1 0 logged_line
    ∷ wrote 1 1 logged_line
    ∷ silent
    ∷ silent
    ∷ flushed 2 0
    ∷ []

logged-Run : Run plain_os fresh logged_events behind_console
unfolding write flush file_write
logged-Run =
    let line_written =
      then_step
        (then_step (then_step start (format_line 1 sample_record logged_line _ refl refl) refl)
          (write_sink 1 0 logged_line (console_sink true) refl refl refl) refl)
        (write_sink 1 1 logged_line (file_sink log_file) refl refl refl) refl in
    then_step
      (then_step (then_step line_written (write_returns 1 2 logged_line refl refl) refl)
        (flush_call 2 refl) refl)
      (flush_sink 2 0 (console_sink true) refl refl) refl

file_flushed : Step plain_os behind_console (flushed 2 1) behind_file
unfolding write flush file_write
file_flushed = flush_sink 2 1 (file_sink written_file) refl refl

threads_complete_example :
    StartsWith
      (codes "a.log")
      (content (codes "a.log") plain_world
        ++ texts (gather (enters (file_index shared_config)) logged_events))
      behind_file.world
    × (lines_of 1 (gather (enters (file_index shared_config)) logged_events)
        ≡ map (line plain_os message_pieces) (gather (asked 1) logged_events))
unfolding make_logger add_sink bare_logger make_file_sink open_append is_async make_backend
    Sink.add_sink
threads_complete_example =
    threads_complete plain_os plain_os-IsFaithful shared_config plain_world shared_logger unused 1 2
      logged_events [] behind_console behind_file behind_file refl refl message_Reads refl
      (λ v. cold-IsWarm) logged-Run (unfold gather in refl) refl file_flushed start
