-- ===== src/Lib.antt =====
-- A verification of the logparse logging library.
--
-- The program. A `Logger` (include/logger/logger.hpp, src/logger.cpp) drops the calls below its
-- level, makes a `LogRecord` (include/logger/record.hpp) of each other call and hands it to its
-- `Backend`. `SyncBackend` (src/sync_backend.cpp) formats the record and writes the line on the
-- caller's thread. `AsyncBackend` (src/async_backend.cpp) puts the record into a bounded `Queue`
-- (src/queue.cpp), and a worker thread takes it out, formats it and writes it. The `Formatter`
-- (src/formatter.cpp) compiles a pattern to tokens, and `SinkManager` (src/sink.cpp) writes a
-- line to the console, to files and to files that rotate. `ConfigParser` (src/parser.cpp) reads
-- the settings (include/logger/config.hpp) from `key=value` text.
--
-- The files.
-- - Base: shared names of the library, bytes and texts, lists over the native numbers, and the
--   wrap-around of `std::size_t`.
-- - Level, Config, Record: include/logger/level.hpp, config.hpp and record.hpp.
-- - Queue: the ring buffer, with one function for each operation. Queue/Fifo is the bounded list
--   that it stands for, Queue/Inv its invariant, Queue/Refine and Queue/Run the refinement for
--   one call and for sequences of calls, Queue/Closed the queue behind `shutdown`,
--   and Queue/Zero a queue of capacity zero.
-- - Decimal: `std::to_string` and `std::from_chars`.
-- - Parser: Text (`trim`, `lower`), Values (`parse_size` and the other readers of values) and
--   Apply (`apply`, `parse`, `parse_file`); Print is a printer of settings, and Document says
--   what a whole text means.
-- - Platform: the C library's time functions and fmt, as parameters. The one hypothesis on them
--   is that `{}` writes a text as it is.
-- - Formatter: Pattern (`compile_pattern`) and Append (`format` and what it calls). Reads says
--   what a pattern means, apart from the compiler.
-- - Sink: the sinks and `SinkManager`, over the files, streams and standard output of Sink/Disk.
--   How many bytes a stream hands over at a write is left open, by what waits in it and what is
--   new; so is which openings, renamings and new directories the system refuses.
--   Rotation, Archive and History are on the files of a rotating sink, Files on a file among
--   other sinks. Apart and Refusals are on what the calls of a sink leave alone. Keeper is the
--   interface between what one sink has on disk and the callers of all sinks: Whole fills it for
--   a log file and Archived for the files of a rotating sink; Keeping is on the loops of
--   `SinkManager` over it, and Steady on sinks that never throw.
-- - Backend: the state that both backends share, and `SyncBackend`. Backend/Files is on the
--   bytes that its calls leave in a log file, and Backend/Keeping on any sink with a keeper.
-- - Threads: any number of threads on one synchronous logger. A step is a call of `format`, of
--   `set_pattern` or of one sink, since each holds its lock no longer, so that other threads run
--   between two sinks of one line. Threads/Keeper takes what a sink has along a run, Files is on
--   log files and rotating files, and Disk on the bytes that a flush puts into a file. Order is
--   on the order of a thread's lines, Calm on sinks that never throw, Patterns and Lines on the
--   pattern behind each line, and Returned and Alone on a call that no other thread interrupts.
-- - Async: the threads of `AsyncBackend`. Its state holds the queue, the counters, and where the
--   worker, the producers and the caller of `stop` stand; Async/Steps has one step for each call
--   on the queue and for each atomic operation, so that a run is any interleaving. Queueing and
--   Waiting read the calls on the queue off the bounded list. Order, Delivery, Thinning and Loss
--   compare what the queue took with what the worker wrote; Output is on the log file and
--   Archive on the files of a rotating sink; Track, Work and Stop are on the end of the worker;
--   Counters, Flush, Busy, Ready, Flushed and Wakeup are on `flush`, and Room is on a producer
--   that waits. Solo is the runs of the worker alone, and Producers those in which it is known
--   whose `log` has pushed its record and not yet returned. Async/Runs has the runs that the
--   tests use.
-- - Logger: the constructor and the operations of `Logger`; Logger/Macros is the macros of
--   include/logger/macros.hpp. Logger/Housing, Prepared, Files, SyncFiles and Threads lead from the
--   settings to the bytes of the log file.
-- - Fixtures: a concrete platform and world; the modules named Tests try the theorems there.
--
-- Fuel. `Decimal.to_string` runs on as many rounds as the number plus one, and a round divides
-- the number by ten. No other definition needs fuel: the loops run over lists or count down.
--
-- Not modelled. Formatting the arguments of a call is fmt's work: the text of a message is an
-- argument. Time points and thread ids are numbers. A lock makes a call one step; memory orders
-- are those of sequential consistency. A call that waits is a result of its own or makes no
-- step. The two loads of the condition of `flush` are one step with what follows them. The
-- worker starts with the object constructed. In Async the writes of one line to all
-- sinks are one step, as are the flushes of all sinks; Threads has a step for each sink.
-- `add_sink` takes no lock, and is a call on a logger and no step of a run of several threads;
-- `set_pattern` is a step beside the threads of a synchronous logger, and not beside the worker.
-- `Logger::set_pattern` first assigns the logger's own copy of the pattern, with no lock: two such
-- calls at once are a data race, which is left out, and the step is the call on the formatter. A
-- write to an open stream, `exists`, `file_size` and `fmt::print` do not fail here.
-- The examples, the benchmark, and the copies of the headers under src/include are left out.
pub mod Base
pub mod Level
pub mod Config
pub mod Queue
pub mod Decimal
pub mod Parser
pub mod Record
pub mod Platform
pub mod Formatter
pub mod Sink
pub mod Backend
pub mod Threads
pub mod Async
pub mod Logger
pub mod Fixtures
