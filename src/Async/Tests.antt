-- ===== src/Async/Tests.antt =====
-- Each theorem on the asynchronous backend at one of the runs of `Async.Runs`.
use mathlib.Core.List.{Sublistᴰ}
use logparse.Base.{
  ℕ, ◌≢◌, ◌≡◌, ◌↔◌, ◌≤◌, ◌+◌, ◌*◌, refl, true, false, [], ◌∷◌, ◌++◌, arith, codes, Bytes, length,
}
use logparse.Async.{Async, holds, ended, silent, make_async, flush_ready}
use logparse.Async.Counters.{unprocessed}
use logparse.Async.Flush.{flush_ready_iff}
use logparse.Async.Delivery.{written_in_order, all_written}
use logparse.Async.Flushed.{Early, early_flush}
use logparse.Async.Loss.{written_in_part}
use logparse.Async.Order.{in_hand}
use logparse.Async.Output.{file_text}
use logparse.Async.Archive.{archive_complete}
use logparse.Backend.Keeping.{Keeping}
use logparse.Sink.Archived.{Archived, archive_keeper}
use logparse.Sink.Steady.{IsSteady}
use logparse.Sink.Others.{OthersAre}
use logparse.Async.Ready.{flush_returns}
use logparse.Queue
use logparse.Queue.Fifo.{PushResult}
use logparse.Async.Room.{log_returns}
use logparse.Async.Runs.{
  filled, filled-Run, one_slot, overwritten, overwriting_events, overwriting-Run, free_slot,
  working_events, ending_events, in_work, working-Run, at_end, ending-Run, marked, marked-Run,
  stopping, stopping-Run,
}
use logparse.Async.Steps.{Run-append, taken, written, dropped}
use logparse.Async.Solo.{Solo}
use logparse.Async.Stop.{stop_returns, worker_steps-le}
use logparse.Async.Wakeup.{Lost, lost_wakeup}
use logparse.Async.Work.{work_left, worker_steps}
use logparse.Backend.{Backend}
use logparse.Backend.Files.{Filing, lines_text}
use logparse.Config.{block, drop_oldest}
use logparse.Fixtures.{
  plain_os, plain_os-IsFaithful, message_backend, message_pieces, message_Reads, cold-IsWarm,
  sample_record, small_log, others_null, small_log-Archived,
}
use logparse.Queue.Refine.{items}
use logparse.Record.{blank_record}
use logparse.Sink.{FileSink, console_sink, file_sink, null_sink, rotating_sink}

flush_ready_iff_example : (flush_ready overwritten ≡ true) ↔ (
    (overwritten.queue.size ≡ 0)
    × (unprocessed overwritten.worker ≡ 0)
    × (dropped overwriting_events ≡ 0))
flush_ready_iff_example =
    flush_ready_iff plain_os message_backend 1 drop_oldest blank_record (omega arith) (omega arith)
      overwriting-Run (unfold taken in omega arith) refl

written_in_order_example :
    taken working_events
    ≡ written working_events ++ (in_hand (holds sample_record) ++ items free_slot)
written_in_order_example =
    written_in_order plain_os message_backend 1 block blank_record (omega arith) (omega arith) (cc)
      (working-Run message_backend)

all_written_example : written ending_events ≡ taken ending_events
all_written_example =
    all_written plain_os message_backend 1 block blank_record (omega arith) (omega arith) refl
      (ending-Run message_backend) refl

written_in_part_example :
    Sublistᴰ
      (written overwriting_events ++ (in_hand overwritten.worker ++ items one_slot))
      (taken overwriting_events)
    × (length (written overwriting_events ++ (in_hand overwritten.worker ++ items one_slot))
          + dropped overwriting_events
        ≡ length (taken overwriting_events))
written_in_part_example =
    written_in_part plain_os message_backend 1 drop_oldest blank_record (omega arith) (omega arith)
      overwriting-Run

abbrev log_file : FileSink
log_file = record { path = codes "a.log"; stream = record { is_open = true; pending = [] } }

-- Lines to the console and to a file.
abbrev filing_backend : Backend
filing_backend = record message_backend {
  sinks = console_sink false ∷ file_sink log_file ∷ null_sink ∷ [];
}

abbrev FiledAs : Bytes → Backend → Type 0
FiledAs = Filing plain_os (codes "%m!") (console_sink false ∷ []) (null_sink ∷ []) (codes "a.log")

filing_backend-FiledAs : FiledAs [] filing_backend
filing_backend-FiledAs = record {
  file = log_file;
  pattern = refl;
  warm = cold-IsWarm;
  sinks = refl;
  at_path = refl;
  is_open = refl;
  text = refl;
}

file_text_example :
    FiledAs
      (lines_text plain_os message_pieces (written ending_events))
      (at_end filing_backend).backend
file_text_example =
    file_text plain_os plain_os-IsFaithful message_Reads (tt, tt) (tt, tt) filing_backend 1 block
      blank_record filing_backend-FiledAs (ending-Run filing_backend)

stop_returns_example :
    (t : Async) × (k : ℕ) × Solo plain_os (stopping message_backend) k t
    × (t.worker ≡ ended)
    × (k ≤ work_left (stopping message_backend))
stop_returns_example =
    stop_returns plain_os message_backend 1 block blank_record (omega arith) (omega arith)
      (Run-append plain_os (marked-Run message_backend) (stopping-Run message_backend)) refl

worker_steps-le_example :
    worker_steps plain_os (stopping-Run message_backend) + work_left (stopping message_backend)
    ≤ work_left (marked message_backend) + 3 * length (taken (silent ∷ []))
worker_steps-le_example =
    worker_steps-le plain_os message_backend 1 block blank_record (omega arith) (omega arith)
      (marked-Run message_backend) refl (stopping-Run message_backend)

log_returns_example :
    (t : Async) × (k : ℕ) × Solo plain_os (filled message_backend) k t
    × (Queue.push t.queue sample_record ≢ PushResult.blocked)
    × (k ≤ 6)
log_returns_example =
    log_returns plain_os sample_record message_backend 1 block blank_record (omega arith)
      (omega arith) refl (filled-Run message_backend)

flush_returns_example :
    (t : Async) × (k : ℕ) × Solo plain_os (in_work message_backend) k t
    × (flush_ready t ≡ true)
    × (t.sleeping ≡ 0)
unfolding flush_ready make_async
flush_returns_example =
    flush_returns plain_os message_backend 1 block blank_record (omega arith) (omega arith)
      (working-Run message_backend) (unfold taken in omega arith) refl refl (unfold dropped in refl)
      refl

lost_wakeup_example : Lost plain_os message_backend 1 drop_oldest blank_record
lost_wakeup_example =
    lost_wakeup plain_os message_backend 1 drop_oldest blank_record (omega arith) (omega arith)
      sample_record

early_flush_example :
    (e : Early plain_os message_backend 1 drop_oldest blank_record) × (e.first ≡ sample_record)
    × (e.second ≡ record sample_record { line = 13 })
early_flush_example =
    early_flush plain_os message_backend 1 drop_oldest blank_record (omega arith) (omega arith)
      sample_record (record sample_record { line = 13 })

-- A backend with a rotating file and a null sink.
abbrev archiving : Backend
archiving = record message_backend { sinks = rotating_sink small_log ∷ null_sink ∷ [] }

null-IsSteady : OthersAre IsSteady 0 archiving.sinks
null-IsSteady = others_null IsSteady (rotating_sink small_log) tt

archiving-Keeping :
    Keeping plain_os 0
      (Archived 0 (codes "a.log") 0)
      (archive_keeper plain_os)
      (codes "%m!")
      []
      archiving
archiving-Keeping = record {
  pattern = refl;
  warm = cold-IsWarm;
  safe = (small_log-Archived, null-IsSteady);
}

archive_complete_example :
    Archived 0
      (codes "a.log")
      0
      ([] ++ lines_text plain_os message_pieces (taken ending_events))
      (at_end archiving).backend.sinks
      (at_end archiving).backend.world
archive_complete_example =
    archive_complete plain_os plain_os-IsFaithful message_Reads archiving 1 block blank_record
      (omega arith) (omega arith) refl archiving-Keeping (ending-Run archiving) refl
