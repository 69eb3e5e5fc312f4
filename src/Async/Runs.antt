-- ===== src/Async/Runs.antt =====
-- Runs of the asynchronous backend, at which the theorems are tried.
use logparse.Base.{refl, true, false, List, [], ◌∷◌}
use logparse.Async.{
  Async, make_async, at_test, holds, ended, flagged, joining, Event, took, wrote_out, silent,
  flush_ready,
}
use logparse.Async.Steps.{
  Run, start, then_step, push_taken, count, test_running, test_stopped, pop_record, write,
  count_processed, all_processed, not_all_processed, notify, drain_nothing, last_flush, flush_waits,
  stop_flag, stop_shutdown,
}
use logparse.Backend.{Backend, emit, flush_sinks}
use logparse.Config.{block, drop_oldest}
use logparse.Fixtures.{plain_os, message_backend, sample_record}
use logparse.Queue.{Queue, init, push, pop, shutdown}
use logparse.Record.{LogRecord, blank_record}

abbrev pub one_slot : Queue LogRecord
one_slot = record {
  buffer = sample_record ∷ [];
  head = 0;
  tail = 0;
  size = 1;
  capacity = 1;
  policy = drop_oldest;
  is_shutdown = false;
}

abbrev pub overwriting : Async
overwriting = make_async message_backend 1 drop_oldest blank_record

abbrev pub overwritten : Async
overwritten = record overwriting { queue = one_slot; submitted = 2; uncounted = 0 }

abbrev pub overwriting_events : List Event
overwriting_events = took sample_record false ∷ silent ∷ took sample_record true ∷ silent ∷ []

-- Two pushes into the one slot, each counted.
pub overwriting-Run : Run plain_os overwriting overwriting_events overwritten
unfolding push init make_async
overwriting-Run =
    let pushed = then_step start (push_taken sample_record one_slot refl) refl in
    let first = then_step pushed (count 0 refl) refl in
    let again = then_step first (push_taken sample_record one_slot refl) refl in
    then_step again (count 0 refl) refl

abbrev pub full_slot : Queue LogRecord
full_slot = record one_slot { policy = block }

abbrev pub free_slot : Queue LogRecord
free_slot = record full_slot { size = 0 }

abbrev pub working_events : List Event
working_events = took sample_record false ∷ silent ∷ silent ∷ silent ∷ []

abbrev pub marked_events : List Event
marked_events = took sample_record false ∷ silent ∷ silent ∷ silent ∷ silent ∷ []

abbrev pub ending_events : List Event
ending_events =
    took sample_record false
    ∷ silent
    ∷ silent
    ∷ silent
    ∷ wrote_out sample_record
    ∷ silent
    ∷ silent
    ∷ silent
    ∷ silent
    ∷ silent
    ∷ silent
    ∷ silent
    ∷ silent
    ∷ []

abbrev pub missing_events : List Event
missing_events =
    took sample_record false
    ∷ silent
    ∷ silent
    ∷ wrote_out sample_record
    ∷ silent
    ∷ silent
    ∷ silent
    ∷ silent
    ∷ []

module _ (b : Backend) where
  abbrev pub blocking : Async
  blocking = make_async b 1 block blank_record

  abbrev pub filled : Async
  filled = record blocking { queue = full_slot; submitted = 1 }

  -- The one slot is full.
  pub filled-Run : Run plain_os blocking (took sample_record false ∷ silent ∷ []) filled
  unfolding push init make_async
  filled-Run =
      then_step (then_step start (push_taken sample_record full_slot refl) refl) (count 0 refl) refl

  abbrev pub in_work : Async
  in_work = record blocking { queue = free_slot; submitted = 1; worker = holds sample_record }

  -- The worker has popped the one record.
  pub working-Run : Run plain_os blocking working_events in_work
  unfolding pop make_async
  working-Run =
      let tested = then_step filled-Run (test_running refl refl) refl in
      then_step tested (pop_record sample_record free_slot refl refl) refl

  abbrev pub at_end : Async
  at_end = record in_work {
    queue = record free_slot { is_shutdown = true };
    processed = 1;
    running = false;
    stopper = joining;
    worker = ended;
    backend = flush_sinks (emit plain_os b sample_record).0;
  }

  -- The worker writes the record, the backend is stopped, and the worker ends.
  pub ending-Run : Run plain_os blocking ending_events at_end
  unfolding pop shutdown make_async
  ending-Run =
      let put = then_step working-Run (write sample_record refl) refl in
      let done = then_step put (count_processed sample_record refl) refl in
      let all = then_step done (all_processed 1 refl refl) refl in
      let told = then_step all (notify refl) refl in
      let marked = then_step told (stop_flag refl) refl in
      let shut = then_step marked (stop_shutdown refl) refl in
      let tested = then_step shut (test_stopped refl refl) refl in
      let drained =
        then_step tested (drain_nothing (record free_slot { is_shutdown = true }) refl refl) refl in
      then_step drained (last_flush refl) refl

  abbrev pub marked : Async
  marked = record in_work { running = false; stopper = flagged }

  -- `stop` is called while the worker holds the record.
  pub marked-Run : Run plain_os blocking marked_events marked
  unfolding make_async
  marked-Run = then_step working-Run (stop_flag refl) refl

  abbrev pub stopping : Async
  stopping = record marked { queue = record free_slot { is_shutdown = true }; stopper = joining }

  pub stopping-Run : Run plain_os marked (silent ∷ []) stopping
  unfolding shutdown
  stopping-Run = then_step start (stop_shutdown refl) refl

  abbrev pub missing : Async
  missing = record in_work {
    processed = 1;
    worker = at_test;
    sleeping = 1;
    backend = (emit plain_os b sample_record).0;
  }

  -- `flush` is called before the push of the record is counted, and behind its write.
  pub missing-Run : Run plain_os blocking missing_events missing
  unfolding push pop init make_async flush_ready
  missing-Run =
      let pushed = then_step start (push_taken sample_record full_slot refl) refl in
      let tested = then_step pushed (test_running refl refl) refl in
      let popped = then_step tested (pop_record sample_record free_slot refl refl) refl in
      let put = then_step popped (write sample_record refl) refl in
      let done = then_step put (count_processed sample_record refl) refl in
      let differs = then_step done (not_all_processed 1 refl refl) refl in
      let asleep = then_step differs (flush_waits refl) refl in then_step asleep (count 0 refl) refl
