-- ===== src/Async/Flush.antt =====
-- When `flush` may go on.
use logparse.Base.{
  ◌↔◌, ℕ, suc, ◌≡◌, ◌<◌, ==_iff, size_mod, refl, ap, Bool, true, false, List, [], ◌∷◌, ◌++◌, arith,
  length,
}
use logparse.Backend.{Backend}
use logparse.Async.{Async, make_async, flush_ready, Event, took, wrote_out, silent}
use logparse.Async.Counters.{
  Counted, unprocessed, idle, popped, processing, counting_up, length-taken,
}
use logparse.Async.Queueing.{push-taken, push-refused, pop-nothing}
use logparse.Async.Steps.{
  Step, push_taken, push_refused, count, test_running, test_stopped, pop_record, pop_nothing, write,
  count_processed, all_processed, notify, not_all_processed, drain_record, drain_nothing,
  drain_write, drain_count, last_flush, flush_waits, wakes, flush_passes, stop_flag, stop_shutdown,
  Run, start, then_step, taken, dropped, dropped-concat, full,
}
use logparse.Config.{OverflowPolicy}
use logparse.Platform.{Platform}
use logparse.Queue.{shutdown, init}
use logparse.Queue.Inv.{IsValid, init-IsValid}
use logparse.Queue.Run.{shutdown-IsValid}
use logparse.Record.{LogRecord}

-- A write leaves the counters alone.
writes :
    (es : List Event) {s t : Async} (r : LogRecord)
    → t.queue ≡ s.queue
    → t.submitted ≡ s.submitted
    → t.uncounted ≡ s.uncounted
    → t.processed ≡ s.processed
    → unprocessed t.worker ≡ unprocessed s.worker
    → Counted es s
    → Counted (es ++ wrote_out r ∷ []) t
unfolding taken dropped
writes es {s} {t} r q a b p u c = record {
  valid = rw q c.valid;
  submissions = omega (arith, length-taken es (wrote_out r), c.submissions, a, b);
  processings =
      rw (q, u, p)
        (omega
          (arith, length-taken es (wrote_out r), dropped-concat es (wrote_out r), c.processings));
}

-- The queue takes a record.
takes :
    (es : List Event) {s t : Async} (r : LogRecord) (f : Bool)
    → full s.queue ≡ f
    → IsValid t.queue
    → ((full s.queue ≡ true) → t.queue.size ≡ s.queue.size)
    → ((full s.queue ≡ false) → t.queue.size ≡ suc s.queue.size)
    → t.submitted ≡ s.submitted
    → t.uncounted ≡ suc s.uncounted
    → t.processed ≡ s.processed
    → t.worker ≡ s.worker
    → Counted es s
    → Counted (es ++ took r f ∷ []) t
unfolding taken dropped
takes es {s} {t} r true e v h k a b p w c = record {
  valid = v;
  submissions = omega (arith, length-taken es (took r true), c.submissions, a, b);
  processings =
      rw (w, p, h e)
        (omega
          (arith, length-taken es (took r true), dropped-concat es (took r true), c.processings));
}
takes es {s} {t} r false e v h k a b p w c = record {
  valid = v;
  submissions = omega (arith, length-taken es (took r false), c.submissions, a, b);
  processings =
      rw (w, p, k e)
        (omega
          (arith, length-taken es (took r false), dropped-concat es (took r false), c.processings));
}

module _ {Tm : Type 0} (os : Platform Tm) where
  -- Every step keeps the counts, as long as fewer records than a counter holds were taken.
  pub Step-Counted :
      (es : List Event) {s t : Async} {e : Event}
      → Step os s e t
      → length (taken es) < size_mod
      → Counted es s
      → Counted (es ++ e ∷ []) t
  unfolding taken dropped
  Step-Counted es {s} (push_taken r q e) h c =
      let n = push-taken s.queue q c.valid r e in
      takes es r (full s.queue) refl n.0 n.3 n.4 refl refl refl refl c
  Step-Counted es {s} (push_refused r q e) h c =
      idle es (push-refused s.queue q c.valid r e) refl refl refl refl c
  Step-Counted es {s} (count n e) h c =
      let up =
        counting_up {n = s.submitted} {m = length (taken es)} (omega (arith, c.submissions, e)) h in
      record {
        valid = c.valid;
        submissions = omega (arith, up, length-taken es silent, c.submissions, e);
        processings =
            omega (arith, length-taken es silent, dropped-concat es silent, c.processings);
      }
  Step-Counted es (test_running w e) h c = idle es refl refl refl refl (rw w) c
  Step-Counted es (test_stopped w e) h c = idle es refl refl refl refl (rw w) c
  Step-Counted es (pop_record r q w e) h c = popped es r e refl refl refl (rw w) refl c
  Step-Counted es {s} (pop_nothing q w e) h c =
      idle es (pop-nothing s.queue q c.valid e).0 refl refl refl (rw w) c
  Step-Counted es (write r w) h c = writes es r refl refl refl refl (rw w) c
  Step-Counted es (count_processed r w) h c = processing es refl refl refl refl (rw w) refl h c
  Step-Counted es (all_processed n w e) h c = idle es refl refl refl refl (rw w) c
  Step-Counted es (notify w) h c = idle es refl refl refl refl (rw w) c
  Step-Counted es (not_all_processed n w e) h c = idle es refl refl refl refl (rw w) c
  Step-Counted es (drain_record r q w e) h c = popped es r e refl refl refl (rw w) refl c
  Step-Counted es {s} (drain_nothing q w e) h c =
      idle es (pop-nothing s.queue q c.valid e).0 refl refl refl (rw w) c
  Step-Counted es (drain_write r w) h c = writes es r refl refl refl refl (rw w) c
  Step-Counted es (drain_count r w) h c = processing es refl refl refl refl (rw w) refl h c
  Step-Counted es (last_flush w) h c = idle es refl refl refl refl (rw w) c
  Step-Counted es (flush_waits e) h c = idle es refl refl refl refl refl c
  Step-Counted es (wakes n e) h c = idle es refl refl refl refl refl c
  Step-Counted es (flush_passes e) h c = idle es refl refl refl refl refl c
  Step-Counted es (stop_flag e) h c = idle es refl refl refl refl refl c
  Step-Counted es {s} (stop_shutdown e) h c = record {
    valid = shutdown-IsValid c.valid;
    submissions = omega (arith, length-taken es silent, c.submissions);
    processings =
        unfold shutdown in
        omega (arith, length-taken es silent, dropped-concat es silent, c.processings);
  }

  pub Run-Counted :
      {s t : Async} {es : List Event}
      → Run os s es t
      → length (taken es) < size_mod
      → Counted [] s
      → Counted es t
  Run-Counted start h c = c
  Run-Counted (then_step {es} {es'} {e} r st k) h c =
      let before : length (taken es) < size_mod =
        omega (arith, ap (λ l. length (taken l)) k, length-taken es e) in
      rw k (Step-Counted es st before (Run-Counted r before c))

  module _ (b : Backend) (n : ℕ) (p : OverflowPolicy) (blank : LogRecord) where
    pub make_async-Counted : 0 < n → n < size_mod → Counted [] (make_async b n p blank)
    unfolding make_async taken dropped init
    make_async-Counted pos h = record {
      valid = init-IsValid blank n p pos h;
      submissions = refl;
      processings = refl;
    }

    -- Once every push is counted, `flush` may go on just if the queue is empty, the worker has
    -- counted what it popped, and no record was ever overwritten in a full queue. The capacity is
    -- positive and fits `std::size_t`, and fewer than 2 ^ 64 records were taken.
    pub flush_ready_iff :
        {s : Async} {es : List Event}
        → 0 < n
        → n < size_mod
        → Run os (make_async b n p blank) es s
        → length (taken es) < size_mod
        → s.uncounted ≡ 0
        → (flush_ready s ≡ true)
          ↔ ((s.queue.size ≡ 0) × (unprocessed s.worker ≡ 0) × (dropped es ≡ 0))
    unfolding flush_ready
    flush_ready_iff {s} {es} pos h r k u =
        let c = Run-Counted r k (make_async-Counted pos h) in
        let same = ==_iff s.processed s.submitted in
        (
          (λ e. (
            omega (arith, same.0 e, c.submissions, c.processings, u),
            omega (arith, same.0 e, c.submissions, c.processings, u),
            omega (arith, same.0 e, c.submissions, c.processings, u),
          )),
          (λ (a, d, o). same.1 (omega (arith, c.submissions, c.processings, u, a, d, o))),
        )
