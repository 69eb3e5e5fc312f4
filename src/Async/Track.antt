-- ===== src/Async/Track.antt =====
-- What the flags, the queue and the worker of src/async_backend.cpp say of one another.
use logparse.Base.{ℕ, ◌≡◌, ◌≢◌, ◌<◌, size_mod, refl, ap, ◌∙◌, sym, Bool, true, false, List}
use logparse.Async.{
  Async, make_async, Worker, counted, at_drain, drain_holds, drain_wrote, at_flush, ended,
  not_stopped, joining, Event,
}
use logparse.Async.Queueing.{push-taken, push-refused, pop-record, pop-nothing}
use logparse.Async.Steps.{
  Step, push_taken, push_refused, count, test_running, test_stopped, pop_record, pop_nothing, write,
  count_processed, all_processed, notify, not_all_processed, drain_record, drain_nothing,
  drain_write, drain_count, last_flush, flush_waits, wakes, flush_passes, stop_flag, stop_shutdown,
  Run, start, then_step,
}
use logparse.Backend.{Backend}
use logparse.Config.{OverflowPolicy}
use logparse.Platform.{Platform}
use logparse.Queue.{shutdown, init}
use logparse.Queue.Inv.{IsValid, init-IsValid}
use logparse.Queue.Run.{shutdown-IsValid}
use logparse.Record.{LogRecord}

-- Whether the worker has left its first loop.
abbrev pub has_left : Worker → Bool
has_left at_drain = true
has_left (drain_holds r) = true
has_left (drain_wrote r) = true
has_left at_flush = true
has_left ended = true
has_left _ = false

-- The count that the worker compares is the one that it made.
abbrev pub CountIs : Worker → ℕ → Type 0
CountIs (counted k) n = k ≡ n
CountIs _ n = Unit

pub record Tracked (s : Async) : Type 0 where
  pub valid : IsValid s.queue
  pub halted : s.stopper ≢ not_stopped → s.running ≡ false
  pub closed : s.stopper ≡ joining → s.queue.is_shutdown ≡ true
  pub accepting : s.stopper ≢ joining → s.queue.is_shutdown ≡ false
  pub count_is : CountIs s.worker s.processed
  pub left : has_left s.worker ≡ true → s.running ≡ false

-- A step that leaves the flags alone.
moved :
    {s t : Async}
    → t.running ≡ s.running
    → t.stopper ≡ s.stopper
    → IsValid t.queue
    → t.queue.is_shutdown ≡ s.queue.is_shutdown
    → CountIs t.worker t.processed
    → (has_left t.worker ≡ true → s.running ≡ false)
    → Tracked s
    → Tracked t
moved run stop v shut c l k = record {
  valid = v;
  halted = λ h. run ∙ k.halted (λ e. h (stop ∙ e));
  closed = λ h. shut ∙ k.closed (sym stop ∙ h);
  accepting = λ h. shut ∙ k.accepting (λ e. h (stop ∙ e));
  count_is = c;
  left = λ h. run ∙ l h;
}

module _ {Tm : Type 0} (os : Platform Tm) where
  pub Step-Tracked : {s t : Async} {e : Event} → Step os s e t → Tracked s → Tracked t
  Step-Tracked {s} (push_taken r q e) k =
      let n = push-taken s.queue q k.valid r e in moved refl refl n.0 n.6 k.count_is k.left k
  Step-Tracked {s} (push_refused r q e) k =
      let same = push-refused s.queue q k.valid r e in
      moved refl refl (rw same k.valid) (ap (λ x. x.is_shutdown) same) k.count_is k.left k
  Step-Tracked (count n e) k = moved refl refl k.valid refl k.count_is k.left k
  Step-Tracked (test_running w e) k = moved refl refl k.valid refl tt (λ h. cc h) k
  Step-Tracked (test_stopped w e) k = moved refl refl k.valid refl tt (λ h. e) k
  Step-Tracked {s} (pop_record r q w e) k =
      let n = pop-record s.queue q k.valid r e in moved refl refl n.0 n.4 tt (λ h. cc h) k
  Step-Tracked {s} (pop_nothing q w e) k =
      let same = (pop-nothing s.queue q k.valid e).0 in
      moved refl refl (rw same k.valid) (ap (λ x. x.is_shutdown) same) tt (λ h. cc h) k
  Step-Tracked (write r w) k = moved refl refl k.valid refl tt (λ h. cc h) k
  Step-Tracked (count_processed r w) k = moved refl refl k.valid refl refl (λ h. cc h) k
  Step-Tracked (all_processed n w e) k = moved refl refl k.valid refl tt (λ h. cc h) k
  Step-Tracked (notify w) k = moved refl refl k.valid refl tt (λ h. cc h) k
  Step-Tracked (not_all_processed n w e) k = moved refl refl k.valid refl tt (λ h. cc h) k
  Step-Tracked {s} (drain_record r q w e) k =
      let n = pop-record s.queue q k.valid r e in moved refl refl n.0 n.4 tt (λ h. k.left (rw w)) k
  Step-Tracked {s} (drain_nothing q w e) k =
      let same = (pop-nothing s.queue q k.valid e).0 in
      moved refl refl (rw same k.valid) (ap (λ x. x.is_shutdown) same) tt (λ h. k.left (rw w)) k
  Step-Tracked (drain_write r w) k = moved refl refl k.valid refl tt (λ h. k.left (rw w)) k
  Step-Tracked (drain_count r w) k = moved refl refl k.valid refl tt (λ h. k.left (rw w)) k
  Step-Tracked (last_flush w) k = moved refl refl k.valid refl tt (λ h. k.left (rw w)) k
  Step-Tracked (flush_waits e) k = moved refl refl k.valid refl k.count_is k.left k
  Step-Tracked (wakes n e) k = moved refl refl k.valid refl k.count_is k.left k
  Step-Tracked (flush_passes e) k = moved refl refl k.valid refl k.count_is k.left k
  Step-Tracked (stop_flag e) k = record {
    valid = k.valid;
    halted = λ h. refl;
    closed = λ h. cc h;
    accepting = λ h. k.accepting (λ j. cc (k.halted (λ i. cc (i, j)), e));
    count_is = k.count_is;
    left = λ h. refl;
  }
  Step-Tracked {s} (stop_shutdown e) k = record {
    valid = shutdown-IsValid k.valid;
    halted = λ h. k.halted (λ i. cc (i, e));
    closed = λ h. unfold shutdown in refl;
    accepting = λ h. absurd (h refl);
    count_is = k.count_is;
    left = k.left;
  }

  pub Run-Tracked : {s t : Async} {es : List Event} → Run os s es t → Tracked s → Tracked t
  Run-Tracked start k = k
  Run-Tracked (then_step r st e) k = Step-Tracked st (Run-Tracked r k)

pub make_async-Tracked :
    (b : Backend) (n : ℕ) (p : OverflowPolicy) (blank : LogRecord)
    → 0 < n
    → n < size_mod
    → Tracked (make_async b n p blank)
unfolding make_async init
make_async-Tracked b n p blank pos h = record {
  valid = init-IsValid blank n p pos h;
  halted = λ e. absurd (e refl);
  closed = λ e. cc e;
  accepting = λ e. refl;
  count_is = tt;
  left = λ e. cc e;
}
