-- ===== src/Async/Wakeup.antt =====
-- A caller of `flush` in src/async_backend.cpp that is not woken. The worker notifies only if the
-- counters agree when it has counted a record; a producer that counts its push later makes them
-- agree without a notification.
use logparse.Base.{ℕ, ◌<◌, ◌≡◌, size_mod, refl, Bool, true, false, List, arith}
use logparse.Async.{Async, make_async, Worker, at_test, at_pop, flush_ready, Event}
use logparse.Async.Queueing.{push-taken, pop-record}
use logparse.Async.Waiting.{pop-filled, push-roomy}
use logparse.Async.Steps.{
  push_taken, count, test_running, pop_record, write, count_processed, not_all_processed,
  flush_waits, Run, start, then_step,
}
use logparse.Async.Track.{make_async-Tracked}
use logparse.Backend.{Backend}
use logparse.Config.{OverflowPolicy}
use logparse.Platform.{Platform}
use logparse.Queue.{init}
use logparse.Record.{LogRecord}

abbrev pub awaits : Worker → Bool
awaits at_test = true
awaits at_pop = true
awaits _ = false

-- Every submitted record is processed, and the worker waits for the next one.
pub record IsIdle (s : Async) : Type 0 where
  pub awaiting : awaits s.worker ≡ true
  pub drained : s.queue.size ≡ 0
  pub all_counted : s.uncounted ≡ 0
  pub on : s.running ≡ true

module _ {Tm : Type 0} (os : Platform Tm) where
  module _ (b : Backend) (n : ℕ) (p : OverflowPolicy) (blank : LogRecord) where
    -- The state of a lost wake-up: a caller of `flush` sleeps, although its condition holds.
    pub record Lost : Type 0 where
      pub state : Async
      pub events : List Event
      pub path : Run os (make_async b n p blank) events state
      pub idle : IsIdle state
      pub asleep : state.sleeping ≡ 1
      pub may_go_on : flush_ready state ≡ true

    -- A wake-up is lost under every policy and at every capacity: one record suffices, if `flush` is
    -- called between its push and its count. The capacity is positive and fits `std::size_t`.
    pub lost_wakeup : 0 < n → n < size_mod → LogRecord → Lost
    unfolding make_async flush_ready init
    lost_wakeup pos h r =
        let s0 = make_async b n p blank in
        let k0 = make_async-Tracked b n p blank pos h in
        let (q1, e1) = push-roomy s0.queue k0.valid r pos refl in
        let pushed = push-taken s0.queue q1 k0.valid r e1 in
        let one : q1.size ≡ 1 = pushed.4 (ground arith) in
        let (r', q2, e2) = pop-filled q1 pushed.0 (omega (arith, one)) in
        let popped = pop-record q1 q2 pushed.0 r' e2 in
        let a = then_step start (push_taken r q1 e1) refl in
        let b1 = then_step a (test_running refl refl) refl in
        let c = then_step b1 (pop_record r' q2 refl e2) refl in
        let d = then_step c (write r' refl) refl in
        let e = then_step d (count_processed r' refl) refl in
        let f = then_step e (not_all_processed 1 refl refl) refl in
        let g = then_step f (flush_waits refl) refl in
        record {
          state = _;
          events = _;
          path = then_step g (count 0 refl) refl;
          idle = record {
            awaiting = refl;
            drained = omega (arith, one, popped.3);
            all_counted = refl;
            on = refl;
          };
          asleep = refl;
          may_go_on = refl;
        }
