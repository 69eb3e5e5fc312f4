-- ===== src/Async/Work.antt =====
-- How many steps the worker of src/async_backend.cpp still takes once `stop` was called.
use logparse.Base.{
  ℕ, suc, ◌+◌, ◌*◌, ◌≤◌, ◌≡◌, ap, false, Bool-cases, inl, inr, List, [], ◌∷◌, arith, length,
}
use logparse.Async.{
  Async, Worker, at_test, at_pop, holds, wrote, counted, notifying, at_drain, drain_holds,
  drain_wrote, at_flush, ended, Event,
}
use logparse.Async.Counters.{length-taken}
use logparse.Async.Queueing.{push-taken, push-refused, pop-record, pop-nothing}
use logparse.Async.Steps.{
  Step, push_taken, push_refused, count, test_running, test_stopped, pop_record, pop_nothing, write,
  count_processed, all_processed, notify, not_all_processed, drain_record, drain_nothing,
  drain_write, drain_count, last_flush, flush_waits, wakes, flush_passes, stop_flag, stop_shutdown,
  Run, start, then_step, taken, full,
}
use logparse.Platform.{Platform}
use logparse.Queue.{shutdown}
use logparse.Queue.Inv.{IsValid}
use logparse.Queue.Run.{shutdown-IsValid}

-- The steps that are left to a worker, with so many records in the queue and no more to come.
abbrev pub work : Worker → ℕ → ℕ
work at_test n = 3 * n + 3
work at_pop n = 3 * n + 5
work (holds r) n = 3 * n + 7
work (wrote r) n = 3 * n + 6
work (counted k) n = 3 * n + 5
work notifying n = 3 * n + 4
work at_drain n = 3 * n + 2
work (drain_holds r) n = 3 * n + 4
work (drain_wrote r) n = 3 * n + 3
work at_flush n = 1
work ended n = 0

abbrev pub work_left : Async → ℕ
work_left s = work s.worker s.queue.size

-- One more record is at most three more steps.
work_more : (w : Worker) (m n : ℕ) → m ≤ suc n → work w m ≤ work w n + 3
work_more at_test m n h = omega arith
work_more _ m n h = omega arith

module _ {Tm : Type 0} (os : Platform Tm) where
  -- 1 for a step of the worker, and 0 for a step of another thread.
  unfoldable pub by_worker : {s t : Async} {e : Event} → Step os s e t → ℕ
  by_worker (push_taken r q e) = 0
  by_worker (push_refused r q e) = 0
  by_worker (count n e) = 0
  by_worker (flush_waits e) = 0
  by_worker (wakes n e) = 0
  by_worker (flush_passes e) = 0
  by_worker (stop_flag e) = 0
  by_worker (stop_shutdown e) = 0
  by_worker _ = 1

  -- How many steps of a run are the worker's.
  unfoldable pub worker_steps : {s t : Async} {es : List Event} → Run os s es t → ℕ
  worker_steps start = 0
  worker_steps (then_step r st e) = worker_steps r + by_worker st

  -- What a step of a stopped backend leaves: each step of the worker is one less to do, and each
  -- taken record three more.
  pub record Progress {s t : Async} {e : Event} (st : Step os s e t) : Type 0 where
    pub valid : IsValid t.queue
    pub stopped : t.running ≡ false
    pub less : by_worker st + work_left t ≤ work_left s + 3 * length (taken (e ∷ []))

  pub Step-Progress :
      {s t : Async} {e : Event} (st : Step os s e t)
      → IsValid s.queue
      → s.running ≡ false
      → Progress st
  unfolding by_worker taken
  Step-Progress {s} (push_taken r q e) v h =
      let n = push-taken s.queue q v r e in
      record {
        valid = n.0;
        stopped = h;
        less = elim (Bool-cases (full s.queue)) [
          | inl f ↦ omega (arith, work_more s.worker q.size s.queue.size (omega (arith, n.3 f)))
          | inr f ↦ omega (arith, work_more s.worker q.size s.queue.size (omega (arith, n.4 f)))
        ];
      }
  Step-Progress {s} (push_refused r q e) v h =
      let same = push-refused s.queue q v r e in
      record { valid = rw same v; stopped = h; less = rw same (omega arith) }
  Step-Progress (count n e) v h = record { valid = v; stopped = h; less = omega arith }
  Step-Progress (test_running w e) v h = cc (h, e)
  Step-Progress (test_stopped w e) v h = record {
    valid = v;
    stopped = h;
    less = rw w (omega arith);
  }
  Step-Progress {s} (pop_record r q w e) v h =
      let (v', p, i, z, c) = pop-record s.queue q v r e in
      record { valid = v'; stopped = h; less = rw w (omega (arith, z)) }
  Step-Progress {s} (pop_nothing q w e) v h =
      let same = (pop-nothing s.queue q v e).0 in
      record { valid = rw same v; stopped = h; less = rw (w, same) (omega arith) }
  Step-Progress (write r w) v h = record { valid = v; stopped = h; less = rw w (omega arith) }
  Step-Progress (count_processed r w) v h = record {
    valid = v;
    stopped = h;
    less = rw w (omega arith);
  }
  Step-Progress (all_processed n w e) v h = record {
    valid = v;
    stopped = h;
    less = rw w (omega arith);
  }
  Step-Progress (notify w) v h = record { valid = v; stopped = h; less = rw w (omega arith) }
  Step-Progress (not_all_processed n w e) v h = record {
    valid = v;
    stopped = h;
    less = rw w (omega arith);
  }
  Step-Progress {s} (drain_record r q w e) v h =
      let (v', p, i, z, c) = pop-record s.queue q v r e in
      record { valid = v'; stopped = h; less = rw w (omega (arith, z)) }
  Step-Progress {s} (drain_nothing q w e) v h =
      let same = (pop-nothing s.queue q v e).0 in
      record { valid = rw same v; stopped = h; less = rw w (omega arith) }
  Step-Progress (drain_write r w) v h = record { valid = v; stopped = h; less = rw w (omega arith) }
  Step-Progress (drain_count r w) v h = record { valid = v; stopped = h; less = rw w (omega arith) }
  Step-Progress (last_flush w) v h = record { valid = v; stopped = h; less = rw w (omega arith) }
  Step-Progress (flush_waits e) v h = record { valid = v; stopped = h; less = omega arith }
  Step-Progress (wakes n e) v h = record { valid = v; stopped = h; less = omega arith }
  Step-Progress (flush_passes e) v h = record { valid = v; stopped = h; less = omega arith }
  Step-Progress (stop_flag e) v h = cc (h, e)
  Step-Progress (stop_shutdown e) v h = record {
    valid = shutdown-IsValid v;
    stopped = h;
    less = unfold shutdown in omega arith;
  }

  -- What a run of a stopped backend leaves.
  pub record Stopping {s t : Async} {es : List Event} (r : Run os s es t) : Type 0 where
    pub valid : IsValid t.queue
    pub stopped : t.running ≡ false
    pub less : worker_steps r + work_left t ≤ work_left s + 3 * length (taken es)

  pub Run-Stopping :
      {s t : Async} {es : List Event} (r : Run os s es t)
      → IsValid s.queue
      → s.running ≡ false
      → Stopping r
  unfolding worker_steps taken
  Run-Stopping start v h = record { valid = v; stopped = h; less = omega arith }
  Run-Stopping (then_step {es} {es'} {e} r st k) v h =
      let before = Run-Stopping r v h in
      let now = Step-Progress st before.valid before.stopped in
      record {
        valid = now.valid;
        stopped = now.stopped;
        less =
            omega (arith, before.less, now.less, ap (λ l. length (taken l)) k, length-taken es e);
      }
