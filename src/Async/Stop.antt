-- ===== src/Async/Stop.antt =====
-- `AsyncBackend::stop` of src/async_backend.cpp: the worker that it joins comes to its end.
use logparse.Base.{
  ℕ, zero, suc, ◌+◌, ◌*◌, ◌≤◌, ◌<◌, ◌≡◌, ◌⊎◌, size_mod, refl, ap, ◌∙◌, false, Bool-cases, inl, inr,
  List, [], ◌∷◌, arith, length, ◌==◌,
}
use logparse.Async.{
  Async, make_async, Worker, at_test, at_pop, holds, wrote, counted, notifying, at_drain,
  drain_holds, drain_wrote, at_flush, ended, joining, Event,
}
use logparse.Async.Waiting.{pop-closed}
use logparse.Async.Steps.{
  Step, test_stopped, pop_record, pop_nothing, write, count_processed, all_processed, notify,
  not_all_processed, drain_record, drain_nothing, drain_write, drain_count, last_flush, Run, taken,
}
use logparse.Async.Track.{Tracked, Step-Tracked, Run-Tracked, make_async-Tracked}
use logparse.Async.Work.{work_left, by_worker, worker_steps, Step-Progress, Run-Stopping}
use logparse.Async.Solo.{Solo, rest, work_on}
use logparse.Backend.{Backend}
use logparse.Config.{OverflowPolicy}
use logparse.Platform.{Platform}
use logparse.Record.{LogRecord}

module _ {Tm : Type 0} (os : Platform Tm) where
  -- A step of the worker.
  record Next (s : Async) : Type 0 where
    target : Async
    event : Event
    step : Step os s event target
    is_worker : by_worker os step ≡ 1
    takes_none : taken (event ∷ []) ≡ []
    same_stopper : target.stopper ≡ s.stopper

  -- Once `stop` waits for the worker, the worker can always go on until it has ended.
  worker-Next : (s : Async) → Tracked s → s.stopper ≡ joining → (s.worker ≡ ended) ⊎ Next s
  unfolding by_worker taken
  worker-Next s k j = go s.worker refl
    where
      next :
          {t : Async} {e : Event} (st : Step os s e t)
          → by_worker os st ≡ 1
          → taken (e ∷ []) ≡ []
          → t.stopper ≡ s.stopper
          → (s.worker ≡ ended) ⊎ Next s
      next st a b c = inr (record {
        target = _;
        event = _;
        step = st;
        is_worker = a;
        takes_none = b;
        same_stopper = c;
      })

      go : (w : Worker) → s.worker ≡ w → (s.worker ≡ ended) ⊎ Next s
      go at_test w = next (test_stopped w (k.halted (λ i. cc (i, j)))) refl refl refl
      go at_pop w = elim (pop-closed s.queue k.valid (k.closed j)) [
        | inl (r, q, e) ↦ next (pop_record r q w e) refl refl refl
        | inr (q, e) ↦ next (pop_nothing q w e) refl refl refl
      ]
      go (holds r) w = next (write r w) refl refl refl
      go (wrote r) w = next (count_processed r w) refl refl refl
      go (counted n) w = elim (Bool-cases (n == s.submitted)) [
        | inl e ↦ next (all_processed n w e) refl refl refl
        | inr e ↦ next (not_all_processed n w e) refl refl refl
      ]
      go notifying w = next (notify w) refl refl refl
      go at_drain w = elim (pop-closed s.queue k.valid (k.closed j)) [
        | inl (r, q, e) ↦ next (drain_record r q w e) refl refl refl
        | inr (q, e) ↦ next (drain_nothing q w e) refl refl refl
      ]
      go (drain_holds r) w = next (drain_write r w) refl refl refl
      go (drain_wrote r) w = next (drain_count r w) refl refl refl
      go at_flush w = next (last_flush w) refl refl refl
      go ended w = inl w

  -- The worker alone, to its end.
  record ToEnd (s : Async) (n : ℕ) : Type 0 where
    last : Async
    steps : ℕ
    path : Solo os s steps last
    at_end : last.worker ≡ ended
    few : steps ≤ n

  onto_end : {s : Async} {n : ℕ} (x : Next s) → ToEnd x.target n → ToEnd s (suc n)
  onto_end x r = record {
    last = r.last;
    steps = suc r.steps;
    path = work_on x.step x.is_worker r.path;
    at_end = r.at_end;
    few = omega (arith, r.few);
  }

  now_ended : (n : ℕ) (s : Async) → s.worker ≡ ended → ToEnd s n
  now_ended n s e = record { last = s; steps = 0; path = rest; at_end = e; few = omega arith }

  to_end : (n : ℕ) (s : Async) → work_left s ≤ n → Tracked s → s.stopper ≡ joining → ToEnd s n
  to_end zero s h k j = elim (worker-Next s k j) [
    | inl e ↦ now_ended zero s e
    | inr x ↦
        let p = Step-Progress os x.step k.valid (k.halted (λ i. cc (i, j))) in
        absurd (omega (arith, p.less, x.is_worker, ap length x.takes_none))
  ]
  to_end (suc n) s h k j = elim (worker-Next s k j) [
    | inl e ↦ now_ended (suc n) s e
    | inr x ↦
        let p = Step-Progress os x.step k.valid (k.halted (λ i. cc (i, j))) in
        onto_end x (
          to_end n x.target (omega (arith, p.less, x.is_worker, ap length x.takes_none))
            (Step-Tracked os x.step k) (x.same_stopper ∙ j))
  ]

  module _ (b : Backend) (n : ℕ) (p : OverflowPolicy) (blank : LogRecord) where
    -- `stop` can return: from any state in which it waits for the worker, however that was reached, the
    -- worker alone, with no step of another thread, comes to its end, in no more steps than `work_left`
    -- says. The capacity is positive and fits `std::size_t`.
    pub stop_returns :
        {s : Async} {es : List Event}
        → 0 < n
        → n < size_mod
        → Run os (make_async b n p blank) es s
        → s.stopper ≡ joining
        → (t : Async) × (k : ℕ) × Solo os s k t × (t.worker ≡ ended) × (k ≤ work_left s)
    stop_returns {s} pos h r j =
        let e =
          to_end (work_left s) s (omega arith)
            (Run-Tracked os r (make_async-Tracked b n p blank pos h)) j in
        (e.last, e.steps, e.path, e.at_end, e.few)

    -- Once `m_running` is false, on any schedule of the threads, the worker takes no more steps than
    -- `work_left` says, and three for each record that the queue takes meanwhile. The capacity is
    -- positive and fits `std::size_t`.
    pub worker_steps-le :
        {s t : Async} {es fs : List Event}
        → 0 < n
        → n < size_mod
        → Run os (make_async b n p blank) es s
        → s.running ≡ false
        → (r : Run os s fs t)
        → worker_steps os r + work_left t ≤ work_left s + 3 * length (taken fs)
    worker_steps-le pos h before off r =
        (Run-Stopping os r (Run-Tracked os before (make_async-Tracked b n p blank pos h)).valid
          off).less
