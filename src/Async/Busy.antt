-- ===== src/Async/Busy.antt =====
-- The way of the worker of src/async_backend.cpp to the next notification.
use logparse.Base.{
  ℕ, ◌+◌, ◌*◌, ◌<◌, ◌≡◌, ◌⊎◌, size_mod, refl, ap, ◌∙◌, subst, ◌≢◌, true, false, Bool-cases, inl,
  inr, List, [], ◌∷◌, arith, length, ◌==◌, ==_iff,
}
use logparse.Async.{
  Async, Worker, at_test, at_pop, holds, wrote, counted, notifying, at_drain, drain_holds,
  drain_wrote, at_flush, ended, flush_ready, counted_up, Event,
}
use logparse.Async.Counters.{Counted, unprocessed}
use logparse.Async.Queueing.{pop-record}
use logparse.Async.Waiting.{pop-filled}
use logparse.Async.Steps.{
  Step, test_running, pop_record, write, count_processed, all_processed, notify, not_all_processed,
  taken, dropped,
}
use logparse.Async.Track.{Tracked, CountIs}
use logparse.Async.Solo.{Solo, rest, work_on}
use logparse.Async.Work.{by_worker}
use logparse.Platform.{Platform}
use logparse.Record.{LogRecord}

-- What is left to do until the counters agree, with so many records in the queue.
abbrev pub pending : Worker → ℕ → ℕ
pending at_test n = 6 * n + 1
pending at_pop n = 6 * n
pending (holds r) n = 6 * n + 5
pending (wrote r) n = 6 * n + 4
pending (counted k) n = 6 * n + 3
pending notifying n = 6 * n + 2
pending _ n = 0

-- The worker has something to do: `m_running` is set, every push is counted, no record was
-- overwritten, and the counters do not agree.
pub record IsBusy (es : List Event) (s : Async) : Type 0 where
  pub tracked : Tracked s
  pub counts : Counted es s
  pub few : length (taken es) < size_mod
  pub on : s.running ≡ true
  pub all_counted : s.uncounted ≡ 0
  pub none_dropped : dropped es ≡ 0
  pub unready : flush_ready s ≡ false

module _ {Tm : Type 0} (os : Platform Tm) where
  -- The worker alone makes the counters agree and wakes everyone.
  pub record Woken (s : Async) : Type 0 where
    pub last : Async
    pub steps : ℕ
    pub path : Solo os s steps last
    pub ready : flush_ready last ≡ true
    pub awake : last.sleeping ≡ 0

  -- A step of the worker that leaves it busy and has less to do.
  pub record Onward (s : Async) : Type 0 where
    pub target : Async
    pub event : Event
    pub step : Step os s event target
    pub is_worker : by_worker os step ≡ 1
    pub takes_none : taken (event ∷ []) ≡ []
    pub drops_none : dropped (event ∷ []) ≡ 0
    pub still_on : target.running ≡ s.running
    pub still_counted : target.uncounted ≡ s.uncounted
    pub still_unready : flush_ready target ≡ false
    pub less : pending target.worker target.queue.size < pending s.worker s.queue.size

  forth :
      {s t : Async} {e : Event} (st : Step os s e t)
      → by_worker os st ≡ 1
      → taken (e ∷ []) ≡ []
      → dropped (e ∷ []) ≡ 0
      → (t.running ≡ s.running) × (t.uncounted ≡ s.uncounted)
      → flush_ready t ≡ false
      → pending t.worker t.queue.size < pending s.worker s.queue.size
      → Onward s ⊎ Woken s
  forth st by k d (on, u) unready less = inl (record {
    target = _;
    event = _;
    step = st;
    is_worker = by;
    takes_none = k;
    drops_none = d;
    still_on = on;
    still_counted = u;
    still_unready = unready;
    less = less;
  })

  -- The worker waits for a record, and there is one.
  goes_to_queue :
      (es : List Event) (s : Async) → IsBusy es s → s.worker ≡ at_pop → Onward s ⊎ Woken s
  unfolding taken dropped flush_ready by_worker
  goes_to_queue es s u w =
      let apart : s.processed ≢ s.submitted =
        λ e. cc (u.unready, (==_iff s.processed s.submitted).1 e) in
      let filled : 0 < s.queue.size = omega (
        arith,
        u.counts.submissions,
        u.counts.processings,
        u.all_counted,
        u.none_dropped,
        ap unprocessed w,
        apart,
      ) in
      let (r, q, e) = pop-filled s.queue u.tracked.valid filled in
      let fewer = (pop-record s.queue q u.tracked.valid r e).3 in
      forth (pop_record r q w e) refl refl refl (refl, refl) u.unready (rw w (omega (arith, fewer)))

  -- The worker counts a record, and wakes everyone if it was the last.
  counts_up :
      (es : List Event) (s : Async)
      → IsBusy es s
      → (r : LogRecord) → s.worker ≡ wrote r
      → Onward s ⊎ Woken s
  unfolding taken dropped flush_ready by_worker
  counts_up es s u r w = elim (Bool-cases (counted_up s.processed == s.submitted)) [
    | inl e ↦ inr (record {
      last = _;
      steps = 3;
      path = work_on (count_processed r w) refl (
          work_on (all_processed (counted_up s.processed) refl e) refl
            (work_on (notify refl) refl rest));
      ready = e;
      awake = refl;
    })
    | inr e ↦ forth (count_processed r w) refl refl refl (refl, refl) e (rw w (omega arith))
  ]

  pub onward : (es : List Event) (s : Async) → IsBusy es s → Onward s ⊎ Woken s
  unfolding taken dropped flush_ready by_worker
  onward es s u = go s.worker refl
    where
      go : (w : Worker) → s.worker ≡ w → Onward s ⊎ Woken s
      go at_test w =
          forth (test_running w u.on) refl refl refl (refl, refl) u.unready (rw w (omega arith))
      go at_pop w = goes_to_queue es s u w
      go (holds r) w = forth (write r w) refl refl refl (refl, refl) u.unready (rw w (omega arith))
      go (wrote r) w = counts_up es s u r w
      go (counted n) w =
          let is_count : n ≡ s.processed =
            subst (λ x. CountIs x s.processed) w u.tracked.count_is in
          let behind : (n == s.submitted) ≡ false =
            ap (λ k. k == s.submitted) is_count ∙ u.unready in
          forth (not_all_processed n w behind) refl refl refl (refl, refl) u.unready
            (rw w (omega arith))
      go notifying w = forth (notify w) refl refl refl (refl, refl) u.unready (rw w (omega arith))
      go at_drain w = cc (u.tracked.left (rw w), u.on)
      go (drain_holds r) w = cc (u.tracked.left (rw w), u.on)
      go (drain_wrote r) w = cc (u.tracked.left (rw w), u.on)
      go at_flush w = cc (u.tracked.left (rw w), u.on)
      go ended w = cc (u.tracked.left (rw w), u.on)
