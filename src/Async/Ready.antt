-- ===== src/Async/Ready.antt =====
-- `AsyncBackend::flush` of src/async_backend.cpp comes to its end.
use logparse.Async.Busy.{pending, IsBusy, Woken, Onward, onward}
use logparse.Base.{
  ℕ, zero, suc, ◌≤◌, ◌<◌, ◌≡◌, size_mod, ap, ◌∙◌, true, false, inl, inr, List, [], ◌∷◌, ◌++◌, arith,
  length, append-nil,
}
use logparse.Async.{Async, make_async, flush_ready, Event}
use logparse.Async.Flush.{Step-Counted, Run-Counted, make_async-Counted}
use logparse.Async.Steps.{Run, taken, taken-concat, dropped, dropped-concat}
use logparse.Async.Track.{Step-Tracked, Run-Tracked, make_async-Tracked}
use logparse.Async.Solo.{Solo, work_on}
use logparse.Backend.{Backend}
use logparse.Config.{OverflowPolicy}
use logparse.Platform.{Platform}
use logparse.Record.{LogRecord}

module _ {Tm : Type 0} (os : Platform Tm) where
  moved-IsBusy :
      (es : List Event) (s : Async) (u : IsBusy es s) (x : Onward os s)
      → IsBusy (es ++ x.event ∷ []) x.target
  moved-IsBusy es s u x =
      let few =
        ap length (
          taken-concat es x.event ∙ ap (λ l. taken es ++ l) x.takes_none ∙ append-nil (taken es)) in
      record {
        tracked = Step-Tracked os x.step u.tracked;
        counts = Step-Counted os es x.step u.few u.counts;
        few = omega (arith, few, u.few);
        on = x.still_on ∙ u.on;
        all_counted = x.still_counted ∙ u.all_counted;
        none_dropped = omega (arith, dropped-concat es x.event, x.drops_none, u.none_dropped);
        unready = x.still_unready;
      }

  onto-Woken : (es : List Event) (s : Async) (x : Onward os s) → Woken os x.target → Woken os s
  onto-Woken es s x y = record {
    last = y.last;
    steps = suc y.steps;
    path = work_on x.step x.is_worker y.path;
    ready = y.ready;
    awake = y.awake;
  }

  woken :
      (n : ℕ) (es : List Event) (s : Async)
      → IsBusy es s
      → pending s.worker s.queue.size ≤ n
      → Woken os s
  woken zero es s u h = elim (onward os es s u) [
    | inl x ↦ absurd (omega (arith, x.less))
    | inr y ↦ y
  ]
  woken (suc n) es s u h = elim (onward os es s u) [
    | inl x ↦
        onto-Woken es s x
          (woken n (es ++ x.event ∷ []) x.target (moved-IsBusy es s u x) (omega (arith, x.less)))
    | inr y ↦ y
  ]

  module _ (b : Backend) (n : ℕ) (p : OverflowPolicy) (blank : LogRecord) where
    -- `flush` can return: from any state, however reached, in which `m_running` is set, every push is
    -- counted, no record was overwritten in a full queue, and the condition of `flush` does not hold,
    -- the worker alone, with no step of another thread, makes it hold and wakes every sleeper. The
    -- capacity is positive and fits `std::size_t`, and fewer than 2 ^ 64 records were taken.
    pub flush_returns :
        {s : Async} {es : List Event}
        → 0 < n
        → n < size_mod
        → Run os (make_async b n p blank) es s
        → length (taken es) < size_mod
        → s.running ≡ true
        → s.uncounted ≡ 0
        → dropped es ≡ 0
        → flush_ready s ≡ false
        → (t : Async) × (k : ℕ) × Solo os s k t × (flush_ready t ≡ true) × (t.sleeping ≡ 0)
    flush_returns {s} {es} pos h r few on counted_all kept unready =
        let busy : IsBusy es s = record {
          tracked = Run-Tracked os r (make_async-Tracked b n p blank pos h);
          counts = Run-Counted os r few (make_async-Counted os b n p blank pos h);
          few = few;
          on = on;
          all_counted = counted_all;
          none_dropped = kept;
          unready = unready;
        } in
        let y = woken (pending s.worker s.queue.size) es s busy (omega arith) in
        (y.last, y.steps, y.path, y.ready, y.awake)
