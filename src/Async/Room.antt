-- ===== src/Async/Room.antt =====
-- `AsyncBackend::log` of src/async_backend.cpp under `Block`: a producer that waits in `push` is let
-- go on.
use logparse.Base.{
  ℕ, zero, suc, ◌≤◌, ◌<◌, ◌≡◌, ◌≢◌, ◌⊎◌, size_mod, refl, ap, false, Bool-cases, inl, inr, some,
  List, arith, length, ◌==◌,
}
use logparse.Async.{
  Async, make_async, Worker, at_test, at_pop, holds, wrote, counted, notifying, at_drain,
  drain_holds, drain_wrote, at_flush, ended, Event,
}
use logparse.Async.Delivery.{make_async-Ordered}
use logparse.Async.Order.{Ordered, Run-Ordered, has_drained}
use logparse.Async.Queueing.{pop-record}
use logparse.Async.Steps.{
  Step, test_running, test_stopped, pop_record, write, count_processed, all_processed, notify,
  not_all_processed, drain_record, drain_write, drain_count, Run,
}
use logparse.Async.Waiting.{pop-filled, pop-roomy, push-blocked, roomy-ne-blocked}
use logparse.Async.Solo.{Solo, rest, work_on}
use logparse.Async.Work.{by_worker}
use logparse.Backend.{Backend}
use logparse.Config.{OverflowPolicy, block}
use logparse.Platform.{Platform}
use logparse.Queue
use logparse.Queue.{Queue}
use logparse.Queue.Fifo.{PushResult, PopResult}
use logparse.Queue.Inv.{IsValid}
use logparse.Queue.Refine.{length-items}
use logparse.Record.{LogRecord}

-- How many steps the worker is from having popped the next record.
abbrev away : Worker → ℕ
away at_test = 2
away at_pop = 1
away (holds r) = 6
away (wrote r) = 5
away (counted k) = 4
away notifying = 3
away at_drain = 1
away (drain_holds r) = 3
away (drain_wrote r) = 2
away at_flush = 0
away ended = 0

away-positive : (w : Worker) → has_drained w ≡ false → 0 < away w
away-positive at_flush e = cc e
away-positive ended e = cc e
away-positive _ e = omega arith

away-le : (w : Worker) → away w ≤ 6
away-le w = ground arith

-- There is a record for the worker, and it has not left its loops.
record IsSupplied (s : Async) : Type 0 where
  valid : IsValid s.queue
  filled : 0 < s.queue.size
  undrained : has_drained s.worker ≡ false

unmoved :
    {s t : Async} → t.queue ≡ s.queue → has_drained t.worker ≡ false → IsSupplied s → IsSupplied t
unmoved q d u = record { valid = rw q u.valid; filled = rw q u.filled; undrained = d }

module _ {Tm : Type 0} (os : Platform Tm) (r : LogRecord) where
  -- The worker alone makes room for the record.
  record Freed (s : Async) (n : ℕ) : Type 0 where
    last : Async
    steps : ℕ
    path : Solo os s steps last
    free : Queue.push last.queue r ≢ PushResult.blocked
    few : steps ≤ n

  then_free :
      {s t : Async} {e : Event} {n : ℕ} (st : Step os s e t)
      → by_worker os st ≡ 1
      → Freed t n
      → Freed s (suc n)
  then_free st k f = record {
    last = f.last;
    steps = suc f.steps;
    path = work_on st k f.path;
    free = f.free;
    few = omega (arith, f.few);
  }

  now_free : {s : Async} {n : ℕ} → Queue.push s.queue r ≢ PushResult.blocked → Freed s n
  now_free h = record { last = _; steps = 0; path = rest; free = h; few = omega arith }

  -- A pop makes room.
  popped_free :
      {n : ℕ} (s : Async) {t : Async} (q : Queue LogRecord) (x : LogRecord)
      → IsValid s.queue
      → Queue.pop s.queue ≡ PopResult.returned (some x) q
      → t.queue ≡ q
      → Freed t n
  popped_free s q x v e same =
      let valid = (pop-record s.queue q v x e).0 in
      now_free (rw same (roomy-ne-blocked q valid r (pop-roomy s.queue q x v e)))

  closer :
      (n : ℕ) (s : Async)
      → IsSupplied s
      → ((t : Async) → IsSupplied t → away t.worker ≤ n → Freed t n)
      → away s.worker ≤ suc n
      → Freed s (suc n)
  unfolding by_worker
  closer n s u again h = go s.worker refl
    where
      on :
          {t : Async} {e : Event} (st : Step os s e t)
          → by_worker os st ≡ 1
          → t.queue ≡ s.queue
          → has_drained t.worker ≡ false
          → away t.worker < away s.worker
          → Freed s (suc n)
      on {t} st k q d less = then_free st k (again t (unmoved q d u) (omega arith))

      go : (w : Worker) → s.worker ≡ w → Freed s (suc n)
      go at_test w = elim (Bool-cases s.running) [
        | inl e ↦ on (test_running w e) refl refl refl (rw w (omega arith))
        | inr e ↦ on (test_stopped w e) refl refl refl (rw w (omega arith))
      ]
      go at_pop w =
          let (x, q, e) = pop-filled s.queue u.valid u.filled in
          then_free (pop_record x q w e) refl (popped_free s q x u.valid e refl)
      go (holds x) w = on (write x w) refl refl refl (rw w (omega arith))
      go (wrote x) w = on (count_processed x w) refl refl refl (rw w (omega arith))
      go (counted k) w = elim (Bool-cases (k == s.submitted)) [
        | inl e ↦ on (all_processed k w e) refl refl refl (rw w (omega arith))
        | inr e ↦ on (not_all_processed k w e) refl refl refl (rw w (omega arith))
      ]
      go notifying w = on (notify w) refl refl refl (rw w (omega arith))
      go at_drain w =
          let (x, q, e) = pop-filled s.queue u.valid u.filled in
          then_free (drain_record x q w e) refl (popped_free s q x u.valid e refl)
      go (drain_holds x) w = on (drain_write x w) refl refl refl (rw w (omega arith))
      go (drain_wrote x) w = on (drain_count x w) refl refl refl (rw w (omega arith))
      go at_flush w = absurd (cc (u.undrained, ap has_drained w))
      go ended w = absurd (cc (u.undrained, ap has_drained w))

  freed : (n : ℕ) (s : Async) → IsSupplied s → away s.worker ≤ n → Freed s n
  freed zero s u h = absurd (omega (arith, h, away-positive s.worker u.undrained))
  freed (suc n) s u h = closer n s u (freed n) h

  -- Whether a push waits.
  waits_or_not :
      (x : PushResult (Queue LogRecord)) → (x ≡ PushResult.blocked) ⊎ (x ≢ PushResult.blocked)
  waits_or_not PushResult.blocked = inl refl
  waits_or_not PushResult.fault = inr (λ e. cc e)
  waits_or_not (PushResult.returned b q) = inr (λ e. cc e)

  -- Where a producer waits, there is a record for the worker.
  supplied :
      {p : OverflowPolicy} {es : List Event} (s : Async)
      → Ordered p es s
      → p ≡ block
      → Queue.push s.queue r ≡ PushResult.blocked
      → IsSupplied s
  supplied s o e waits =
      let filled = push-blocked s.queue r o.valid waits in
      record {
        valid = o.valid;
        filled = filled;
        undrained = elim (Bool-cases (has_drained s.worker)) [
          | inl d ↦
              absurd
                (omega (arith, filled, length-items s.queue o.valid, ap length (o.drained e d).0))
          | inr d ↦ d
        ];
      }

  module _ (b : Backend) (n : ℕ) (p : OverflowPolicy) (blank : LogRecord) where
    -- `log` can return under `Block`: from any state, however reached, the worker alone, in at
    -- most six steps and with no step of another thread, comes to a state in which the push of a record
    -- does not wait. The capacity is positive and fits `std::size_t`.
    pub log_returns :
        {s : Async} {es : List Event}
        → 0 < n
        → n < size_mod
        → p ≡ block
        → Run os (make_async b n p blank) es s
        → (t : Async) × (k : ℕ) × Solo os s k t
          × (Queue.push t.queue r ≢ PushResult.blocked)
          × (k ≤ 6)
    log_returns {s} pos h e run =
        let o = Run-Ordered os run (make_async-Ordered os b n p blank pos h (λ d. cc (e, d))) in
        let f : Freed s 6 = elim (waits_or_not (Queue.push s.queue r)) [
          | inr free ↦ now_free free
          | inl waits ↦ freed 6 s (supplied s o e waits) (away-le s.worker)
        ] in
        (f.last, f.steps, f.path, f.free, f.few)
