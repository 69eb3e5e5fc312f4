-- ===== src/Async/Steps.antt =====
-- The steps of the threads: `log`, `worker_loop`, `flush` and `stop` of src/async_backend.cpp.
use logparse.Base.{
  ◌∙◌, sym, append-nil, append_assoc, ap, refl, arith, ◌+◌, ℕ, suc, Bool, true, false, List, [],
  ◌∷◌, ◌++◌, ◌≡◌, none, some, ◌==◌,
}
use logparse.Async.{
  Async, at_test, at_pop, holds, wrote, counted, notifying, at_drain, drain_holds, drain_wrote,
  at_flush, ended, flagged, joining, counted_up, flush_ready, Event, took, wrote_out, silent,
}
use logparse.Backend.{emit, flush_sinks}
use logparse.Platform.{Platform}
use logparse.Queue
use logparse.Queue.{Queue}
use logparse.Queue.Fifo.{PushResult, PopResult}
use logparse.Record.{LogRecord}

-- Whether the queue has no free slot.
abbrev pub full : Queue LogRecord → Bool
full q = q.size == q.capacity

module _ {Tm : Type 0} (os : Platform Tm) where
  pub data Step (s : Async) : Event → Async → Type 0 where
    -- log: the push, and the count of a push that returned `true`
    push_taken :
        (r : LogRecord) (q : Queue LogRecord)
        → Queue.push s.queue r ≡ PushResult.returned true q
        → Step s (took r (full s.queue)) (record s { queue = q; uncounted = suc s.uncounted })
    push_refused :
        (r : LogRecord) (q : Queue LogRecord)
        → Queue.push s.queue r ≡ PushResult.returned false q
        → Step s silent (record s { queue = q })
    count :
        (n : ℕ)
        → s.uncounted ≡ suc n
        → Step s silent (record s { uncounted = n; submitted = counted_up s.submitted })
    -- worker_loop: the first loop
    test_running :
        s.worker ≡ at_test → s.running ≡ true → Step s silent (record s { worker = at_pop })
    test_stopped :
        s.worker ≡ at_test → s.running ≡ false → Step s silent (record s { worker = at_drain })
    pop_record :
        (r : LogRecord) (q : Queue LogRecord)
        → s.worker ≡ at_pop
        → Queue.pop s.queue ≡ PopResult.returned (some r) q
        → Step s silent (record s { worker = holds r; queue = q })
    pop_nothing :
        (q : Queue LogRecord)
        → s.worker ≡ at_pop
        → Queue.pop s.queue ≡ PopResult.returned none q
        → Step s silent (record s { worker = at_test; queue = q })
    -- what `emit` throws is dropped
    write :
        (r : LogRecord)
        → s.worker ≡ holds r
        → Step s (wrote_out r) (record s { worker = wrote r; backend = (emit os s.backend r).0 })
    count_processed :
        (r : LogRecord)
        → s.worker ≡ wrote r
        → Step s silent (record s {
          worker = counted (counted_up s.processed);
          processed = counted_up s.processed;
        })
    all_processed :
        (n : ℕ)
        → s.worker ≡ counted n
        → (n == s.submitted) ≡ true
        → Step s silent (record s { worker = notifying })
    notify : s.worker ≡ notifying → Step s silent (record s { worker = at_test; sleeping = 0 })
    not_all_processed :
        (n : ℕ)
        → s.worker ≡ counted n
        → (n == s.submitted) ≡ false
        → Step s silent (record s { worker = at_test })
    -- worker_loop: the second loop and the last flush
    drain_record :
        (r : LogRecord) (q : Queue LogRecord)
        → s.worker ≡ at_drain
        → Queue.pop s.queue ≡ PopResult.returned (some r) q
        → Step s silent (record s { worker = drain_holds r; queue = q })
    drain_nothing :
        (q : Queue LogRecord)
        → s.worker ≡ at_drain
        → Queue.pop s.queue ≡ PopResult.returned none q
        → Step s silent (record s { worker = at_flush; queue = q })
    drain_write :
        (r : LogRecord)
        → s.worker ≡ drain_holds r
        → Step s
            (wrote_out r)
            (record s { worker = drain_wrote r; backend = (emit os s.backend r).0 })
    drain_count :
        (r : LogRecord)
        → s.worker ≡ drain_wrote r
        → Step s silent (record s { worker = at_drain; processed = counted_up s.processed })
    last_flush :
        s.worker ≡ at_flush
        → Step s silent (record s { worker = ended; backend = flush_sinks s.backend })
    -- flush: the wait, which a notified caller starts again, and the flush behind it
    flush_waits : flush_ready s ≡ false → Step s silent (record s { sleeping = suc s.sleeping })
    -- a sleeper may wake up with no notification, and starts again
    wakes : (n : ℕ) → s.sleeping ≡ suc n → Step s silent (record s { sleeping = n })
    flush_passes :
        flush_ready s ≡ true → Step s silent (record s { backend = flush_sinks s.backend })
    -- stop
    stop_flag : s.running ≡ true → Step s silent (record s { running = false; stopper = flagged })
    stop_shutdown :
        s.stopper ≡ flagged
        → Step s silent (record s { queue = Queue.shutdown s.queue; stopper = joining })

  -- The states that a run of steps leads to, with its events, the first event first.
  pub data Run (s : Async) : List Event → Async → Type 0 where
    start : Run s [] s
    then_step :
        {t u : Async} {es es' : List Event} {e : Event}
        → Run s es t
        → Step t e u
        → es' ≡ es ++ e ∷ []
        → Run s es' u

-- The records that the queue took, those that the worker wrote, each in order, and how many records
-- were overwritten in a full queue.
unfoldable pub taken : List Event → List LogRecord
taken [] = []
taken (took r f ∷ es) = r ∷ taken es
taken (wrote_out r ∷ es) = taken es
taken (silent ∷ es) = taken es

unfoldable pub written : List Event → List LogRecord
written [] = []
written (took r f ∷ es) = written es
written (wrote_out r ∷ es) = r ∷ written es
written (silent ∷ es) = written es

unfoldable pub dropped : List Event → ℕ
dropped [] = 0
dropped (took r true ∷ es) = suc (dropped es)
dropped (took r false ∷ es) = dropped es
dropped (wrote_out r ∷ es) = dropped es
dropped (silent ∷ es) = dropped es

pub taken-concat : (es : List Event) (e : Event) → taken (es ++ e ∷ []) ≡ taken es ++ taken (e ∷ [])
unfolding taken
taken-concat [] e = refl
taken-concat (took r f ∷ es) e = ap (◌∷◌ r) (taken-concat es e)
taken-concat (wrote_out r ∷ es) e = taken-concat es e
taken-concat (silent ∷ es) e = taken-concat es e

pub written-concat :
    (es : List Event) (e : Event) → written (es ++ e ∷ []) ≡ written es ++ written (e ∷ [])
unfolding written
written-concat [] e = refl
written-concat (took r f ∷ es) e = written-concat es e
written-concat (wrote_out r ∷ es) e = ap (◌∷◌ r) (written-concat es e)
written-concat (silent ∷ es) e = written-concat es e

pub dropped-concat :
    (es : List Event) (e : Event) → dropped (es ++ e ∷ []) ≡ dropped es + dropped (e ∷ [])
unfolding dropped
dropped-concat [] e = omega arith
dropped-concat (took r true ∷ es) e = omega (arith, dropped-concat es e)
dropped-concat (took r false ∷ es) e = dropped-concat es e
dropped-concat (wrote_out r ∷ es) e = dropped-concat es e
dropped-concat (silent ∷ es) e = dropped-concat es e

pub taken-cons : (e : Event) (es : List Event) → taken (e ∷ es) ≡ taken (e ∷ []) ++ taken es
unfolding taken
taken-cons (took r f) es = refl
taken-cons (wrote_out r) es = refl
taken-cons silent es = refl

pub taken-append : (es fs : List Event) → taken (es ++ fs) ≡ taken es ++ taken fs
unfolding taken
taken-append [] fs = refl
taken-append (took r f ∷ es) fs = ap (◌∷◌ r) (taken-append es fs)
taken-append (wrote_out r ∷ es) fs = taken-append es fs
taken-append (silent ∷ es) fs = taken-append es fs

-- One run after another.
pub Run-append :
    {Tm : Type 0} (os : Platform Tm) {s t u : Async} {es fs : List Event}
    → Run os s es t
    → Run os t fs u
    → Run os s (es ++ fs) u
Run-append os {es = es} r start = rw (append-nil es) r
Run-append os {es = es} r (then_step {es = fs} {e = e} q st k) =
    then_step (Run-append os r q) st (ap (λ l. es ++ l) k ∙ sym (append_assoc es fs (e ∷ [])))
