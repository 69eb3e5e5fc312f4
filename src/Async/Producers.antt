-- ===== src/Async/Producers.antt =====
-- Runs of src/async_backend.cpp that say whose push is counted: the state has only the number of the
-- producers between `m_queue.push` and the count of their push.
use logparse.Base.{Bool, true, false, ◌≡◌, List, [], ◌∷◌, ◌++◌, ℕ, suc}
use logparse.Async.{Async, Event, took, silent, counted_up}
use logparse.Async.Steps.{Step, push_taken, count, Run, start, then_step, full}
use logparse.Platform.{Platform}
use logparse.Queue
use logparse.Queue.{Queue}
use logparse.Queue.Fifo.{PushResult}
use logparse.Record.{LogRecord}

module _ {Tm : Type 0} (os : Platform Tm) where
  -- Whether a step is a push that the queue took, or the count of one.
  unfoldable pub of_producer : {s t : Async} {e : Event} → Step os s e t → Bool
  of_producer (push_taken r q e) = true
  of_producer (count n e) = true
  of_producer _ = false

  -- A run with the records whose `log` has pushed them and has not returned, the last one first: a
  -- push puts its record in front, and a count lets the call of one of them return.
  pub data Known (s : Async) : List Event → List LogRecord → Async → Type 0 where
    nobody : Known s [] [] s
    pushes :
        {t : Async} {es es' : List Event} {rs : List LogRecord} (x : LogRecord)
        (q : Queue LogRecord)
        → Known s es rs t
        → Queue.push t.queue x ≡ PushResult.returned true q
        → es' ≡ es ++ took x (full t.queue) ∷ []
        → Known s es' (x ∷ rs) (record t { queue = q; uncounted = suc t.uncounted })
    counts :
        (before after : List LogRecord) (x : LogRecord) {t : Async} {es es' : List Event} (n : ℕ)
        → Known s es (before ++ x ∷ after) t
        → t.uncounted ≡ suc n
        → es' ≡ es ++ silent ∷ []
        → Known s es'
            (before ++ after)
            (record t { uncounted = n; submitted = counted_up t.submitted })
    goes_on :
        {t u : Async} {es es' : List Event} {e : Event} {rs : List LogRecord}
        → Known s es rs t
        → (st : Step os t e u) → of_producer st ≡ false
        → es' ≡ es ++ e ∷ []
        → Known s es' rs u

  pub Known-Run :
      {s t : Async} {es : List Event} {rs : List LogRecord} → Known s es rs t → Run os s es t
  Known-Run nobody = start
  Known-Run (pushes x q r e k) = then_step (Known-Run r) (push_taken x q e) k
  Known-Run (counts before after x n r e k) = then_step (Known-Run r) (count n e) k
  Known-Run (goes_on r st o k) = then_step (Known-Run r) st k
