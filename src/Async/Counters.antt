-- ===== src/Async/Counters.antt =====
-- What the two counters of the backend count.
use native.Mathlib.Nat.{mod-eq_of_lt}
use logparse.Base.{
  ℕ, suc, ◌+◌, ◌≡◌, ◌<◌, size_mod, ◌∙◌, List, [], ◌∷◌, ◌++◌, some, arith, length, length-append,
}
use logparse.Async.{
  Async, Worker, holds, wrote, drain_holds, drain_wrote, counted_up, Event, silent,
}
use logparse.Async.Queueing.{pop-record}
use logparse.Async.Steps.{taken, dropped, taken-concat, dropped-concat}
use logparse.Queue
use logparse.Queue.{Queue, shutdown, init}
use logparse.Queue.Fifo.{PopResult}
use logparse.Queue.Inv.{IsValid}
use logparse.Record.{LogRecord}

-- How many popped records are not yet in `m_processed`.
abbrev pub unprocessed : Worker → ℕ
unprocessed (holds r) = 1
unprocessed (wrote r) = 1
unprocessed (drain_holds r) = 1
unprocessed (drain_wrote r) = 1
unprocessed _ = 0

pub record Counted (es : List Event) (s : Async) : Type 0 where
  pub valid : IsValid s.queue
  pub submissions : s.submitted + s.uncounted ≡ length (taken es)
  pub processings :
      s.processed + (unprocessed s.worker + (s.queue.size + dropped es)) ≡ length (taken es)

pub length-taken :
    (es : List Event) (e : Event)
    → length (taken (es ++ e ∷ [])) ≡ length (taken es) + length (taken (e ∷ []))
length-taken es e = rw (taken-concat es e) (length-append (taken es) (taken (e ∷ [])))

-- `fetch_add` on a counter that is below the number of records taken.
pub counting_up : {n m : ℕ} → n < m → m < size_mod → counted_up n ≡ suc n
counting_up {n} h k = mod-eq_of_lt {n = n + 1} {m = size_mod} (omega arith) ∙ omega arith

-- A step that shows nothing, takes nothing out of the queue and processes nothing.
pub idle :
    (es : List Event) {s t : Async}
    → t.queue ≡ s.queue
    → t.submitted ≡ s.submitted
    → t.uncounted ≡ s.uncounted
    → t.processed ≡ s.processed
    → unprocessed t.worker ≡ unprocessed s.worker
    → Counted es s
    → Counted (es ++ silent ∷ []) t
unfolding taken dropped
idle es {s} {t} q a b p u c = record {
  valid = rw q c.valid;
  submissions = omega (arith, length-taken es silent, c.submissions, a, b);
  processings =
      rw (q, u, p) (omega (arith, length-taken es silent, dropped-concat es silent, c.processings));
}

-- The worker takes a record from the queue.
pub popped :
    (es : List Event) {s t : Async} (r : LogRecord)
    → Queue.pop s.queue ≡ PopResult.returned (some r) t.queue
    → t.submitted ≡ s.submitted
    → t.uncounted ≡ s.uncounted
    → t.processed ≡ s.processed
    → unprocessed s.worker ≡ 0
    → unprocessed t.worker ≡ 1
    → Counted es s
    → Counted (es ++ silent ∷ []) t
unfolding taken dropped
popped es {s} {t} r e a b p u u' c =
    let (v, same, i, z, k) = pop-record s.queue t.queue c.valid r e in
    record {
      valid = v;
      submissions = omega (arith, length-taken es silent, c.submissions, a, b);
      processings =
          omega
            (arith, length-taken es silent, dropped-concat es silent, c.processings, z, p, u, u');
    }

-- The worker counts a record that it wrote.
pub processing :
    (es : List Event) {s t : Async}
    → t.queue ≡ s.queue
    → t.submitted ≡ s.submitted
    → t.uncounted ≡ s.uncounted
    → t.processed ≡ counted_up s.processed
    → unprocessed s.worker ≡ 1
    → unprocessed t.worker ≡ 0
    → length (taken es) < size_mod
    → Counted es s
    → Counted (es ++ silent ∷ []) t
unfolding taken dropped
processing es {s} {t} q a b p u u' h c =
    let up =
      counting_up {n = s.processed} {m = length (taken es)} (omega (arith, c.processings, u)) h in
    record {
      valid = rw q c.valid;
      submissions = omega (arith, length-taken es silent, c.submissions, a, b);
      processings = rw q (
          omega
            (arith, length-taken es silent, dropped-concat es silent, c.processings, p, up, u, u'));
    }
