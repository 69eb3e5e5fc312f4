-- ===== src/Async/Flushed.antt =====
-- What `flush` of src/async_backend.cpp promises its caller, and where it does not keep it.
use logparse.Base.{
  ℕ, ◌≡◌, ◌≢◌, ◌<◌, size_mod, refl, ap, ◌∙◌, sym, true, false, List, [], ◌∷◌, ◌++◌, Bytes, All,
  arith, length, append-nil, some, subst, ◌⊎◌, inl, inr,
}
use logparse.Async.{Async, make_async, Worker, holds, drain_holds, flush_ready, Event}
use logparse.Async.Counters.{unprocessed}
use logparse.Async.Delivery.{written_in_order}
use logparse.Async.Flush.{flush_ready_iff}
use logparse.Async.Order.{in_hand}
use logparse.Async.Output.{file_text}
use logparse.Async.Queueing.{push-taken, push-queued, pop-record}
use logparse.Async.Waiting.{pop-filled, push-roomy}
use logparse.Async.Steps.{
  Run, test_running, pop_record, write, count_processed, not_all_processed, taken, written,
}
use logparse.Async.Track.{make_async-Tracked, Run-Tracked}
use logparse.Async.Producers.{Known, nobody, pushes, counts, goes_on, of_producer}
use logparse.Backend.{Backend, flush_sinks}
use logparse.Backend.Files.{Filing, flush_sinks-Filing, lines_text}
use logparse.Config.{OverflowPolicy, drop_oldest}
use logparse.Formatter.Reads.{Piece, Reads}
use logparse.Platform.{Platform, IsFaithful}
use logparse.Queue
use logparse.Queue.{Queue, init}
use logparse.Queue.Fifo.{PushResult, PopResult, behind_first}
use logparse.Queue.Inv.{IsValid}
use logparse.Queue.Refine.{items, length-items}
use logparse.Record.{LogRecord}
use logparse.Sink.{Sink}
use logparse.Sink.Disk.{content}
use logparse.Sink.Files.{IsFileless}

in_hand-nil : (w : Worker) → unprocessed w ≡ 0 → in_hand w ≡ []
in_hand-nil (holds r) e = cc e
in_hand-nil (drain_holds r) e = cc e
in_hand-nil _ e = refl

length-zero : (l : List LogRecord) → length l ≡ 0 → l ≡ []
length-zero [] e = refl
length-zero (r ∷ l) e = cc e

-- A record goes through an empty queue.
record Passage (q : Queue LogRecord) (r : LogRecord) : Type 0 where
  filled : Queue LogRecord
  emptied : Queue LogRecord
  pushed : Queue.push q r ≡ PushResult.returned true filled
  popped : Queue.pop filled ≡ PopResult.returned (some r) emptied
  valid : IsValid emptied
  is_empty : emptied.size ≡ 0
  is_on : emptied.is_shutdown ≡ false

behind_nothing :
    (l l' : List LogRecord) (r : LogRecord)
    → l ≡ []
    → (l' ≡ l ++ r ∷ []) ⊎ (l' ≡ behind_first l ++ r ∷ [])
    → l' ≡ r ∷ []
behind_nothing l l' r e (inl h) = h ∙ ap (λ x. x ++ r ∷ []) e
behind_nothing l l' r e (inr h) = h ∙ ap (λ x. behind_first x ++ r ∷ []) e

passage :
    (q : Queue LogRecord) (r : LogRecord)
    → IsValid q
    → q.size ≡ 0
    → q.is_shutdown ≡ false
    → Passage q r
passage q r v z on =
    let (q1, e1) = push-roomy q v r (omega (arith, z, v.positive)) on in
    let (v1, queued) = push-queued q q1 v r e1 in
    let alone : items q1 ≡ r ∷ [] =
      behind_nothing (items q) (items q1) r (length-zero (items q) (length-items q v ∙ z)) queued in
    let one : q1.size ≡ 1 = sym (length-items q1 v1) ∙ ap length alone in
    let (r', q2, e2) = pop-filled q1 v1 (omega (arith, one)) in
    let popped = pop-record q1 q2 v1 r' e2 in
    let same : r' ≡ r = cc (popped.2, alone) in
    record {
      filled = q1;
      emptied = q2;
      pushed = e1;
      popped = subst (λ x. Queue.pop q1 ≡ PopResult.returned (some x) q2) same e2;
      valid = popped.0;
      is_empty = omega (arith, popped.3, one);
      is_on = popped.4 ∙ (push-taken q q1 v r e1).6 ∙ on;
    }

module _ {Tm : Type 0} (os : Platform Tm) (b : Backend) (n : ℕ) (p : OverflowPolicy)
    (blank : LogRecord) where
  -- Once every push is counted, a `flush` that may go on has all records behind it.
  pub flush_ready-written :
      {s : Async} {es : List Event}
      → 0 < n
      → n < size_mod
      → p ≢ drop_oldest
      → Run os (make_async b n p blank) es s
      → length (taken es) < size_mod
      → s.uncounted ≡ 0
      → flush_ready s ≡ true
      → written es ≡ taken es
  flush_ready-written {s} {es} pos h other r few counted_all ready =
      let (empty, idle, kept) = (flush_ready_iff os b n p blank pos h r few counted_all).0 ready in
      let v = (Run-Tracked os r (make_async-Tracked b n p blank pos h)).valid in
      let none_left : items s.queue ≡ [] =
        length-zero (items s.queue) (length-items s.queue v ∙ empty) in
      sym (
        written_in_order os b n p blank pos h other r
        ∙ rw (in_hand-nil s.worker idle, none_left) (append-nil (written es)))

  -- What `flush` then leaves in the log file.
  pub flush-content :
      {pattern : Bytes} {ps : List Piece} {pre post : List Sink} {path before : Bytes} {s : Async}
      {es : List Event}
      → IsFaithful os
      → Reads pattern ps
      → All IsFileless pre
      → All IsFileless post
      → 0 < n
      → n < size_mod
      → p ≢ drop_oldest
      → Filing os pattern pre post path before b
      → Run os (make_async b n p blank) es s
      → length (taken es) < size_mod
      → s.uncounted ≡ 0
      → flush_ready s ≡ true
      → content path (flush_sinks s.backend).world ≡ before ++ lines_text os ps (taken es)
  flush-content {pattern} {ps} {pre} {post} {path} {before} {s} {es} faithful reads fileless
        fileless' pos h other f r few counted_all ready =
      (flush_sinks-Filing os faithful reads fileless fileless' s.backend
        (file_text os faithful reads fileless fileless' b n p blank f r)).1
      ∙ ap (λ l. before ++ lines_text os ps l)
          (flush_ready-written pos h other r few counted_all ready)

  -- A state in which `flush` goes on while the worker holds a record, which it has not written,
  -- although the `log` of this record has returned: only that of the other one has not.
  pub record Early : Type 0 where
    pub state : Async
    pub events : List Event
    pub first : LogRecord
    pub second : LogRecord
    pub path : Known os (make_async b n p blank) events (first ∷ []) state
    pub both_taken : taken events ≡ first ∷ second ∷ []
    pub one_written : written events ≡ first ∷ []
    pub in_flight : state.worker ≡ holds second
    pub may_go_on : flush_ready state ≡ true

  -- While a push is not counted, `flush` may return too early, under every policy and at every
  -- capacity: the first record is processed before its push is counted, and stands for the second
  -- one, whose push is counted, so that its `log` has returned, and which the worker still holds. The
  -- capacity is positive and fits `std::size_t`, and the records are any two.
  pub early_flush :
      0 < n → n < size_mod → (r1 r2 : LogRecord) → (e : Early) × (e.first ≡ r1) × (e.second ≡ r2)
  unfolding make_async flush_ready taken written of_producer
  early_flush pos h r1 r2 =
      let s0 = make_async b n p blank in
      let k0 = make_async-Tracked b n p blank pos h in
      let x = passage s0.queue r1 k0.valid (unfold init in refl) (unfold init in refl) in
      let y = passage x.emptied r2 x.valid x.is_empty x.is_on in
      let pushed = pushes r1 x.filled nobody x.pushed refl in
      let tested = goes_on pushed (test_running refl refl) refl refl in
      let popped = goes_on tested (pop_record r1 x.emptied refl x.popped) refl refl in
      let put = goes_on popped (write r1 refl) refl refl in
      let tallied = goes_on put (count_processed r1 refl) refl refl in
      let differs = goes_on tallied (not_all_processed 1 refl refl) refl refl in
      let more = pushes r2 y.filled differs y.pushed refl in
      let submitted = counts [] (r1 ∷ []) r2 1 more refl refl in
      let again = goes_on submitted (test_running refl refl) refl refl in
      (
        record {
          state = _;
          events = _;
          first = r1;
          second = r2;
          path = goes_on again (pop_record r2 y.emptied refl y.popped) refl refl;
          both_taken = refl;
          one_written = refl;
          in_flight = refl;
          may_go_on = refl;
        },
        refl,
        refl,
      )
