-- ===== src/Async/Order.antt =====
-- Every record that the queue takes is written once and in order, under every policy but
-- `DropOldest`.
use logparse.Base.{
  ◌≡◌, ◌≢◌, refl, ap, ◌∙◌, sym, Bool, true, false, List, [], ◌∷◌, ◌++◌, some, append-nil,
  append_assoc,
}
use logparse.Async.{
  Async, Worker, holds, drain_holds, at_flush, ended, Event, took, wrote_out, silent,
}
use logparse.Async.Queueing.{push-taken, push-refused, pop-record, pop-nothing}
use logparse.Async.Steps.{
  Step, push_taken, push_refused, count, test_running, test_stopped, pop_record, pop_nothing, write,
  count_processed, all_processed, notify, not_all_processed, drain_record, drain_nothing,
  drain_write, drain_count, last_flush, flush_waits, wakes, flush_passes, stop_flag, stop_shutdown,
  Run, start, then_step, taken, written, taken-concat, written-concat, full,
}
use logparse.Config.{OverflowPolicy, block, drop_oldest}
use logparse.Platform.{Platform}
use logparse.Queue
use logparse.Queue.{Queue, shutdown, init}
use logparse.Queue.Fifo.{PopResult}
use logparse.Queue.Inv.{IsValid}
use logparse.Queue.Refine.{items}
use logparse.Queue.Run.{shutdown-IsValid}
use logparse.Record.{LogRecord}

-- The record that the worker has popped and not yet written.
abbrev pub in_hand : Worker → List LogRecord
in_hand (holds r) = r ∷ []
in_hand (drain_holds r) = r ∷ []
in_hand _ = []

-- Whether the worker has left its second loop.
abbrev pub has_drained : Worker → Bool
has_drained at_flush = true
has_drained ended = true
has_drained _ = false

pub record Ordered (p : OverflowPolicy) (es : List Event) (s : Async) : Type 0 where
  pub valid : IsValid s.queue
  pub policy : s.queue.policy ≡ p
  pub other : p ≢ drop_oldest
  pub in_order : taken es ≡ written es ++ (in_hand s.worker ++ items s.queue)
  pub drained :
      p ≡ block → has_drained s.worker ≡ true → (items s.queue ≡ []) × (s.queue.is_shutdown ≡ true)

pub taken-silent : (es : List Event) → taken (es ++ silent ∷ []) ≡ taken es
unfolding taken
taken-silent es = taken-concat es silent ∙ append-nil (taken es)

pub written-silent : (es : List Event) → written (es ++ silent ∷ []) ≡ written es
unfolding written
written-silent es = written-concat es silent ∙ append-nil (written es)

-- A step that shows nothing, and leaves alone the queue and what the worker holds.
quiet :
    {p : OverflowPolicy} (es : List Event) {s t : Async}
    → t.queue ≡ s.queue
    → in_hand t.worker ≡ in_hand s.worker
    → has_drained t.worker ≡ has_drained s.worker
    → Ordered p es s
    → Ordered p (es ++ silent ∷ []) t
quiet es {s} {t} q h d o = record {
  valid = rw q o.valid;
  policy = rw q o.policy;
  other = o.other;
  in_order = rw (taken-silent es, written-silent es, q, h) o.in_order;
  drained = rw (q, d) o.drained;
}

-- A record goes from the queue to the worker.
popping :
    {p : OverflowPolicy} (es : List Event) {s t : Async} (r : LogRecord)
    → Queue.pop s.queue ≡ PopResult.returned (some r) t.queue
    → in_hand s.worker ≡ []
    → in_hand t.worker ≡ r ∷ []
    → has_drained t.worker ≡ false
    → Ordered p es s
    → Ordered p (es ++ silent ∷ []) t
popping es {s} {t} r p h h' d o =
    let (v, same, i, z, c) = pop-record s.queue t.queue o.valid r p in
    record {
      valid = v;
      policy = same ∙ o.policy;
      other = o.other;
      in_order =
          rw (taken-silent es, written-silent es, h')
            (o.in_order
              ∙ ap (λ l. written es ++ (l ++ items s.queue)) h
              ∙ ap (λ l. written es ++ l) i);
      drained = λ b e. cc (d, e);
    }

-- The worker writes the record that it holds.
writing :
    {p : OverflowPolicy} (es : List Event) {s t : Async} (r : LogRecord)
    → t.queue ≡ s.queue
    → in_hand s.worker ≡ r ∷ []
    → in_hand t.worker ≡ []
    → has_drained t.worker ≡ false
    → Ordered p es s
    → Ordered p (es ++ wrote_out r ∷ []) t
unfolding taken written
writing es {s} {t} r q h h' d o = record {
  valid = rw q o.valid;
  policy = rw q o.policy;
  other = o.other;
  in_order =
      rw
        (
          taken-concat es (wrote_out r),
          written-concat es (wrote_out r),
          h',
          q,
          append-nil (taken es),
        )
        (o.in_order
          ∙ ap (λ l. written es ++ (l ++ items s.queue)) h
          ∙ sym (append_assoc (written es) (r ∷ []) (items s.queue)));
  drained = λ b e. cc (d, e);
}

module _ {Tm : Type 0} (os : Platform Tm) where
  -- Every step keeps the order.
  Step-Ordered :
      {p : OverflowPolicy} (es : List Event) {s t : Async} {e : Event}
      → Step os s e t
      → Ordered p es s
      → Ordered p (es ++ e ∷ []) t
  unfolding taken written
  Step-Ordered es {s} (push_taken r q e) o =
      let n = push-taken s.queue q o.valid r e in
      record {
        valid = n.0;
        policy = n.1 ∙ o.policy;
        other = o.other;
        in_order =
            rw
              (
                taken-concat es (took r (full s.queue)),
                written-concat es (took r (full s.queue)),
                n.2 (λ h. o.other (sym o.policy ∙ h)),
              )
              (ap (λ l. l ++ r ∷ []) o.in_order
                ∙ rw (append-nil (written es)) (
                    append_assoc (written es) (in_hand s.worker ++ items s.queue) (r ∷ [])
                    ∙ ap (λ l. written es ++ l)
                        (append_assoc (in_hand s.worker) (items s.queue) (r ∷ []))));
        drained = λ b d.
            let before : s.queue.policy ≡ block = o.policy ∙ b in
            absurd (cc (n.5 before, (o.drained b d).1));
      }
  Step-Ordered es {s} (push_refused r q e) o =
      quiet es (push-refused s.queue q o.valid r e) refl refl o
  Step-Ordered es (count n e) o = quiet es refl refl refl o
  Step-Ordered es (test_running w e) o = quiet es refl (rw w) (rw w) o
  Step-Ordered es (test_stopped w e) o = quiet es refl (rw w) (rw w) o
  Step-Ordered es (pop_record r q w e) o = popping es r e (rw w) refl refl o
  Step-Ordered es {s} (pop_nothing q w e) o =
      quiet es (pop-nothing s.queue q o.valid e).0 (rw w) (rw w) o
  Step-Ordered es (write r w) o = writing es r refl (rw w) refl refl o
  Step-Ordered es (count_processed r w) o = quiet es refl (rw w) (rw w) o
  Step-Ordered es (all_processed n w e) o = quiet es refl (rw w) (rw w) o
  Step-Ordered es (notify w) o = quiet es refl (rw w) (rw w) o
  Step-Ordered es (not_all_processed n w e) o = quiet es refl (rw w) (rw w) o
  Step-Ordered es (drain_record r q w e) o = popping es r e (rw w) refl refl o
  Step-Ordered es {s} (drain_nothing q w e) o =
      let (same, i, c) = pop-nothing s.queue q o.valid e in
      record {
        valid = rw same o.valid;
        policy = rw same o.policy;
        other = o.other;
        in_order = rw (taken-silent es, written-silent es, same) (o.in_order ∙ rw w);
        drained = λ b d. rw same (i, c);
      }
  Step-Ordered es (drain_write r w) o = writing es r refl (rw w) refl refl o
  Step-Ordered es (drain_count r w) o = quiet es refl (rw w) (rw w) o
  Step-Ordered es (last_flush w) o = quiet es refl (rw w) (rw w) o
  Step-Ordered es (flush_waits e) o = quiet es refl refl refl o
  Step-Ordered es (wakes n e) o = quiet es refl refl refl o
  Step-Ordered es (flush_passes e) o = quiet es refl refl refl o
  Step-Ordered es (stop_flag e) o = quiet es refl refl refl o
  Step-Ordered es {s} (stop_shutdown e) o = record {
    valid = shutdown-IsValid o.valid;
    policy = unfold shutdown in o.policy;
    other = o.other;
    in_order = rw (taken-silent es, written-silent es) (unfold shutdown in o.in_order);
    drained = unfold shutdown in λ b d. ((o.drained b d).0, refl);
  }

  pub Run-Ordered :
      {p : OverflowPolicy} {s t : Async} {es : List Event}
      → Run os s es t
      → Ordered p [] s
      → Ordered p es t
  Run-Ordered start o = o
  Run-Ordered (then_step {es} r st e) o = rw e (Step-Ordered es st (Run-Ordered r o))
