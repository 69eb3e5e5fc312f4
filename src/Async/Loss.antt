-- ===== src/Async/Loss.antt =====
-- What is left of the records that the queue took when a full queue overwrites its oldest ones.
use mathlib.Core.List.{Sublistᴰ}
use logparse.Base.{length, ◌+◌, ◌≡◌, ◌<◌, size_mod, refl, ℕ, List, [], ◌∷◌, ◌++◌}
use logparse.Async.{Async, make_async, joining, Event, took}
use logparse.Async.Order.{in_hand}
use logparse.Async.Queueing.{push-refused, pop-nothing}
use logparse.Async.Steps.{
  Step, push_taken, push_refused, count, test_running, test_stopped, pop_record, pop_nothing, write,
  count_processed, all_processed, notify, not_all_processed, drain_record, drain_nothing,
  drain_write, drain_count, last_flush, flush_waits, wakes, flush_passes, stop_flag, stop_shutdown,
  Run, start, then_step, taken, written, dropped, full,
}
use logparse.Backend.{Backend}
use logparse.Config.{OverflowPolicy}
use logparse.Platform.{Platform}
use logparse.Queue
use logparse.Queue.{Queue, shutdown, init}
use logparse.Queue.Inv.{init-IsValid}
use logparse.Queue.Refine.{items, window}
use logparse.Queue.Run.{shutdown-IsValid}
use logparse.Record.{LogRecord}
use logparse.Async.Thinning.{Thinned, still, hands_out, puts, takes, makes_room}

module _ {Tm : Type 0} (os : Platform Tm) where
  Step-Thinned :
      (es : List Event) {s t : Async} {e : Event}
      → Step os s e t
      → Thinned es s
      → Thinned (es ++ e ∷ []) t
  unfolding taken written
  Step-Thinned es {s} (push_taken r q e) o =
      takes es s (took r (full s.queue)) r refl refl refl (makes_room s q r o.valid e) e o
  Step-Thinned es {s} (push_refused r q e) o =
      let same = push-refused s.queue q o.valid r e in still es (rw same o.valid) (rw same refl) o
  Step-Thinned es (count n e) o = still es o.valid refl o
  Step-Thinned es (test_running w e) o = still es o.valid (rw w refl) o
  Step-Thinned es (test_stopped w e) o = still es o.valid (rw w refl) o
  Step-Thinned es (pop_record r q w e) o = hands_out es r e (rw w refl) refl o
  Step-Thinned es {s} (pop_nothing q w e) o =
      let same = (pop-nothing s.queue q o.valid e).0 in
      still es (rw same o.valid) (rw (w, same) refl) o
  Step-Thinned es (write r w) o = puts es r refl (rw w refl) refl o
  Step-Thinned es (count_processed r w) o = still es o.valid (rw w refl) o
  Step-Thinned es (all_processed n w e) o = still es o.valid (rw w refl) o
  Step-Thinned es (notify w) o = still es o.valid (rw w refl) o
  Step-Thinned es (not_all_processed n w e) o = still es o.valid (rw w refl) o
  Step-Thinned es (drain_record r q w e) o = hands_out es r e (rw w refl) refl o
  Step-Thinned es {s} (drain_nothing q w e) o =
      let same = (pop-nothing s.queue q o.valid e).0 in
      still es (rw same o.valid) (rw (w, same) refl) o
  Step-Thinned es (drain_write r w) o = puts es r refl (rw w refl) refl o
  Step-Thinned es (drain_count r w) o = still es o.valid (rw w refl) o
  Step-Thinned es (last_flush w) o = still es o.valid (rw w refl) o
  Step-Thinned es (flush_waits e) o = still es o.valid refl o
  Step-Thinned es (wakes n e) o = still es o.valid refl o
  Step-Thinned es (flush_passes e) o = still es o.valid refl o
  Step-Thinned es (stop_flag e) o = still es o.valid refl o
  Step-Thinned es {s} (stop_shutdown e) o =
      still es {s = s} {t = record s { queue = Queue.shutdown s.queue; stopper = joining }}
        (shutdown-IsValid o.valid) (unfold shutdown in refl) o

  Run-Thinned : {s t : Async} {es : List Event} → Run os s es t → Thinned [] s → Thinned es t
  Run-Thinned start o = o
  Run-Thinned (then_step {es} r st e) o = rw e (Step-Thinned es st (Run-Thinned r o))

  module _ (b : Backend) (n : ℕ) (p : OverflowPolicy) (blank : LogRecord) where
    make_async-Thinned : 0 < n → n < size_mod → Thinned [] (make_async b n p blank)
    unfolding make_async taken written dropped init window
    make_async-Thinned pos h = record {
      valid = init-IsValid blank n p pos h;
      part = Sublistᴰ.slnil;
      sum = refl;
    }

    -- Under every policy, `DropOldest` included, and whatever the threads do: the records that the
    -- worker has written, then the one that it holds, then those in the queue, are some of the
    -- records that the queue took, each at most once and in the order in which it took them, and
    -- there is one less for each record that a full queue took. The capacity is positive and fits
    -- `std::size_t`.
    pub written_in_part :
        {s : Async} {es : List Event}
        → 0 < n
        → n < size_mod
        → Run os (make_async b n p blank) es s
        → Sublistᴰ (written es ++ (in_hand s.worker ++ items s.queue)) (taken es)
          × (length (written es ++ (in_hand s.worker ++ items s.queue)) + dropped es
              ≡ length (taken es))
    written_in_part pos h r = let o = Run-Thinned r (make_async-Thinned pos h) in (o.part, o.sum)
