-- ===== src/Async/Output.antt =====
-- What the worker of src/async_backend.cpp leaves in the log file.
use logparse.Base.{
  ℕ, ◌≡◌, ◌≢◌, ◌<◌, size_mod, refl, ap, ◌∙◌, sym, List, [], ◌∷◌, ◌++◌, Bytes, All, append_assoc,
  append-nil,
}
use logparse.Async.{Async, make_async, ended, Event, took, wrote_out, silent}
use logparse.Async.Delivery.{all_written}
use logparse.Async.Steps.{
  Step, push_taken, push_refused, count, test_running, test_stopped, pop_record, pop_nothing, write,
  count_processed, all_processed, notify, not_all_processed, drain_record, drain_nothing,
  drain_write, drain_count, last_flush, flush_waits, wakes, flush_passes, stop_flag, stop_shutdown,
  Run, start, then_step, taken, written, written-concat, full,
}
use logparse.Backend.{Backend, emit, flush_sinks}
use logparse.Backend.Files.{Filing, emit-Filing, flush_sinks-Filing, lines_text, lines_text-concat}
use logparse.Config.{OverflowPolicy, block}
use logparse.Formatter.Cache.{line}
use logparse.Formatter.Reads.{Piece, Reads}
use logparse.Platform.{Platform, IsFaithful}
use logparse.Record.{LogRecord}
use logparse.Sink.{Sink}
use logparse.Sink.Disk.{content}
use logparse.Sink.Files.{IsFileless}

-- The file holds, or its stream will write, just the lines of the written records behind what was
-- there; once the worker has ended, the file holds them.
pub record Output {Tm : Type 0} (os : Platform Tm) (p : Bytes) (ps : List Piece)
    (pre post : List Sink) (path before : Bytes) (es : List Event) (s : Async) : Type 0 where
  pub filing : Filing os p pre post path (before ++ lines_text os ps (written es)) s.backend
  pub settled :
      s.worker ≡ ended → content path s.backend.world ≡ before ++ lines_text os ps (written es)

module _ {Tm : Type 0} (os : Platform Tm) (faithful : IsFaithful os) {p : Bytes} {ps : List Piece}
    (reads : Reads p ps) {pre post : List Sink} (fileless : All IsFileless pre)
    (fileless' : All IsFileless post) {path before : Bytes} where
  -- A step that leaves the backend alone.
  unheard :
      (es : List Event) {s t : Async} (e : Event)
      → written (e ∷ []) ≡ []
      → t.backend ≡ s.backend
      → (t.worker ≡ ended → s.worker ≡ ended)
      → Output os p ps pre post path before es s
      → Output os p ps pre post path before (es ++ e ∷ []) t
  unheard es e n b w o =
      let same : written (es ++ e ∷ []) ≡ written es =
        written-concat es e ∙ ap (λ l. written es ++ l) n ∙ append-nil (written es) in
      record { filing = rw (same, b) o.filing; settled = rw (same, b) (λ h. o.settled (w h)) }

  -- The worker writes a record.
  writes :
      (es : List Event) {s t : Async} (r : LogRecord)
      → t.backend ≡ (emit os s.backend r).0
      → t.worker ≢ ended
      → Output os p ps pre post path before es s
      → Output os p ps pre post path before (es ++ wrote_out r ∷ []) t
  unfolding written
  writes es {s} r b w o =
      let (filed, quiet) = emit-Filing os faithful reads fileless fileless' s.backend r o.filing in
      let longer : before ++ lines_text os ps (written (es ++ wrote_out r ∷ []))
          ≡ (before ++ lines_text os ps (written es)) ++ line os ps r =
        ap (λ l. before ++ lines_text os ps l) (written-concat es (wrote_out r))
        ∙ ap (λ l. before ++ l) (lines_text-concat os ps (written es) r)
        ∙ sym (append_assoc before (lines_text os ps (written es)) (line os ps r)) in
      record { filing = rw (longer, b) filed; settled = λ h. absurd (w h) }

  -- The sinks are flushed.
  flushes :
      (es : List Event) {s t : Async}
      → t.backend ≡ flush_sinks s.backend
      → Output os p ps pre post path before es s
      → Output os p ps pre post path before (es ++ silent ∷ []) t
  unfolding written
  flushes es {s} b o =
      let same : written (es ++ silent ∷ []) ≡ written es =
        written-concat es silent ∙ append-nil (written es) in
      let (filed, all_there) =
        flush_sinks-Filing os faithful reads fileless fileless' s.backend o.filing in
      record { filing = rw (same, b) filed; settled = λ h. rw (same, b) all_there }

  Step-Output :
      (es : List Event) {s t : Async} {e : Event}
      → Step os s e t
      → Output os p ps pre post path before es s
      → Output os p ps pre post path before (es ++ e ∷ []) t
  unfolding written
  Step-Output es {s} (push_taken r q e) o = unheard es (took r (full s.queue)) refl refl (λ h. h) o
  Step-Output es (push_refused r q e) o = unheard es silent refl refl (λ h. h) o
  Step-Output es (count n e) o = unheard es silent refl refl (λ h. h) o
  Step-Output es (test_running w e) o = unheard es silent refl refl (λ h. cc h) o
  Step-Output es (test_stopped w e) o = unheard es silent refl refl (λ h. cc h) o
  Step-Output es (pop_record r q w e) o = unheard es silent refl refl (λ h. cc h) o
  Step-Output es (pop_nothing q w e) o = unheard es silent refl refl (λ h. cc h) o
  Step-Output es (write r w) o = writes es r refl (cc) o
  Step-Output es (count_processed r w) o = unheard es silent refl refl (λ h. cc h) o
  Step-Output es (all_processed n w e) o = unheard es silent refl refl (λ h. cc h) o
  Step-Output es (notify w) o = unheard es silent refl refl (λ h. cc h) o
  Step-Output es (not_all_processed n w e) o = unheard es silent refl refl (λ h. cc h) o
  Step-Output es (drain_record r q w e) o = unheard es silent refl refl (λ h. cc h) o
  Step-Output es (drain_nothing q w e) o = unheard es silent refl refl (λ h. cc h) o
  Step-Output es (drain_write r w) o = writes es r refl (cc) o
  Step-Output es (drain_count r w) o = unheard es silent refl refl (λ h. cc h) o
  Step-Output es (last_flush w) o = flushes es refl o
  Step-Output es (flush_waits e) o = unheard es silent refl refl (λ h. h) o
  Step-Output es (wakes n e) o = unheard es silent refl refl (λ h. h) o
  Step-Output es (flush_passes e) o = flushes es refl o
  Step-Output es (stop_flag e) o = unheard es silent refl refl (λ h. h) o
  Step-Output es (stop_shutdown e) o = unheard es silent refl refl (λ h. h) o

  Run-Output :
      {s t : Async} {es : List Event}
      → Run os s es t
      → Output os p ps pre post path before [] s
      → Output os p ps pre post path before es t
  Run-Output start o = o
  Run-Output (then_step {es} r st e) o = rw e (Step-Output es st (Run-Output r o))

  module _ (b : Backend) (n : ℕ) (policy : OverflowPolicy) (blank : LogRecord) where
    make_async-Output :
        Filing os p pre post path before b
        → Output os p ps pre post path before [] (make_async b n policy blank)
    unfolding make_async written lines_text
    make_async-Output f = record { filing = rw (append-nil before) f; settled = λ h. cc h }

    -- Whatever the threads do and under every policy, what was handed over to the log file is what
    -- was there before, and the lines of the written records, each once and in order. The backend
    -- starts with one open file among console and null sinks and with a valid cache, and fmt writes
    -- a text as it is.
    pub file_text :
        {s : Async} {es : List Event}
        → Filing os p pre post path before b
        → Run os (make_async b n policy blank) es s
        → Filing os p pre post path (before ++ lines_text os ps (written es)) s.backend
    file_text f r = (Run-Output r (make_async-Output f)).filing

    -- Under `Block`, once the worker has ended, the log file holds what was there before, and the
    -- line of every record that the queue took, each once and in order. The capacity is positive
    -- and fits `std::size_t`, the backend starts with one open file among console and null sinks
    -- and with a valid cache, and fmt writes a text as it is.
    pub file_complete :
        {s : Async} {es : List Event}
        → 0 < n
        → n < size_mod
        → policy ≡ block
        → Filing os p pre post path before b
        → Run os (make_async b n policy blank) es s
        → s.worker ≡ ended
        → content path s.backend.world ≡ before ++ lines_text os ps (taken es)
    file_complete {s} {es} pos h e f r w =
        (Run-Output r (make_async-Output f)).settled w
        ∙ ap (λ l. before ++ lines_text os ps l) (all_written os b n policy blank pos h e r w)
