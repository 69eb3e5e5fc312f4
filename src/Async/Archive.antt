-- ===== src/Async/Archive.antt =====
-- What the worker of src/async_backend.cpp leaves in the files of a rotating sink.
use logparse.Base.{
  ℕ, ◌≡◌, ◌<◌, size_mod, refl, ap, ◌∙◌, sym, subst, List, [], ◌∷◌, ◌++◌, Bytes, append_assoc,
  append-nil,
}
use logparse.Async.{Async, make_async, ended, Event, took, wrote_out, silent}
use logparse.Async.Delivery.{all_written}
use logparse.Async.Steps.{
  Step, push_taken, push_refused, count, test_running, test_stopped, pop_record, pop_nothing, write,
  count_processed, all_processed, notify, not_all_processed, drain_record, drain_nothing,
  drain_write, drain_count, last_flush, flush_waits, wakes, flush_passes, stop_flag, stop_shutdown,
  Run, start, then_step, taken, written, written-concat, full,
}
use logparse.Backend.{Backend, emit, flush_sinks}
use logparse.Backend.Files.{lines_text, lines_text-concat}
use logparse.Backend.Keeping.{Keeping, emit-Keeping, flush_sinks-Keeping}
use logparse.Config.{OverflowPolicy, block}
use logparse.Formatter.Cache.{line}
use logparse.Formatter.Reads.{Piece, Reads}
use logparse.Platform.{Platform, IsFaithful}
use logparse.Record.{LogRecord}
use logparse.Sink.{Sink}
use logparse.Sink.Archived.{Archived, archive_keeper}
use logparse.Sink.Disk.{World}
use logparse.Sink.Keeper.{Keeper}

module _ {Tm : Type 0} (os : Platform Tm) (k : ℕ) (Has : Bytes → List Sink → World → Type 0)
    (keeper : Keeper os k Has) (faithful : IsFaithful os) {p : Bytes} {ps : List Piece}
    (reads : Reads p ps) (before : Bytes) where
  -- The sink has what it had, and the lines of the written records.
  abbrev Output : List Event → Backend → Type 0
  Output es b = Keeping os k Has keeper p (before ++ lines_text os ps (written es)) b

  unheard :
      (es : List Event) (e : Event) {b : Backend}
      → written (e ∷ []) ≡ []
      → Output es b
      → Output (es ++ e ∷ []) b
  unheard es e {b} n o =
      subst (λ rs. Keeping os k Has keeper p (before ++ lines_text os ps rs) b)
        (sym (written-concat es e ∙ ap (λ l. written es ++ l) n ∙ append-nil (written es))) o

  writes :
      (es : List Event) {b : Backend} (r : LogRecord)
      → Output es b
      → Output (es ++ wrote_out r ∷ []) (emit os b r).0
  unfolding written
  writes es {b} r o =
      let longer : (before ++ lines_text os ps (written es)) ++ line os ps r
          ≡ before ++ lines_text os ps (written (es ++ wrote_out r ∷ [])) =
        append_assoc before (lines_text os ps (written es)) (line os ps r)
        ∙ ap (λ l. before ++ l) (sym (lines_text-concat os ps (written es) r))
        ∙ ap (λ l. before ++ lines_text os ps l) (sym (written-concat es (wrote_out r))) in
      subst (λ x. Keeping os k Has keeper p x (emit os b r).0) longer
        (emit-Keeping os k Has keeper faithful reads b o r).1

  flushes :
      (es : List Event) {b : Backend} → Output es b → Output (es ++ silent ∷ []) (flush_sinks b)
  unfolding written
  flushes es {b} o = unheard es silent refl (flush_sinks-Keeping os k Has keeper faithful reads b o)

  Step-Output :
      (es : List Event) {s t : Async} {e : Event}
      → Step os s e t
      → Output es s.backend
      → Output (es ++ e ∷ []) t.backend
  unfolding written
  Step-Output es {s} (push_taken r q e) o = unheard es (took r (full s.queue)) refl o
  Step-Output es (push_refused r q e) o = unheard es silent refl o
  Step-Output es (count n e) o = unheard es silent refl o
  Step-Output es (test_running w e) o = unheard es silent refl o
  Step-Output es (test_stopped w e) o = unheard es silent refl o
  Step-Output es (pop_record r q w e) o = unheard es silent refl o
  Step-Output es (pop_nothing q w e) o = unheard es silent refl o
  Step-Output es (write r w) o = writes es r o
  Step-Output es (count_processed r w) o = unheard es silent refl o
  Step-Output es (all_processed n w e) o = unheard es silent refl o
  Step-Output es (notify w) o = unheard es silent refl o
  Step-Output es (not_all_processed n w e) o = unheard es silent refl o
  Step-Output es (drain_record r q w e) o = unheard es silent refl o
  Step-Output es (drain_nothing q w e) o = unheard es silent refl o
  Step-Output es (drain_write r w) o = writes es r o
  Step-Output es (drain_count r w) o = unheard es silent refl o
  Step-Output es (last_flush w) o = flushes es o
  Step-Output es (flush_waits e) o = unheard es silent refl o
  Step-Output es (wakes n e) o = unheard es silent refl o
  Step-Output es (flush_passes e) o = flushes es o
  Step-Output es (stop_flag e) o = unheard es silent refl o
  Step-Output es (stop_shutdown e) o = unheard es silent refl o

  Run-Output :
      {s t : Async} {es : List Event} → Run os s es t → Output [] s.backend → Output es t.backend
  Run-Output start o = o
  Run-Output {t = t} (then_step {es} r st e) o =
      subst (λ x. Output x t.backend) (sym e) (Step-Output es st (Run-Output r o))

module _ {Tm : Type 0} (os : Platform Tm) (faithful : IsFaithful os) {p : Bytes} {ps : List Piece}
    (reads : Reads p ps) (b : Backend) (n : ℕ) (policy : OverflowPolicy) (blank : LogRecord)
    {k m : ℕ} {base before : Bytes} where
  -- Whatever the threads do and under every policy, the files of a rotating sink hold the end of what
  -- was there and of the lines of the written records. The conditions are those below.
  pub archive_text :
      {s : Async} {es : List Event}
      → Keeping os k (Archived k base m) (archive_keeper os) p before b
      → Run os (make_async b n policy blank) es s
      → Archived k base m (before ++ lines_text os ps (written es)) s.backend.sinks s.backend.world
  unfolding make_async written lines_text
  archive_text keeping r =
      (Run-Output os k (Archived k base m) (archive_keeper os) faithful reads before r (
        subst (λ x. Keeping os k (Archived k base m) (archive_keeper os) p x b)
          (sym (append-nil before)) keeping)).safe.0

  -- Under `Block`, once the worker has ended, the numbered files and the log file of a rotating sink,
  -- read from the oldest on, are the end of what was there and of the lines of all records that the
  -- queue took, each once and in order. The capacity is positive and fits `std::size_t`. At the start
  -- the sink is open and keeps at least one numbered file, the environment refuses no rename and no
  -- opening, no other sink works on its files or rotates, and the cache is valid; and fmt writes a text
  -- as it is.
  pub archive_complete :
      {s : Async} {es : List Event}
      → 0 < n
      → n < size_mod
      → policy ≡ block
      → Keeping os k (Archived k base m) (archive_keeper os) p before b
      → Run os (make_async b n policy blank) es s
      → s.worker ≡ ended
      → Archived k base m (before ++ lines_text os ps (taken es)) s.backend.sinks s.backend.world
  archive_complete {s} {es} pos fits blocks keeping r w =
      subst
        (λ rs. Archived k base m (before ++ lines_text os ps rs) s.backend.sinks s.backend.world)
        (all_written os b n policy blank pos fits blocks r w) (archive_text keeping r)
