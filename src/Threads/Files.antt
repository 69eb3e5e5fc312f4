-- ===== src/Threads/Files.antt =====
-- What several threads leave in the log file of one of their sinks, and in the files of a rotating one.
use logparse.Base.{ℕ, ◌≡◌, List, [], ◌++◌, Bytes}
use logparse.Platform.{Platform}
use logparse.Threads.{Machine, Run, Event, resting}
use logparse.Threads.Events.{gather, begins, enters, lines_of, texts}
use logparse.Threads.Keeper.{run_lem}
use logparse.Threads.Order.{losses}
use logparse.Sink.Whole.{Whole, file_keeper}
use logparse.Sink.Archived.{Archived, archive_keeper}

module _ {Tm : Type 0} (os : Platform Tm) {k : ℕ} {p : Bytes} where
  -- A file sink takes whole lines only, and those of each thread in order: let a run start with the
  -- sink at an index an open file sink on whose file no other sink works, and with `before` handed
  -- over. Then it ends with `before` and the lines of the sink's entries handed over; and the entries
  -- of a thread that rests at both ends and lost no line to a sink that threw are the lines that it
  -- formatted, each once, in its order.
  pub threads_file :
      {before : Bytes} {m n : Machine} {es : List Event} (t : ℕ)
      → Run os m es n
      → Whole k p before m.sinks m.world
      → m.progress t ≡ resting
      → n.progress t ≡ resting
      → gather (losses t) es ≡ []
      → Whole k p (before ++ texts (gather (enters k) es)) n.sinks n.world
        × (lines_of t (gather (enters k) es) ≡ gather (begins t) es)
  threads_file t r h at_rest rests kept =
      run_lem os k (Whole k p) (file_keeper os) t r h at_rest rests kept

module _ {Tm : Type 0} (os : Platform Tm) {k n : ℕ} {base : Bytes} where
  -- However the threads interleave and however often the files rotate, the numbered files and the log
  -- file of a rotating sink, read from the oldest on, are the end of what was there and of the lines
  -- of its entries; and the entries of a thread that rests at both ends and lost no line to a sink
  -- that threw are the lines that it formatted, each once, in its order. The sink is open and keeps
  -- at least one numbered file, no other sink works on its files, and the environment refuses no
  -- rename and no opening.
  pub threads_archive :
      {before : Bytes} {m o : Machine} {es : List Event} (t : ℕ)
      → Run os m es o
      → Archived k base n before m.sinks m.world
      → m.progress t ≡ resting
      → o.progress t ≡ resting
      → gather (losses t) es ≡ []
      → Archived k base n (before ++ texts (gather (enters k) es)) o.sinks o.world
        × (lines_of t (gather (enters k) es) ≡ gather (begins t) es)
  threads_archive t r h at_rest rests kept =
      run_lem os k (Archived k base n) (archive_keeper os) t r h at_rest rests kept
