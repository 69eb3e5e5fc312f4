-- ===== src/Threads/Tests.antt =====
-- The theorems on several threads at runs of two threads on one file, and of one on a rotating one.
use logparse.Base.{ℕ, ◌≡◌, refl, true, List, [], ◌∷◌, ◌++◌, codes, Bytes}
use logparse.Fixtures.{
  plain_os, plain_os-IsFaithful, plain_world, sample_record, cold-IsWarm, small_log,
  small_log-Cooperates, others_null, small_log-Archived,
}
use logparse.Formatter
use logparse.Formatter.{make_formatter, cold, format}
use logparse.Sink.{Sink, FileSink, file_sink, null_sink, rotating_sink, write, file_write}
use logparse.Sink.Apart.{IsApart}
use logparse.Sink.History.{rotating_write-Continued}
use logparse.Threads.{
  Machine, format_line, write_sink, write_returns, set_pattern, put, called, resting, writes, Run,
  start, then_step, Event, began, wrote, patterned, silent,
}
use logparse.Sink.Archived.{Archived}
use logparse.Threads.Files.{threads_archive}
use logparse.Threads.Events.{gather, begins, enters, lines_of, texts}
use logparse.Threads.Patterns.{in_force, line_in_force}
use logparse.Threads.Patterns
use logparse.Sink.Whole.{Whole}
use logparse.Threads.Files.{threads_file}

abbrev machine_with : List Sink → Machine
machine_with sinks = record {
  formatter = make_formatter (codes "%m!");
  sinks = sinks;
  world = plain_world;
  progress = λ t. resting;
  caches = λ t. cold;
}

abbrev log_file : FileSink
log_file = record { path = codes "a.log"; stream = record { is_open = true; pending = [] } }

abbrev at_rest : Machine
at_rest = machine_with (file_sink log_file ∷ null_sink ∷ [])

abbrev sample_line : Bytes
sample_line = (format plain_os (make_formatter (codes "%m!")) cold [] sample_record).0

abbrev formatted : ℕ → Machine → Machine
formatted t m = record m {
  progress = put m.progress t (writes sample_line 0);
  caches = put m.caches t (format plain_os m.formatter cold [] sample_record).1;
}

abbrev stored : ℕ → FileSink → Machine → Machine
stored t f m =
    called m t 0 (write plain_os (file_sink f) sample_line m.world) (writes sample_line 1)

abbrev dropped : ℕ → Machine → Machine
dropped t m = called m t 1 (write plain_os null_sink sample_line m.world) (writes sample_line 2)

abbrev back : ℕ → Machine → Machine
back t m = record m { progress = put m.progress t resting }

abbrev written_file : FileSink
written_file = (file_write log_file sample_line plain_world).object

abbrev stored_twice : Machine
stored_twice = stored 1 written_file (stored 2 log_file (formatted 2 (formatted 1 at_rest)))

-- Both threads format, the second one's line comes first, and both come back.
abbrev both : Machine
both = back 1 (back 2 (dropped 2 (dropped 1 stored_twice)))

abbrev both_events : List Event
both_events =
    began 1 sample_record sample_line
    ∷ began 2 sample_record sample_line
    ∷ wrote 2 0 sample_line
    ∷ wrote 1 0 sample_line
    ∷ wrote 1 1 sample_line
    ∷ wrote 2 1 sample_line
    ∷ silent
    ∷ silent
    ∷ []

both-Run : Run plain_os at_rest both_events both
unfolding write file_write
both-Run =
    let two_formatted =
      then_step (then_step start (format_line 1 sample_record sample_line _ refl refl) refl)
        (format_line 2 sample_record sample_line _ refl refl) refl in
    let in_the_file =
      then_step
        (then_step two_formatted (write_sink 2 0 sample_line (file_sink log_file) refl refl refl)
          refl)
        (write_sink 1 0 sample_line (file_sink written_file) refl refl refl) refl in
    let in_both =
      then_step (then_step in_the_file (write_sink 1 1 sample_line null_sink refl refl refl) refl)
        (write_sink 2 1 sample_line null_sink refl refl refl) refl in
    then_step (then_step in_both (write_returns 2 2 sample_line refl refl) refl)
      (write_returns 1 2 sample_line refl refl) refl

at_rest-Whole : Whole 0 (codes "a.log") [] at_rest.sinks at_rest.world
at_rest-Whole = record {
  file = log_file;
  at = refl;
  path = refl;
  is_open = refl;
  text = refl;
  others = others_null (IsApart (codes "a.log")) (file_sink log_file) tt;
}

threads_file_example :
    Whole 0 (codes "a.log") ([] ++ texts (gather (enters 0) both_events)) both.sinks both.world
    × (lines_of 1 (gather (enters 0) both_events) ≡ gather (begins 1) both_events)
threads_file_example =
    threads_file plain_os 1 both-Run at_rest-Whole refl refl (unfold gather in refl)

-- A `log` that nothing interrupts.
abbrev stored_one : Machine
stored_one = stored 1 log_file (formatted 1 at_rest)

abbrev one_events : List Event
one_events =
    began 1 sample_record sample_line ∷ wrote 1 0 sample_line ∷ wrote 1 1 sample_line ∷ silent ∷ []

-- Another pattern is set before the thread formats.
abbrev told : Machine
told = record at_rest { formatter = Formatter.set_pattern at_rest.formatter (codes "%l") }

abbrev level_line : Bytes
level_line = (format plain_os told.formatter cold [] sample_record).0

line_in_force_example :
    Patterns.IsLine plain_os plain_os-IsFaithful
      (in_force (codes "%m!") (patterned (codes "%l") ∷ []))
      sample_record
      level_line
line_in_force_example =
    line_in_force plain_os plain_os-IsFaithful {m = at_rest} 1 sample_record _
      (record { formatter = refl; caches = λ t. cold-IsWarm })
      (then_step start (set_pattern (codes "%l")) refl)
      (format_line 1 sample_record level_line _ refl refl)

abbrev small_rests : Machine
small_rests = machine_with (rotating_sink small_log ∷ null_sink ∷ [])

abbrev small_events : List Event
small_events =
    began 1 sample_record sample_line ∷ wrote 1 0 sample_line ∷ wrote 1 1 sample_line ∷ silent ∷ []

abbrev small_after : Machine
small_after = back 1 (
    dropped 1 (
      called (formatted 1 small_rests) 1 0
        (write plain_os (rotating_sink small_log) sample_line plain_world) (writes sample_line 1)))

small-Run : Run plain_os small_rests small_events small_after
unfolding write
small-Run =
    let quiet =
      (rotating_write-Continued 0 small_log sample_line plain_world refl small_log-Cooperates
        refl).quiet in
    let stored =
      then_step (then_step start (format_line 1 sample_record sample_line _ refl refl) refl)
        (write_sink 1 0 sample_line (rotating_sink small_log) refl refl quiet) refl in
    then_step (then_step stored (write_sink 1 1 sample_line null_sink refl refl refl) refl)
      (write_returns 1 2 sample_line refl refl) refl

threads_archive_example :
    Archived 0
      (codes "a.log")
      0
      ([] ++ texts (gather (enters 0) small_events))
      small_after.sinks
      small_after.world
    × (lines_of 1 (gather (enters 0) small_events) ≡ gather (begins 1) small_events)
threads_archive_example =
    threads_archive plain_os 1 small-Run small_log-Archived refl refl (unfold gather in refl)
