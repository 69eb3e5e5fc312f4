-- ===== src/Sink/Tests.antt =====
-- Each theorem on rotation at a concrete log.
use logparse.Base.{
  ◌∷◌, ◌≡◌, ◌<◌, ◌⊎◌, refl, true, Bytes, codes, [], ◌++◌, none, some, arith, equal, length,
  if◌then◌else◌,
}
use logparse.Fixtures.{plain_os, plain_world}
use logparse.Sink.Manager.{followed, write_all-append}
use logparse.Sink.{
  Sink, file_sink, null_sink, write_all, RotatingFileSink, rotate_loop, rotating_write,
  rotating_flush, must_rotate,
}
use logparse.Sink.Reopened.{Cooperates}
use logparse.Sink.Bounds.{rotating_write_bound, rotating_write_unbounded}
use logparse.Sink.Disk.{World, content, handed_over, stream_write, stream_flush}
use logparse.Sink.History.{Continued, write_each, joined, write_each-Continued}
use logparse.Sink.Rotation.{Rotated, rotate_loop-Rotated}

abbrev log_name : Bytes
log_name = codes "a.log"

-- A log of three bytes.
abbrev logged : World
logged = record plain_world { files = λ p. if equal p log_name then some (codes "one") else none }

abbrev small_log : RotatingFileSink
small_log = record {
  path = log_name;
  stream = record { is_open = true; pending = [] };
  max_file_size = 5;
  max_files = 1;
}

abbrev single_log : RotatingFileSink
single_log = record small_log { max_files = 0 }

logged-Cooperates : Cooperates small_log logged
logged-Cooperates = record { renames = λ s d. refl; opens = refl }

single-Cooperates : Cooperates single_log logged
single-Cooperates = record { renames = λ s d. refl; opens = refl }

abbrev file_log : Sink
file_log = file_sink (record { path = log_name; stream = record { is_open = true; pending = [] } })

rotate_loop-Rotated_example : Rotated log_name 2 logged.files (rotate_loop 2 log_name logged).files
rotate_loop-Rotated_example = rotate_loop-Rotated 2 log_name logged (λ s d. refl)

write_each-Continued_example :
    Continued 0 small_log logged
      (codes "twothree")
      (write_each small_log (codes "two" ∷ codes "three" ∷ []) logged)
unfolding joined
write_each-Continued_example =
    write_each-Continued 0 small_log (codes "two" ∷ codes "three" ∷ []) logged refl
      logged-Cooperates refl

-- The same log where a byte waits, and streams that write nothing through at once.
abbrev waiting_log : RotatingFileSink
waiting_log = record small_log { stream = record { is_open = true; pending = codes "x" } }

abbrev slow : World
slow = record logged { spill = λ waiting s. 0 }

rotating_write_bound_example :
    let o = rotating_write waiting_log (codes "y") slow in
    let after = handed_over log_name (o.object.stream, o.world) in
    (length after < 6) ⊎ (after ≡ codes "y")
rotating_write_bound_example =
    rotating_write_bound waiting_log (codes "y") slow refl
      (record { renames = λ s d. refl; opens = refl }) (omega arith) (unfold equal in omega arith)

-- Two lines that the size test lets pass one by one, and the file behind them and a flush: it is
-- at the limit of five bytes that the test keeps it below.
past_limit :
    let one = rotating_write small_log (codes "y") slow in
    let two = rotating_write one.object (codes "z") one.world in
    content log_name (rotating_flush two.object two.world).world ≡ codes "oneyz"
unfolding rotating_write must_rotate stream_write rotating_flush stream_flush equal
past_limit = refl

rotating_write_unbounded_example :
    let o = rotating_write single_log (codes "two") logged in
    handed_over log_name (o.object.stream, o.world)
    ≡ handed_over log_name (single_log.stream, logged) ++ codes "two"
rotating_write_unbounded_example =
    rotating_write_unbounded single_log (codes "two") logged refl single-Cooperates refl

write_all-file_null :
    write_all plain_os (file_log ∷ [] ++ null_sink ∷ []) (codes "two") logged
    ≡ followed plain_os
        (codes "two")
        (write_all plain_os (file_log ∷ []) (codes "two") logged)
        (null_sink ∷ [])
write_all-file_null =
    write_all-append plain_os (codes "two") (file_log ∷ []) (null_sink ∷ []) logged
