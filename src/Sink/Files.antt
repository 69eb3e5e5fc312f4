-- ===== src/Sink/Files.antt =====
-- What a call on the sinks of a logger leaves in its log file.
use logparse.Base.{◌≡◌, refl, ap, ◌∙◌, true, List, [], ◌∷◌, ◌++◌, none, Bytes, All, or_else}
use logparse.Platform.{Platform}
use logparse.Sink.{
  Sink, Outcome, FileSink, console_sink, file_sink, rotating_sink, null_sink, write, write_all,
  file_write, console_write, flush, flush_all, file_flush, console_flush,
}
use logparse.Sink.Disk.{
  World, content, print, print_flush, stream_write, stream_flush, handed_over,
  handed_over-stream_write, handed_over-stream_flush,
}
use logparse.Sink.Manager.{then_all}

-- A sink that writes to no file.
abbrev pub IsFileless : Sink → Type 0
IsFileless (console_sink c) = Unit
IsFileless null_sink = Unit
IsFileless _ = ⊥

-- A call that leaves the sinks and the files as they were, and throws nothing.
pub record Harmless (ss : List Sink) (w : World) (o : Outcome (List Sink)) : Type 0 where
  pub same_sinks : o.object ≡ ss
  pub same_files : o.world.files ≡ w.files
  pub quiet : o.thrown ≡ none

-- What a call made of the one file sink among others.
pub record FileLogged (pre post : List Sink) (f : FileSink) (w : World) (added : Bytes)
    (o : Outcome (List Sink)) : Type 0 where
  pub after : FileSink
  pub sinks : o.object ≡ pre ++ file_sink after ∷ post
  pub same_path : after.path ≡ f.path
  pub still_open : after.stream.is_open ≡ true
  pub text : handed_over f.path (after.stream, o.world) ≡ handed_over f.path (f.stream, w) ++ added
  pub quiet : o.thrown ≡ none

module _ {Tm : Type 0} (os : Platform Tm) (buffer : Bytes) where
  then_all-quiet :
      (o : Outcome Sink) (ss : List Sink)
      → o.thrown ≡ none
      → let rest = write_all os ss buffer o.world in
        then_all os buffer o ss
        ≡ record { object = o.object ∷ rest.object; world = rest.world; thrown = rest.thrown }
  then_all-quiet o ss e = rw e refl

  -- The loop of `SinkManager::write` behind a sink that throws nothing.
  pub write_all-cons :
      (s : Sink) (ss : List Sink) (w : World)
      → (write os s buffer w).thrown ≡ none
      → let o = write os s buffer w in
        let rest = write_all os ss buffer o.world in
        write_all os (s ∷ ss) buffer w
        ≡ record { object = o.object ∷ rest.object; world = rest.world; thrown = rest.thrown }
  unfolding write_all
  write_all-cons s ss w e = then_all-quiet (write os s buffer w) ss e

  write-IsFileless :
      (s : Sink) (w : World)
      → IsFileless s
      → ((write os s buffer w).object ≡ s)
        × ((write os s buffer w).world.files ≡ w.files)
        × ((write os s buffer w).thrown ≡ none)
  unfolding write console_write print
  write-IsFileless (console_sink c) w h = (refl, refl, refl)
  write-IsFileless (file_sink f) w h = absurd h
  write-IsFileless (rotating_sink r) w h = absurd h
  write-IsFileless null_sink w h = (refl, refl, refl)

  write_all-IsFileless :
      (ss : List Sink) (w : World) → All IsFileless ss → Harmless ss w (write_all os ss buffer w)
  write_all-IsFileless [] w h =
      unfold write_all in record { same_sinks = refl; same_files = refl; quiet = refl }
  write_all-IsFileless (s ∷ ss) w h =
      let (same, files, none_thrown) = write-IsFileless s w h.0 in
      let r = write_all-IsFileless ss (write os s buffer w).world h.1 in
      rw (write_all-cons s ss w none_thrown) (record {
        same_sinks = cc (same, r.same_sinks);
        same_files = r.same_files ∙ files;
        quiet = r.quiet;
      })

  pub write-file_sink :
      (f : FileSink) (w : World)
      → f.stream.is_open ≡ true
      → let o = write os (file_sink f) buffer w in
        let (s, w') = stream_write f.path f.stream buffer w in
        (o.object ≡ file_sink (record f { stream = s }))
        × (o.world ≡ w')
        × (o.thrown ≡ none)
        × (s.is_open ≡ true)
  unfolding write file_write stream_write
  write-file_sink f w e = rw e (refl, refl, refl, refl)

  -- A line reaches the one file among console and null sinks, and is appended there.
  pub write_all-FileLogged :
      (pre post : List Sink) (f : FileSink) (w : World)
      → All IsFileless pre
      → All IsFileless post
      → f.stream.is_open ≡ true
      → FileLogged pre post f w buffer (write_all os (pre ++ file_sink f ∷ post) buffer w)
  write_all-FileLogged [] post f w a b e =
      let (same, moved, none_thrown, open_still) = write-file_sink f w e in
      let o = write os (file_sink f) buffer w in
      let r = write_all-IsFileless post o.world b in
      rw (write_all-cons (file_sink f) post w none_thrown) (record {
        after = record f { stream = (stream_write f.path f.stream buffer w).0 };
        sinks = cc (same, r.same_sinks);
        same_path = refl;
        still_open = open_still;
        text =
            ap (λ g. or_else (g f.path) [] ++ (stream_write f.path f.stream buffer w).0.pending)
              (r.same_files ∙ ap (λ v. v.files) moved)
            ∙ handed_over-stream_write f.path f.stream buffer w e;
        quiet = r.quiet;
      })
  write_all-FileLogged (s ∷ pre) post f w a b e =
      let (same, files, none_thrown) = write-IsFileless s w a.0 in
      let o = write os s buffer w in
      let r = write_all-FileLogged pre post f o.world a.1 b e in
      rw (write_all-cons s (pre ++ file_sink f ∷ post) w none_thrown) (record {
        after = r.after;
        sinks = cc (same, r.sinks);
        same_path = r.same_path;
        still_open = r.still_open;
        text = r.text ∙ ap (λ g. (or_else (g f.path) [] ++ f.stream.pending) ++ buffer) files;
        quiet = r.quiet;
      })

flush-IsFileless :
    (s : Sink) (w : World)
    → IsFileless s
    → ((flush s w).object ≡ s) × ((flush s w).world.files ≡ w.files)
unfolding flush console_flush print_flush
flush-IsFileless (console_sink c) w h = (refl, refl)
flush-IsFileless (file_sink f) w h = absurd h
flush-IsFileless (rotating_sink r) w h = absurd h
flush-IsFileless null_sink w h = (refl, refl)

flush_all-cons :
    (s : Sink) (ss : List Sink) (w : World)
    → flush_all (s ∷ ss) w ≡ (
      (flush s w).object ∷ (flush_all ss (flush s w).world).0,
      (flush_all ss (flush s w).world).1,
    )
unfolding flush_all
flush_all-cons s ss w = refl

flush_all-IsFileless :
    (ss : List Sink) (w : World)
    → All IsFileless ss
    → ((flush_all ss w).0 ≡ ss) × ((flush_all ss w).1.files ≡ w.files)
flush_all-IsFileless [] w h = unfold flush_all in (refl, refl)
flush_all-IsFileless (s ∷ ss) w h =
    let (same, files) = flush-IsFileless s w h.0 in
    let (sames, files') = flush_all-IsFileless ss (flush s w).world h.1 in
    rw (flush_all-cons s ss w) (cc (same, sames), files' ∙ files)

-- What a flush made of the one file sink among others.
pub record FileFlushed (pre post : List Sink) (f : FileSink) (w : World) (o : List Sink × World)
    : Type 0 where
  pub after : FileSink
  pub sinks : o.0 ≡ pre ++ file_sink after ∷ post
  pub same_path : after.path ≡ f.path
  pub still_open : after.stream.is_open ≡ true
  pub nothing_waits : after.stream.pending ≡ []
  pub text : content f.path o.1 ≡ handed_over f.path (f.stream, w)

pub flush-file_sink :
    (f : FileSink) (w : World)
    → f.stream.is_open ≡ true
    → let o = flush (file_sink f) w in
      let (s, w') = stream_flush f.path f.stream w in
      (o.object ≡ file_sink (record f { stream = s })) × (o.world ≡ w') × (s.is_open ≡ true)
unfolding flush file_flush stream_flush
flush-file_sink f w e = rw e (refl, refl, refl)

-- A flush hands all that waits over to the file.
pub flush_all-FileFlushed :
    (pre post : List Sink) (f : FileSink) (w : World)
    → All IsFileless pre
    → All IsFileless post
    → f.stream.is_open ≡ true
    → FileFlushed pre post f w (flush_all (pre ++ file_sink f ∷ post) w)
flush_all-FileFlushed [] post f w a b e =
    let (same, moved, open_still) = flush-file_sink f w e in
    let o = flush (file_sink f) w in
    let (sames, files) = flush_all-IsFileless post o.world b in
    let (written, empty) = handed_over-stream_flush f.path f.stream w e in
    rw (flush_all-cons (file_sink f) post w) (record {
      after = record f { stream = (stream_flush f.path f.stream w).0 };
      sinks = cc (same, sames);
      same_path = refl;
      still_open = open_still;
      nothing_waits = empty;
      text = ap (λ g. or_else (g f.path) []) (files ∙ ap (λ v. v.files) moved) ∙ written;
    })
flush_all-FileFlushed (s ∷ pre) post f w a b e =
    let (same, files) = flush-IsFileless s w a.0 in
    let o = flush s w in
    let r = flush_all-FileFlushed pre post f o.world a.1 b e in
    rw (flush_all-cons s (pre ++ file_sink f ∷ post) w) (record {
      after = r.after;
      sinks = cc (same, r.sinks);
      same_path = r.same_path;
      still_open = r.still_open;
      nothing_waits = r.nothing_waits;
      text = r.text ∙ ap (λ g. or_else (g f.path) [] ++ f.stream.pending) files;
    })
