-- ===== src/Threads/Disk.antt =====
-- What is on disk once a thread has flushed the sink of a log file.
use logparse.Base.{
  ℕ, ◌≡◌, refl, ap, ◌∙◌, sym, subst, true, List, [], ◌++◌, Bytes, take, append-nil, append_assoc,
  or_else, equal_iff,
}
use logparse.Platform.{Platform}
use logparse.Sink.{Sink, Outcome, file_sink, write, flush}
use logparse.Sink.Apart.{LeftAlone, write-LeftAlone, flush-LeftAlone}
use logparse.Sink.Disk.{
  World, Stream, content, stream_write, stream_flush, handed_over, handed_over-stream_flush,
}
use logparse.Sink.Files.{write-file_sink, flush-file_sink}
use logparse.Threads.{Machine, Step, flush_sink, Run, start, then_step, Event, flushed}
use logparse.Threads.Events.{gather, enters, texts}
use logparse.Sink.Keeper.{Keeper}
use logparse.Threads.Keeper.{Run-Holds}
use logparse.Sink.Whole.{Whole, itself, file_keeper}

-- A file that starts with the bytes.
pub record StartsWith (p : Bytes) (saved : Bytes) (w : World) : Type 0 where
  pub rest : Bytes
  pub text : content p w ≡ saved ++ rest

later :
    {p saved : Bytes} (w w' : World) (more : Bytes)
    → content p w' ≡ content p w ++ more
    → StartsWith p saved w
    → StartsWith p saved w'
later {saved} w w' more e h = record {
  rest = h.rest ++ more;
  text = e ∙ ap (λ x. x ++ more) h.text ∙ append_assoc saved h.rest more;
}

alone-StartsWith :
    {p saved : Bytes} (w : World) (o : Outcome Sink)
    → LeftAlone p w o
    → StartsWith p saved w
    → StartsWith p saved o.world
alone-StartsWith w o alone h = record {
  rest = h.rest;
  text = ap (λ x. or_else x []) alone.same_file ∙ h.text;
}

content-stream_write :
    (p : Bytes) (s : Stream) (buffer : Bytes) (w : World)
    → s.is_open ≡ true
    → content p (stream_write p s buffer w).1
      ≡ content p w ++ take (w.spill s.pending buffer) (s.pending ++ buffer)
unfolding stream_write
content-stream_write p s buffer w e = rw (e, (equal_iff p p).1 refl) refl

content-stream_flush :
    (p : Bytes) (s : Stream) (w : World)
    → s.is_open ≡ true
    → content p (stream_flush p s w).1 ≡ content p w ++ s.pending
unfolding stream_flush
content-stream_flush p s w e = rw (e, (equal_iff p p).1 refl) refl

-- The file of the sink at an index starts with the bytes.
abbrev OnDisk : ℕ → Bytes → Bytes → Bytes → List Sink → World → Type 0
OnDisk k p saved b sinks w = Whole k p b sinks w × StartsWith p saved w

module _ {Tm : Type 0} (os : Platform Tm) (k : ℕ) (p saved : Bytes) where
  own_write :
      (b line : Bytes) (sinks : List Sink) (w : World)
      → (h : Whole k p b sinks w) → StartsWith p saved w
      → StartsWith p saved (write os (file_sink h.file) line w).world
  own_write b line sinks w h on =
      let f = h.file in
      let (object, world, quiet, opened) = write-file_sink os line f w h.is_open in
      later w (write os (file_sink f) line w).world
        (take (w.spill f.stream.pending line) (f.stream.pending ++ line))
        (ap (content p) world
          ∙ subst
              (λ q.
                content q (stream_write f.path f.stream line w).1
                ≡ content q w ++ take (w.spill f.stream.pending line) (f.stream.pending ++ line))
              h.path (content-stream_write f.path f.stream line w h.is_open))
        on

  own_flush :
      (b : Bytes) (sinks : List Sink) (w : World)
      → (h : Whole k p b sinks w) → StartsWith p saved w
      → StartsWith p saved (flush (file_sink h.file) w).world
  own_flush b sinks w h on =
      let f = h.file in
      let (object, world, opened) = flush-file_sink f w h.is_open in
      later w (flush (file_sink f) w).world f.stream.pending
        (ap (content p) world
          ∙ subst
              (λ q. content q (stream_flush f.path f.stream w).1 ≡ content q w ++ f.stream.pending)
              h.path (content-stream_flush f.path f.stream w h.is_open))
        on

  disk_keeper : Keeper os k (OnDisk k p saved)
  disk_keeper =
      let whole = file_keeper os {k = k} {p = p} in
      record {
        there = λ b sinks w h. whole.there b sinks w h.0;
        own_write = λ b line sinks w s h at.
            let (quiet, still) = whole.own_write b line sinks w s h.0 at in
            (
              quiet,
              (
                still,
                subst (λ x. StartsWith p saved (write os x line w).world) (itself sinks w h.0 s at)
                    (own_write b line sinks w h.0 h.1),
              ),
            );
        own_flush = λ b sinks w s h at. (
          whole.own_flush b sinks w s h.0 at,
          subst (λ x. StartsWith p saved (flush x w).world) (itself sinks w h.0 s at)
              (own_flush b sinks w h.0 h.1),
        );
        other_write = λ b line sinks w j s h ne at. (
          whole.other_write b line sinks w j s h.0 ne at,
          alone-StartsWith w (write os s line w)
              (write-LeftAlone os p s line w (h.0.others j s ne at)) h.1,
        );
        other_flush = λ b sinks w j s h ne at. (
          whole.other_flush b sinks w j s h.0 ne at,
          alone-StartsWith w (flush s w) (flush-LeftAlone p s w (h.0.others j s ne at)) h.1,
        );
      }

module _ {Tm : Type 0} (os : Platform Tm) {k : ℕ} {p : Bytes} where
  -- What a flush of the sink leaves on disk.
  after_flush :
      {b : Bytes} {m : Machine} (t : ℕ) (o : Machine)
      → Step os m (flushed t k) o
      → Whole k p b m.sinks m.world
      → content p o.world ≡ b
  after_flush {b} {m} t o (flush_sink _ _ s a at) h =
      let f = h.file in
      let (object, world, opened) = flush-file_sink f m.world h.is_open in
      let (text, waits) = handed_over-stream_flush f.path f.stream m.world h.is_open in
      subst (λ x. content p (flush x m.world).world ≡ b) (itself m.sinks m.world h s at)
        (ap (content p) world
          ∙ subst
              (λ x.
                content x (stream_flush f.path f.stream m.world).1
                ≡ handed_over x (f.stream, m.world))
              h.path text
          ∙ h.text)

  -- A line that a log file took before a thread flushed its sink is on disk for good: the file starts
  -- with what was handed over before the run and the lines of the entries up to the flush, whatever
  -- any thread does later. No other sink works on the file.
  pub flushed_lines :
      {before : Bytes} {m n o q : Machine} {es later_es : List Event} (t : ℕ)
      → Run os m es n
      → Whole k p before m.sinks m.world
      → Step os n (flushed t k) o
      → Run os o later_es q
      → StartsWith p (before ++ texts (gather (enters k) es)) q.world
  flushed_lines {before} {m} {n} {o} {q} {es} t r h st r' =
      let so_far = before ++ texts (gather (enters k) es) in
      let whole = Run-Holds os k (Whole k p) (file_keeper os) r h in
      let still = Run-Holds os k (Whole k p) (file_keeper os) (then_step start st refl) whole in
      let now : StartsWith p so_far o.world = record {
        rest = [];
        text = after_flush t o st whole ∙ sym (append-nil so_far);
      } in
      (Run-Holds os k (OnDisk k p so_far) (disk_keeper os k p so_far) r' (still, now)).1
