-- ===== src/Sink/Whole.antt =====
-- A log file among sinks that work on other files.
use logparse.Base.{
  ℕ, ◌≡◌, ◌≢◌, ap, ◌∙◌, subst, true, none, some, List, [], ◌++◌, Bytes, get_elem?, set,
  get_elem?-set_ne, append-nil, or_else,
}
use logparse.Platform.{Platform}
use logparse.Sink.{Sink, FileSink, Outcome, file_sink, write, flush}
use logparse.Sink.Apart.{IsApart, LeftAlone, write-LeftAlone, flush-LeftAlone}
use logparse.Sink.Disk.{
  World, stream_write, stream_flush, content, handed_over, handed_over-stream_write,
  handed_over-stream_flush,
}
use logparse.Sink.Files.{write-file_sink, flush-file_sink}
use logparse.Sink.Keeper.{Keeper}
use logparse.Sink.Others.{
  OthersAre, OthersAre-set, OthersAre-set_own, get_elem?-set_there, in_range,
}

-- The sink at an index is an open file sink, no other sink works on its file, and so much was handed
-- over to it.
pub record Whole (k : ℕ) (p : Bytes) (so_far : Bytes) (sinks : List Sink) (w : World) : Type 0 where
  pub file : FileSink
  pub at : get_elem? sinks k ≡ some (file_sink file)
  pub path : file.path ≡ p
  pub is_open : file.stream.is_open ≡ true
  pub text : handed_over p (file.stream, w) ≡ so_far
  pub others : OthersAre (IsApart p) k sinks

module _ {k : ℕ} {p so_far : Bytes} (sinks : List Sink) (w : World)
    (h : Whole k p so_far sinks w) where
  -- A call of another sink.
  elsewhere :
      (j : ℕ) (s : Sink) (o : Outcome Sink)
      → j ≢ k
      → get_elem? sinks j ≡ some s
      → (IsApart p s → LeftAlone p w o)
      → Whole k p so_far (set sinks j o.object) o.world
  elsewhere j s o ne at leaves =
      let alone = leaves (h.others j s ne at) in
      record {
        file = h.file;
        at = get_elem?-set_ne sinks o.object ne ∙ h.at;
        path = h.path;
        is_open = h.is_open;
        text = ap (λ x. or_else x [] ++ h.file.stream.pending) alone.same_file ∙ h.text;
        others = OthersAre-set (IsApart p) k sinks o.object j at (λ n. alone.still_apart) h.others;
      }

  -- A call of the sink itself.
  here :
      (f : FileSink) (o : Outcome Sink) (now : Bytes)
      → o.object ≡ file_sink f
      → f.path ≡ p
      → f.stream.is_open ≡ true
      → handed_over p (f.stream, o.world) ≡ now
      → Whole k p now (set sinks k o.object) o.world
  here f o now object path opened text = record {
    file = f;
    at = get_elem?-set_there sinks k o.object h.at ∙ ap some object;
    path = path;
    is_open = opened;
    text = text;
    others = OthersAre-set_own (IsApart p) k sinks o.object h.at h.others;
  }

  pub itself : (s : Sink) → get_elem? sinks k ≡ some s → file_sink h.file ≡ s
  itself s at = cc (at, h.at)

  own_write :
      {Tm : Type 0} (os : Platform Tm) (line : Bytes)
      → let o = write os (file_sink h.file) line w in
        (o.thrown ≡ none) × Whole k p (so_far ++ line) (set sinks k o.object) o.world
  own_write os line =
      let f = h.file in
      let (object, world, quiet, opened) = write-file_sink os line f w h.is_open in
      let (s, w') = stream_write f.path f.stream line w in
      let text : handed_over f.path (s, w') ≡ handed_over f.path (f.stream, w) ++ line =
        handed_over-stream_write f.path f.stream line w h.is_open in
      (
        quiet,
        here (record f { stream = s }) (write os (file_sink f) line w) (so_far ++ line) object
            h.path opened
            (ap (λ x. handed_over p (s, x)) world
              ∙ subst (λ q. handed_over q (s, w') ≡ handed_over q (f.stream, w) ++ line) h.path text
              ∙ ap (λ x. x ++ line) h.text),
      )

  own_flush : let o = flush (file_sink h.file) w in Whole k p so_far (set sinks k o.object) o.world
  own_flush =
      let f = h.file in
      let (object, world, opened) = flush-file_sink f w h.is_open in
      let (s, w') = stream_flush f.path f.stream w in
      let (text, waits) = handed_over-stream_flush f.path f.stream w h.is_open in
      here (record f { stream = s }) (flush (file_sink f) w) so_far object h.path opened
        (ap (λ x. handed_over p (s, x)) world
          ∙ ap (λ x. content p w' ++ x) waits
          ∙ append-nil (content p w')
          ∙ subst (λ q. content q w' ≡ handed_over q (f.stream, w)) h.path text
          ∙ h.text)

module _ {Tm : Type 0} (os : Platform Tm) {k : ℕ} {p : Bytes} where
  pub file_keeper : Keeper os k (Whole k p)
  file_keeper = record {
    there = λ b sinks w h. in_range sinks k h.at;
    own_write = λ b line sinks w s h at.
        subst
          (λ x.
            let o = write os x line w in
            (o.thrown ≡ none) × Whole k p (b ++ line) (set sinks k o.object) o.world)
          (itself sinks w h s at) (own_write sinks w h os line);
    own_flush = λ b sinks w s h at.
        subst (λ x. let o = flush x w in Whole k p b (set sinks k o.object) o.world)
          (itself sinks w h s at) (own_flush sinks w h);
    other_write = λ b line sinks w j s h ne at.
        elsewhere sinks w h j s (write os s line w) ne at (write-LeftAlone os p s line w);
    other_flush =
        λ b sinks w j s h ne at. elsewhere sinks w h j s (flush s w) ne at (flush-LeftAlone p s w);
  }
